-- ===== src/System/Ownership.antt =====
-- The posts of a user over the runs of System.History.
use qa_sys.Prelude.Int.{ℤ, as_u64}
use qa_sys.Gateway.Router.{Framework}
use qa_sys.Prelude.{
  String, ◌≡◌, Result, ℕ, List, any, Bool, ◌∙◌, false, refl, inl, ok, inr, arith, ap, [], err, true,
}
use qa_sys.World.{World, Db, AnyError}
use qa_sys.Service.{Env}
use qa_sys.Gateway.Auth.{authenticate}
use qa_sys.Gateway.Client.{qa_service}
use qa_sys.Gateway.{Principal, Status, GatewayError}
use qa_sys.System.History.{History, joined, began, turned}
use qa_sys.System.Posts.{questions_of, answers_of, posts_of-modify_if, goes_by}
use qa_sys.System.Authorship.{api_router-IsAuthored}
use qa_sys.System.Reach.{moment}
use qa_sys.System.Untouched.{handler-Keeps}
use qa_sys.Votes.Keeps.{deliver-Keeps}
use qa_sys.Votes.Handling.{Handled, ignored, voted, unvoted, handler_answer_agree-Handled}

-- The rows of this author are those of `d`.
abbrev HasPosts : String → Db → Db → Type 0
HasPosts name d e =
    (questions_of name e ≡ questions_of name d) × (answers_of name e ≡ answers_of name d)

module _ {R : Type 0} (name : String) (d₀ : Db) where
  Handled-HasPosts :
      {now : ℤ} {id : ℕ} {by : String} {up down : Bool} {d : Db}
      {o : Result AnyError Bool × World R}
      → Handled now id by up down d o
      → HasPosts name d₀ d
      → HasPosts name d₀ o.1.db
  Handled-HasPosts (ignored _ _ same) h = rw same h
  Handled-HasPosts (Handled.failed e n _ same) h = rw same h
  Handled-HasPosts {d} (voted _ _ _ new (same, found, fits)) h = rw same (
    h.0,
    posts_of-modify_if (λ r. r.id) (λ r. r.created_by) name _ _ d.answers (λ r. (refl, refl)) ∙ h.1,
  )
  Handled-HasPosts {d} (unvoted _ _ _ _ (same, one, _)) h = rw same (
    h.0,
    posts_of-modify_if (λ r. r.id) (λ r. r.created_by) name _ _ d.answers (λ r. (refl, refl)) ∙ h.1,
  )

-- A name that is not among the users after a request was not before, and is not the principal's.
apart :
    (name : String) (r : Result GatewayError Principal) (us : List String)
    → any (λ u. goes_by u name) (joined r us) ≡ false
    → (any (λ u. goes_by u name) us ≡ false)
      × ((p : Principal) → r ≡ ok p → goes_by p.username name ≡ true → ⊥)
apart name (ok p) us h = (
  ground arith,
  λ q e own. ground (
    arith,
    ap (λ (o : Result GatewayError Principal). any (λ u. goes_by u name) (joined o [])) e,
  ),
)
apart name (err e) us h = (h, λ q e'. cc)

module _ {R : Type 0} (lib : Framework) (panicked : Status) (env : Env R) (name : String) where
  -- In every such run, a name that is not that of a user for whom a request was authenticated,
  -- neither the full name nor what a column of 50 characters keeps of it when it cuts spaces,
  -- keeps its posts: the questions and answers of that author are at the end those of the start,
  -- by their ids and in their order, so that nobody else has removed one of them or added one in
  -- that name.
  pub History-HasPosts :
      {us : List String} {v : World R} {vs : List String} {w : World R}
      → History lib panicked env us v vs w
      → any (λ u. goes_by u name) vs ≡ false
      → HasPosts name v.db w.db
  History-HasPosts began absent = (refl, refl)
  History-HasPosts (turned faults run) absent = History-HasPosts run absent
  History-HasPosts {v = v₀} (History.requested {vs} {v} now uuid timed_out request_id req run)
        absent =
      let at = moment env now uuid in
      let r = (authenticate (qa_service panicked at) timed_out request_id req v).0 in
      let (before, other) = apart name r vs absent in
      let h = History-HasPosts run before in
      let (votes, posts) = api_router-IsAuthored lib panicked at timed_out request_id req v name in
      elim posts [
        | inl (asked, answered) ↦ (asked ∙ h.0, answered ∙ h.1)
        | inr (p, let_in, own) ↦ absurd (other p let_in own)
      ]
  History-HasPosts {v = v₀} (History.delivered {vs} {v} target_type now payload sent run) absent =
      deliver-Keeps env.externals (λ w. HasPosts name v₀.db w.db) (λ w a fs c. c) target_type now
        payload
        (λ m read w c.
          Handled-HasPosts name v₀.db
            (handler_answer_agree-Handled (env.externals.naive_local now) (as_u64 m.target_id)
              m.created_by m.action w)
            c)
        v (History-HasPosts run absent)
  History-HasPosts {v = v₀} (History.moved {vs} {v} fuel target_type run) absent =
      handler-Keeps (λ w. HasPosts name v₀.db w.db)
        (record { faults = λ w fs c. c; redis = λ w r c. c; users = λ w us n c. c })
        (λ w id by c. (
          posts_of-modify_if (λ q. q.id) (λ q. q.created_by) name _ _ w.db.questions
                (λ q. (refl, refl))
              ∙ c.0,
          c.1,
        ))
        env.externals fuel target_type v (History-HasPosts run absent)
