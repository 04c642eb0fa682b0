-- ===== src/System/History.antt =====
-- Where votes come from: runs in which the consumer of crates/qa-svc/src/core/user_vote.rs is given the
-- messages of the topic, with the users that the gateway has authenticated so far.
use qa_sys.Prelude.Int.{ℤ, as_u64}
use qa_sys.Gateway.Router.{Framework, api_router}
use qa_sys.Prelude.{
  Result, List, String, ℕ, any, All, ◌≡◌, ok, Bool, ◌∷◌, Option, str_eq, Bool-cases, err, arith,
  true, inl, refl, All-add, subst, All-keep, sym, str_eq_iff, inr, ◌⊎◌, [], str_eq_refl, All-imply,
  ap,
}
use qa_sys.World.{World, Externals, Db, AnyError, in_varchar}
use qa_sys.Gateway.Auth.{authenticate}
use qa_sys.Gateway.Client.{qa_service}
use qa_sys.Votes.Consumer.{deliver}
use qa_sys.Domain.{UserVoteEntity, VoteMessage}
use qa_sys.Gateway.{Principal, GatewayError, Status, HttpRequest}
use qa_sys.Service.{Env}
use qa_sys.Questions
use qa_sys.System.Posts.{goes_by}
use qa_sys.System.Reach.{moment}
use qa_sys.System.Requests.{vote_on, HasTopic}
use qa_sys.System.Topic.{api_router-HasNews}
use qa_sys.System.Authorship.{api_router-IsAuthored}
use qa_sys.System.Untouched.{handler-Keeps}
use qa_sys.Votes.Keeps.{deliver-Keeps}
use qa_sys.Votes.Delivery.{handler_answer_agree-HasLogs}
use qa_sys.Votes.Handling.{Handled, ignored, voted, unvoted, handler_answer_agree-Handled}

abbrev pub IsAmong : String → List String → Type 0
IsAmong name us = any (str_eq name) us ≡ true

-- The users so far, after a request.
abbrev pub joined : Result GatewayError Principal → List String → List String
joined (ok p) us = p.username ∷ us
joined (err e) us = us

-- A message is the vote of one of these users.
abbrev pub IsVoteOf : {R : Type 0} → Externals R → List String → String → Type 0
IsVoteOf x us payload =
    (id : ℕ) × (name : String) × (action : String) × (payload
      ≡ x.vote_to_json (vote_on id name action))
    × IsAmong name us

-- One of these users writes rows under this name: the user's own, or what a column of names keeps.
abbrev pub IsKnown : String → List String → Type 0
IsKnown name us = any (λ u. goes_by u name) us ≡ true

abbrev pub Voters : List String → List UserVoteEntity → Type 0
Voters us = All (λ v. IsKnown v.created_by us)

-- The messages of the topic are votes of these users, and so are the vote records.
pub record IsAttributed {R : Type 0} (x : Externals R) (us : List String) (w : World R)
    : Type 0 where
  pub topic : All (IsVoteOf x us) w.published
  pub voters : Voters us w.db.votes

module _ {R : Type 0} (lib : Framework) (panicked : Status) (env : Env R) where
  -- A run from `start`, with the users of its requests before the users `us`.
  pub data History (us : List String) (start : World R) : List String → World R → Type 0 where
    began : History us start us start
    turned :
        {vs : List String} {v : World R} (faults : List (Option String))
        → History us start vs v
        → History us start vs (record v { faults = faults })
    requested :
        {vs : List String} {v : World R} (now : ℤ) (uuid : String) (timed_out : Bool)
        (request_id : String) (req : HttpRequest)
        → History us start vs v
        → History us start
            (joined
              (authenticate
                (qa_service panicked (moment env now uuid))
                timed_out
                request_id
                req
                v).0
              vs)
            (api_router lib
              (qa_service panicked (moment env now uuid))
              timed_out
              request_id
              req
              v).1
    delivered :
        {vs : List String} {v : World R} (target_type : String) (now : ℤ) (payload : String)
        → IsAmong payload v.published
        → History us start vs v
        → History us start vs (deliver env.externals target_type now payload v).1
    moved :
        {vs : List String} {v : World R} (fuel : ℕ) (target_type : String)
        → History us start vs v
        → History us start vs (Questions.handler env.externals fuel target_type v).1

IsAmong-joined :
    (name : String) (r : Result GatewayError Principal) (us : List String)
    → IsAmong name us
    → IsAmong name (joined r us)
IsAmong-joined name (ok p) us h = ground arith
IsAmong-joined name (err e) us h = h

IsKnown-joined :
    (name : String) (r : Result GatewayError Principal) (us : List String)
    → IsKnown name us
    → IsKnown name (joined r us)
IsKnown-joined name (ok p) us h = ground arith
IsKnown-joined name (err e) us h = h

-- The name that the column keeps of a user's.
kept_name : (by : String) (us : List String) → IsAmong by us → IsKnown (in_varchar 50 by) us
kept_name by [] h = cc
kept_name by (u ∷ us) h = elim (Bool-cases (str_eq by u)) [
  | inl same ↦ ground (
    arith,
    ap (in_varchar 50) ((str_eq_iff by u).0 same),
    str_eq_iff (in_varchar 50 by) (in_varchar 50 u),
  )
  | inr other ↦ ground (arith, kept_name by us)
]

at_member {ℓ} :
    (P : String → Type ℓ) (t : String) (ts : List String) → IsAmong t ts → All P ts → P t
at_member P t [] m ps = cc
at_member P t (s ∷ ts) m (p, ps) = elim (Bool-cases (str_eq t s)) [
  | inl same ↦ subst P (sym ((str_eq_iff t s).0 same)) p
  | inr other ↦ at_member P t ts (ground arith) ps
]

module _ {R : Type 0} (us : List String) where
  Handled-Voters :
      {now : ℤ} {id : ℕ} {by : String} {up down : Bool} {d : Db}
      {o : Result AnyError Bool × World R}
      → Handled now id by up down d o
      → IsAmong by us
      → Voters us d.votes
      → Voters us o.1.db.votes
  Handled-Voters (ignored _ _ same) h c = rw same c
  Handled-Voters (Handled.failed e n _ same) h c = rw same c
  Handled-Voters {by} {d} (voted _ _ _ new (same, found, fits)) h c =
      rw same (All-add _ _ d.votes (kept_name by us h) c)
  Handled-Voters {d} (unvoted _ _ _ _ (same, one, _)) h c = rw same (All-keep _ _ d.votes c)

module _ {R : Type 0} (lib : Framework) (panicked : Status) (env : Env R)
    (reads : (m m' : VoteMessage)
      → env.externals.vote_from_json (env.externals.vote_to_json m) ≡ ok m'
      → m'.created_by ≡ m.created_by) where
  delivered-IsAttributed :
      (us : List String) (target_type : String) (now : ℤ) (payload : String) (w : World R)
      → IsAmong payload w.published
      → IsAttributed env.externals us w
      → IsAttributed env.externals us (deliver env.externals target_type now payload w).1
  delivered-IsAttributed us target_type now payload w sent h =
      let (id, name, action, e, among) =
        at_member (IsVoteOf env.externals us) payload w.published sent h.topic in
      let (voters, topic) =
        deliver-Keeps env.externals (λ v. Voters us v.db.votes × (v.published ≡ w.published))
          (λ v a fs c. c) target_type now payload
          (λ m read v c. (
            Handled-Voters us
                (handler_answer_agree-Handled (env.externals.naive_local now) (as_u64 m.target_id)
                  m.created_by m.action v)
                (rw (reads (vote_on id name action) m (rw (← e) read)) among) c.0,
            (handler_answer_agree-HasLogs v.acked w.published (env.externals.naive_local now)
                (as_u64 m.target_id) m.created_by m.action v (refl, c.1)).1,
          ))
          w (h.voters, refl) in
      record { topic = rw topic h.topic; voters = voters }

  topic_wider :
      (r : Result GatewayError Principal) (us l : List String)
      → All (IsVoteOf env.externals us) l
      → All (IsVoteOf env.externals (joined r us)) l
  topic_wider r us l =
      All-imply
        (λ t (id, name, action, e, among). (id, name, action, e, IsAmong-joined name r us among)) l

  Voters-wider :
      (r : Result GatewayError Principal) (us : List String) (vs : List UserVoteEntity)
      → Voters us vs
      → Voters (joined r us) vs
  Voters-wider r us = All-imply (λ v among. IsKnown-joined v.created_by r us among)

  own : (p : Principal) (us : List String) → IsAmong p.username (p.username ∷ us)
  own p us = rw (str_eq_refl p.username)

  new_topic :
      (r : Result GatewayError Principal) (us l after : List String)
      → All (IsVoteOf env.externals us) l
      → (after ≡ l) ⊎ ((p : Principal) × (r ≡ ok p) × HasTopic env l p after)
      → All (IsVoteOf env.externals (joined r us)) after
  new_topic r us l after h (inl same) = rw same (topic_wider r us l h)
  new_topic r us l after h (inr (p, e, inl same)) = rw same (topic_wider r us l h)
  new_topic r us l after h (inr (p, e, inr (id, action, positive, _, act, more))) =
      rw more (All-add _ _ l (id, p.username, action, refl, rw e (own p us)) (topic_wider r us l h))

  -- In every run in which the consumer is given messages of the topic, which is any sequence of
  -- HTTP requests, deliveries of such messages and rounds of the read-count job, with any outcomes
  -- of the calls to the servers, every message of the topic names a user that the gateway has
  -- authenticated for an earlier request of the run, or one of the users before it; and every vote
  -- record names such a user too, by the full name or by what a column of 50 characters keeps of
  -- it when it cuts spaces. The conditions: messages and records at the start do so, and whatever
  -- is read back from a message that was written names the same user.
  pub History-IsAttributed :
      {us : List String} {v : World R} {vs : List String} {w : World R}
      → History lib panicked env us v vs w
      → IsAttributed env.externals us v
      → IsAttributed env.externals vs w
  History-IsAttributed began a = a
  History-IsAttributed (turned faults run) a =
      let h = History-IsAttributed run a in record { topic = h.topic; voters = h.voters }
  History-IsAttributed (History.requested {vs} {v} now uuid timed_out request_id req run) a =
      let h = History-IsAttributed run a in
      let at = moment env now uuid in
      let r = (authenticate (qa_service panicked at) timed_out request_id req v).0 in
      let (votes, _) = api_router-IsAuthored lib panicked at timed_out request_id req v "" in
      record {
        topic =
            new_topic r vs v.published _ h.topic
              (api_router-HasNews lib panicked at timed_out request_id req v);
        voters = rw votes (Voters-wider r vs v.db.votes h.voters);
      }
  History-IsAttributed (History.delivered {vs} {v} target_type now payload sent run) a =
      delivered-IsAttributed vs target_type now payload v sent (History-IsAttributed run a)
  History-IsAttributed (History.moved {vs} {v} fuel target_type run) a =
      let h = History-IsAttributed run a in
      let (topic, voters) =
        handler-Keeps (λ w. All (IsVoteOf env.externals vs) w.published × Voters vs w.db.votes)
          (record { faults = λ w fs c. c; redis = λ w r c. c; users = λ w us n c. c })
          (λ w id by c. c) env.externals fuel target_type v (h.topic, h.voters) in
      record { topic = topic; voters = voters }
