-- ===== src/Votes/Effects.antt =====
-- What the statements and the transactions of a vote do to the tables, on every outcome.
use qa_sys.Domain.{NaiveDateTime}
use qa_sys.Prelude.{
  modify_if, Result, String, Bool, ◌≡◌, ◌+◌, keep, ℕ, ok, count_if, ◌++◌, arith, not, err, ◌∷◌, [],
  some, ◌⊎◌, continue, inl, ap, inr, ◌>>=◌, refl, pure, subst, true,
}
use qa_sys.Votes.{
  vote_statements, has_id, vote_matches, more, fewer, cancel_statements, vote_answer,
  cancel_vote_answer,
}
use qa_sys.World.{
  in_varchar, fits_varchar, reach, Db, AnyError, World, roll_back, transaction, Repo,
  close_transaction, sql_failed,
}
use qa_sys.Prelude.Int.{ℤ, pos, try_i64-cases}

-- The tables after a vote has been recorded and counted.
abbrev pub with_vote : ℤ → String → NaiveDateTime → Db → Db
with_vote id by now d = record d {
  vote_seq = d.vote_seq + 1;
  votes =
      d.votes
      ++ record {
        id = pos d.vote_seq;
        target_id = id;
        target_type = "answer";
        created_by = in_varchar 50 by;
        created_at = now;
      }
        ∷ [];
  answers =
      modify_if (has_id id)
        (λ a. record a { agree_count = more a.agree_count; updated_at = some now }) d.answers;
}

-- The tables after a vote has been taken back.
abbrev pub without_vote : ℤ → String → NaiveDateTime → Db → Db
without_vote id by now d = record d {
  votes = keep (λ v. not (vote_matches id by "answer" v)) d.votes;
  answers =
      modify_if (has_id id)
        (λ a. record a { agree_count = fewer a.agree_count; updated_at = some now }) d.answers;
}

-- The answer of a call that has taken effect: `true`, or an error in place of a reply that is lost.
abbrev pub HasLanded : Result AnyError Bool → Type 0
HasLanded r = (r ≡ ok true) ⊎ ((e : AnyError) × (r ≡ err e))

-- How a transaction ends: with an error, and the rows as they were; or with the effect that the
-- body has on the tables.
pub data Ends {R : Type 0} (d : Db) (done : Db → Type 0) (o : Result AnyError Bool × World R)
    : Type 0 where
  undone : (e : AnyError) (n : ℕ) → o.0 ≡ err e → o.1.db ≡ record d { vote_seq = n } → Ends d done o
  kept : HasLanded o.0 → done o.1.db → Ends d done o

abbrev pub Voted : ℤ → String → NaiveDateTime → Db → Db → Type 0
Voted id by now d e =
    (e ≡ with_vote id by now d) × (count_if (has_id id) d.answers ≡ 1) × (fits_varchar 50 by ≡ true)

pub in_varchar-answer : in_varchar 50 "answer" ≡ "answer"
unfolding in_varchar
in_varchar-answer = refl

abbrev pub Unvoted : ℤ → String → NaiveDateTime → Db → Db → Type 0
Unvoted id by now d e =
    (e ≡ without_vote id by now d)
    × (count_if (vote_matches id by "answer") d.votes ≡ 1)
    × (count_if (has_id id) d.answers ≡ 1)

module _ {R : Type 0} where
  -- A call to a server changes the list of outcomes only.
  pub reach-db : (wrap : String → AnyError) (w : World R) → (reach wrap w).1.db ≡ w.db
  unfolding reach
  reach-db wrap w = ground arith

  vote_statements_ok :
      (id : ℤ) (by : String) (now : NaiveDateTime) (w w' : World R) (b : Bool)
      → vote_statements id by now w ≡ (ok b, w')
      → (b ≡ true) × Voted id by now w.db w'.db
  unfolding vote_statements reach
  vote_statements_ok id by now w w' b h = ground (arith, in_varchar-answer)

  vote_statements_turned :
      (id : ℤ) (by : String) (now : NaiveDateTime) (w : World R)
      → let after = (vote_statements id by now w).1.db in
        roll_back w.db after ≡ record w.db { vote_seq = after.vote_seq }
  unfolding vote_statements reach
  vote_statements_turned id by now w = ground arith

  cancel_statements_ok :
      (id : ℤ) (by : String) (now : NaiveDateTime) (w w' : World R) (b : Bool)
      → cancel_statements id by now w ≡ (ok b, w')
      → (b ≡ true) × Unvoted id by now w.db w'.db
  unfolding cancel_statements reach
  cancel_statements_ok id by now w w' b h = ground arith

  cancel_statements_turned :
      (id : ℤ) (by : String) (now : NaiveDateTime) (w : World R)
      → let after = (cancel_statements id by now w).1.db in
        roll_back w.db after ≡ record w.db { vote_seq = after.vote_seq }
  unfolding cancel_statements reach
  cancel_statements_turned id by now w = ground arith

  -- A call to a server ends with an error or goes through, and the tables stay.
  pub reach-cases :
      (wrap : String → AnyError) (w : World R)
      → ((v : World R) × (reach wrap w ≡ (ok tt, v)) × (v.db ≡ w.db))
        ⊎ ((e : AnyError) × (v : World R) × (reach wrap w ≡ (err e, v)) × (v.db ≡ w.db))
  reach-cases wrap w = go (reach wrap w) refl
    where
      go :
          (o : Result AnyError (Unit {0}) × World R)
          → reach wrap w ≡ o
          → ((v : World R) × (reach wrap w ≡ (ok tt, v)) × (v.db ≡ w.db))
            ⊎ ((e : AnyError) × (v : World R) × (reach wrap w ≡ (err e, v)) × (v.db ≡ w.db))
      go (ok tt, v) h = inl (v, h, rw (← ap (λ o. o.1.db) h) (reach-db wrap w))
      go (err e, v) h = inr (e, v, h, rw (← ap (λ o. o.1.db) h) (reach-db wrap w))

module _ {R : Type 0} (body : Repo R Bool) (done : Db → Db → Type 0)
    (good : (v v' : World R) (b : Bool) → body v ≡ (ok b, v') → (b ≡ true) × done v.db v'.db)
    (turned : (v : World R)
      → roll_back v.db (body v).1.db ≡ record v.db { vote_seq = (body v).1.db.vote_seq }) where
  -- The reply of `commit` may be lost.
  abbrev reported : Result AnyError Bool × World R → Result AnyError Bool × World R
  reported o = continue (λ a. reach sql_failed >>= λ _. pure a) o

  committed-Ends : (d : Db) (u : World R) → done d u.db → Ends d (done d) (reported (ok true, u))
  committed-Ends d u effect = elim (reach-cases sql_failed u) [
    | inl (t, e, same) ↦ rw e (kept (inl refl) (rw same effect))
    | inr (x, t, e, same) ↦ rw e (kept (inr (x, refl)) (rw same effect))
  ]

  -- `commit` itself may fail.
  commit-Ends :
      (v v' : World R) (b : Bool)
      → body v ≡ (ok b, v')
      → Ends v.db
          (done v.db)
          (reported (close_transaction v.db (continue (λ _. pure b) (reach sql_failed v'))))
  commit-Ends v v' b h = elim (reach-cases sql_failed v') [
    | inl (u, e, same) ↦
        rw (e, (good v v' b h).0) (committed-Ends v.db u (rw same (good v v' b h).1))
    | inr (x, u, e, same) ↦
        rw e (undone x v'.db.vote_seq refl (rw same (rw (ap (λ o. o.1.db) h) at (turned v))))
  ]

  closing-Ends :
      (v : World R) (o : Result AnyError Bool × World R)
      → body v ≡ o
      → Ends v.db
          (done v.db)
          (reported (close_transaction v.db (continue (λ a. reach sql_failed >>= λ _. pure a) o)))
  closing-Ends v (err e, v') h =
      undone e v'.db.vote_seq refl (rw (ap (λ o. o.1.db) h) at (turned v))
  closing-Ends v (ok b, v') h = commit-Ends v v' b h

  -- A transaction, given what its body does to the tables.
  transaction-Ends : (w : World R) → Ends w.db (done w.db) (transaction body w)
  unfolding transaction
  transaction-Ends w = elim (reach-cases sql_failed w) [
    | inl (v, e, same) ↦ rw e (
        subst
          (λ d. Ends d (done d) (
            reported
              (close_transaction v.db (continue (λ a. reach sql_failed >>= λ _. pure a) (body v)))))
          same (closing-Ends v (body v) refl))
    | inr (x, v, e, same) ↦ rw e (undone x w.db.vote_seq refl same)
  ]

module _ {R : Type 0} where
  pub vote_answer-Ends :
      (now : ℤ) (id : ℕ) (by : String) (w : World R)
      → Ends w.db (Voted (pos id) by now w.db) (vote_answer now id by w)
  unfolding vote_answer
  vote_answer-Ends now id by w = elim (try_i64-cases id) [
    | inl (_, small) ↦ rw small (
        transaction-Ends (vote_statements (pos id) by now) (Voted (pos id) by now)
          (vote_statements_ok (pos id) by now) (vote_statements_turned (pos id) by now) w)
    | inr (_, large) ↦ rw large (undone _ w.db.vote_seq refl refl)
  ]

  pub cancel_vote_answer-Ends :
      (now : ℤ) (id : ℕ) (by : String) (w : World R)
      → Ends w.db (Unvoted (pos id) by now w.db) (cancel_vote_answer now id by w)
  unfolding cancel_vote_answer
  cancel_vote_answer-Ends now id by w = elim (try_i64-cases id) [
    | inl (_, small) ↦ rw small (
        transaction-Ends (cancel_statements (pos id) by now) (Unvoted (pos id) by now)
          (cancel_statements_ok (pos id) by now) (cancel_statements_turned (pos id) by now) w)
    | inr (_, large) ↦ rw large (undone _ w.db.vote_seq refl refl)
  ]
