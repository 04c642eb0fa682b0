-- ===== src/Votes/Handling.antt =====
-- `handler_answer_agree` of crates/qa-svc/src/core/user_vote.rs: what handling a vote message does
-- to the tables, on every outcome of the calls to the database.
use qa_sys.Domain.{UserVoteEntity}
use qa_sys.Votes.Effects.{
  reach-cases, Voted, Unvoted, vote_answer-Ends, cancel_vote_answer-Ends, undone, kept, HasLanded,
}
use qa_sys.Prelude.{
  ℕ, String, Bool, ◌≡◌, Result, find?, [], ok, err, false, arith, true, inl, none, ap, inr,
  continue, Option, subst, if◌then◌else◌, pure, str_eq, fail, refl, some, ◌<◌, ◌⊎◌,
}
use qa_sys.Prelude.Int.{ℤ, as_i64, pos, try_i64, try_i64-cases, as_i64_small, i64_half}
use qa_sys.Votes.{
  handler_answer_agree, is_voted, is_some, vote_matches, cancel_vote_answer, vote_answer,
}
use qa_sys.World.{World, reach, Db, AnyError, sql_failed, Repo, message}

-- Nothing is to be done: a vote that is there, or the withdrawal of one that is not.
abbrev pub NothingToDo : Bool → Bool → Bool → Type 0
NothingToDo up down found =
    ((up ≡ true) × (found ≡ true)) ⊎ ((up ≡ false) × (down ≡ true) × (found ≡ false))

module _ {R : Type 0} where
  pub reach_calm :
      {E : Type 0} (wrap : String → E) (w : World R) → w.faults ≡ [] → reach wrap w ≡ (ok tt, w)
  unfolding reach
  reach_calm wrap w calm = ground arith

  -- The answer of `is_voted`, or an error; the tables stay.
  pub data Asked (w : World R) (b : Bool) (o : Result AnyError Bool × World R) : Type 0 where
    refused : (e : AnyError) (v : World R) → o ≡ (err e, v) → v.db ≡ w.db → Asked w b o
    answered : (v : World R) → o ≡ (ok b, v) → v.db ≡ w.db → Asked w b o

  pub is_voted-Asked :
      (id : ℕ) (by kind : String) (w : World R)
      → Asked w
          (is_some (find? (vote_matches (as_i64 id) by kind) w.db.votes))
          (is_voted id by kind w)
  unfolding is_voted
  is_voted-Asked id by kind w = elim (reach-cases sql_failed w) [
    | inl (v, e, same) ↦
        answered v
          (rw e
            (ap (λ d. (ok (is_some (find? (vote_matches (as_i64 id) by kind) d.votes)), v)) same))
          same
    | inr (x, v, e, same) ↦ refused x v (rw e) same
  ]

  -- What the handling of a message leaves, where `up` and `down` say what its action is: the
  -- tables as they were, with the vote, or without it.
  pub data Handled (now : ℤ) (id : ℕ) (by : String) (up down : Bool) (d : Db)
      (o : Result AnyError Bool × World R) : Type 0 where
    ignored :
        NothingToDo up down (is_some (find? (vote_matches (as_i64 id) by "answer") d.votes))
        → o.0 ≡ ok false
        → o.1.db ≡ d
        → Handled now id by up down d o
    failed :
        (e : AnyError) (n : ℕ)
        → o.0 ≡ err e
        → o.1.db ≡ record d { vote_seq = n }
        → Handled now id by up down d o
    voted :
        up ≡ true
        → id < i64_half
        → HasLanded o.0
        → find? (vote_matches (pos id) by "answer") d.votes ≡ none
        → Voted (pos id) by now d o.1.db
        → Handled now id by up down d o
    unvoted :
        up ≡ false
        → down ≡ true
        → id < i64_half
        → HasLanded o.0
        → Unvoted (pos id) by now d o.1.db
        → Handled now id by up down d o

  vote_answer_large :
      (now : ℤ) (id : ℕ) (by : String) (v : World R)
      → try_i64 id ≡ none
      → vote_answer now id by v
        ≡ (err (message "answer vote target ID exceeds PostgreSQL bigint"), v)
  unfolding vote_answer
  vote_answer_large now id by v large = rw large

  cancel_vote_answer_large :
      (now : ℤ) (id : ℕ) (by : String) (v : World R)
      → try_i64 id ≡ none
      → cancel_vote_answer now id by v
        ≡ (err (message "answer vote target ID exceeds PostgreSQL bigint"), v)
  unfolding cancel_vote_answer
  cancel_vote_answer_large now id by v large = rw large

  vote-Handled :
      (now : ℤ) (id : ℕ) (by : String) (down : Bool) (v : World R)
      → find? (vote_matches (as_i64 id) by "answer") v.db.votes ≡ none
      → Handled now id by true down v.db (vote_answer now id by v)
  vote-Handled now id by down v new = elim (try_i64-cases id) [
    | inl (small, _) ↦ elim (vote_answer-Ends now id by v) [
      | undone e n h same ↦ failed e n h same
      | kept h done ↦
          voted refl small h
            (subst (λ i. find? (vote_matches i by "answer") v.db.votes ≡ none)
              (as_i64_small id small) new)
            done
    ]
    | inr (_, large) ↦
        failed _ v.db.vote_seq (ap (λ o. o.0) (vote_answer_large now id by v large))
          (ap (λ o. o.1.db) (vote_answer_large now id by v large))
  ]

  cancel-Handled :
      (now : ℤ) (id : ℕ) (by : String) (v : World R)
      → Handled now id by false true v.db (cancel_vote_answer now id by v)
  cancel-Handled now id by v = elim (try_i64-cases id) [
    | inl (small, _) ↦ elim (cancel_vote_answer-Ends now id by v) [
      | undone e n h same ↦ failed e n h same
      | kept h done ↦ unvoted refl refl small h done
    ]
    | inr (_, large) ↦
        failed _ v.db.vote_seq (ap (λ o. o.0) (cancel_vote_answer_large now id by v large))
          (ap (λ o. o.1.db) (cancel_vote_answer_large now id by v large))
  ]

  -- The two calls that an action leads to, once it is known whether the user has voted.
  abbrev on_action : ℤ → ℕ → String → String → Bool → Repo R Bool
  on_action now id by action has_voted =
      if str_eq action "up"
      then (if has_voted then pure false else vote_answer now id by)
      else if str_eq action "down"
      then (if has_voted then cancel_vote_answer now id by else pure false)
      else fail (message "unsupported answer vote action")

  on_action-Handled :
      (now : ℤ) (id : ℕ) (by : String) (v : World R) (found : Option UserVoteEntity)
      (up down : Bool)
      → find? (vote_matches (as_i64 id) by "answer") v.db.votes ≡ found
      → Handled now id by up down v.db (
          (if up
              then (if is_some found then pure false else vote_answer now id by)
              else if down
              then (if is_some found then cancel_vote_answer now id by else pure false)
              else fail (message "unsupported answer vote action"))
            v)
  on_action-Handled now id by v none true down e = vote-Handled now id by down v e
  on_action-Handled now id by v (some x) true down e = ignored (inl (refl, ap is_some e)) refl refl
  on_action-Handled now id by v (some x) false true e = cancel-Handled now id by v
  on_action-Handled now id by v none false true e =
      ignored (inr (refl, refl, ap is_some e)) refl refl
  on_action-Handled now id by v found false false e = failed _ v.db.vote_seq refl refl

  Asked-Handled :
      (now : ℤ) (id : ℕ) (by action : String) (w : World R) (o : Result AnyError Bool × World R)
      → Asked w (is_some (find? (vote_matches (as_i64 id) by "answer") w.db.votes)) o
      → Handled now id by
          (str_eq action "up")
          (str_eq action "down")
          w.db
          (continue (on_action now id by action) o)
  Asked-Handled now id by action w o (refused e v h same) = rw h (failed e w.db.vote_seq refl same)
  Asked-Handled now id by action w o (answered v h same) = rw h (
      subst
        (λ d. Handled now id by (str_eq action "up") (str_eq action "down") d (
          on_action now id by action
            (is_some (find? (vote_matches (as_i64 id) by "answer") d.votes)) v))
        same (on_action-Handled now id by v _ (str_eq action "up") (str_eq action "down") refl))

  pub handler_answer_agree-Handled :
      (now : ℤ) (id : ℕ) (by action : String) (w : World R)
      → Handled now id by
          (str_eq action "up")
          (str_eq action "down")
          w.db
          (handler_answer_agree now id by action w)
  unfolding handler_answer_agree
  handler_answer_agree-Handled now id by action w =
      Asked-Handled now id by action w _ (is_voted-Asked id by "answer" w)
