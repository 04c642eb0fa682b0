-- ===== src/Votes/Redelivery.antt =====
-- Vote messages that arrive twice, and votes that are taken back
-- (crates/qa-svc/src/core/user_vote.rs).
use qa_sys.Votes.Effects.{without_vote, with_vote}
use qa_sys.Votes.Handling.{
  NothingToDo, reach_calm, Handled, ignored, handler_answer_agree-Handled, voted, unvoted,
}
use qa_sys.World.{Db, World, AnyError, sql_failed, message, in_varchar, IsWhole}
use qa_sys.Votes.{
  is_voted, handler_answer_agree, is_some, vote_matches, vote_answer, cancel_vote_answer,
}
use qa_sys.Prelude.Int.{ℤ, i64_half, pos, as_i64, as_i64_small, eq_ℤ_iff}
use qa_sys.Prelude.{
  ℕ, Bool, String, List, Result, ◌<◌, ◌≡◌, ok, find?, [], if◌then◌else◌, true, keep, pure, ◌++◌,
  false, not, ◌∷◌, str_eq, arith, inl, refl, fail, str_eq_refl, inr,
}
use qa_sys.Domain.{UserVoteEntity}

module _ (p : UserVoteEntity → Bool) where
  find?-new :
      (n : UserVoteEntity) (vs : List UserVoteEntity)
      → p n ≡ true
      → is_some (find? p (vs ++ n ∷ [])) ≡ true
  find?-new n [] h = rw h
  find?-new n (v ∷ vs) h = ground (arith, find?-new n vs h)

  find?-removed : (vs : List UserVoteEntity) → is_some (find? p (keep (λ v. not (p v)) vs)) ≡ false
  find?-removed [] = refl
  find?-removed (v ∷ vs) = ground (arith, find?-removed vs)

-- The user has voted, or not.
abbrev pub has_voted : ℕ → String → Db → Bool
has_voted id by d = is_some (find? (vote_matches (as_i64 id) by "answer") d.votes)

pub with_vote-has_voted :
    (now : ℤ) (id : ℕ) (by : String) (d : Db)
    → id < i64_half
    → in_varchar 50 by ≡ by
    → has_voted id by (with_vote (pos id) by now d) ≡ true
with_vote-has_voted now id by d small whole = rw (as_i64_small id small) (
    find?-new (vote_matches (pos id) by "answer") _ d.votes
      (rw whole (ground (arith, str_eq_refl by, str_eq_refl "answer", eq_ℤ_iff (pos id) (pos id)))))

pub without_vote-has_voted :
    (now : ℤ) (id : ℕ) (by : String) (d : Db)
    → id < i64_half
    → has_voted id by (without_vote (pos id) by now d) ≡ false
without_vote-has_voted now id by d small =
    rw (as_i64_small id small) (find?-removed (vote_matches (pos id) by "answer") d.votes)

module _ {R : Type 0} where
  Handled-NothingToDo :
      {now : ℤ} {id : ℕ} {by : String} {up down : Bool} {d : Db}
      {o : Result AnyError Bool × World R} {b : Bool}
      → IsWhole 50 by
      → Handled now id by up down d o
      → o.0 ≡ ok b
      → NothingToDo up down (has_voted id by o.1.db)
  Handled-NothingToDo whole (ignored done _ same) e = rw same done
  Handled-NothingToDo whole (Handled.failed z n h _) e = cc
  Handled-NothingToDo {now} {id} {by} {d} whole (voted u small _ _ (same, _, fits)) e =
      inl (u, rw same (with_vote-has_voted now id by d small (whole fits)))
  Handled-NothingToDo {now} {id} {by} {d} whole (unvoted u dn small _ (same, _, _)) e =
      inr (u, dn, rw same (without_vote-has_voted now id by d small))

  pub is_voted_calm :
      (id : ℕ) (by : String) (v : World R)
      → v.faults ≡ []
      → is_voted id by "answer" v ≡ (ok (has_voted id by v.db), v)
  unfolding is_voted
  is_voted_calm id by v calm = rw (reach_calm sql_failed v calm)

  nothing_done :
      (later : ℤ) (id : ℕ) (by : String) (v : World R) (up down found : Bool)
      → NothingToDo up down found
      → (if up
            then (if found then pure false else vote_answer later id by)
            else if down
            then (if found then cancel_vote_answer later id by else pure false)
            else fail (message "unsupported answer vote action"))
          v
        ≡ (ok false, v)
  nothing_done later id by v up down found h = ground arith

  -- A vote message that has been handled without an error is ignored when it comes again: from the
  -- same tables, with calls that go through, the second handling answers `false` and changes
  -- nothing. The condition: the column cuts no spaces from the name.
  pub handler_answer_agree-redelivered :
      (now later : ℤ) (id : ℕ) (by action : String) (w v : World R) (b : Bool)
      → IsWhole 50 by
      → (handler_answer_agree now id by action w).0 ≡ ok b
      → v.db ≡ (handler_answer_agree now id by action w).1.db
      → v.faults ≡ []
      → handler_answer_agree later id by action v ≡ (ok false, v)
  unfolding handler_answer_agree
  handler_answer_agree-redelivered now later id by action w v b whole e same calm =
      rw (is_voted_calm id by v calm) (
        nothing_done later id by v (str_eq action "up") (str_eq action "down")
          (has_voted id by v.db)
          (rw same (Handled-NothingToDo whole (handler_answer_agree-Handled now id by action w) e)))
