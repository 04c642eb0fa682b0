-- ===== src/Votes/Refinement.antt =====
-- The votes of crates/qa-svc/src/core/user_vote.rs as a set of pairs of an answer and a user, which
-- forgets the order and the ids of the records, and the message handler as an operation on such sets.
use qa_sys.Votes.Handling.{
  NothingToDo, Handled, handler_answer_agree-Handled, ignored, voted, unvoted,
}
use qa_sys.Votes.Effects.{with_vote, without_vote}
use qa_sys.Prelude.Int.{pos, eq_ℤ_iff, ℤ, i64_half, as_i64_small}
use qa_sys.Votes.{is_some, vote_matches, handler_answer_agree}
use qa_sys.Domain.{UserVoteEntity}
use qa_sys.Prelude.{
  ℕ, Result, String, Bool, List, ◌==◌, if◌then◌else◌, ◌&&◌, ◌≡◌, err, true, find?, str_eq, ◌++◌,
  false, keep, ◌∷◌, [], not, arith, ◌||◌, ==_iff, refl, str_eq_iff, ◌<◌, Bool-cases, inl, ◌∙◌, inr,
  sym, ◌⊎◌,
}
use qa_sys.World.{Db, AnyError, World, in_varchar, IsWhole}
use qa_sys.Votes.Redelivery.{has_voted, with_vote-has_voted, without_vote-has_voted}

-- Who has voted for what.
abbrev pub Ballot : Type 0
Ballot = ℕ → String → Bool

-- What a message asks of a ballot: "up" puts a pair in and any other action takes it out.
abbrev pub cast : ℕ → String → String → Ballot → Ballot
cast id by action b i user = if (i == id) && str_eq user by then str_eq action "up" else b i user

abbrev pub ballot : Db → Ballot
ballot d i user = has_voted i user d

-- Both ballots have the same pairs, for ids that are `bigint` values.
abbrev pub HasPairs : Ballot → Ballot → Type 0
HasPairs b b' = (i : ℕ) (user : String) → i < i64_half → b i user ≡ b' i user

-- What the handling of a message leaves: the ballot that the message asks for, or an error and the
-- ballot as it was.
abbrev pub IsCastOrKept :
    {R : Type 0} → ℕ → String → String → Db → Result AnyError Bool × World R → Type 0
IsCastOrKept id by action d o =
    HasPairs (ballot o.1.db) (cast id by action (ballot d))
    ⊎ (((e : AnyError) × (o.0 ≡ err e)) × HasPairs (ballot o.1.db) (ballot d))

module _ (p : UserVoteEntity → Bool) where
  find?-add :
      (n : UserVoteEntity) (vs : List UserVoteEntity)
      → is_some (find? p (vs ++ n ∷ [])) ≡ (is_some (find? p vs) || p n)
  find?-add n [] = ground arith
  find?-add n (v ∷ vs) = ground (arith, find?-add n vs)

  find?-kept :
      (q : UserVoteEntity → Bool) (vs : List UserVoteEntity)
      → ((v : UserVoteEntity) → p v ≡ true → q v ≡ false)
      → is_some (find? p (keep (λ v. not (q v)) vs)) ≡ is_some (find? p vs)
  find?-kept q [] apart = refl
  find?-kept q (v ∷ vs) apart = ground (arith, apart v, find?-kept q vs apart)

settled : (up down found : Bool) → NothingToDo up down found → found ≡ up
settled up down found h = ground arith

module _ (id i : ℕ) (by user : String) where
  -- Records of another pair.
  apart :
      ((i == id) && str_eq user by) ≡ false
      → (v : UserVoteEntity) → vote_matches (pos i) user "answer" v ≡ true
      → vote_matches (pos id) by "answer" v ≡ false
  apart other v h = ground (
    arith,
    ==_iff i id,
    str_eq_iff user by,
    eq_ℤ_iff v.target_id (pos i),
    eq_ℤ_iff v.target_id (pos id),
    str_eq_iff v.created_by user,
    str_eq_iff v.created_by by,
  )

  module _ (now : ℤ) (d : Db) (small : id < i64_half) (small' : i < i64_half) where
    cast_here :
        (action : String) (b : Ballot)
        → ((i == id) && str_eq user by) ≡ true
        → cast id by action b i user ≡ str_eq action "up"
    cast_here action b h = rw h refl

    cast_elsewhere :
        (action : String) (b : Ballot)
        → ((i == id) && str_eq user by) ≡ false
        → cast id by action b i user ≡ b i user
    cast_elsewhere action b h = rw h refl

    same_pair : ((i == id) && str_eq user by) ≡ true → (e : Db) → ballot e i user ≡ ballot e id by
    same_pair h e = ground (arith, ==_iff i id, str_eq_iff user by)

    -- A vote that is recorded.
    with_vote-ballot :
        (action : String)
        → str_eq action "up" ≡ true
        → in_varchar 50 by ≡ by
        → ballot (with_vote (pos id) by now d) i user ≡ cast id by action (ballot d) i user
    with_vote-ballot action up whole = elim (Bool-cases ((i == id) && str_eq user by)) [
      | inl same ↦
          same_pair same (with_vote (pos id) by now d)
          ∙ with_vote-has_voted now id by d small whole
          ∙ sym (cast_here action (ballot d) same ∙ up)
      | inr other ↦ rw (cast_elsewhere action (ballot d) other) (
          rw (as_i64_small i small') (
            rw (find?-add (vote_matches (pos i) user "answer") _ d.votes) (
              rw whole (
                ground (
                  arith,
                  ==_iff i id,
                  str_eq_iff user by,
                  str_eq_iff by user,
                  eq_ℤ_iff (pos id) (pos i),
                )))))
    ]

    -- A vote that is taken back.
    without_vote-ballot :
        (action : String)
        → str_eq action "up" ≡ false
        → ballot (without_vote (pos id) by now d) i user ≡ cast id by action (ballot d) i user
    without_vote-ballot action down = elim (Bool-cases ((i == id) && str_eq user by)) [
      | inl same ↦
          same_pair same (without_vote (pos id) by now d)
          ∙ without_vote-has_voted now id by d small
          ∙ sym (cast_here action (ballot d) same ∙ down)
      | inr other ↦ rw (cast_elsewhere action (ballot d) other) (
          rw (as_i64_small i small') (
            find?-kept (vote_matches (pos i) user "answer") (vote_matches (pos id) by "answer")
              d.votes (apart other)))
    ]

    -- Nothing to do, since the ballot is so already.
    ignored-ballot :
        (action : String)
        → NothingToDo (str_eq action "up") (str_eq action "down") (ballot d id by)
        → ballot d i user ≡ cast id by action (ballot d) i user
    ignored-ballot action done = elim (Bool-cases ((i == id) && str_eq user by)) [
      | inl same ↦
          same_pair same d
          ∙ settled (str_eq action "up") _ _ done
          ∙ sym (cast_here action (ballot d) same)
      | inr other ↦ sym (cast_elsewhere action (ballot d) other)
    ]

module _ {R : Type 0} (now : ℤ) (id : ℕ) (by : String) (d : Db) (small : id < i64_half)
    (whole : IsWhole 50 by) where
  Handled-IsCastOrKept :
      (action : String) (o : Result AnyError Bool × World R)
      → Handled now id by (str_eq action "up") (str_eq action "down") d o
      → IsCastOrKept id by action d o
  Handled-IsCastOrKept action o (ignored done e same) =
      inl λ i user small'. rw same (ignored-ballot id i by user now d small small' action done)
  Handled-IsCastOrKept action o (Handled.failed x n e same) =
      inr ((x, e), λ i user small'. rw same refl)
  Handled-IsCastOrKept action o (voted up _ e _ (same, _, fits)) = inl λ i user small'.
      rw same (with_vote-ballot id i by user now d small small' action up (whole fits))
  Handled-IsCastOrKept action o (unvoted up _ _ e (same, _, _)) =
      inl λ i user small'. rw same (without_vote-ballot id i by user now d small small' action up)

module _ {R : Type 0} where
  -- The handler of vote messages implements a change of a set of pairs of an answer and a user: it
  -- leaves the set in which the pair of its answer and user is there exactly if the action is "up"
  -- and every other pair is as before; or it ends in an error with the set as before. So after a
  -- message without error the set is the one asked for. The conditions: ids below 2^63, and a name
  -- from which the column cuts no spaces.
  pub handler_answer_agree-ballot :
      (now : ℤ) (id : ℕ) (by action : String) (w : World R)
      → id < i64_half
      → IsWhole 50 by
      → IsCastOrKept id by action w.db (handler_answer_agree now id by action w)
  handler_answer_agree-ballot now id by action w small whole =
      Handled-IsCastOrKept now id by w.db small whole action
        (handler_answer_agree now id by action w) (handler_answer_agree-Handled now id by action w)
