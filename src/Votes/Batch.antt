-- ===== src/Votes/Batch.antt =====
-- The votes of a user on many answers at once and on one (crates/qa-svc/src/core/user_vote.rs).
use qa_sys.Votes.Handling.{reach_calm}
use qa_sys.World.{World, sql_failed}
use qa_sys.Domain.{UserVoteEntity}
use qa_sys.Prelude.Int.{u64_mod, as_i64, as_u64, eq_ℤ_iff, as_u64-as_i64}
use qa_sys.Prelude.{
  ℕ, String, ◌<◌, List, Bool, any, All, ◌==◌, ◌≡◌, ◌&&◌, true, ◌∷◌, arith, [], ap, refl, ◌∙◌, map,
  ==_iff, ◌||◌, keep, ok, find?, false,
}
use qa_sys.Votes.{is_voted, is_batch_voted, vote_matches, is_some}

abbrev pub has : ℕ → List ℕ → Bool
has id ids = any (λ n. n == id) ids

keep_none : {A : Type 0} (xs : List A) → keep (λ _. false) xs ≡ []
keep_none [] = refl
keep_none (x ∷ xs) = keep_none xs

one_more :
    (m m' t e r r' : Bool)
    → (m ≡ true → t ≡ e)
    → (m' ≡ true → t ≡ true)
    → (e ≡ true → m ≡ m')
    → (r && t) ≡ (r' && m')
    → ((m || r) && t) ≡ ((e || r') && m')
one_more m m' t e r r' f g h rest = ground (arith, f, g, h)

-- The answers of one call and of the other.
abbrev pub Agree : {R : Type 0} → String → String → ℕ → List ℕ → World R → Type 0
Agree by kind id ids w =
    (found : List ℕ) × (one : Bool) × (is_batch_voted ids by kind w ≡ (ok found, w))
    × (is_voted id by kind w ≡ (ok one, w))
    × (has id found ≡ (has id ids && one))

module _ (by kind : String) (id : ℕ) (small : id < u64_mod) where
  here :
      (n : ℕ) (v : UserVoteEntity)
      → n < u64_mod
      → vote_matches (as_i64 n) by kind v ≡ true
      → (as_u64 v.target_id == id) ≡ (n == id)
  here n v h m = ap (λ k. k == id) (ap as_u64 (target_matched n v m) ∙ as_u64-as_i64 n h)
    where
      target_matched :
          (n : ℕ) (v : UserVoteEntity)
          → vote_matches (as_i64 n) by kind v ≡ true
          → v.target_id ≡ as_i64 n
      target_matched n v m = ground (arith, eq_ℤ_iff v.target_id (as_i64 n))

  -- A record that one of the ids asks for, and that is about this id.
  matched :
      (v : UserVoteEntity) (ids : List ℕ)
      → All (λ n. n < u64_mod) ids
      → (any (λ n. vote_matches (as_i64 n) by kind v) ids && (as_u64 v.target_id == id))
        ≡ (has id ids && vote_matches (as_i64 id) by kind v)
  matched v [] h = refl
  matched v (n ∷ ns) h =
      one_more _ _ _ _ _ _ (here n v h.0) (λ m. here id v small m ∙ (==_iff id id).1 refl)
        (λ e. ap (λ k. vote_matches (as_i64 k) by kind v) ((==_iff n id).0 e)) (matched v ns h.1)

  -- The same over all the records.
  pub listed :
      (ids : List ℕ) (vs : List UserVoteEntity)
      → All (λ n. n < u64_mod) ids
      → has id (
          map
            (λ v. as_u64 v.target_id)
            (keep (λ v. any (λ n. vote_matches (as_i64 n) by kind v) ids) vs))
        ≡ (has id ids && is_some (find? (vote_matches (as_i64 id) by kind) vs))
  listed ids [] h = ground arith
  listed ids (v ∷ vs) h = ground (arith, matched v ids h, listed ids vs h)

  module _ {R : Type 0} where
    pub is_batch_voted-calm :
        (ids : List ℕ) (w : World R)
        → w.faults ≡ []
        → is_batch_voted ids by kind w ≡ (
          ok (
              map
                (λ v. as_u64 v.target_id)
                (keep (λ v. any (λ n. vote_matches (as_i64 n) by kind v) ids) w.db.votes)),
          w,
        )
    unfolding is_batch_voted
    is_batch_voted-calm [] w calm = rw (keep_none w.db.votes) refl
    is_batch_voted-calm (n ∷ ns) w calm = rw (reach_calm sql_failed w calm) refl

    is_voted-calm :
        (w : World R)
        → w.faults ≡ []
        → is_voted id by kind w
          ≡ (ok (is_some (find? (vote_matches (as_i64 id) by kind) w.db.votes)), w)
    unfolding is_voted
    is_voted-calm w calm = rw (reach_calm sql_failed w calm) refl

    -- With calls that go through and ids that are `u64` values, asking for the votes of a user on
    -- many ids gives a list that has a certain id exactly if that id is among those asked for and
    -- asking for it alone says that the user has voted; both leave the world as it is.
    pub is_batch_voted-is_voted :
        (ids : List ℕ) (w : World R)
        → All (λ n. n < u64_mod) ids
        → w.faults ≡ []
        → Agree by kind id ids w
    is_batch_voted-is_voted ids w h calm =
        (_, _, is_batch_voted-calm ids w calm, is_voted-calm w calm, listed ids w.db.votes h)
