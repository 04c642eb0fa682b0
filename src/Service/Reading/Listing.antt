-- ===== src/Service/Reading/Listing.antt =====
-- What answer_list of crates/qa-svc/src/application/app.rs replies.
use native.Mathlib.Decide.{dec_lt}
use native.Mathlib.Nat.{mul-le-mul_left}
use qa_sys.Service.{Env}
use qa_sys.Prelude.Int.{
  as_i64, as_u64, ℤ, u64_mod, pos, i64_half, negsuc, eq_ℤ, eq_ℤ_iff, as_u64_small,
}
use qa_sys.Pb.{AnswerListResponse}
use qa_sys.Domain.{AnswerEntity}
use qa_sys.World.{World}
use qa_sys.Answers.Paging.{pages, pages-le_iff, rows_of, find_latest-page_at}
use qa_sys.Votes.{is_some, vote_matches}
use qa_sys.Votes.Batch.{has, listed, is_batch_voted-calm}
use qa_sys.Service.Reading.{no_answers, to_pb_answer, in_votes, answer_list}
use qa_sys.Prelude.{
  ℕ, String, List, Bool, All, ◌≡◌, ◌==◌, ◌*◌, true, map, take, drop, length, leb, find?,
  if◌then◌else◌, [], ◌∷◌, suc, arith, refl, ==_iff, keep, ◌<◌, ◌≤◌, any, ok, false,
}

abbrev ids_of : List AnswerEntity → List ℕ
ids_of = map (λ a. as_u64 a.id)

-- A record of this user's vote for the answer, whose id is taken as the statement takes it.
abbrev pub has_vote : {R : Type 0} → World R → String → AnswerEntity → Bool
has_vote w username a =
    is_some (find? (vote_matches (as_i64 (as_u64 a.id)) username "answer") w.db.votes)

-- The reply with the page of an index from 0 of these answers.
abbrev pub page_reply : List AnswerEntity → (AnswerEntity → Bool) → ℕ → ℕ → AnswerListResponse
page_reply rows voted limit k = if length rows == 0 then no_answers else record {
  answers = map (to_pb_answer voted) (take limit (drop (k * limit) rows));
  total = length rows;
  total_page = pages (length rows) limit;
  page_size = limit;
  current_page = suc k;
  is_end = leb (length rows) (suc k * limit);
}

weaker :
    {P Q : AnswerEntity → Type 0} (xs : List AnswerEntity)
    → ((a : AnswerEntity) → P a → Q a)
    → All P xs
    → All Q xs
weaker [] h all = tt
weaker (a ∷ xs) h all = (h a all.0, weaker xs h all.1)

IsAsked : List AnswerEntity → AnswerEntity → Type 0
IsAsked xs a = has (as_u64 a.id) (ids_of xs) ≡ true

own : (xs : List AnswerEntity) → All (IsAsked xs) xs
unfolding IsAsked
own [] = tt
own (a ∷ xs) = (
  ground (arith, ==_iff (as_u64 a.id) (as_u64 a.id)),
  weaker {P = IsAsked xs} {Q = IsAsked (a ∷ xs)} xs (λ b h. ground arith) (own xs),
)

map_same :
    {B : Type 0} (f g : AnswerEntity → B) (xs : List AnswerEntity)
    → All (λ a. f a ≡ g a) xs
    → map f xs ≡ map g xs
map_same f g [] h = refl
map_same f g (a ∷ xs) h = rw (h.0, map_same f g xs h.1) refl

as_u64-lt : (z : ℤ) → as_u64 z < u64_mod
unfolding as_u64
as_u64-lt (pos n) = omega arith
as_u64-lt (negsuc n) = omega arith

ids_small : (xs : List AnswerEntity) → All (λ n. n < u64_mod) (ids_of xs)
ids_small [] = tt
ids_small (a ∷ xs) = (as_u64-lt a.id, ids_small xs)

-- The ids that is_batch_voted finds for these answers.
abbrev found : {R : Type 0} → World R → String → List AnswerEntity → List ℕ
found w username xs =
    map (λ v. as_u64 v.target_id)
      (keep (λ v. any (λ n. vote_matches (as_i64 n) username "answer" v) (ids_of xs)) w.db.votes)

flag_same :
    {R : Type 0} (w : World R) (username : String) (xs : List AnswerEntity) (a : AnswerEntity)
    → IsAsked xs a
    → to_pb_answer (in_votes (found w username xs)) a ≡ to_pb_answer (has_vote w username) a
unfolding IsAsked
flag_same w username xs a asked =
    let said =
      listed username "answer" (as_u64 a.id) (as_u64-lt a.id) (ids_of xs) w.db.votes
        (ids_small xs) in
    let flag : in_votes (found w username xs) a ≡ has_vote w username a = ground (arith, said) in
    rw flag refl

flags_same :
    {R : Type 0} (w : World R) (username : String) (xs : List AnswerEntity)
    → map (to_pb_answer (in_votes (found w username xs))) xs
      ≡ map (to_pb_answer (has_vote w username)) xs
flags_same w username xs = map_same _ _ xs (weaker xs (flag_same w username xs) (own xs))

pages-le : (t s : ℕ) → 0 < s → pages t s ≤ t
pages-le t s h = (pages-le_iff t s t h).1 (omega (arith, mul-le-mul_left t h))

module _ {R : Type 0} where
  -- For a question id, a positive limit and a positive page number that are `i64` values, with an
  -- offset that is one and fewer than 2^63 answers of the question, and with calls that go
  -- through, the service lists the slice of the question's answers, newest first, that the limit
  -- and the page number say, each with a flag that tells whether a vote record of the asking user
  -- for the `i64` of its id is there; the total is the number of those answers, the page count the
  -- rounded-up quotient, and `is_end` says that the pages up to it hold them all; a question
  -- without answers has the empty reply. Nothing changes.
  pub answer_list-page_reply :
      (env : Env R) (q limit k : ℕ) (username : String) (w : World R)
      → q < i64_half
      → 0 < limit
      → limit < i64_half
      → suc k < i64_half
      → k * limit < i64_half
      → length (rows_of q w.db) < i64_half
      → w.faults ≡ []
      → answer_list env
          (record { question_id = q; limit = limit; page = suc k; username = username })
          w
        ≡ (ok (page_reply (rows_of q w.db) (has_vote w username) limit k), w)
  unfolding answer_list
  answer_list-page_reply env q limit k username w hq h0 hl hk ho hr calm =
      let rows = rows_of q w.db in
      let xs = take limit (drop (k * limit) rows) in
      let few : pages (length rows) limit < i64_half =
        omega (arith, pages-le (length rows) limit h0) in
      let asked = is_batch_voted-calm username "answer" 0 (omega arith) (ids_of xs) w calm in
      rw (find_latest-page_at q limit k w hq h0 hl hk ho calm) (elim (dec_lt 0 (length rows)) [
        | yes more ↦
            let some_rows : eq_ℤ (pos (length rows)) (pos 0) ≡ false =
              ground (arith, eq_ℤ_iff (pos (length rows)) (pos 0)) in
            let counted : (length rows == 0) ≡ false = ground arith in
            rw (some_rows, counted)
              (rw asked (
                rw
                  (
                    flags_same w username xs,
                    as_u64_small (length rows) hr,
                    as_u64_small (pages (length rows) limit) few,
                    as_u64_small limit hl,
                    as_u64_small (suc k) hk,
                  )
                  refl))
        | no none ↦ let no_rows : length rows ≡ 0 = omega arith in rw no_rows refl
      ])
