-- ===== src/Answers/Paging.antt =====
-- The numbered pages of crates/qa-svc/src/core/answer.rs and
-- crates/qa-svc/src/domain/entity/answer.rs.
use qa_sys.Votes.Handling.{reach_calm}
use qa_sys.World.{Db, World, sql_failed, AnyError}
use qa_sys.Domain.{AnswerEntity, LatestAnswerResponse}
use qa_sys.Prelude.Int.{eq_ℤ, pos, leb_ℤ, eq_ℤ_iff, i64_half, try_i64_small, pred_pos}
use qa_sys.Answers.{newer, find_latest, try_new, of_question}
use qa_sys.Prelude.{
  ℕ, ◌<◌, ◌/◌, ◌+◌, ◌≤◌, if◌then◌else◌, ◌↔◌, ◌*◌, ◌%◌, ◌==◌, arith, List, ◌||◌, ◌≡◌, leb, ok, sym,
  suc, ordered, take, drop, length, keep, [], ltb, true, ◌∙◌, ◌++◌, Result, zero, take-all, err,
  refl, ap, take-add,
}
use native.Mathlib.Decide.{dec_lt}
use native.Mathlib.Nat.{zero-mul, mul-le-mul_right, div-add-mod, mod-lt}

-- The number of pages, as `try_new` computes it.
abbrev pub pages : ℕ → ℕ → ℕ
pages t s = t / s + (if t % s == 0 then 0 else 1)

pub pages_bounds : (t s : ℕ) → 0 < s → (t ≤ pages t s * s) × (pages t s * s < t + s)
pages_bounds t s h = grind (arith, div-add-mod t s, mod-lt t h)

-- `p` full pages hold `t` rows exactly if `p` is not below the number of pages.
pub pages-le_iff : (t s p : ℕ) → 0 < s → (pages t s ≤ p) ↔ (t ≤ p * s)
pages-le_iff t s p h = (
  λ le. omega (arith, (pages_bounds t s h).0, mul-le-mul_right s le),
  λ le. elim (dec_lt p (pages t s)) [
    | yes more ↦ absurd (omega (arith, (pages_bounds t s h).1, mul-le-mul_right {m = suc p} s more))
    | no not_more ↦ omega arith
  ],
)

-- `is_end` of a page: the pages up to it hold all rows.
is_end-leb :
    (t s p : ℕ)
    → 0 < s
    → 0 < p
    → (eq_ℤ (pos (pages t s)) (pos 0) || leb_ℤ (pos (pages t s)) (pos p)) ≡ leb t (p * s)
is_end-leb t s p h k = ground (arith, pages-le_iff t s p h, eq_ℤ_iff (pos (pages t s)) (pos 0))

pub try_new-page :
    (answers : List AnswerEntity) (t s p : ℕ)
    → 0 < s
    → 0 < p
    → try_new answers (pos t) (pos s) (pos p)
      ≡ ok (record {
        answers = answers;
        total = pos t;
        total_page = pos (pages t s);
        page_size = pos s;
        current_page = pos p;
        is_end = leb t (p * s);
      })
unfolding try_new
try_new-page answers t s p h k = rw (sym (is_end-leb t s p h k)) (ground arith)

-- The answers of a question, newest first.
abbrev pub rows_of : ℕ → Db → List AnswerEntity
rows_of q d = ordered newer (keep (of_question (pos q)) d.answers)

-- The page of an index from 0.
abbrev pub page_at : List AnswerEntity → ℕ → ℕ → LatestAnswerResponse
page_at rows limit k = record {
  answers = take limit (drop (k * limit) rows);
  total = pos (length rows);
  total_page = pos (pages (length rows) limit);
  page_size = pos limit;
  current_page = pos (suc k);
  is_end = leb (length rows) (suc k * limit);
}

module _ {R : Type 0} where
  -- For a question id, a positive limit and a positive page number that are `i64` values, with an
  -- offset that is one, and with calls that go through, a page of answers is the slice of the
  -- question's answers, newest first, that the limit and the page number say; its total is the
  -- number of those answers, its page count the rounded-up quotient, and `is_end` says that the
  -- pages up to it hold them all.
  pub find_latest-page_at :
      (q limit k : ℕ) (w : World R)
      → q < i64_half
      → 0 < limit
      → limit < i64_half
      → suc k < i64_half
      → k * limit < i64_half
      → w.faults ≡ []
      → find_latest q limit (suc k) w ≡ (ok (page_at (rows_of q w.db) limit k), w)
  unfolding find_latest
  find_latest-page_at q limit k w hq h0 hl hk ho calm =
      let rows = rows_of q w.db in
      let page =
        try_new-page (take limit (drop (k * limit) rows)) (length rows) limit (suc k) h0
          (omega arith) in
      let positive : ltb 0 limit ≡ true = ground arith in
      let index : ltb k i64_half ≡ true = ground arith in
      let offset : ltb (k * limit) i64_half ≡ true = ground arith in
      let above : leb_ℤ (pos 0) (pos (k * limit)) ≡ true = ground arith in
      let calm_reach = reach_calm sql_failed w calm in
      rw positive (
        rw (try_i64_small q hq) (
          rw (try_i64_small limit hl) (
            rw (try_i64_small (suc k) hk) (
              rw (pred_pos k)
                (rw (index, offset) (rw calm_reach (rw calm_reach (rw above (rw page refl)))))))))

  abbrev pub answers_of : Result AnyError LatestAnswerResponse × World R → List AnswerEntity
  answers_of (ok page, w) = page.answers
  answers_of (err e, w) = []

  -- The answers that the first pages give, one page after the other.
  abbrev pub read_pages : ℕ → ℕ → World R → ℕ → List AnswerEntity
  read_pages q limit w zero = []
  read_pages q limit w (suc k) =
      read_pages q limit w k ++ answers_of (find_latest q limit (suc k) w)

  read_pages-take :
      (q limit k : ℕ) (w : World R)
      → q < i64_half
      → 0 < limit
      → limit < i64_half
      → k < i64_half
      → k * limit < i64_half
      → w.faults ≡ []
      → read_pages q limit w k ≡ take (k * limit) (rows_of q w.db)
  read_pages-take q limit zero w hq h0 hl hk ho calm =
      ap (λ n. take n (rows_of q w.db)) (sym (zero-mul limit))
  read_pages-take q limit (suc k) w hq h0 hl hk ho calm =
      let small : k * limit < i64_half = omega arith in
      rw (find_latest-page_at q limit k w hq h0 hl hk small calm) (
        rw (read_pages-take q limit k w hq h0 hl (omega arith) small calm) (
          sym (take-add (k * limit) limit (rows_of q w.db))
          ∙ ap (λ n. take n (rows_of q w.db)) (omega arith)))

  -- Reading the pages of answers from the first one to one that says `is_end` gives every answer
  -- of the question once, newest first, if the question id, the limit, the page number and its
  -- product with the limit are `i64` values, the limit is positive and the calls go through.
  pub read_pages-rows_of :
      (q limit k : ℕ) (w v : World R) (page : LatestAnswerResponse)
      → q < i64_half
      → 0 < limit
      → limit < i64_half
      → suc k < i64_half
      → suc k * limit < i64_half
      → w.faults ≡ []
      → find_latest q limit (suc k) w ≡ (ok page, v)
      → page.is_end ≡ true
      → read_pages q limit w (suc k) ≡ rows_of q w.db
  read_pages-rows_of q limit k w v page hq h0 hl hk ho calm e end =
      let same : ok (page_at (rows_of q w.db) limit k) ≡ ok page =
        ap (λ o. o.0) (sym (find_latest-page_at q limit k w hq h0 hl hk (omega arith) calm) ∙ e) in
      read_pages-take q limit (suc k) w hq h0 hl hk ho calm
      ∙ take-all (suc k * limit) (rows_of q w.db) (ground arith)
