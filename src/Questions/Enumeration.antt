-- ===== src/Questions/Enumeration.antt =====
-- Reading all questions page by page, as a client of crates/qa-svc/src/core/question.rs does.
use native.Mathlib.Decide.{dec_lt}
use qa_sys.Service.Reading.{id_or_zero}
use qa_sys.Prelude.Int.{pos, i64_half, as_u64, as_u64_small}
use qa_sys.World.{World, AnyError}
use qa_sys.Prelude.{
  ℕ, Result, List, All, ◌≡◌, ◌++◌, ◌∷◌, ◌<◌, [], ◌≤◌, last?, suc, ap, refl, length, some, ok, err,
  zero, take, if◌then◌else◌, arith, ltb, true, length-take, take-all, false, drop, ◌∙◌, sym,
  take-append-drop, subst, length-drop,
}
use qa_sys.Domain.{QuestionEntity, LatestQuestionResponse}
use qa_sys.Questions.{page_of, find_latest}
use qa_sys.Questions.Cursor.{newest, AreDistinct, find_latest-first, find_latest-next}

-- An id that can be a cursor.
abbrev pub IsCursor : QuestionEntity → Type 0
IsCursor q = (c : ℕ) × (q.id ≡ pos c) × (0 < c) × (c < i64_half)

-- The questions of a page, and what a client reads from its last id, unless the page is the end.
abbrev pub page_and :
    Result AnyError LatestQuestionResponse → (ℕ → List QuestionEntity) → List QuestionEntity
page_and (err e) next = []
page_and (ok page) next =
    if page.is_end
    then page.questions
    else page.questions ++ next (as_u64 (id_or_zero page.last_id))

-- At most `n` pages, from a cursor.
abbrev pub read_from : {R : Type 0} → ℕ → ℕ → ℕ → World R → List QuestionEntity
read_from zero cursor limit w = []
read_from (suc n) cursor limit w =
    page_and (find_latest cursor limit w).0 (λ next. read_from n next limit w)

last-split :
    (x : QuestionEntity) (xs : List QuestionEntity)
    → (front : List QuestionEntity) × (q : QuestionEntity) × (x ∷ xs ≡ front ++ q ∷ [])
      × (last? (x ∷ xs) ≡ some q)
last-split x [] = ([], x, refl, refl)
last-split x (y ∷ ys) =
    let (front, q, e, l) = last-split y ys in (x ∷ front, q, ap (λ zs. x ∷ zs) e, l)

full_page :
    (limit : ℕ) (rows : List QuestionEntity)
    → 0 < limit
    → limit ≤ length rows
    → (front : List QuestionEntity) × (q : QuestionEntity) × (take limit rows ≡ front ++ q ∷ [])
      × (last? (take limit rows) ≡ some q)
full_page zero rows h le = absurd (omega arith)
full_page (suc n) [] h le = absurd (omega arith)
full_page (suc n) (x ∷ xs) h le = last-split x (take n xs)

cut_behind :
    (front init : List QuestionEntity) (q : QuestionEntity) (rest : List QuestionEntity)
    → front ++ ((init ++ q ∷ []) ++ rest) ≡ (front ++ init) ++ q ∷ rest
cut_behind [] [] q rest = refl
cut_behind [] (i ∷ init) q rest = ap (λ xs. i ∷ xs) (cut_behind [] init q rest)
cut_behind (f ∷ front) init q rest = ap (λ xs. f ∷ xs) (cut_behind front init q rest)

snoc-append :
    (xs : List QuestionEntity) (q : QuestionEntity) (rest : List QuestionEntity)
    → xs ++ q ∷ rest ≡ (xs ++ q ∷ []) ++ rest
snoc-append [] q rest = refl
snoc-append (x ∷ xs) q rest = ap (λ ys. x ∷ ys) (snoc-append xs q rest)

All-at :
    (P : QuestionEntity → Type 0) (front : List QuestionEntity) (q : QuestionEntity)
    (rest : List QuestionEntity)
    → All P (front ++ q ∷ rest)
    → P q
All-at P [] q rest (p, h) = p
All-at P (f ∷ front) q rest (p, h) = All-at P front q rest h

module _ {R : Type 0} (w : World R) (calm : w.faults ≡ []) (limit : ℕ) (positive : 0 < limit)
    (small : limit < i64_half) (distinct : AreDistinct w.db.questions)
    (cursors : All IsCursor (newest w.db)) where
  read-page :
      (n c : ℕ) (front rows : List QuestionEntity)
      → newest w.db ≡ front ++ rows
      → find_latest c limit w ≡ (ok (page_of limit (take limit rows)), w)
      → length rows < n
      → read_from n c limit w ≡ rows
  read-page zero c front rows cut page le = absurd (omega arith)
  read-page (suc n) c front rows cut page le = elim (dec_lt (length rows) limit) [
    | yes short ↦
        let end : ltb (length (take limit rows)) limit ≡ true =
          ground (arith, length-take limit rows) in
        rw page (rw end (take-all limit rows (omega arith)))
    | no long ↦
        let full : ltb (length (take limit rows)) limit ≡ false =
          ground (arith, length-take limit rows) in
        let (init, q, split, last) = full_page limit rows positive (omega arith) in
        let cut' : newest w.db ≡ (front ++ init) ++ q ∷ drop limit rows =
          cut
          ∙ ap (λ xs. front ++ xs) (sym (take-append-drop limit rows))
          ∙ ap (λ xs. front ++ (xs ++ drop limit rows)) split
          ∙ cut_behind front init q (drop limit rows) in
        let (c', id, c_positive, c_small) =
          All-at IsCursor (front ++ init) q (drop limit rows) (subst (All IsCursor) cut' cursors) in
        let next =
          find_latest-next w calm limit small (front ++ init) q (drop limit rows) c' distinct cut'
            id c_positive c_small in
        let rest =
          read-page n c' ((front ++ init) ++ q ∷ []) (drop limit rows)
            (cut' ∙ snoc-append (front ++ init) q (drop limit rows)) next
            (omega (arith, length-drop limit rows)) in
        rw page (
          rw full (
            rw last (rw id (rw (as_u64_small c' c_small) (rw rest (take-append-drop limit rows))))))
  ]

  -- Reading questions page by page, from cursor 0 on and then from the last id of each page until
  -- one says `is_end`, gives all questions once, newest first, within any number of pages that is
  -- above the number of questions. The conditions: the limit is positive and an `i64`, the ids
  -- differ, each is positive and an `i64`, and the calls go through.
  pub read_from-newest : (n : ℕ) → length (newest w.db) < n → read_from n 0 limit w ≡ newest w.db
  read_from-newest n enough =
      read-page n 0 [] (newest w.db) refl (find_latest-first w calm limit small) enough
