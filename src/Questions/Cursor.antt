-- ===== src/Questions/Cursor.antt =====
-- The cursor pages of crates/qa-svc/src/core/question.rs.
use qa_sys.Votes.Handling.{reach_calm}
use qa_sys.World.{World, Db, sql_failed}
use qa_sys.Prelude.{
  List, ordered, ◌∷◌, keep, All, ◌++◌, [], ◌≢◌, insert_ordered, arith, ◌≡◌, if◌then◌else◌, refl,
  true, Bool, ℕ, ap, ◌<◌, false, ok, take, ◌==◌, ◌∙◌, sym, subst,
}
use qa_sys.Domain.{QuestionEntity}
use qa_sys.Prelude.Int.{ℤ, ◌<ℤ◌, eq_of_parts, i64_half, pos, try_i64_small}
use qa_sys.Questions.{newer, older_than, page_of, find_latest, select_latest}

-- Ids that fall, as a primary key in descending order does.
abbrev pub IsDescending : List QuestionEntity → Type 0
IsDescending [] = Unit
IsDescending (q ∷ qs) = All (λ r. r.id <ℤ q.id) qs × IsDescending qs

-- Ids that differ, as those of a primary key do.
abbrev pub AreDistinct : List QuestionEntity → Type 0
AreDistinct [] = Unit
AreDistinct (q ∷ qs) = All (λ r. r.id ≢ q.id) qs × AreDistinct qs

module _ (P : QuestionEntity → Type 0) where
  insert-All :
      (x : QuestionEntity) (ys : List QuestionEntity)
      → P x
      → All P ys
      → All P (insert_ordered newer x ys)
  insert-All x [] p h = (p, tt)
  insert-All x (y ∷ ys) p (q, h) = ground (arith, p, q, h, insert-All x ys p h)

  ordered-All : (xs : List QuestionEntity) → All P xs → All P (ordered newer xs)
  ordered-All [] h = tt
  ordered-All (x ∷ xs) (p, h) = insert-All x (ordered newer xs) p (ordered-All xs h)

below_trans :
    (i j : ℤ) (ys : List QuestionEntity)
    → i <ℤ j
    → All (λ r. r.id <ℤ i) ys
    → All (λ r. r.id <ℤ j) ys
below_trans i j [] lt h = tt
below_trans i j (y ∷ ys) lt (p, h) = (omega arith, below_trans i j ys lt h)

-- Where a new row goes before the first row or behind it.
first-IsDescending :
    (x y : QuestionEntity) (ys : List QuestionEntity) (b : Bool)
    → newer x y ≡ b
    → y.id ≢ x.id
    → IsDescending (y ∷ ys)
    → IsDescending (insert_ordered newer x ys)
    → IsDescending (if b then x ∷ y ∷ ys else y ∷ insert_ordered newer x ys)
first-IsDescending x y ys true e ne (below, h) hx =
    let lt : y.id <ℤ x.id = ground arith in ((lt, below_trans y.id x.id ys lt below), (below, h))
first-IsDescending x y ys false e ne (below, h) hx =
    let lt : x.id <ℤ y.id = ground (arith, eq_of_parts y.id x.id, ne) in
    (insert-All (λ r. r.id <ℤ y.id) x ys lt below, hx)

insert-IsDescending :
    (x : QuestionEntity) (ys : List QuestionEntity)
    → All (λ r. r.id ≢ x.id) ys
    → IsDescending ys
    → IsDescending (insert_ordered newer x ys)
insert-IsDescending x [] ne h = (tt, tt)
insert-IsDescending x (y ∷ ys) (ne, nes) (below, h) =
    first-IsDescending x y ys (newer x y) refl ne (below, h) (insert-IsDescending x ys nes h)

ordered-IsDescending : (xs : List QuestionEntity) → AreDistinct xs → IsDescending (ordered newer xs)
ordered-IsDescending [] h = tt
ordered-IsDescending (x ∷ xs) (ne, h) =
    insert-IsDescending x (ordered newer xs) (ordered-All (λ r. r.id ≢ x.id) xs ne)
      (ordered-IsDescending xs h)

module _ (i : ℤ) where
  keep-insert :
      (x : QuestionEntity) (ys : List QuestionEntity)
      → keep (older_than i) (insert_ordered newer x ys) ≡ (
          if older_than i x
          then insert_ordered newer x (keep (older_than i) ys)
          else keep (older_than i) ys)
  keep-insert x [] = refl
  keep-insert x (y ∷ ys) = ground (arith, keep-insert x ys)

  -- Sorting what a cursor keeps is keeping it of what has been sorted.
  ordered-keep :
      (xs : List QuestionEntity)
      → ordered newer (keep (older_than i) xs) ≡ keep (older_than i) (ordered newer xs)
  ordered-keep [] = refl
  ordered-keep (x ∷ xs) = ground (arith, ordered-keep xs, keep-insert x (ordered newer xs))

  keep-below : (xs : List QuestionEntity) → All (λ r. r.id <ℤ i) xs → keep (older_than i) xs ≡ xs
  keep-below [] h = refl
  keep-below (x ∷ xs) (p, h) = ground (arith, keep-below xs h)

member-below :
    (i : ℤ) (front : List QuestionEntity) (q : QuestionEntity) (rest : List QuestionEntity)
    → All (λ r. r.id <ℤ i) (front ++ q ∷ rest)
    → q.id <ℤ i
member-below i [] q rest (p, h) = p
member-below i (f ∷ front) q rest (p, h) = member-below i front q rest h

keep-rest :
    (front : List QuestionEntity) (q : QuestionEntity) (rest : List QuestionEntity)
    → IsDescending (front ++ q ∷ rest)
    → keep (older_than q.id) (front ++ q ∷ rest) ≡ rest
keep-rest [] q rest (p, h) = ground (arith, keep-below q.id rest p)
keep-rest (f ∷ front) q rest (p, h) =
    ground (arith, keep-rest front q rest h, member-below f.id front q rest p)

keep-true : (xs : List QuestionEntity) → keep (λ q. true) xs ≡ xs
keep-true [] = refl
keep-true (x ∷ xs) = ap (λ ys. x ∷ ys) (keep-true xs)

-- All questions, newest first.
abbrev pub newest : Db → List QuestionEntity
newest d = ordered newer d.questions

module _ {R : Type 0} (w : World R) (calm : w.faults ≡ []) (limit : ℕ)
    (small : limit < i64_half) where
  pub find_latest-first : find_latest 0 limit w ≡ (ok (page_of limit (take limit (newest w.db))), w)
  unfolding find_latest select_latest
  find_latest-first =
      rw (try_i64_small limit small)
        (rw (reach_calm sql_failed w calm) (rw (keep-true w.db.questions) refl))

  -- The page behind the cursor of a question is what follows that question when all are listed
  -- newest first, up to the limit, if the ids differ, the limit and the cursor are `i64` values,
  -- the cursor is positive and the calls go through.
  pub find_latest-next :
      (front : List QuestionEntity) (q : QuestionEntity) (rest : List QuestionEntity) (c : ℕ)
      → AreDistinct w.db.questions
      → newest w.db ≡ front ++ q ∷ rest
      → q.id ≡ pos c
      → 0 < c
      → c < i64_half
      → find_latest c limit w ≡ (ok (page_of limit (take limit rest)), w)
  unfolding find_latest select_latest
  find_latest-next front q rest c distinct cut same positive fits =
      let later : (c == 0) ≡ false = ground arith in
      let behind : ordered newer (keep (older_than (pos c)) w.db.questions) ≡ rest =
        ordered-keep (pos c) w.db.questions
        ∙ ap (keep (older_than (pos c))) cut
        ∙ ap (λ i. keep (older_than i) (front ++ q ∷ rest)) (sym same)
        ∙ keep-rest front q rest
            (subst IsDescending cut (ordered-IsDescending w.db.questions distinct)) in
      rw (try_i64_small limit small)
        (rw later (rw (try_i64_small c fits) (rw (reach_calm sql_failed w calm) (rw behind refl))))
