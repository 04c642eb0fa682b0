-- ===== src/Tests/Counts.antt =====
-- Runs of the job that moves read counts (crates/qa-svc/src/core/question.rs).
use qa_sys.Prelude.Int.{pos, ℤ, fits_i64}
use qa_sys.Prelude.{
  subst, Result, ℕ, String, arith, ◌≡◌, if◌then◌else◌, List, ok, refl, ◌==◌, ◌⊎◌, find?, err, ◌-◌,
  ◌<◌, suc, [], ap, zero, str_eq_refl, true, ◌∙◌,
}
use qa_sys.World.{Externals}
use qa_sys.Prelude.Int.{◌-ℤ◌, ◌+ℤ◌}
use qa_sys.Questions
use qa_sys.Questions.Scan.{IsNearer, IsOver, scan_loop-IsOver}
use qa_sys.Questions.Counting.{CounterLaws, Moved, update_read_count-Moved}
use qa_sys.Service.Reading.{question_detail}
use qa_sys.Service.Reading.Views.{Viewed, question_detail-Viewed}
use qa_sys.Tests.Worlds.{toy_env, toy, start, Store, same_counter, count_of}

-- A Redis that gives its hash in four pages.
abbrev paged : Externals Store
paged = record toy { redis_hscan = λ r key cursor. ok (if cursor == 0 then 3 else cursor - 1, []) }

abbrev left : ℕ → ℕ
left cursor = if cursor == 0 then 4 else cursor

next_left :
    (cursor : ℕ)
    → let next : ℕ = if cursor == 0 then 3 else cursor - 1 in (next ≡ 0) ⊎ (left next < left cursor)
next_left zero = ground arith
next_left (suc n) = ground arith

abbrev page_cursor : Result String (ℕ × List (String × ℤ)) → ℕ
page_cursor (ok (next, fields)) = next
page_cursor (err e) = 0

paged-IsNearer : IsNearer paged left
paged-IsNearer r key cursor next fields h =
    subst (λ n. (n ≡ 0) ⊎ (left n < left cursor)) (ap page_cursor h) (next_left cursor)

scan_loop-IsOver_example : IsOver (Questions.scan_loop paged 5 "question" 0 start).0
scan_loop-IsOver_example =
    scan_loop-IsOver paged left paged-IsNearer 5 "question" 0 start (omega arith)

abbrev hget : Store → String → String → ℤ
hget r key field = count_of (find? (same_counter key field) r.counters)

abbrev store_of : Store → Result String (ℤ × Store) → Store
store_of r (ok (n, r')) = r'
store_of r (err e) = r

abbrev reply_of : Result String (ℤ × Store) → ℤ
reply_of (ok (n, r)) = n
reply_of (err e) = pos 0

toy_counted :
    (r r' : Store) (key field : String) (by n : ℤ)
    → toy.redis_hincr r key field by ≡ ok (n, r')
    → hget r' key field ≡ hget r key field +ℤ by
toy_counted r r' key field by n h =
    subst (λ s. hget s key field ≡ hget r key field +ℤ by) (ap (store_of r) h)
      (rw (str_eq_refl key) (rw (str_eq_refl field) refl))

toy_counts : CounterLaws toy hget
toy_counts = record {
  counted = toy_counted;
  replied = λ r r' key field by n h. toy_counted r r' key field by n h ∙ ap reply_of h;
}

fits_back : fits_i64 (pos 0 -ℤ pos 3) ≡ true
unfolding ◌-ℤ◌
fits_back = refl

update_read_count-Moved_example :
    Moved hget "question"
      (pos 2)
      (pos 3)
      start
      (Questions.update_read_count toy "question" (pos 2) (pos 3) start)
update_read_count-Moved_example =
    update_read_count-Moved toy hget toy_counts "question" (pos 2) (pos 3) start fits_back

question_detail-Viewed_example :
    Viewed hget (pos 2) start (question_detail toy_env (record { id = 2; username = "ann" }) start)
question_detail-Viewed_example =
    question_detail-Viewed toy_env hget toy_counts 2 "ann" start (omega arith)
