-- ===== src/Questions/Counting.antt =====
-- The read counts of crates/qa-svc/src/core/question.rs on their way from Redis to the database.
use native.Mathlib.Decide.{dec_lt}
use qa_sys.Prelude.Strings.{show_i64}
use qa_sys.Domain.{QuestionEntity}
use qa_sys.World.{Externals, Db, reach, World, AnyError}
use qa_sys.Prelude.{
  Option, String, List, count_if, find?, ◌≡◌, ℕ, some, ◌≢◌, ok, err, none, modify_if, arith, ◌∷◌,
  [], refl, ap, ◌∙◌, Result, true, continue, ensure, pure, not, ◌==◌, ◌>>◌, Bool, sym, false,
  ==_iff, ◌⊎◌, inl, inr,
}
use qa_sys.Prelude.Int.{ℤ, pos, ◌+ℤ◌, fits_i64, ◌-ℤ◌, wrap_i64, int_laws, wrap_i64_fits}
use qa_sys.Questions

-- HINCRBY adds to a field of a hash and replies its new value; `hget` is the field's value.
pub record CounterLaws {R : Type 0} (x : Externals R) (hget : R → String → String → ℤ)
    : Type 0 where
  pub counted :
      (r r' : R) (key field : String) (by n : ℤ)
      → x.redis_hincr r key field by ≡ ok (n, r')
      → hget r' key field ≡ hget r key field +ℤ by
  pub replied :
      (r r' : R) (key field : String) (by n : ℤ)
      → x.redis_hincr r key field by ≡ ok (n, r')
      → hget r' key field ≡ n

abbrev count_of : Option QuestionEntity → ℤ
count_of none = pos 0
count_of (some q) = q.read_count

-- The reads of a question that the database has.
abbrev pub stored_reads : ℤ → Db → ℤ
stored_reads id d = count_of (find? (Questions.question_id id) d.questions)

stored_reads-add :
    (id by : ℤ) (qs : List QuestionEntity)
    → count_if (Questions.question_id id) qs ≢ 0
    → count_of (
        find? (Questions.question_id id) (
          modify_if
            (Questions.question_id id)
            (λ q. record q { read_count = q.read_count +ℤ by })
            qs))
      ≡ count_of (find? (Questions.question_id id) qs) +ℤ by
stored_reads-add id by [] some_row = absurd (some_row refl)
stored_reads-add id by (q ∷ qs) some_row = ground (arith, stored_reads-add id by qs)

stored_reads-none :
    (id by : ℤ) (qs : List QuestionEntity)
    → count_if (Questions.question_id id) qs ≡ 0
    → count_of (
        find? (Questions.question_id id) (
          modify_if
            (Questions.question_id id)
            (λ q. record q { read_count = q.read_count +ℤ by })
            qs))
      ≡ count_of (find? (Questions.question_id id) qs)
stored_reads-none id by [] h = refl
stored_reads-none id by (q ∷ qs) h = ground (arith, stored_reads-none id by qs)

back_and_forth : (a by b : ℤ) → (a +ℤ by) +ℤ (b +ℤ (pos 0 -ℤ by)) ≡ a +ℤ b
back_and_forth a by b = grind int_laws

forth : (a by b : ℤ) → (a +ℤ by) +ℤ b ≡ (a +ℤ b) +ℤ by
forth a by b = grind int_laws

not_both : (b : Bool) → b ≡ true → b ≡ false → ⊥
not_both b h k = cc

module _ {R : Type 0} (hget : R → String → String → ℤ) where
  -- The reads of a question: those in the database and those in Redis.
  abbrev pub reads : String → ℤ → World R → ℤ
  reads kind id w = stored_reads id w.db +ℤ hget w.redis (Questions.get_hash_key kind) (show_i64 id)

  -- A move of some reads to the database: it keeps their sum; or it ends in an error, with the sum
  -- as before, or with the reads in the database and in Redis still.
  pub data Moved (kind : String) (id by : ℤ) (w : World R)
      (o : Result AnyError (Unit {0}) × World R) : Type 0 where
    moved :
        o.0 ≡ ok tt
        → stored_reads id o.1.db ≡ stored_reads id w.db +ℤ by
        → reads kind id o.1 ≡ reads kind id w
        → Moved kind id by w o
    unmoved :
        (e : AnyError) → o.0 ≡ err e → reads kind id o.1 ≡ reads kind id w → Moved kind id by w o
    doubled :
        (e : AnyError)
        → o.0 ≡ err e
        → reads kind id o.1 ≡ reads kind id w +ℤ by
        → Moved kind id by w o

module _ {R : Type 0} (x : Externals R) (hget : R → String → String → ℤ)
    (laws : CounterLaws x hget) where
  add_read_count_row :
      (id by : ℤ) (n : ℕ) (w v : World R)
      → Questions.add_read_count x id by w ≡ (ok n, v)
      → (v.db ≡ record w.db {
        questions =
            modify_if
              (Questions.question_id id)
              (λ q. record q { read_count = q.read_count +ℤ by })
              w.db.questions;
      })
        × (n ≡ count_if (Questions.question_id id) w.db.questions)
        × (v.redis ≡ w.redis)
  unfolding Questions.add_read_count reach
  add_read_count_row id by n w v h = ground arith

  add_read_count_ok :
      (id by : ℤ) (n : ℕ) (w v : World R)
      → Questions.add_read_count x id by w ≡ (ok n, v)
      → n ≢ 0
      → (stored_reads id v.db ≡ stored_reads id w.db +ℤ by) × (v.redis ≡ w.redis)
  add_read_count_ok id by n w v h some_row =
      let (same, rows, kept) = add_read_count_row id by n w v h in
      (
        ap (stored_reads id) same
            ∙ stored_reads-add id by w.db.questions (λ z. some_row (rows ∙ z)),
        kept,
      )

  -- The tables after the reads have been added to a question.
  abbrev with_reads : ℤ → ℤ → Db → Db
  with_reads id by d = record d {
    questions =
        modify_if (Questions.question_id id) (λ q. record q { read_count = q.read_count +ℤ by })
          d.questions;
  }

  add_read_count_err :
      (id by : ℤ) (e : AnyError) (w v : World R)
      → Questions.add_read_count x id by w ≡ (err e, v)
      → ((v.db ≡ w.db) ⊎ (v.db ≡ with_reads id by w.db)) × (v.redis ≡ w.redis)
  unfolding Questions.add_read_count reach
  add_read_count_err id by e w v h = ground arith

  -- The reply of the statement is lost.
  lost :
      (kind : String) (id by : ℤ) (e : AnyError) (w v : World R)
      → (v.db ≡ w.db) ⊎ (v.db ≡ with_reads id by w.db)
      → v.redis ≡ w.redis
      → Moved hget kind id by w (err e, v)
  lost kind id by e w v (inl same) kept = unmoved e refl (rw same (rw kept refl))
  lost kind id by e w v (inr written) kept =
      elim (dec_lt 0 (count_if (Questions.question_id id) w.db.questions)) [
        | yes there ↦
            let more : stored_reads id v.db ≡ stored_reads id w.db +ℤ by =
              ap (stored_reads id) written
              ∙ stored_reads-add id by w.db.questions (λ z. absurd (omega arith)) in
            doubled e refl (rw more (rw kept (forth _ by _)))
        | no missing ↦
            let same : stored_reads id v.db ≡ stored_reads id w.db =
              ap (stored_reads id) written ∙ stored_reads-none id by w.db.questions (omega arith) in
            unmoved e refl (rw same (rw kept refl))
      ]

  pub hincr_reply :
      (key field : String) (by n : ℤ) (w v : World R)
      → Questions.hincr x key field by w ≡ (ok n, v)
      → (v.db ≡ w.db) × (x.redis_hincr w.redis key field by ≡ ok (n, v.redis))
  unfolding Questions.hincr reach
  hincr_reply key field by n w v h = ground arith

  pub hincr_ok :
      (key field : String) (by n : ℤ) (w v : World R)
      → Questions.hincr x key field by w ≡ (ok n, v)
      → (v.db ≡ w.db) × (hget v.redis key field ≡ hget w.redis key field +ℤ by)
  hincr_ok key field by n w v h =
      let (same, reply) = hincr_reply key field by n w v h in
      (same, laws.counted w.redis v.redis key field by n reply)

  hincr_err_of :
      (o : Result String (ℤ × R)) (key field : String) (by : ℤ) (e : AnyError) (w v : World R)
      → x.redis_hincr w.redis key field by ≡ o
      → Questions.hincr x key field by w ≡ (err e, v)
      → (v.db ≡ w.db)
        × ((v.redis ≡ w.redis) ⊎ (hget v.redis key field ≡ hget w.redis key field +ℤ by))
  unfolding Questions.hincr reach
  hincr_err_of (err t) key field by e w v reply h = ground arith
  hincr_err_of (ok (n, r)) key field by e w v reply h =
      let more = laws.counted w.redis r key field by n reply in ground arith

  -- The reply of HINCRBY is lost when it ends in an error but has added.
  pub hincr_err :
      (key field : String) (by : ℤ) (e : AnyError) (w v : World R)
      → Questions.hincr x key field by w ≡ (err e, v)
      → (v.db ≡ w.db)
        × ((v.redis ≡ w.redis) ⊎ (hget v.redis key field ≡ hget w.redis key field +ℤ by))
  hincr_err key field by e w v h = hincr_err_of _ key field by e w v refl h

  decremented :
      (kind : String) (id by : ℤ) (w u : World R) (o : Result AnyError ℤ × World R)
      → stored_reads id u.db ≡ stored_reads id w.db +ℤ by
      → u.redis ≡ w.redis
      → Questions.hincr x (Questions.get_hash_key kind) (show_i64 id) (pos 0 -ℤ by) u ≡ o
      → Moved hget kind id by w (continue (λ _. pure tt) o)
  decremented kind id by w u (ok n, v) more same h =
      let (db_same, less) =
        hincr_ok (Questions.get_hash_key kind) (show_i64 id) (pos 0 -ℤ by) n u v h in
      let stored : stored_reads id v.db ≡ stored_reads id w.db +ℤ by =
        ap (stored_reads id) db_same ∙ more in
      moved refl stored (rw stored (rw less (rw same (back_and_forth _ by _))))
  decremented kind id by w u (err e, v) more same h =
      let (db_same, landed) =
        hincr_err (Questions.get_hash_key kind) (show_i64 id) (pos 0 -ℤ by) e u v h in
      elim landed [
        | inl redis_same ↦
            doubled e refl (rw db_same (rw redis_same (rw more (rw same (forth _ by _)))))
        | inr less ↦
            unmoved e refl (rw db_same (rw more (rw less (rw same (back_and_forth _ by _)))))
      ]

  taken :
      (kind : String) (id by : ℤ) (w v : World R) (n : ℕ) (none_there : Bool) (e : AnyError)
      → fits_i64 (pos 0 -ℤ by) ≡ true
      → Questions.add_read_count x id by w ≡ (ok n, v)
      → (n == 0) ≡ none_there
      → Moved hget kind id by w (
          (ensure (not none_there) e
              >> (Questions.hincr x
                    (Questions.get_hash_key kind)
                    (show_i64 id)
                    (wrap_i64 (pos 0 -ℤ by))
                  >> pure tt))
            v)
  taken kind id by w v n true e fits h zero_rows =
      let (same, rows, kept) = add_read_count_row id by n w v h in
      unmoved e refl (
        rw
          (ap (stored_reads id) same
            ∙ stored_reads-none id by w.db.questions (sym rows ∙ (==_iff n 0).0 zero_rows))
          (rw kept refl))
  taken kind id by w v n false e fits h some_rows =
      let (more, kept) =
        add_read_count_ok id by n w v h (λ z. not_both (n == 0) ((==_iff n 0).1 z) some_rows) in
      rw (wrap_i64_fits (pos 0 -ℤ by) fits) (decremented kind id by w v _ more kept refl)

  counted_rows :
      (kind : String) (id by : ℤ) (e : AnyError) (w : World R) (o : Result AnyError ℕ × World R)
      → fits_i64 (pos 0 -ℤ by) ≡ true
      → Questions.add_read_count x id by w ≡ o
      → Moved hget kind id by w (
          continue
            (λ affected.
              ensure (not (affected == 0)) e
              >> (Questions.hincr x
                    (Questions.get_hash_key kind)
                    (show_i64 id)
                    (wrap_i64 (pos 0 -ℤ by))
                  >> pure tt))
            o)
  counted_rows kind id by e w (err e', v) fits h =
      let (written, kept) = add_read_count_err id by e' w v h in lost kind id by e' w v written kept
  counted_rows kind id by e w (ok n, v) fits h = taken kind id by w v n (n == 0) e fits h refl

  -- Moving reads of a question from Redis to the database, for an increment whose negation is an
  -- `i64` and a HINCRBY that adds, keeps the sum of both counts and adds them to the database when
  -- it ends well; when it ends in an error, the sum is as before, or greater by the increment,
  -- which then counts twice.
  pub update_read_count-Moved :
      (kind : String) (id by : ℤ) (w : World R)
      → fits_i64 (pos 0 -ℤ by) ≡ true
      → Moved hget kind id by w (Questions.update_read_count x kind id by w)
  unfolding Questions.update_read_count
  update_read_count-Moved kind id by w fits = counted_rows kind id by _ w _ fits refl
