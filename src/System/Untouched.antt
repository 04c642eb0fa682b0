-- ===== src/System/Untouched.antt =====
-- The operations of crates/qa-svc/src/core/question.rs that write to the table of questions: they keep
-- every property that says nothing of the questions.
use qa_sys.Prelude.Int.{ℤ, pos}
use qa_sys.Questions
use qa_sys.Prelude.Int.{◌+ℤ◌}
use qa_sys.Prelude.Strings.{Parsed, value, bad, parse_i64}
use qa_sys.Domain.{QuestionEntity}
use qa_sys.Prelude.{
  ◌∷◌, [], true, false, List, ℕ, String, Bool, suc, ◌==◌, not, zero, pure, some, map_err, modify_if,
}
use qa_sys.World.{World, Externals, reach, message, sql_failed}
use qa_sys.World.Keeps.{Keeps, bind-Keeps, reach-Keeps, map_err-Keeps}
use qa_sys.System.Calm.{
  IsCalm, reached-Keeps, ensured-Keeps, put_if-Keeps, put_then-Keeps, write_db-Keeps, hincr-Keeps,
}

module _ {R : Type 0} (P : World R → Type 0) (calm : IsCalm P)
    (free : (w : World R) (qs : List QuestionEntity) (n : ℕ)
      → P w
      → P (record w { db = record w.db { questions = qs; question_seq = n } })) where
  pub questions_add-Keeps : (q : QuestionEntity) → Keeps P (Questions.add q)
  unfolding Questions.add
  questions_add-Keeps q =
      reached-Keeps P calm sql_failed _
        λ w p. put_then-Keeps P calm _ _ _ _ _ (free w _ _ p) (free w _ _ p)

  pub questions_update-Keeps : (id : ℕ) (q : QuestionEntity) → Keeps P (Questions.update id q)
  unfolding Questions.update
  questions_update-Keeps id q =
      reached-Keeps P calm sql_failed _ λ w p. put_if-Keeps P calm _ _ _ _ p (free w _ _ p)

  pub questions_delete-Keeps : (id : ℕ) (name : String) → Keeps P (Questions.delete id name)
  unfolding Questions.delete
  questions_delete-Keeps id name =
      reached-Keeps P calm sql_failed _ λ w p. write_db-Keeps P calm _ w (free w _ _ p)

-- The job that moves read counts writes nothing else.
module _ {R : Type 0} (P : World R → Type 0) (calm : IsCalm P)
    (counts : (w : World R) (id by : ℤ)
      → P w
      → P (record w {
        db = record w.db {
          questions =
              modify_if
                (Questions.question_id id)
                (λ q. record q { read_count = q.read_count +ℤ by })
                w.db.questions;
        };
      })) where
  add_read_count-Keeps : (x : Externals R) (id by : ℤ) → Keeps P (Questions.add_read_count x id by)
  unfolding Questions.add_read_count
  add_read_count-Keeps x id by =
      reached-Keeps P calm sql_failed _ λ w p. put_then-Keeps P calm _ _ _ _ _ p (counts w id by p)

  update_read_count-Keeps :
      (x : Externals R) (kind : String) (id by : ℤ)
      → Keeps P (Questions.update_read_count x kind id by)
  unfolding Questions.update_read_count
  update_read_count-Keeps x kind id by =
      bind-Keeps {P = P} (Questions.add_read_count x id by) _ (add_read_count-Keeps x id by) λ n.
        ensured-Keeps P calm (not (n == 0)) _ _
          (bind-Keeps {P = P} (Questions.hincr x _ _ _) _ (hincr-Keeps P calm x _ _ _) (λ _ v p. p))

  parsed_id-Keeps : (x : Externals R) (p : Parsed) → Keeps P (Questions.parsed_id x p)
  parsed_id-Keeps x (value z) w h = h
  parsed_id-Keeps x (bad e) w h = h

  move_counts-Keeps :
      (x : Externals R) (kind : String) (fields : List (String × ℤ))
      → Keeps P (Questions.move_counts x kind fields)
  unfolding Questions.move_counts
  move_counts-Keeps x kind [] w h = h
  move_counts-Keeps x kind ((field, by) ∷ rest) w h =
      bind-Keeps {P = P} (Questions.parsed_id x (parse_i64 field)) _
        (parsed_id-Keeps x (parse_i64 field))
        (λ id.
          bind-Keeps {P = P} (map_err _ (Questions.update_read_count x kind id by)) _
            (map_err-Keeps P _ (Questions.update_read_count x kind id by)
              (update_read_count-Keeps x kind id by))
            λ _. move_counts-Keeps x kind rest)
        w h

  scanned-Keeps :
      (x : Externals R) (kind : String) (cursor : ℕ) → Keeps P (Questions.scanned x kind cursor)
  scanned-Keeps x kind cursor =
      map_err-Keeps P message (λ w. (x.redis_hscan w.redis (Questions.get_hash_key kind) cursor, w))
        (λ w h. h)

  reids_cmd-Keeps :
      (x : Externals R) (kind : String) (cursor : ℕ) → Keeps P (Questions.reids_cmd x kind cursor)
  unfolding Questions.reids_cmd
  reids_cmd-Keeps x kind cursor =
      bind-Keeps {P = P} (reach message) _ (reach-Keeps P calm.faults message) λ _.
        bind-Keeps {P = P} (reach message) _ (reach-Keeps P calm.faults message) λ _.
          bind-Keeps {P = P} (Questions.scanned x kind cursor) _ (scanned-Keeps x kind cursor)
            λ page.
              bind-Keeps {P = P} (Questions.move_counts x kind page.1) _
                (move_counts-Keeps x kind page.1) λ _ v p. p

  scan_next-Keeps :
      (x : Externals R) (fuel : ℕ) (kind : String) (next : ℕ) (done : Bool)
      → Keeps P (Questions.scan_loop x fuel kind next)
      → Keeps {S = World R} P
          (elim done [ true ↦ pure (some (pos 0)) | false ↦ Questions.scan_loop x fuel kind next ])
  scan_next-Keeps x fuel kind next true k w h = h
  scan_next-Keeps x fuel kind next false k w h = k w h

  scan_loop-Keeps :
      (x : Externals R) (fuel : ℕ) (kind : String) (cursor : ℕ)
      → Keeps P (Questions.scan_loop x fuel kind cursor)
  unfolding Questions.scan_loop
  scan_loop-Keeps x zero kind cursor w h = h
  scan_loop-Keeps x (suc fuel) kind cursor w h =
      bind-Keeps {P = P} (Questions.reids_cmd x kind cursor) _ (reids_cmd-Keeps x kind cursor)
        (λ next. scan_next-Keeps x fuel kind next (next == 0) (scan_loop-Keeps x fuel kind next)) w
        h

  pub handler-Keeps :
      (x : Externals R) (fuel : ℕ) (kind : String) → Keeps P (Questions.handler x fuel kind)
  unfolding Questions.handler
  handler-Keeps x fuel kind = scan_loop-Keeps x fuel kind 0
