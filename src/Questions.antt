-- ===== src/Questions.antt =====
-- crates/qa-svc/src/core/question.rs: the questions, their pages behind a cursor, and the read counts
-- that Redis collects and a job moves to the database.
pub mod Cursor
pub mod Enumeration
pub mod Scan
pub mod Counting
use qa_sys.Answers.{one_row}
use qa_sys.Votes.{try_bigint}
use qa_sys.Prelude.Strings.{
  Parsed, format, value, show_u64, parse_i64, bad, parse_error_text, show_i64,
}
use qa_sys.Prelude.Int.{
  ℤ, eq_ℤ, ltb_ℤ, pos, negsuc, pos_part, wrap_i64, as_i64, fits_i64, ◌+ℤ◌, ◌-ℤ◌, i64_half, as_u64,
}
use qa_sys.Domain.{QuestionEntity, LatestQuestionResponse, default_question}
use qa_sys.Prelude.{
  ℕ, String, Option, Result, List, some, Bool, if◌then◌else◌, ◌∷◌, pure, ◌>>◌, ◌>>=◌, none, err,
  ensure, ◌&&◌, ◌==◌, fail, last?, [], suc, ok, ltb, map_err, true, str_eq, not, take, length, zero,
  any, ◌+◌, keep, false, find?, ordered, ◌||◌, ◌++◌, modify_if, count_if, map_err_of,
}
use qa_sys.World.{
  reach, Externals, Repo, message, sql_failed, get_db, put_db, db, fits_varchar, in_varchar,
  write_db, violation,
}

abbrev pub question_id : ℤ → QuestionEntity → Bool
question_id id q = eq_ℤ q.id id

abbrev pub asked_by : ℤ → String → QuestionEntity → Bool
asked_by id username q = eq_ℤ q.id id && str_eq q.created_by username

-- `order by id desc`.
abbrev pub newer : QuestionEntity → QuestionEntity → Bool
newer a b = ltb_ℤ b.id a.id

abbrev pub older_than : ℤ → QuestionEntity → Bool
older_than id q = ltb_ℤ q.id id

unfoldable pub get_hash_key : String → String
get_hash_key target_type = format ("qa-sys:" ∷ target_type ∷ ":read_count:hash" ∷ [])

abbrev pub id_of_last : Option QuestionEntity → Option ℤ
id_of_last none = none
id_of_last (some q) = some q.id

-- The page that `find_latest` makes of the rows that it has fetched.
abbrev pub page_of : ℕ → List QuestionEntity → LatestQuestionResponse
page_of limit rows = record {
  questions = rows;
  last_id = id_of_last (last? rows);
  is_end = ltb (length rows) limit;
}

module _ {R : Type 0} where
  -- `insert into questions (title, content, created_by, created_at) … returning id`.
  unfoldable pub add : QuestionEntity → Repo R ℕ
  unfolding reach
  add question = do
    reach sql_failed
    d ← get_db
    put_db (record d { question_seq = d.question_seq + 1 })
    ensure
        (ltb d.question_seq i64_half
          && (fits_varchar 300 question.title && fits_varchar 50 question.created_by))
        (db violation)
    write_db (record d {
      question_seq = d.question_seq + 1;
      questions =
          d.questions
          ++ record default_question {
            id = pos d.question_seq;
            title = in_varchar 300 question.title;
            content = question.content;
            created_by = in_varchar 50 question.created_by;
            created_at = question.created_at;
          }
            ∷ [];
    })
    pure (as_u64 (pos d.question_seq))

  unfoldable pub update : ℕ → QuestionEntity → Repo R (Unit {0})
  unfolding reach
  update id question = do
    reach sql_failed
    d ← get_db
    ensure
        (not (any (question_id (as_i64 id)) d.questions)
          || (fits_varchar 300 question.title && fits_varchar 50 question.updated_by))
        (db violation)
    write_db (record d {
      questions =
          modify_if (question_id (as_i64 id))
            (λ q. record q {
              title = in_varchar 300 question.title;
              content = question.content;
              updated_at = question.updated_at;
              updated_by = in_varchar 50 question.updated_by;
            })
            d.questions;
    })

  unfoldable pub delete : ℕ → String → Repo R (Unit {0})
  unfolding reach
  delete id username = do
    reach sql_failed
    d ← get_db
    write_db
        (record d { questions = keep (λ q. not (asked_by (as_i64 id) username q)) d.questions })

  unfoldable pub find_one : ℕ → Repo R QuestionEntity
  unfolding reach
  find_one id = do
    reach sql_failed
    d ← get_db
    one_row (find? (question_id (as_i64 id)) d.questions)

  -- `select * from questions … order by id desc limit n`.
  unfoldable pub select_latest : (QuestionEntity → Bool) → ℕ → Repo R (List QuestionEntity)
  unfolding reach
  select_latest p n = do
    reach sql_failed
    d ← get_db
    pure (take n (ordered newer (keep p d.questions)))

  -- The rows behind the cursor, or the newest rows for the cursor 0.
  abbrev pub rows_after : ℕ → ℕ → Repo R (List QuestionEntity)
  rows_after last_id n =
      if last_id == 0
      then select_latest (λ q. true) n
      else (try_bigint "question cursor exceeds PostgreSQL bigint" last_id >>= λ id.
          select_latest (older_than id) n)

  -- A limit that is an `i64` is a `usize` of 64 bits.
  unfoldable pub find_latest : ℕ → ℕ → Repo R LatestQuestionResponse
  find_latest last_id limit = do
    n ← try_bigint "question limit exceeds PostgreSQL bigint" limit
    rows ← rows_after last_id (pos_part n)
    pure (page_of (pos_part n) rows)

module _ {R : Type 0} (x : Externals R) where
  -- A reply of Redis is read as the `u64` that the caller wants.
  abbrev pub reply_u64 : ℤ → Repo R ℕ
  reply_u64 (pos n) = pure n
  reply_u64 (negsuc n) = fail (message x.redis_type_error)

  abbrev pub store_after : {A : Type 0} → Result String (A × R) → Repo R A
  store_after (err t) w = (err (message t), w)
  store_after (ok (a, r)) w = (ok a, record w { redis = r })

  -- `pool.get()?`, then `HINCRBY`.
  unfoldable pub hincr : String → String → ℤ → Repo R ℤ
  unfolding reach
  hincr key field by = do
    reach message
    reach message
    n ← λ w. store_after (x.redis_hincr w.redis key field by) w
    reach message
    pure n

  unfoldable pub incr : ℕ → String → Repo R ℕ
  incr target_id target_type = do
    n ← hincr (get_hash_key target_type) (show_u64 target_id) (pos 1)
    reply_u64 n

  -- `update questions set read_count=read_count+$1 where id=$2`: the rows affected.
  unfoldable pub add_read_count : ℤ → ℤ → Repo R ℕ
  unfolding reach
  add_read_count id by = do
    reach sql_failed
    d ← get_db
    ensure (not (any (λ q. question_id id q && not (fits_i64 (q.read_count +ℤ by))) d.questions))
        (db violation)
    write_db (record d {
      questions =
          modify_if (question_id id) (λ q. record q { read_count = q.read_count +ℤ by })
            d.questions;
    })
    pure (count_if (question_id id) d.questions)

  unfoldable pub update_read_count : String → ℤ → ℤ → Repo R (Unit {0})
  update_read_count target_type target_id increment = do
    affected ← add_read_count target_id increment
    ensure (not (affected == 0)) (
        message (
          format (
            "failed to update target_id:"
            ∷ show_i64 target_id
            ∷ " target_type:"
            ∷ target_type
            ∷ [])))
    hincr (get_hash_key target_type) (show_i64 target_id) (wrap_i64 (pos 0 -ℤ increment))
    pure tt

  abbrev pub parsed_id : Parsed → Repo R ℤ
  parsed_id (value z) = pure z
  parsed_id (bad e) = fail (message (parse_error_text e))

  -- The replies of one `HSCAN`, in their order.
  unfoldable pub move_counts : String → List (String × ℤ) → Repo R (Unit {0})
  move_counts target_type [] = pure tt
  move_counts target_type ((field, increment) ∷ rest) = do
    target_id ← parsed_id (parse_i64 field)
    map_err
        (λ _. message (
          format (
            "failed to update read count,target_type:"
            ∷ target_type
            ∷ ",target_id:"
            ∷ show_i64 target_id
            ∷ [])))
        (update_read_count target_type target_id increment)
    move_counts target_type rest

  abbrev pub scanned : String → ℕ → Repo R (ℕ × List (String × ℤ))
  scanned target_type cursor w =
      map_err_of message (x.redis_hscan w.redis (get_hash_key target_type) cursor, w)

  -- One round of the loop: the next cursor.
  unfoldable pub reids_cmd : String → ℕ → Repo R ℕ
  unfolding reach
  reids_cmd target_type cursor = do
    reach message
    reach message
    page ← scanned target_type cursor
    move_counts target_type page.1
    pure page.0

  -- The loop over the cursor, with fuel; `none` means that the fuel ran out before the cursor came
  -- back to 0.
  unfoldable pub scan_loop : ℕ → String → ℕ → Repo R (Option ℤ)
  scan_loop zero target_type cursor = pure none
  scan_loop (suc fuel) target_type cursor = do
    next ← reids_cmd target_type cursor
    elim (next == 0) [ true ↦ pure (some (pos 0)) | false ↦ scan_loop fuel target_type next ]

  unfoldable pub handler : ℕ → String → Repo R (Option ℤ)
  handler fuel target_type = scan_loop fuel target_type 0
