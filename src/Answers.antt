-- ===== src/Answers.antt =====
-- crates/qa-svc/src/core/answer.rs and the page of crates/qa-svc/src/domain/entity/answer.rs: the
-- answers and their numbered pages.
pub mod Paging
use qa_sys.Votes.{try_bigint, is_some, has_id}
use qa_sys.Prelude.Strings.{format, show_i64}
use qa_sys.Prelude.Int.{
  ℤ, ltb_ℤ, eq_ℤ, pos, fits_i64, leb_ℤ, negsuc, pos_part, ◌-ℤ◌, as_i64, i64_half, as_u64,
}
use qa_sys.Prelude.{
  List, Option, String, Result, Bool, ℕ, ◌>>◌, fail, if◌then◌else◌, ensure, ◌*◌, ◌∷◌, err, ◌&&◌,
  ◌>>=◌, str_eq, ltb, ok, [], suc, some, ◌-◌, find?, lift, not, pure, ◌+◌, keep, none, any, ◌/◌,
  ordered, ◌%◌, ◌||◌, ◌++◌, map_err, ◌==◌, modify_if, take, drop, length,
}
use qa_sys.World.{
  reach, Repo, AnyError, message, sql_failed, db, row_not_found, get_db, put_db, violation,
  fits_varchar, in_varchar, write_db,
}
use qa_sys.Domain.{
  PaginationError, AnswerEntity, negative_total, LatestAnswerResponse, invalid_page_size,
  invalid_current_page, default_answer,
}

-- `LatestAnswerResponse::try_new`.
unfoldable pub try_new : List AnswerEntity → ℤ → ℤ → ℤ → Result PaginationError LatestAnswerResponse
try_new answers total page_size current_page =
    if ltb_ℤ total (pos 0)
    then err (negative_total total)
    else if leb_ℤ page_size (pos 0)
    then err (invalid_page_size page_size)
    else if leb_ℤ current_page (pos 0)
    then err (invalid_current_page current_page)
    else let whole = pos_part total / pos_part page_size in
      let partial : ℕ = if pos_part total % pos_part page_size == 0 then 0 else 1 in
      let total_page = pos (whole + partial) in
      ok (record {
        answers = answers;
        total = total;
        total_page = total_page;
        page_size = page_size;
        current_page = current_page;
        is_end = eq_ℤ total_page (pos 0) || leb_ℤ total_page current_page;
      })

-- The `Display` of the error.
unfoldable pub pagination_text : PaginationError → String
pagination_text (negative_total n) = format ("total must not be negative, got " ∷ show_i64 n ∷ [])
pagination_text (invalid_page_size n) =
    format ("page size must be greater than zero, got " ∷ show_i64 n ∷ [])
pagination_text (invalid_current_page n) =
    format ("current page must be greater than zero, got " ∷ show_i64 n ∷ [])

abbrev pub owned_by : ℤ → String → AnswerEntity → Bool
owned_by id username a = eq_ℤ a.id id && str_eq a.created_by username

-- `order by id desc`.
abbrev pub newer : AnswerEntity → AnswerEntity → Bool
newer a b = ltb_ℤ b.id a.id

abbrev pub of_question : ℤ → AnswerEntity → Bool
of_question id a = eq_ℤ a.question_id id

-- `checked_sub` and `checked_mul` of `i64`, with the text of `context("…")`.
abbrev pub checked : String → ℤ → Result AnyError ℤ
checked text z = if fits_i64 z then ok z else err (message text)

-- The product of a page index and a page size, which is positive.
abbrev pub times : ℤ → ℕ → ℤ
times (pos n) k = pos (n * k)
times (negsuc n) k = negsuc (suc n * k - 1)

abbrev pub pagination_error : PaginationError → AnyError
pagination_error e = message (pagination_text e)

module _ {R : Type 0} where
  unfoldable pub check_answer_exist : ℕ → String → Repo R Bool
  unfolding reach
  check_answer_exist id username = do
    reach sql_failed
    d ← get_db
    pure (is_some (find? (owned_by (as_i64 id) username) d.answers))

  -- `insert into answers (question_id,content,created_by,created_at) … returning id`.
  unfoldable pub add : AnswerEntity → Repo R ℕ
  unfolding reach
  add answer = do
    reach sql_failed
    d ← get_db
    put_db (record d { answer_seq = d.answer_seq + 1 })
    ensure (ltb d.answer_seq i64_half && fits_varchar 50 answer.created_by) (db violation)
    write_db (record d {
      answer_seq = d.answer_seq + 1;
      answers =
          d.answers
          ++ record default_answer {
            id = pos d.answer_seq;
            question_id = answer.question_id;
            content = answer.content;
            created_by = in_varchar 50 answer.created_by;
            updated_by = some "";
            created_at = answer.created_at;
          }
            ∷ [];
    })
    pure (as_u64 (pos d.answer_seq))

  unfoldable pub update : ℤ → ℕ → String → String → Repo R (Unit {0})
  unfolding reach
  update now id content updated_by = do
    reach sql_failed
    d ← get_db
    ensure (not (any (has_id (as_i64 id)) d.answers) || fits_varchar 50 updated_by) (db violation)
    write_db (record d {
      answers =
          modify_if (has_id (as_i64 id))
            (λ a. record a {
              content = content;
              updated_by = some (in_varchar 50 updated_by);
              updated_at = some now;
            })
            d.answers;
    })

  unfoldable pub delete : ℕ → String → Repo R (Unit {0})
  unfolding reach
  delete id username = do
    reach sql_failed
    d ← get_db
    write_db (record d { answers = keep (λ a. not (owned_by (as_i64 id) username a)) d.answers })

  -- `fetch_one`: an error when there is no row.
  abbrev pub one_row : {A : Type 0} → Option A → Repo R A
  one_row none = fail (db row_not_found)
  one_row (some a) = pure a

  unfoldable pub find_one : ℕ → Repo R AnswerEntity
  unfolding reach
  find_one id = do reach sql_failed; d ← get_db; one_row (find? (has_id (as_i64 id)) d.answers)

  unfoldable pub find_latest : ℕ → ℕ → ℕ → Repo R LatestAnswerResponse
  unfolding reach
  find_latest question_id limit current_page = do
    ensure (ltb 0 limit) (message "answer page size must be greater than zero")
    question ← try_bigint "answer question ID exceeds PostgreSQL bigint" question_id
    page_size ← try_bigint "answer page size exceeds PostgreSQL bigint" limit
    page ← try_bigint "answer page number exceeds PostgreSQL bigint" current_page
    page_index ← lift (checked "answer page number must be greater than zero" (page -ℤ pos 1))
    offset ← lift (checked "answer page offset overflow" (times page_index (pos_part page_size)))
    reach sql_failed
    d ← get_db
    reach sql_failed
    ensure (leb_ℤ (pos 0) offset) (db violation)
    rows ← pure (ordered newer (keep (of_question question) d.answers))
    map_err pagination_error (
        lift (
          try_new (take (pos_part page_size) (drop (pos_part offset) rows)) (pos (length rows))
            page_size page))
