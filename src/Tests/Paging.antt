-- ===== src/Tests/Paging.antt =====
-- Pages of answers, as crates/qa-svc/src/core/answer.rs reads them.
use qa_sys.Prelude.{◌≡◌, ok, arith, refl}
use qa_sys.Answers.{find_latest}
use qa_sys.Answers.Paging.{find_latest-page_at, page_at, rows_of, read_pages, read_pages-rows_of}
use qa_sys.Service.Reading.{answer_list}
use qa_sys.Service.Reading.Listing.{answer_list-page_reply, page_reply, has_vote}
use qa_sys.Tests.Worlds.{start, toy_env}

second_page : find_latest 1 1 2 start ≡ (ok (page_at (rows_of 1 start.db) 1 1), start)
second_page =
    find_latest-page_at 1 1 1 start (omega arith) (omega arith) (omega arith) (omega arith)
      (omega arith) refl

read_pages-rows_of_example : read_pages 1 1 start 2 ≡ rows_of 1 start.db
read_pages-rows_of_example =
    read_pages-rows_of 1 1 1 start start (page_at (rows_of 1 start.db) 1 1) (omega arith)
      (omega arith) (omega arith) (omega arith) (omega arith) refl second_page refl

answer_list-page_reply_example :
    answer_list toy_env (record { question_id = 1; limit = 1; page = 2; username = "ann" }) start
    ≡ (ok (page_reply (rows_of 1 start.db) (has_vote start "ann") 1 1), start)
answer_list-page_reply_example =
    answer_list-page_reply toy_env 1 1 1 "ann" start (omega arith) (omega arith) (omega arith)
      (omega arith) (omega arith) (omega arith) refl
