-- ===== src/Tests/Listing.antt =====
-- Questions read page by page, as crates/qa-svc/src/core/question.rs lists them.
use qa_sys.Prelude.Int.{pos}
use qa_sys.Domain.{default_question}
use qa_sys.Prelude.{◌≡◌, arith, ok, refl, take, drop, []}
use qa_sys.Questions.Cursor.{newest}
use qa_sys.Questions.Enumeration.{read_from, read_from-newest}
use qa_sys.Questions.{find_latest, page_of}
use qa_sys.Questions.Cursor.{find_latest-next}
use qa_sys.Tests.Worlds.{start}

-- Pages of one question each.
read_from-newest_example : read_from 3 0 1 start ≡ newest start.db
read_from-newest_example =
    read_from-newest start refl 1 (omega arith) (omega arith) ((λ e. cc, tt), (tt, tt))
      ((2, refl, omega arith, omega arith), ((1, refl, omega arith, omega arith), tt)) 3
      (omega arith)

find_latest-next_example :
    find_latest 2 1 start ≡ (ok (page_of 1 (take 1 (drop 1 (newest start.db)))), start)
find_latest-next_example =
    find_latest-next start refl 1 (omega arith) []
      (record default_question {
        id = pos 2;
        title = "second";
        created_by = "bob";
        read_count = pos 5;
      })
      (drop 1 (newest start.db)) 2 ((λ e. cc, tt), (tt, tt)) refl refl (omega arith) (omega arith)
