-- ===== src/Tests/Posts.antt =====
-- Runs of the posts and the votes of crates/qa-svc/src/application/app.rs.
use qa_sys.Answers.{owned_by}
use qa_sys.Questions.{asked_by}
use qa_sys.Pb.{DeleteQuestionRequest, AddQuestionRequest, DeleteAnswerRequest, AgreeAnswerRequest}
use qa_sys.Prelude.Int.{as_u64, as_i64, pos}
use qa_sys.Prelude.{◌≡◌, [], count_if, ok, arith, refl}
use qa_sys.World.{World}
use qa_sys.Questions
use qa_sys.Service.Posts.{add_question, delete_question, delete_answer}
use qa_sys.Service.Posts.Lookup.{find_one-add_question, stored}
use qa_sys.Service.Posts.Ownership.{
  delete_question-others, delete_answer-others, questions_of_others, answers_of_others, IsDeletion,
}
use qa_sys.Service.Voting.{agree_answer}
use qa_sys.Service.Voting.Publishing.{Sent, payload, agree_answer-Sent}
use qa_sys.World.{fits_varchar}
use qa_sys.Tests.Worlds.{start, toy_env, Store}

abbrev ask : AddQuestionRequest
ask = record { title = "why"; content = "because"; create_by = "ann" }

abbrev asked : World Store
asked = (add_question toy_env ask start).1

added : add_question toy_env ask start ≡ (ok (record { id = 3 }), asked)
unfolding add_question Questions.add as_u64 fits_varchar
added = refl

asked_calm : asked.faults ≡ []
unfolding add_question Questions.add fits_varchar
asked_calm = refl

find_one-add_question_example : Questions.find_one 3 asked ≡ (ok (stored ask 3), asked)
find_one-add_question_example =
    find_one-add_question toy_env ask (record { id = 3 }) start asked asked
      (omega arith, (omega arith, tt)) added refl asked_calm

abbrev own_question : DeleteQuestionRequest
own_question = record { id = 1; username = "ann" }

delete_question-others_example :
    (questions_of_others "ann" (delete_question toy_env own_question start).1.db.questions
      ≡ questions_of_others "ann" start.db.questions)
    × IsDeletion
        (λ qs. count_if (asked_by (as_i64 1) "ann") qs ≡ 0)
        (λ v. v.db.questions)
        (record { state = pos 1 })
        start
        (delete_question toy_env own_question start)
delete_question-others_example = delete_question-others toy_env own_question start

abbrev own_answer : DeleteAnswerRequest
own_answer = record { id = 2; username = "ann" }

delete_answer-others_example :
    (answers_of_others "ann" (delete_answer toy_env own_answer start).1.db.answers
      ≡ answers_of_others "ann" start.db.answers)
    × IsDeletion
        (λ qs. count_if (owned_by (as_i64 2) "ann") qs ≡ 0)
        (λ v. v.db.answers)
        (record { state = pos 1 })
        start
        (delete_answer toy_env own_answer start)
delete_answer-others_example = delete_answer-others toy_env own_answer start

abbrev vote : AgreeAnswerRequest
vote = record { id = 1; create_by = "ann"; action = "up" }

agree_answer-Sent_example : Sent (payload toy_env vote) start (agree_answer toy_env vote start)
agree_answer-Sent_example = agree_answer-Sent toy_env vote start
