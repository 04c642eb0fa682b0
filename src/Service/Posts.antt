-- ===== src/Service/Posts.antt =====
-- crates/qa-svc/src/application/app.rs: the handlers that add, change and delete questions and
-- answers.
pub mod Lookup
pub mod Ownership
use qa_sys.Prelude.Int.{pos, as_i64}
use qa_sys.Domain.{default_question, AnswerEntity, default_answer}
use qa_sys.Pb
use qa_sys.Questions
use qa_sys.Answers
use qa_sys.Prelude.{Option, ◌>>=◌, ◌>>◌, pure, fail, some, none}
use qa_sys.Pb.{
  DeleteAnswerRequest, AddQuestionRequest, DeleteQuestionRequest, UpdateQuestionRequest,
  AddAnswerRequest, UpdateAnswerRequest, AddAnswerResponse, AddQuestionResponse,
  UpdateQuestionResponse, DeleteAnswerResponse, DeleteQuestionResponse, UpdateAnswerResponse,
}
use qa_sys.Service.{Env, Handler, or_status, unknown, status, invalid_argument}

module _ {R : Type 0} (env : Env R) where
  unfoldable pub add_question : AddQuestionRequest → Handler R AddQuestionResponse
  add_question req = do
    id ← or_status env.externals unknown "failed to add question, error:" (
        Questions.add (record default_question {
          title = req.title;
          content = req.content;
          created_by = req.create_by;
        }))
    pure (record { id = id })

  unfoldable pub delete_question : DeleteQuestionRequest → Handler R DeleteQuestionResponse
  delete_question req = do
    or_status env.externals unknown "failed to delete question, error:"
        (Questions.delete req.id req.username)
    pure (record { state = pos 1 })

  unfoldable pub update_question : UpdateQuestionRequest → Handler R UpdateQuestionResponse
  update_question req = do
    or_status env.externals unknown "failed to update question, error:" (
        Questions.update req.id (record default_question {
          title = req.title;
          content = req.content;
          updated_by = req.update_by;
        }))
    pure (record { state = pos 1 })

  abbrev pub new_answer : Pb.AnswerEntity → AnswerEntity
  new_answer a = record default_answer {
    question_id = as_i64 a.question_id;
    content = a.content;
    created_by = a.create_by;
  }

  abbrev pub add_given_answer : Option Pb.AnswerEntity → Handler R AddAnswerResponse
  add_given_answer none = fail (status invalid_argument "answer is empty")
  add_given_answer (some a) = do
    id ← or_status env.externals unknown "failed to add answer, error:" (Answers.add (new_answer a))
    pure (record { id = id })

  unfoldable pub add_answer : AddAnswerRequest → Handler R AddAnswerResponse
  add_answer req = add_given_answer req.answer

  unfoldable pub delete_answer : DeleteAnswerRequest → Handler R DeleteAnswerResponse
  delete_answer req = do
    or_status env.externals unknown "failed to delete answer, error:"
        (Answers.delete req.id req.username)
    pure (record { state = pos 1 })

  unfoldable pub update_answer : UpdateAnswerRequest → Handler R UpdateAnswerResponse
  update_answer req = do
    or_status env.externals unknown "failed to update answer, error:"
        (Answers.update (env.externals.naive_local env.now) req.id req.content req.username)
    pure (record { state = pos 1 })
