-- ===== src/Gateway/Handlers.antt =====
-- The HTTP handlers of crates/gateway/src/handler/qa.rs, from the payload on.
use qa_sys.Prelude.Int.{as_i64}
use qa_sys.Prelude.{
  String, pure, Action, ◌>>=◌, map, Option, Result, some, map_err, false, lift, if◌then◌else◌, none,
  not, str_eq, err, ok,
}
use qa_sys.Gateway.Requests.{
  RegisterRequest, LoginRequest, LogoutRequest, QuestionRequest, AddQuestRequest,
  UpdateQuestRequest, DeleteQuestRequest, LastestQuestRequest, AnswerAddRequest,
  AnswerDeleteRequest, AnswerUpdateRequest, FindAnswerRequest, AnswerLastestRequest,
  AnswerAgreeRequest,
}
use qa_sys.Gateway.Client.{Client}
use qa_sys.Gateway.{
  Handling, Body, Principal, GatewayError, forbidden, grpc_error, Status, plain, state, token,
  question_id, answer_id, question, questions, answer, answers, QuestionObject, AnswerObject,
  QuestionPage, AnswerPage, default_question_object, default_answer_object,
}
use qa_sys.Pb

unfoldable pub authenticated_username : Principal → String → Result GatewayError String
authenticated_username principal claimed_username =
    if not (str_eq principal.username claimed_username)
    then err forbidden
    else ok principal.username

unfoldable pub authenticated_token : Principal → String → Result GatewayError String
authenticated_token principal claimed_token =
    if not (str_eq principal.token claimed_token) then err forbidden else ok principal.token

abbrev pub question_object : Pb.QuestionEntity → QuestionObject
question_object q = record default_question_object {
  id = as_i64 q.id;
  title = q.title;
  content = q.content;
  created_by = q.create_by;
  read_count = as_i64 q.read_count;
  reply_count = as_i64 q.reply_count;
}

abbrev pub answer_object : Pb.AnswerEntity → AnswerObject
answer_object a = record default_answer_object {
  id = as_i64 a.id;
  question_id = as_i64 a.question_id;
  content = a.content;
  created_by = a.create_by;
  agree_count = as_i64 a.agree_count;
}

abbrev pub mapped : {A B : Type 0} → (A → B) → Option A → Option B
mapped f none = none
mapped f (some a) = some (f a)

abbrev pub question_page : Pb.LatestQuestionResponse → QuestionPage
question_page r = record {
  questions = map question_object r.questions;
  last_id = r.last_id;
  is_end = r.is_end;
}

abbrev pub answer_page : Pb.AnswerListResponse → AnswerPage
answer_page r = record {
  answers = map answer_object r.answers;
  total = as_i64 r.total;
  total_page = as_i64 r.total_page;
  page_size = as_i64 r.page_size;
  current_page = as_i64 r.current_page;
  is_end = r.is_end;
}

-- `call(req).await?`.
abbrev pub call : {S A : Type 0} → Action S Status A → Handling S A
call m = map_err grpc_error m

abbrev pub root : {S : Type 0} → Handling S Body
root = pure (plain "API gateway root!")

abbrev pub hello : {S : Type 0} → Handling S Body
hello = pure (plain "Qa-svc!")

-- The answer that a new answer's request carries.
abbrev pub answer_of : AnswerAddRequest → String → Pb.AnswerEntity
answer_of payload username = record {
  id = 0;
  question_id = payload.question_id;
  content = payload.content;
  create_by = username;
  agree_count = 0;
  has_aggreed = false;
}

module _ {S : Type 0} (client : Client S) where
  unfoldable pub user_register : RegisterRequest → Handling S Body
  user_register payload = do
    resp ← call (
        client.user_register (record {
          username = payload.username;
          password = payload.password;
          email = payload.email;
          phone = payload.phone;
        }))
    pure (state resp.state)

  unfoldable pub user_login : LoginRequest → Handling S Body
  user_login payload = do
    resp ←
        call
          (client.user_login (record { username = payload.username; password = payload.password }))
    pure (token resp.token)

  module _ (principal : Principal) where
    unfoldable pub user_logout : LogoutRequest → Handling S Body
    user_logout payload = do
      claimed ← lift (authenticated_token principal payload.token)
      resp ← call (client.user_logout (record { token = claimed }))
      pure (state resp.state)

    unfoldable pub question_detail : QuestionRequest → Handling S Body
    question_detail payload = do
      username ← lift (authenticated_username principal payload.username)
      resp ←
          call (client.question_detail (record { id = payload.question_id; username = username }))
      pure (question (mapped question_object resp.question))

    unfoldable pub question_add : AddQuestRequest → Handling S Body
    question_add payload = do
      username ← lift (authenticated_username principal payload.username)
      resp ← call (
          client.add_question
            (record { title = payload.title; content = payload.content; create_by = username }))
      pure (question_id (as_i64 resp.id))

    unfoldable pub question_update : UpdateQuestRequest → Handling S Body
    question_update payload = do
      username ← lift (authenticated_username principal payload.question.updated_by)
      resp ← call (
          client.update_question (record {
            id = payload.id;
            title = payload.question.title;
            content = payload.question.content;
            update_by = username;
          }))
      pure (state resp.state)

    unfoldable pub question_delete : DeleteQuestRequest → Handling S Body
    question_delete payload = do
      username ← lift (authenticated_username principal payload.username)
      resp ← call (client.delete_question (record { id = payload.id; username = username }))
      pure (state resp.state)

    unfoldable pub answer_add : AnswerAddRequest → Handling S Body
    answer_add payload = do
      username ← lift (authenticated_username principal payload.username)
      resp ← call (client.add_answer (record { answer = some (answer_of payload username) }))
      pure (answer_id (as_i64 resp.id))

    unfoldable pub answer_delete : AnswerDeleteRequest → Handling S Body
    answer_delete payload = do
      username ← lift (authenticated_username principal payload.username)
      resp ← call (client.delete_answer (record { id = payload.id; username = username }))
      pure (state resp.state)

    unfoldable pub answer_update : AnswerUpdateRequest → Handling S Body
    answer_update payload = do
      username ← lift (authenticated_username principal payload.username)
      resp ← call (
          client.update_answer
            (record { id = payload.id; content = payload.content; username = username }))
      pure (state resp.state)

    unfoldable pub answer_find_one : FindAnswerRequest → Handling S Body
    answer_find_one payload = do
      username ← lift (authenticated_username principal payload.username)
      resp ← call (client.answer_detail (record { id = payload.id; username = username }))
      pure (answer (mapped answer_object resp.answer))

    unfoldable pub answer_find_list : AnswerLastestRequest → Handling S Body
    answer_find_list payload = do
      username ← lift (authenticated_username principal payload.username)
      resp ← call (
          client.answer_list (record {
            question_id = payload.question_id;
            page = payload.page;
            limit = payload.limit;
            username = username;
          }))
      pure (answers (answer_page resp))

    unfoldable pub answer_agree : AnswerAgreeRequest → Handling S Body
    answer_agree payload = do
      username ← lift (authenticated_username principal payload.username)
      resp ← call (
          client.agree_answer
            (record { id = payload.id; create_by = username; action = payload.action }))
      pure (state resp.state)

  unfoldable pub question_find_latest : LastestQuestRequest → Handling S Body
  question_find_latest payload = do
    resp ←
        call (client.latest_question (record { last_id = payload.last_id; limit = payload.limit }))
    pure (questions (question_page resp))
