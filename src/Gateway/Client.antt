-- ===== src/Gateway/Client.antt =====
-- The client of the gRPC service that crates/gateway calls, as an interface over a state of the
-- service, and qa-svc behind it.
use qa_sys.World.{World}
use qa_sys.Prelude.{Action, map_err}
use qa_sys.Service.{Env, Failure, Handler, status, panic}
use qa_sys.Pb
use qa_sys.Gateway.{Status}
use qa_sys.Service.Sessions.{user_login, user_logout, user_register, verify_token}
use qa_sys.Service.Posts.{
  add_question, delete_question, update_question, add_answer, delete_answer, update_answer,
}
use qa_sys.Service.Voting.{agree_answer}
use qa_sys.Service.Reading.{question_detail, latest_question, answer_list, answer_detail}

abbrev pub Call : Type 0 → Type 0 → Type 0 → Type 0
Call S A B = A → Action S Status B

-- `QaServiceClient`: each call answers, or ends in a status, of the service or of the transport.
pub record Client (S : Type 0) : Type 0 where
  pub user_register : Call S Pb.UserRegisterRequest Pb.UserRegisterResponse
  pub user_login : Call S Pb.UserLoginRequest Pb.UserLoginResponse
  pub user_logout : Call S Pb.UserLogoutRequest Pb.UserLogoutResponse
  pub verify_token : Call S Pb.VerifyTokenRequest Pb.VerifyTokenResponse
  pub question_detail : Call S Pb.QuestionDetailRequest Pb.QuestionDetailResponse
  pub add_question : Call S Pb.AddQuestionRequest Pb.AddQuestionResponse
  pub update_question : Call S Pb.UpdateQuestionRequest Pb.UpdateQuestionResponse
  pub delete_question : Call S Pb.DeleteQuestionRequest Pb.DeleteQuestionResponse
  pub latest_question : Call S Pb.LatestQuestionRequest Pb.LatestQuestionResponse
  pub add_answer : Call S Pb.AddAnswerRequest Pb.AddAnswerResponse
  pub delete_answer : Call S Pb.DeleteAnswerRequest Pb.DeleteAnswerResponse
  pub update_answer : Call S Pb.UpdateAnswerRequest Pb.UpdateAnswerResponse
  pub answer_detail : Call S Pb.AnswerDetailRequest Pb.AnswerDetailResponse
  pub answer_list : Call S Pb.AnswerListRequest Pb.AnswerListResponse
  pub agree_answer : Call S Pb.AgreeAnswerRequest Pb.AgreeAnswerResponse

-- What the transport makes of a handler's failure; `panicked` is its status for a panic.
abbrev pub status_of : Status → Failure → Status
status_of panicked (status code message) = record { code = code; message = message }
status_of panicked (panic text) = panicked

abbrev pub serve : {R A B : Type 0} → Status → (A → Handler R B) → Call (World R) A B
serve panicked handler req = map_err (status_of panicked) (handler req)

-- qa-svc, reached without a failure of the transport.
abbrev pub qa_service : {R : Type 0} → Status → Env R → Client (World R)
qa_service panicked env = record {
  user_register = serve panicked (user_register env);
  user_login = serve panicked (user_login env);
  user_logout = serve panicked (user_logout env);
  verify_token = serve panicked (verify_token env);
  question_detail = serve panicked (question_detail env);
  add_question = serve panicked (add_question env);
  update_question = serve panicked (update_question env);
  delete_question = serve panicked (delete_question env);
  latest_question = serve panicked (latest_question env);
  add_answer = serve panicked (add_answer env);
  delete_answer = serve panicked (delete_answer env);
  update_answer = serve panicked (update_answer env);
  answer_detail = serve panicked (answer_detail env);
  answer_list = serve panicked (answer_list env);
  agree_answer = serve panicked (agree_answer env);
}
