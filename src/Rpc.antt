-- ===== src/Rpc.antt =====
-- crates/pb/src/pb.rs, the generated code of the gRPC service: the trait of the service here, the client in
-- Rpc.Stub and the server in Rpc.Server. The crates tonic and prost are the parameter `Tonic`, over types
-- for the bodies of messages, for sets of compression encodings and for the codec of a message.
pub mod Stub
pub mod Server
pub mod Reached
pub mod Remote
use qa_sys.Gateway.{Status}
use qa_sys.Gateway.Client.{Call, Client}
use qa_sys.Prelude.{Action, String, Result, Option, ℕ, List}
use qa_sys.Pb

-- The trait `QaService`, and the methods of `QaServiceClient`.
pub record QaService (S : Type 0) : Type 0 where
  pub user_login : Call S Pb.UserLoginRequest Pb.UserLoginResponse
  pub user_logout : Call S Pb.UserLogoutRequest Pb.UserLogoutResponse
  pub user_register : Call S Pb.UserRegisterRequest Pb.UserRegisterResponse
  pub verify_token : Call S Pb.VerifyTokenRequest Pb.VerifyTokenResponse
  pub add_question : Call S Pb.AddQuestionRequest Pb.AddQuestionResponse
  pub delete_question : Call S Pb.DeleteQuestionRequest Pb.DeleteQuestionResponse
  pub update_question : Call S Pb.UpdateQuestionRequest Pb.UpdateQuestionResponse
  pub add_answer : Call S Pb.AddAnswerRequest Pb.AddAnswerResponse
  pub delete_answer : Call S Pb.DeleteAnswerRequest Pb.DeleteAnswerResponse
  pub update_answer : Call S Pb.UpdateAnswerRequest Pb.UpdateAnswerResponse
  pub agree_answer : Call S Pb.AgreeAnswerRequest Pb.AgreeAnswerResponse
  pub question_detail : Call S Pb.QuestionDetailRequest Pb.QuestionDetailResponse
  pub latest_question : Call S Pb.LatestQuestionRequest Pb.LatestQuestionResponse
  pub answer_list : Call S Pb.AnswerListRequest Pb.AnswerListResponse
  pub answer_detail : Call S Pb.AnswerDetailRequest Pb.AnswerDetailResponse
  pub answer_agree : Call S Pb.AgreeAnswerRequest Pb.AgreeAnswerResponse

-- What the gateway uses of it.
abbrev pub used : {S : Type 0} → QaService S → Client S
used service = record {
  user_login = service.user_login;
  user_logout = service.user_logout;
  user_register = service.user_register;
  verify_token = service.verify_token;
  add_question = service.add_question;
  delete_question = service.delete_question;
  update_question = service.update_question;
  add_answer = service.add_answer;
  delete_answer = service.delete_answer;
  update_answer = service.update_answer;
  agree_answer = service.agree_answer;
  question_detail = service.question_detail;
  latest_question = service.latest_question;
  answer_list = service.answer_list;
  answer_detail = service.answer_detail;
}

-- A request as the server sees it: the path of its URI, and the body.
pub record RpcRequest (Frame : Type 0) : Type 0 where
  pub path : String
  pub body : Frame

pub record RpcResponse (Frame : Type 0) : Type 0 where
  pub headers : List (String × String)
  pub body : Frame

-- An HTTP service that always answers.
abbrev pub HttpService : Type 0 → Type 0 → Type 0
HttpService S Frame = RpcRequest Frame → S → RpcResponse Frame × S

-- The connection of a client: it may not be ready, or lose the request or the response.
pub record Channel (S Frame : Type 0) : Type 0 where
  pub ready : Action S String (Unit {0})
  pub send : RpcRequest Frame → Action S Status (RpcResponse Frame)

-- The settings that `Grpc` of tonic is given, on either side.
pub record GrpcConfig (Encodings : Type 0) : Type 0 where
  pub accept_compression_encodings : Encodings
  pub send_compression_encodings : Encodings
  pub max_decoding_message_size : Option ℕ
  pub max_encoding_message_size : Option ℕ

-- `Grpc::unary` of the client and of the server, for the codecs of the request and of the response.
pub record Tonic (S Frame Encodings Encoding : Type 0) (Prost : Type 0 → Type 0) : Type 1 where
  pub no_encodings : Encodings
  pub enable : Encodings → Encoding → Encodings
  pub empty_body : Frame
  pub client_unary :
      (A B : Type 0)
      → GrpcConfig Encodings
      → Prost A
      → Prost B
      → Channel S Frame
      → String
      → Call S A B
  pub server_unary :
      (A B : Type 0) → GrpcConfig Encodings → Prost A → Prost B → Call S A B → HttpService S Frame

-- `ProstCodec::default()` for the messages.
pub record Codecs (Prost : Type 0 → Type 0) : Type 0 where
  pub user_login_request : Prost Pb.UserLoginRequest
  pub user_login_response : Prost Pb.UserLoginResponse
  pub user_logout_request : Prost Pb.UserLogoutRequest
  pub user_logout_response : Prost Pb.UserLogoutResponse
  pub user_register_request : Prost Pb.UserRegisterRequest
  pub user_register_response : Prost Pb.UserRegisterResponse
  pub verify_token_request : Prost Pb.VerifyTokenRequest
  pub verify_token_response : Prost Pb.VerifyTokenResponse
  pub add_question_request : Prost Pb.AddQuestionRequest
  pub add_question_response : Prost Pb.AddQuestionResponse
  pub delete_question_request : Prost Pb.DeleteQuestionRequest
  pub delete_question_response : Prost Pb.DeleteQuestionResponse
  pub update_question_request : Prost Pb.UpdateQuestionRequest
  pub update_question_response : Prost Pb.UpdateQuestionResponse
  pub add_answer_request : Prost Pb.AddAnswerRequest
  pub add_answer_response : Prost Pb.AddAnswerResponse
  pub delete_answer_request : Prost Pb.DeleteAnswerRequest
  pub delete_answer_response : Prost Pb.DeleteAnswerResponse
  pub update_answer_request : Prost Pb.UpdateAnswerRequest
  pub update_answer_response : Prost Pb.UpdateAnswerResponse
  pub agree_answer_request : Prost Pb.AgreeAnswerRequest
  pub agree_answer_response : Prost Pb.AgreeAnswerResponse
  pub question_detail_request : Prost Pb.QuestionDetailRequest
  pub question_detail_response : Prost Pb.QuestionDetailResponse
  pub latest_question_request : Prost Pb.LatestQuestionRequest
  pub latest_question_response : Prost Pb.LatestQuestionResponse
  pub answer_list_request : Prost Pb.AnswerListRequest
  pub answer_list_response : Prost Pb.AnswerListResponse
  pub answer_detail_request : Prost Pb.AnswerDetailRequest
  pub answer_detail_response : Prost Pb.AnswerDetailResponse
