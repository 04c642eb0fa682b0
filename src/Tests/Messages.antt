-- ===== src/Tests/Messages.antt =====
-- Messages and codecs for a run of the generated client and server.
use qa_sys.Prelude.{Option, some, ◌≡◌, none, refl}
use qa_sys.Pb
use qa_sys.Rpc.{Codecs}

-- An encoded message.
pub data Message : Type 0 where
  user_login_request : Pb.UserLoginRequest → Message
  user_login_response : Pb.UserLoginResponse → Message
  user_logout_request : Pb.UserLogoutRequest → Message
  user_logout_response : Pb.UserLogoutResponse → Message
  user_register_request : Pb.UserRegisterRequest → Message
  user_register_response : Pb.UserRegisterResponse → Message
  verify_token_request : Pb.VerifyTokenRequest → Message
  verify_token_response : Pb.VerifyTokenResponse → Message
  add_question_request : Pb.AddQuestionRequest → Message
  add_question_response : Pb.AddQuestionResponse → Message
  delete_question_request : Pb.DeleteQuestionRequest → Message
  delete_question_response : Pb.DeleteQuestionResponse → Message
  update_question_request : Pb.UpdateQuestionRequest → Message
  update_question_response : Pb.UpdateQuestionResponse → Message
  add_answer_request : Pb.AddAnswerRequest → Message
  add_answer_response : Pb.AddAnswerResponse → Message
  delete_answer_request : Pb.DeleteAnswerRequest → Message
  delete_answer_response : Pb.DeleteAnswerResponse → Message
  update_answer_request : Pb.UpdateAnswerRequest → Message
  update_answer_response : Pb.UpdateAnswerResponse → Message
  agree_answer_request : Pb.AgreeAnswerRequest → Message
  agree_answer_response : Pb.AgreeAnswerResponse → Message
  question_detail_request : Pb.QuestionDetailRequest → Message
  question_detail_response : Pb.QuestionDetailResponse → Message
  latest_question_request : Pb.LatestQuestionRequest → Message
  latest_question_response : Pb.LatestQuestionResponse → Message
  answer_list_request : Pb.AnswerListRequest → Message
  answer_list_response : Pb.AnswerListResponse → Message
  answer_detail_request : Pb.AnswerDetailRequest → Message
  answer_detail_response : Pb.AnswerDetailResponse → Message

-- A codec that reads what it has written.
pub record Prost (A : Type 0) : Type 0 where
  pub encode : A → Message
  pub decode : Message → Option A
  pub back : (a : A) → decode (encode a) ≡ some a

abbrev read_user_login_request : Message → Option Pb.UserLoginRequest
read_user_login_request (Message.user_login_request a) = some a
read_user_login_request _ = none

abbrev read_user_login_response : Message → Option Pb.UserLoginResponse
read_user_login_response (Message.user_login_response a) = some a
read_user_login_response _ = none

abbrev read_user_logout_request : Message → Option Pb.UserLogoutRequest
read_user_logout_request (Message.user_logout_request a) = some a
read_user_logout_request _ = none

abbrev read_user_logout_response : Message → Option Pb.UserLogoutResponse
read_user_logout_response (Message.user_logout_response a) = some a
read_user_logout_response _ = none

abbrev read_user_register_request : Message → Option Pb.UserRegisterRequest
read_user_register_request (Message.user_register_request a) = some a
read_user_register_request _ = none

abbrev read_user_register_response : Message → Option Pb.UserRegisterResponse
read_user_register_response (Message.user_register_response a) = some a
read_user_register_response _ = none

abbrev read_verify_token_request : Message → Option Pb.VerifyTokenRequest
read_verify_token_request (Message.verify_token_request a) = some a
read_verify_token_request _ = none

abbrev read_verify_token_response : Message → Option Pb.VerifyTokenResponse
read_verify_token_response (Message.verify_token_response a) = some a
read_verify_token_response _ = none

abbrev read_add_question_request : Message → Option Pb.AddQuestionRequest
read_add_question_request (Message.add_question_request a) = some a
read_add_question_request _ = none

abbrev read_add_question_response : Message → Option Pb.AddQuestionResponse
read_add_question_response (Message.add_question_response a) = some a
read_add_question_response _ = none

abbrev read_delete_question_request : Message → Option Pb.DeleteQuestionRequest
read_delete_question_request (Message.delete_question_request a) = some a
read_delete_question_request _ = none

abbrev read_delete_question_response : Message → Option Pb.DeleteQuestionResponse
read_delete_question_response (Message.delete_question_response a) = some a
read_delete_question_response _ = none

abbrev read_update_question_request : Message → Option Pb.UpdateQuestionRequest
read_update_question_request (Message.update_question_request a) = some a
read_update_question_request _ = none

abbrev read_update_question_response : Message → Option Pb.UpdateQuestionResponse
read_update_question_response (Message.update_question_response a) = some a
read_update_question_response _ = none

abbrev read_add_answer_request : Message → Option Pb.AddAnswerRequest
read_add_answer_request (Message.add_answer_request a) = some a
read_add_answer_request _ = none

abbrev read_add_answer_response : Message → Option Pb.AddAnswerResponse
read_add_answer_response (Message.add_answer_response a) = some a
read_add_answer_response _ = none

abbrev read_delete_answer_request : Message → Option Pb.DeleteAnswerRequest
read_delete_answer_request (Message.delete_answer_request a) = some a
read_delete_answer_request _ = none

abbrev read_delete_answer_response : Message → Option Pb.DeleteAnswerResponse
read_delete_answer_response (Message.delete_answer_response a) = some a
read_delete_answer_response _ = none

abbrev read_update_answer_request : Message → Option Pb.UpdateAnswerRequest
read_update_answer_request (Message.update_answer_request a) = some a
read_update_answer_request _ = none

abbrev read_update_answer_response : Message → Option Pb.UpdateAnswerResponse
read_update_answer_response (Message.update_answer_response a) = some a
read_update_answer_response _ = none

abbrev read_agree_answer_request : Message → Option Pb.AgreeAnswerRequest
read_agree_answer_request (Message.agree_answer_request a) = some a
read_agree_answer_request _ = none

abbrev read_agree_answer_response : Message → Option Pb.AgreeAnswerResponse
read_agree_answer_response (Message.agree_answer_response a) = some a
read_agree_answer_response _ = none

abbrev read_question_detail_request : Message → Option Pb.QuestionDetailRequest
read_question_detail_request (Message.question_detail_request a) = some a
read_question_detail_request _ = none

abbrev read_question_detail_response : Message → Option Pb.QuestionDetailResponse
read_question_detail_response (Message.question_detail_response a) = some a
read_question_detail_response _ = none

abbrev read_latest_question_request : Message → Option Pb.LatestQuestionRequest
read_latest_question_request (Message.latest_question_request a) = some a
read_latest_question_request _ = none

abbrev read_latest_question_response : Message → Option Pb.LatestQuestionResponse
read_latest_question_response (Message.latest_question_response a) = some a
read_latest_question_response _ = none

abbrev read_answer_list_request : Message → Option Pb.AnswerListRequest
read_answer_list_request (Message.answer_list_request a) = some a
read_answer_list_request _ = none

abbrev read_answer_list_response : Message → Option Pb.AnswerListResponse
read_answer_list_response (Message.answer_list_response a) = some a
read_answer_list_response _ = none

abbrev read_answer_detail_request : Message → Option Pb.AnswerDetailRequest
read_answer_detail_request (Message.answer_detail_request a) = some a
read_answer_detail_request _ = none

abbrev read_answer_detail_response : Message → Option Pb.AnswerDetailResponse
read_answer_detail_response (Message.answer_detail_response a) = some a
read_answer_detail_response _ = none

abbrev pub toy_codecs : Codecs Prost
toy_codecs = record {
  user_login_request = record {
    encode = Message.user_login_request;
    decode = read_user_login_request;
    back = λ a. refl;
  };
  user_login_response = record {
    encode = Message.user_login_response;
    decode = read_user_login_response;
    back = λ a. refl;
  };
  user_logout_request = record {
    encode = Message.user_logout_request;
    decode = read_user_logout_request;
    back = λ a. refl;
  };
  user_logout_response = record {
    encode = Message.user_logout_response;
    decode = read_user_logout_response;
    back = λ a. refl;
  };
  user_register_request = record {
    encode = Message.user_register_request;
    decode = read_user_register_request;
    back = λ a. refl;
  };
  user_register_response = record {
    encode = Message.user_register_response;
    decode = read_user_register_response;
    back = λ a. refl;
  };
  verify_token_request = record {
    encode = Message.verify_token_request;
    decode = read_verify_token_request;
    back = λ a. refl;
  };
  verify_token_response = record {
    encode = Message.verify_token_response;
    decode = read_verify_token_response;
    back = λ a. refl;
  };
  add_question_request = record {
    encode = Message.add_question_request;
    decode = read_add_question_request;
    back = λ a. refl;
  };
  add_question_response = record {
    encode = Message.add_question_response;
    decode = read_add_question_response;
    back = λ a. refl;
  };
  delete_question_request = record {
    encode = Message.delete_question_request;
    decode = read_delete_question_request;
    back = λ a. refl;
  };
  delete_question_response = record {
    encode = Message.delete_question_response;
    decode = read_delete_question_response;
    back = λ a. refl;
  };
  update_question_request = record {
    encode = Message.update_question_request;
    decode = read_update_question_request;
    back = λ a. refl;
  };
  update_question_response = record {
    encode = Message.update_question_response;
    decode = read_update_question_response;
    back = λ a. refl;
  };
  add_answer_request = record {
    encode = Message.add_answer_request;
    decode = read_add_answer_request;
    back = λ a. refl;
  };
  add_answer_response = record {
    encode = Message.add_answer_response;
    decode = read_add_answer_response;
    back = λ a. refl;
  };
  delete_answer_request = record {
    encode = Message.delete_answer_request;
    decode = read_delete_answer_request;
    back = λ a. refl;
  };
  delete_answer_response = record {
    encode = Message.delete_answer_response;
    decode = read_delete_answer_response;
    back = λ a. refl;
  };
  update_answer_request = record {
    encode = Message.update_answer_request;
    decode = read_update_answer_request;
    back = λ a. refl;
  };
  update_answer_response = record {
    encode = Message.update_answer_response;
    decode = read_update_answer_response;
    back = λ a. refl;
  };
  agree_answer_request = record {
    encode = Message.agree_answer_request;
    decode = read_agree_answer_request;
    back = λ a. refl;
  };
  agree_answer_response = record {
    encode = Message.agree_answer_response;
    decode = read_agree_answer_response;
    back = λ a. refl;
  };
  question_detail_request = record {
    encode = Message.question_detail_request;
    decode = read_question_detail_request;
    back = λ a. refl;
  };
  question_detail_response = record {
    encode = Message.question_detail_response;
    decode = read_question_detail_response;
    back = λ a. refl;
  };
  latest_question_request = record {
    encode = Message.latest_question_request;
    decode = read_latest_question_request;
    back = λ a. refl;
  };
  latest_question_response = record {
    encode = Message.latest_question_response;
    decode = read_latest_question_response;
    back = λ a. refl;
  };
  answer_list_request = record {
    encode = Message.answer_list_request;
    decode = read_answer_list_request;
    back = λ a. refl;
  };
  answer_list_response = record {
    encode = Message.answer_list_response;
    decode = read_answer_list_response;
    back = λ a. refl;
  };
  answer_detail_request = record {
    encode = Message.answer_detail_request;
    decode = read_answer_detail_request;
    back = λ a. refl;
  };
  answer_detail_response = record {
    encode = Message.answer_detail_response;
    decode = read_answer_detail_response;
    back = λ a. refl;
  };
}
