-- ===== src/Rpc/Server.antt =====
-- The generated server `QaServiceServer` of crates/pb/src/pb.rs.
use qa_sys.Prelude.{ℕ, none, Option, some, ◌∷◌, String, if◌then◌else◌, [], str_eq}
use qa_sys.Rpc.{Tonic, QaService, RpcResponse, Codecs, HttpService, GrpcConfig}
use qa_sys.Pb

pub record QaServiceServer (S Encodings : Type 0) : Type 0 where
  pub inner : QaService S
  pub accept_compression_encodings : Encodings
  pub send_compression_encodings : Encodings
  pub max_decoding_message_size : Option ℕ
  pub max_encoding_message_size : Option ℕ

module _ {S Frame Encodings Encoding : Type 0} {Prost : Type 0 → Type 0}
    (tonic : Tonic S Frame Encodings Encoding Prost) where
  abbrev pub from_arc : QaService S → QaServiceServer S Encodings
  from_arc inner = record {
    inner = inner;
    accept_compression_encodings = tonic.no_encodings;
    send_compression_encodings = tonic.no_encodings;
    max_decoding_message_size = none;
    max_encoding_message_size = none;
  }

  abbrev pub accept_compressed :
      QaServiceServer S Encodings → Encoding → QaServiceServer S Encodings
  accept_compressed self encoding = record self {
    accept_compression_encodings = tonic.enable self.accept_compression_encodings encoding;
  }

  abbrev pub send_compressed : QaServiceServer S Encodings → Encoding → QaServiceServer S Encodings
  send_compressed self encoding = record self {
    send_compression_encodings = tonic.enable self.send_compression_encodings encoding;
  }

  abbrev pub max_decoding_message_size :
      QaServiceServer S Encodings → ℕ → QaServiceServer S Encodings
  max_decoding_message_size self limit = record self { max_decoding_message_size = some limit }

  abbrev pub max_encoding_message_size :
      QaServiceServer S Encodings → ℕ → QaServiceServer S Encodings
  max_encoding_message_size self limit = record self { max_encoding_message_size = some limit }

  -- The response for a path that no method has: the status `Unimplemented`.
  abbrev pub unimplemented : RpcResponse Frame
  unimplemented = record {
    headers = ("grpc-status", "12") ∷ ("content-type", "application/grpc") ∷ [];
    body = tonic.empty_body;
  }

  module _ (codecs : Codecs Prost) (self : QaServiceServer S Encodings) where
    -- The settings that every arm applies to its `Grpc`.
    abbrev pub server_config : GrpcConfig Encodings
    server_config = record {
      accept_compression_encodings = self.accept_compression_encodings;
      send_compression_encodings = self.send_compression_encodings;
      max_decoding_message_size = self.max_decoding_message_size;
      max_encoding_message_size = self.max_encoding_message_size;
    }

    abbrev pub user_login_svc : HttpService S Frame
    user_login_svc =
        tonic.server_unary Pb.UserLoginRequest Pb.UserLoginResponse server_config
          codecs.user_login_request codecs.user_login_response self.inner.user_login

    abbrev pub user_logout_svc : HttpService S Frame
    user_logout_svc =
        tonic.server_unary Pb.UserLogoutRequest Pb.UserLogoutResponse server_config
          codecs.user_logout_request codecs.user_logout_response self.inner.user_logout

    abbrev pub user_register_svc : HttpService S Frame
    user_register_svc =
        tonic.server_unary Pb.UserRegisterRequest Pb.UserRegisterResponse server_config
          codecs.user_register_request codecs.user_register_response self.inner.user_register

    abbrev pub verify_token_svc : HttpService S Frame
    verify_token_svc =
        tonic.server_unary Pb.VerifyTokenRequest Pb.VerifyTokenResponse server_config
          codecs.verify_token_request codecs.verify_token_response self.inner.verify_token

    abbrev pub add_question_svc : HttpService S Frame
    add_question_svc =
        tonic.server_unary Pb.AddQuestionRequest Pb.AddQuestionResponse server_config
          codecs.add_question_request codecs.add_question_response self.inner.add_question

    abbrev pub delete_question_svc : HttpService S Frame
    delete_question_svc =
        tonic.server_unary Pb.DeleteQuestionRequest Pb.DeleteQuestionResponse server_config
          codecs.delete_question_request codecs.delete_question_response self.inner.delete_question

    abbrev pub update_question_svc : HttpService S Frame
    update_question_svc =
        tonic.server_unary Pb.UpdateQuestionRequest Pb.UpdateQuestionResponse server_config
          codecs.update_question_request codecs.update_question_response self.inner.update_question

    abbrev pub add_answer_svc : HttpService S Frame
    add_answer_svc =
        tonic.server_unary Pb.AddAnswerRequest Pb.AddAnswerResponse server_config
          codecs.add_answer_request codecs.add_answer_response self.inner.add_answer

    abbrev pub delete_answer_svc : HttpService S Frame
    delete_answer_svc =
        tonic.server_unary Pb.DeleteAnswerRequest Pb.DeleteAnswerResponse server_config
          codecs.delete_answer_request codecs.delete_answer_response self.inner.delete_answer

    abbrev pub update_answer_svc : HttpService S Frame
    update_answer_svc =
        tonic.server_unary Pb.UpdateAnswerRequest Pb.UpdateAnswerResponse server_config
          codecs.update_answer_request codecs.update_answer_response self.inner.update_answer

    abbrev pub agree_answer_svc : HttpService S Frame
    agree_answer_svc =
        tonic.server_unary Pb.AgreeAnswerRequest Pb.AgreeAnswerResponse server_config
          codecs.agree_answer_request codecs.agree_answer_response self.inner.agree_answer

    abbrev pub question_detail_svc : HttpService S Frame
    question_detail_svc =
        tonic.server_unary Pb.QuestionDetailRequest Pb.QuestionDetailResponse server_config
          codecs.question_detail_request codecs.question_detail_response self.inner.question_detail

    abbrev pub latest_question_svc : HttpService S Frame
    latest_question_svc =
        tonic.server_unary Pb.LatestQuestionRequest Pb.LatestQuestionResponse server_config
          codecs.latest_question_request codecs.latest_question_response self.inner.latest_question

    abbrev pub answer_list_svc : HttpService S Frame
    answer_list_svc =
        tonic.server_unary Pb.AnswerListRequest Pb.AnswerListResponse server_config
          codecs.answer_list_request codecs.answer_list_response self.inner.answer_list

    abbrev pub answer_detail_svc : HttpService S Frame
    answer_detail_svc =
        tonic.server_unary Pb.AnswerDetailRequest Pb.AnswerDetailResponse server_config
          codecs.answer_detail_request codecs.answer_detail_response self.inner.answer_detail

    abbrev pub answer_agree_svc : HttpService S Frame
    answer_agree_svc =
        tonic.server_unary Pb.AgreeAnswerRequest Pb.AgreeAnswerResponse server_config
          codecs.agree_answer_request codecs.agree_answer_response self.inner.answer_agree

    -- The arms of `call`, by the path.
    unfoldable pub dispatch : String → HttpService S Frame
    dispatch path req s =
        if str_eq path "/pb.QAService/UserLogin"
        then user_login_svc req s
        else if str_eq path "/pb.QAService/UserLogout"
        then user_logout_svc req s
        else if str_eq path "/pb.QAService/UserRegister"
        then user_register_svc req s
        else if str_eq path "/pb.QAService/VerifyToken"
        then verify_token_svc req s
        else if str_eq path "/pb.QAService/AddQuestion"
        then add_question_svc req s
        else if str_eq path "/pb.QAService/DeleteQuestion"
        then delete_question_svc req s
        else if str_eq path "/pb.QAService/UpdateQuestion"
        then update_question_svc req s
        else if str_eq path "/pb.QAService/AddAnswer"
        then add_answer_svc req s
        else if str_eq path "/pb.QAService/DeleteAnswer"
        then delete_answer_svc req s
        else if str_eq path "/pb.QAService/UpdateAnswer"
        then update_answer_svc req s
        else if str_eq path "/pb.QAService/AgreeAnswer"
        then agree_answer_svc req s
        else if str_eq path "/pb.QAService/QuestionDetail"
        then question_detail_svc req s
        else if str_eq path "/pb.QAService/LatestQuestion"
        then latest_question_svc req s
        else if str_eq path "/pb.QAService/AnswerList"
        then answer_list_svc req s
        else if str_eq path "/pb.QAService/AnswerDetail"
        then answer_detail_svc req s
        else if str_eq path "/pb.QAService/AnswerAgree"
        then answer_agree_svc req s
        else (unimplemented, s)

    abbrev pub serve_http : HttpService S Frame
    serve_http req = dispatch req.path req
