-- ===== src/Rpc/Stub.antt =====
-- The generated client `QaServiceClient` of crates/pb/src/pb.rs.
use qa_sys.Prelude.Strings.{format}
use qa_sys.Rpc.{Channel, Tonic, GrpcConfig, Codecs, QaService}
use qa_sys.Prelude.{String, none, ◌∷◌, ◌>>◌, [], map_err}
use qa_sys.Gateway.{Status}
use qa_sys.Gateway.Client.{Call}
use qa_sys.Service.{unknown}
use qa_sys.Pb

pub record QaServiceClient (S Frame Encodings : Type 0) : Type 0 where
  pub channel : Channel S Frame
  pub config : GrpcConfig Encodings

-- The status of a connection that is not ready.
abbrev pub not_ready : String → Status
not_ready text = record { code = unknown; message = format ("Service was not ready: " ∷ text ∷ []) }

module _ {S Frame Encodings Encoding : Type 0} {Prost : Type 0 → Type 0}
    (tonic : Tonic S Frame Encodings Encoding Prost) where
  abbrev pub new_client : Channel S Frame → QaServiceClient S Frame Encodings
  new_client channel = record {
    channel = channel;
    config = record {
      accept_compression_encodings = tonic.no_encodings;
      send_compression_encodings = tonic.no_encodings;
      max_decoding_message_size = none;
      max_encoding_message_size = none;
    };
  }

  module _ (codecs : Codecs Prost) (self : QaServiceClient S Frame Encodings) where
    -- The common steps of the methods: `ready`, then `unary` at the path of the method.
    abbrev pub unary_call : (A B : Type 0) → Prost A → Prost B → String → Call S A B
    unary_call A B request response path req = do
      map_err not_ready self.channel.ready
      tonic.client_unary A B self.config request response self.channel path req

    abbrev pub user_login : Call S Pb.UserLoginRequest Pb.UserLoginResponse
    user_login =
        unary_call Pb.UserLoginRequest Pb.UserLoginResponse codecs.user_login_request
          codecs.user_login_response "/pb.QAService/UserLogin"

    abbrev pub user_logout : Call S Pb.UserLogoutRequest Pb.UserLogoutResponse
    user_logout =
        unary_call Pb.UserLogoutRequest Pb.UserLogoutResponse codecs.user_logout_request
          codecs.user_logout_response "/pb.QAService/UserLogout"

    abbrev pub user_register : Call S Pb.UserRegisterRequest Pb.UserRegisterResponse
    user_register =
        unary_call Pb.UserRegisterRequest Pb.UserRegisterResponse codecs.user_register_request
          codecs.user_register_response "/pb.QAService/UserRegister"

    abbrev pub verify_token : Call S Pb.VerifyTokenRequest Pb.VerifyTokenResponse
    verify_token =
        unary_call Pb.VerifyTokenRequest Pb.VerifyTokenResponse codecs.verify_token_request
          codecs.verify_token_response "/pb.QAService/VerifyToken"

    abbrev pub add_question : Call S Pb.AddQuestionRequest Pb.AddQuestionResponse
    add_question =
        unary_call Pb.AddQuestionRequest Pb.AddQuestionResponse codecs.add_question_request
          codecs.add_question_response "/pb.QAService/AddQuestion"

    abbrev pub delete_question : Call S Pb.DeleteQuestionRequest Pb.DeleteQuestionResponse
    delete_question =
        unary_call Pb.DeleteQuestionRequest Pb.DeleteQuestionResponse codecs.delete_question_request
          codecs.delete_question_response "/pb.QAService/DeleteQuestion"

    abbrev pub update_question : Call S Pb.UpdateQuestionRequest Pb.UpdateQuestionResponse
    update_question =
        unary_call Pb.UpdateQuestionRequest Pb.UpdateQuestionResponse codecs.update_question_request
          codecs.update_question_response "/pb.QAService/UpdateQuestion"

    abbrev pub add_answer : Call S Pb.AddAnswerRequest Pb.AddAnswerResponse
    add_answer =
        unary_call Pb.AddAnswerRequest Pb.AddAnswerResponse codecs.add_answer_request
          codecs.add_answer_response "/pb.QAService/AddAnswer"

    abbrev pub delete_answer : Call S Pb.DeleteAnswerRequest Pb.DeleteAnswerResponse
    delete_answer =
        unary_call Pb.DeleteAnswerRequest Pb.DeleteAnswerResponse codecs.delete_answer_request
          codecs.delete_answer_response "/pb.QAService/DeleteAnswer"

    abbrev pub update_answer : Call S Pb.UpdateAnswerRequest Pb.UpdateAnswerResponse
    update_answer =
        unary_call Pb.UpdateAnswerRequest Pb.UpdateAnswerResponse codecs.update_answer_request
          codecs.update_answer_response "/pb.QAService/UpdateAnswer"

    abbrev pub agree_answer : Call S Pb.AgreeAnswerRequest Pb.AgreeAnswerResponse
    agree_answer =
        unary_call Pb.AgreeAnswerRequest Pb.AgreeAnswerResponse codecs.agree_answer_request
          codecs.agree_answer_response "/pb.QAService/AgreeAnswer"

    abbrev pub question_detail : Call S Pb.QuestionDetailRequest Pb.QuestionDetailResponse
    question_detail =
        unary_call Pb.QuestionDetailRequest Pb.QuestionDetailResponse codecs.question_detail_request
          codecs.question_detail_response "/pb.QAService/QuestionDetail"

    abbrev pub latest_question : Call S Pb.LatestQuestionRequest Pb.LatestQuestionResponse
    latest_question =
        unary_call Pb.LatestQuestionRequest Pb.LatestQuestionResponse codecs.latest_question_request
          codecs.latest_question_response "/pb.QAService/LatestQuestion"

    abbrev pub answer_list : Call S Pb.AnswerListRequest Pb.AnswerListResponse
    answer_list =
        unary_call Pb.AnswerListRequest Pb.AnswerListResponse codecs.answer_list_request
          codecs.answer_list_response "/pb.QAService/AnswerList"

    abbrev pub answer_detail : Call S Pb.AnswerDetailRequest Pb.AnswerDetailResponse
    answer_detail =
        unary_call Pb.AnswerDetailRequest Pb.AnswerDetailResponse codecs.answer_detail_request
          codecs.answer_detail_response "/pb.QAService/AnswerDetail"

    abbrev pub answer_agree : Call S Pb.AgreeAnswerRequest Pb.AgreeAnswerResponse
    answer_agree =
        unary_call Pb.AgreeAnswerRequest Pb.AgreeAnswerResponse codecs.agree_answer_request
          codecs.agree_answer_response "/pb.QAService/AnswerAgree"

    abbrev pub methods : QaService S
    methods = record {
      user_login = user_login;
      user_logout = user_logout;
      user_register = user_register;
      verify_token = verify_token;
      add_question = add_question;
      delete_question = delete_question;
      update_question = update_question;
      add_answer = add_answer;
      delete_answer = delete_answer;
      update_answer = update_answer;
      agree_answer = agree_answer;
      question_detail = question_detail;
      latest_question = latest_question;
      answer_list = answer_list;
      answer_detail = answer_detail;
      answer_agree = answer_agree;
    }
