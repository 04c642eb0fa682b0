-- ===== src/Rpc/Reached.antt =====
-- What a call of the generated client does when a channel connects it to the generated server.
use qa_sys.Rpc.{Tonic, Channel, QaService, GrpcConfig, Codecs, HttpService, RpcRequest}
use qa_sys.Gateway.{Status}
use qa_sys.Gateway.Client.{Call}
use qa_sys.Pb
use qa_sys.Rpc.Stub.{QaServiceClient, not_ready, methods, unary_call}
use qa_sys.Rpc.Server.{QaServiceServer, dispatch, serve_http, server_config}
use qa_sys.Prelude.{
  Result, ok, err, ◌≡◌, refl, ap, String, map_err_of, continue, Action, str_eq, ◌∙◌,
}

-- What a call of a method ends in: an error before the service has seen the request, the answer of the
-- service, or an error after the service has handled the request, once.
pub data Reached {S B : Type 0} (answer : Result Status B × S) (s : S) (o : Result Status B × S)
    : Type 0 where
  refused : (e : Status) → o ≡ (err e, s) → Reached answer s o
  answered : o ≡ answer → Reached answer s o
  lost : (e : Status) → o ≡ (err e, answer.1) → Reached answer s o

-- A channel to a server: asking whether it is ready changes nothing there, and a request reaches the
-- server at most once.
pub record IsChannelTo {S Frame : Type 0} (channel : Channel S Frame) (h : HttpService S Frame)
    : Type 0 where
  pub ready : (s : S) → (channel.ready s).1 ≡ s
  pub send :
      (req : RpcRequest Frame) (s : S)
      → Reached (ok (h req s).0, (h req s).1) s (channel.send req s)

-- What tonic documents of a unary call over such a channel, to a server that answers the requests at the
-- path of the call by `unary` with a method and the same codecs. Its settings may refuse a message.
pub record TonicLaws {S Frame Encodings Encoding : Type 0} {Prost : Type 0 → Type 0}
    (tonic : Tonic S Frame Encodings Encoding Prost) : Type 1 where
  pub unary :
      (A B : Type 0) (request : Prost A) (response : Prost B) (c d : GrpcConfig Encodings)
      (channel : Channel S Frame) (h : HttpService S Frame) (path : String) (method : Call S A B)
      → IsChannelTo channel h
      → ((r : RpcRequest Frame)
          → r.path ≡ path
          → h r ≡ tonic.server_unary A B d request response method r)
      → (req : A) (s : S)
      → Reached (method req s) s (tonic.client_unary A B c request response channel path req s)

-- Every method of one service ends in what the other answers, or in an error.
pub record IsRemote {S : Type 0} (remote service : QaService S) : Type 0 where
  pub user_login :
      (req : Pb.UserLoginRequest) (s : S)
      → Reached (service.user_login req s) s (remote.user_login req s)
  pub user_logout :
      (req : Pb.UserLogoutRequest) (s : S)
      → Reached (service.user_logout req s) s (remote.user_logout req s)
  pub user_register :
      (req : Pb.UserRegisterRequest) (s : S)
      → Reached (service.user_register req s) s (remote.user_register req s)
  pub verify_token :
      (req : Pb.VerifyTokenRequest) (s : S)
      → Reached (service.verify_token req s) s (remote.verify_token req s)
  pub add_question :
      (req : Pb.AddQuestionRequest) (s : S)
      → Reached (service.add_question req s) s (remote.add_question req s)
  pub delete_question :
      (req : Pb.DeleteQuestionRequest) (s : S)
      → Reached (service.delete_question req s) s (remote.delete_question req s)
  pub update_question :
      (req : Pb.UpdateQuestionRequest) (s : S)
      → Reached (service.update_question req s) s (remote.update_question req s)
  pub add_answer :
      (req : Pb.AddAnswerRequest) (s : S)
      → Reached (service.add_answer req s) s (remote.add_answer req s)
  pub delete_answer :
      (req : Pb.DeleteAnswerRequest) (s : S)
      → Reached (service.delete_answer req s) s (remote.delete_answer req s)
  pub update_answer :
      (req : Pb.UpdateAnswerRequest) (s : S)
      → Reached (service.update_answer req s) s (remote.update_answer req s)
  pub agree_answer :
      (req : Pb.AgreeAnswerRequest) (s : S)
      → Reached (service.agree_answer req s) s (remote.agree_answer req s)
  pub question_detail :
      (req : Pb.QuestionDetailRequest) (s : S)
      → Reached (service.question_detail req s) s (remote.question_detail req s)
  pub latest_question :
      (req : Pb.LatestQuestionRequest) (s : S)
      → Reached (service.latest_question req s) s (remote.latest_question req s)
  pub answer_list :
      (req : Pb.AnswerListRequest) (s : S)
      → Reached (service.answer_list req s) s (remote.answer_list req s)
  pub answer_detail :
      (req : Pb.AnswerDetailRequest) (s : S)
      → Reached (service.answer_detail req s) s (remote.answer_detail req s)
  pub answer_agree :
      (req : Pb.AgreeAnswerRequest) (s : S)
      → Reached (service.answer_agree req s) s (remote.answer_agree req s)

module _ {S Frame Encodings Encoding : Type 0} {Prost : Type 0 → Type 0}
    (tonic : Tonic S Frame Encodings Encoding Prost) (laws : TonicLaws tonic)
    (codecs : Codecs Prost) (client : QaServiceClient S Frame Encodings)
    (server : QaServiceServer S Encodings)
    (connected : IsChannelTo client.channel (serve_http tonic codecs server)) where
  after_ready :
      {B : Type 0} (answer : Result Status B × S) (s : S) (o : Result String (Unit {0}) × S)
      (rest : Action S Status B)
      → o.1 ≡ s
      → Reached answer s (rest s)
      → Reached answer s (continue (λ _. rest) (map_err_of not_ready o))
  after_ready answer s (ok tt, v) rest same h = rw same h
  after_ready answer s (err e, v) rest same h = refused (not_ready e) (rw same)

  unary_call-Reached :
      (A B : Type 0) (request : Prost A) (response : Prost B) (path : String) (method : Call S A B)
      → ((r : RpcRequest Frame)
          → dispatch tonic codecs server path r
            ≡ tonic.server_unary A B (server_config tonic codecs server) request response method r)
      → (req : A) (s : S)
      → Reached (method req s) s (unary_call tonic codecs client A B request response path req s)
  unary_call-Reached A B request response path method arm req s =
      after_ready (method req s) s (client.channel.ready s) _ (connected.ready s) (
        laws.unary A B request response client.config (server_config tonic codecs server)
          client.channel (serve_http tonic codecs server) path method connected
          (λ r e. ap (λ p. dispatch tonic codecs server p r) e ∙ arm r) req s)

  -- Over a channel to the generated server, each of the sixteen methods of the generated client
  -- ends in one of three ways: an error and a service that has not changed; the answer of the
  -- method of the same name of the service; or an error after that method has handled the request
  -- once. The conditions are what tonic documents of one unary call over such a channel.
  pub methods-IsRemote : IsRemote (methods tonic codecs client) server.inner
  unfolding dispatch str_eq
  methods-IsRemote = record {
    user_login =
        unary_call-Reached Pb.UserLoginRequest Pb.UserLoginResponse codecs.user_login_request
          codecs.user_login_response "/pb.QAService/UserLogin" server.inner.user_login (λ r. refl);
    user_logout =
        unary_call-Reached Pb.UserLogoutRequest Pb.UserLogoutResponse codecs.user_logout_request
          codecs.user_logout_response "/pb.QAService/UserLogout" server.inner.user_logout
          (λ r. refl);
    user_register =
        unary_call-Reached Pb.UserRegisterRequest Pb.UserRegisterResponse
          codecs.user_register_request codecs.user_register_response "/pb.QAService/UserRegister"
          server.inner.user_register (λ r. refl);
    verify_token =
        unary_call-Reached Pb.VerifyTokenRequest Pb.VerifyTokenResponse codecs.verify_token_request
          codecs.verify_token_response "/pb.QAService/VerifyToken" server.inner.verify_token
          (λ r. refl);
    add_question =
        unary_call-Reached Pb.AddQuestionRequest Pb.AddQuestionResponse codecs.add_question_request
          codecs.add_question_response "/pb.QAService/AddQuestion" server.inner.add_question
          (λ r. refl);
    delete_question =
        unary_call-Reached Pb.DeleteQuestionRequest Pb.DeleteQuestionResponse
          codecs.delete_question_request codecs.delete_question_response
          "/pb.QAService/DeleteQuestion" server.inner.delete_question (λ r. refl);
    update_question =
        unary_call-Reached Pb.UpdateQuestionRequest Pb.UpdateQuestionResponse
          codecs.update_question_request codecs.update_question_response
          "/pb.QAService/UpdateQuestion" server.inner.update_question (λ r. refl);
    add_answer =
        unary_call-Reached Pb.AddAnswerRequest Pb.AddAnswerResponse codecs.add_answer_request
          codecs.add_answer_response "/pb.QAService/AddAnswer" server.inner.add_answer (λ r. refl);
    delete_answer =
        unary_call-Reached Pb.DeleteAnswerRequest Pb.DeleteAnswerResponse
          codecs.delete_answer_request codecs.delete_answer_response "/pb.QAService/DeleteAnswer"
          server.inner.delete_answer (λ r. refl);
    update_answer =
        unary_call-Reached Pb.UpdateAnswerRequest Pb.UpdateAnswerResponse
          codecs.update_answer_request codecs.update_answer_response "/pb.QAService/UpdateAnswer"
          server.inner.update_answer (λ r. refl);
    agree_answer =
        unary_call-Reached Pb.AgreeAnswerRequest Pb.AgreeAnswerResponse codecs.agree_answer_request
          codecs.agree_answer_response "/pb.QAService/AgreeAnswer" server.inner.agree_answer
          (λ r. refl);
    question_detail =
        unary_call-Reached Pb.QuestionDetailRequest Pb.QuestionDetailResponse
          codecs.question_detail_request codecs.question_detail_response
          "/pb.QAService/QuestionDetail" server.inner.question_detail (λ r. refl);
    latest_question =
        unary_call-Reached Pb.LatestQuestionRequest Pb.LatestQuestionResponse
          codecs.latest_question_request codecs.latest_question_response
          "/pb.QAService/LatestQuestion" server.inner.latest_question (λ r. refl);
    answer_list =
        unary_call-Reached Pb.AnswerListRequest Pb.AnswerListResponse codecs.answer_list_request
          codecs.answer_list_response "/pb.QAService/AnswerList" server.inner.answer_list
          (λ r. refl);
    answer_detail =
        unary_call-Reached Pb.AnswerDetailRequest Pb.AnswerDetailResponse
          codecs.answer_detail_request codecs.answer_detail_response "/pb.QAService/AnswerDetail"
          server.inner.answer_detail (λ r. refl);
    answer_agree =
        unary_call-Reached Pb.AgreeAnswerRequest Pb.AgreeAnswerResponse codecs.agree_answer_request
          codecs.agree_answer_response "/pb.QAService/AnswerAgree" server.inner.answer_agree
          (λ r. refl);
  }
