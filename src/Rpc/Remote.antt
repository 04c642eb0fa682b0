-- ===== src/Rpc/Remote.antt =====
-- The gateway in front of qa-svc behind the generated client and server, over a connection that may lose
-- requests and responses.
use qa_sys.System.Requests.{HasAsked, IsSound-Writes, HasTopic}
use qa_sys.System.Posting.{IsSound, IsSound-IsCalm}
use qa_sys.Votes.Consistency.{IsConsistent}
use qa_sys.System.Calm.{IsCalm}
use qa_sys.Gateway.Router.{Framework, api_router}
use qa_sys.Rpc.{Tonic, QaService, used, Codecs}
use qa_sys.Prelude.{Result, ◌≡◌, Bool, subst, String, ◌⊎◌, inl, ok, inr, sym, refl}
use qa_sys.Gateway.{Status, Principal, HttpRequest}
use qa_sys.Gateway.Client.{serve}
use qa_sys.Gateway.Allowed.{Allows, principal_of, principal_of-ok}
use qa_sys.Gateway.Effects.{api_router-Moved}
use qa_sys.Rpc.Reached.{
  Reached, refused, answered, lost, IsRemote, IsChannelTo, TonicLaws, methods-IsRemote,
}
use qa_sys.Rpc.Stub.{QaServiceClient, methods}
use qa_sys.Rpc.Server.{QaServiceServer, serve_http}
use qa_sys.Service.{Env}
use qa_sys.World.{World}
use qa_sys.Service.Posts.{
  add_question, delete_question, update_question, add_answer, delete_answer, update_answer,
}
use qa_sys.Service.Sessions.{user_login, user_logout, user_register, verify_token}
use qa_sys.Service.Reading.{question_detail, latest_question, answer_list, answer_detail}
use qa_sys.Service.Voting.{agree_answer, answer_agree}
use qa_sys.System.Served.{Writes, qa_service-Allows}
use qa_sys.Gateway.Auth.{authenticate}
use qa_sys.Gateway.Client.{Client}
use qa_sys.Gateway.Acts.{Moved, still, acted}

-- The implementation of the trait by `QaServiceImpl`; `panicked` is what the transport makes of a panic.
abbrev pub service_impl : {R : Type 0} → Status → Env R → QaService (World R)
service_impl panicked env = record {
  user_login = serve panicked (user_login env);
  user_logout = serve panicked (user_logout env);
  user_register = serve panicked (user_register env);
  verify_token = serve panicked (verify_token env);
  add_question = serve panicked (add_question env);
  delete_question = serve panicked (delete_question env);
  update_question = serve panicked (update_question env);
  add_answer = serve panicked (add_answer env);
  delete_answer = serve panicked (delete_answer env);
  update_answer = serve panicked (update_answer env);
  agree_answer = serve panicked (agree_answer env);
  question_detail = serve panicked (question_detail env);
  latest_question = serve panicked (latest_question env);
  answer_list = serve panicked (answer_list env);
  answer_detail = serve panicked (answer_detail env);
  answer_agree = serve panicked (answer_agree env);
}

module _ {S B : Type 0} (X : S → Type 0) where
  Reached_state :
      (answer : Result Status B × S) (s : S) (o : Result Status B × S)
      → Reached answer s o
      → X s
      → X answer.1
      → X o.1
  Reached_state answer s o (refused e same) before after = rw same before
  Reached_state answer s o (answered same) before after = rw same after
  Reached_state answer s o (lost e same) before after = rw same after

module _ {S : Type 0} (P : S → Type 0) (Q : Principal → S → Type 0)
    (idle : (p : Principal) (s : S) → P s → Q p s) (remote service : QaService S)
    (h : IsRemote remote service) where
  -- What the service allows, the remote service allows.
  IsRemote-Allows : Allows P Q (used service) → Allows P Q (used remote)
  IsRemote-Allows calls = record {
    user_register =
        λ req s p. Reached_state P _ s _ (h.user_register req s) p (calls.user_register req s p);
    user_login = λ req s p. Reached_state P _ s _ (h.user_login req s) p (calls.user_login req s p);
    verify_token =
        λ req s p. Reached_state P _ s _ (h.verify_token req s) p (calls.verify_token req s p);
    latest_question = λ req s p.
        Reached_state P _ s _ (h.latest_question req s) p (calls.latest_question req s p);
    user_logout = λ who s p.
        Reached_state (Q who) _ s _ (h.user_logout _ s) (idle who s p) (calls.user_logout who s p);
    question_detail = λ who id s p.
        Reached_state (Q who) _ s _ (h.question_detail _ s) (idle who s p)
          (calls.question_detail who id s p);
    add_question = λ who title content s p.
        Reached_state (Q who) _ s _ (h.add_question _ s) (idle who s p)
          (calls.add_question who title content s p);
    update_question = λ who id title content s p.
        Reached_state (Q who) _ s _ (h.update_question _ s) (idle who s p)
          (calls.update_question who id title content s p);
    delete_question = λ who id s p.
        Reached_state (Q who) _ s _ (h.delete_question _ s) (idle who s p)
          (calls.delete_question who id s p);
    add_answer = λ who payload s p.
        Reached_state (Q who) _ s _ (h.add_answer _ s) (idle who s p)
          (calls.add_answer who payload s p);
    delete_answer = λ who id s p.
        Reached_state (Q who) _ s _ (h.delete_answer _ s) (idle who s p)
          (calls.delete_answer who id s p);
    update_answer = λ who id content s p.
        Reached_state (Q who) _ s _ (h.update_answer _ s) (idle who s p)
          (calls.update_answer who id content s p);
    answer_detail = λ who id s p.
        Reached_state (Q who) _ s _ (h.answer_detail _ s) (idle who s p)
          (calls.answer_detail who id s p);
    answer_list = λ who question page limit s p.
        Reached_state (Q who) _ s _ (h.answer_list _ s) (idle who s p)
          (calls.answer_list who question page limit s p);
    agree_answer = λ who payload good s p.
        Reached_state (Q who) _ s _ (h.agree_answer _ s) (idle who s p)
          (calls.agree_answer who payload good s p);
  }

module _ {R Frame Encodings Encoding : Type 0} {Prost : Type 0 → Type 0}
    (tonic : Tonic (World R) Frame Encodings Encoding Prost) (laws : TonicLaws tonic)
    (codecs : Codecs Prost) (client : QaServiceClient (World R) Frame Encodings)
    (server : QaServiceServer (World R) Encodings)
    (connected : IsChannelTo client.channel (serve_http tonic codecs server)) (panicked : Status)
    (env : Env R) (served : server.inner ≡ service_impl panicked env) where
  abbrev pub remote_service : Client (World R)
  remote_service = used (methods tonic codecs client)

  -- The service as the gateway sees it allows what the service itself allows.
  remote-Allows :
      (P : World R → Type 0) (Q : Principal → World R → Type 0)
      → IsCalm P
      → Writes env P Q
      → Allows P Q remote_service
  remote-Allows P Q calm writes =
      IsRemote-Allows P Q writes.idle (methods tonic codecs client) (service_impl panicked env)
        (subst (IsRemote (methods tonic codecs client)) served
          (methods-IsRemote tonic laws codecs client server connected))
        (qa_service-Allows panicked env P Q calm writes)

  module _ (lib : Framework) (timed_out : Bool) (request_id : String) (req : HttpRequest)
      (w : World R) where
    abbrev after : World R
    after = (api_router lib remote_service timed_out request_id req w).1

    abbrev HasLanded : Type 0
    HasLanded =
        IsConsistent after.db
        × ((after.published ≡ w.published)
            ⊎ ((p : Principal) × ((authenticate remote_service timed_out request_id req w).0 ≡ ok p)
                × HasTopic env w.published p after.published))

    landed :
        Moved
          (IsSound (IsConsistent w.db) w.published)
          (HasAsked env (IsConsistent w.db) w.published)
          (principal_of (authenticate remote_service timed_out request_id req w).0)
          after
        → IsConsistent w.db
        → HasLanded
    landed (still h) c = (h.0 c, inl h.1)
    landed (acted p e h) c = (h.0 c, inr (p, principal_of-ok _ p (sym e), h.1))

    -- With the generated client and server between the gateway and qa-svc, on a connection that
    -- may refuse or lose any call, consistent tables are still consistent after any HTTP request,
    -- and the vote topic is as it was or has exactly one message more: a vote "up" or "down" in
    -- the name of the user that the gateway authenticated for this request, on the answer whose id
    -- is the `i64` of an id from 1 to 2^64 - 1, so never on the answer 0.
    pub remote-HasLanded : IsConsistent w.db → HasLanded
    remote-HasLanded = landed (
        api_router-Moved lib remote_service (IsSound (IsConsistent w.db) w.published)
          (HasAsked env (IsConsistent w.db) w.published)
          (IsSound-Writes env (IsConsistent w.db) w.published).idle
          (remote-Allows _ _ (IsSound-IsCalm (IsConsistent w.db) w.published)
            (IsSound-Writes env (IsConsistent w.db) w.published))
          timed_out request_id req w ((λ ready. ready), refl))
