-- ===== src/System/Served.antt =====
-- qa-svc as the gateway calls it: it is enough to know what the calls do that write posts or votes, since
-- the others keep every property that says nothing of the users, of Redis and of the outcomes to come.
use qa_sys.Gateway.Auth.{authenticate}
use qa_sys.Gateway.Handlers.{answer_of}
use qa_sys.Gateway.Router.{Framework, api_router}
use qa_sys.World.Keeps.{Keeps, map_err-Keeps}
use qa_sys.Gateway.Client.{qa_service, serve, status_of}
use qa_sys.System.Calm.{IsCalm}
use qa_sys.Prelude.{String, Result, ℕ, Bool, some, map_err_of, ◌≡◌, ok, err, refl}
use qa_sys.Gateway.{Principal, Status, HttpRequest}
use qa_sys.World.{World}
use qa_sys.Service.Posts.{
  add_question, delete_question, update_question, add_answer, delete_answer, update_answer,
}
use qa_sys.Service.Sessions.{user_login, user_logout, user_register, verify_token}
use qa_sys.Service.Reading.{question_detail, latest_question, answer_list, answer_detail}
use qa_sys.Service.Voting.{agree_answer}
use qa_sys.Pb
use qa_sys.System.Calls.{
  user_register-Keeps, user_login-Keeps, verify_token-Keeps, latest_question-Keeps,
  user_logout-Keeps, question_detail-Keeps, answer_detail-Keeps, answer_list-Keeps,
}
use qa_sys.Service.{Env, Handler}
use qa_sys.Gateway.Requests.{AnswerAddRequest, AnswerAgreeRequest}
use qa_sys.Gateway.Acts.{Moved}
use qa_sys.Gateway.Allowed.{Allows, principal_of, IsVote}
use qa_sys.Gateway.Effects.{api_router-Moved}

-- What the calls that write posts or votes do for a principal.
pub record Writes {R : Type 0} (env : Env R) (P : World R → Type 0)
    (Q : Principal → World R → Type 0) : Type 0 where
  pub idle : (p : Principal) (w : World R) → P w → Q p w
  pub add_question :
      (p : Principal) (title content : String) (w : World R)
      → P w
      → Q p
          (add_question env
            (record { title = title; content = content; create_by = p.username })
            w).1
  pub update_question :
      (p : Principal) (id : ℕ) (title content : String) (w : World R)
      → P w
      → Q p
          (update_question env
            (record { id = id; title = title; content = content; update_by = p.username })
            w).1
  pub delete_question :
      (p : Principal) (id : ℕ) (w : World R)
      → P w
      → Q p (delete_question env (record { id = id; username = p.username }) w).1
  pub add_answer :
      (p : Principal) (payload : AnswerAddRequest) (w : World R)
      → P w
      → Q p (add_answer env (record { answer = some (answer_of payload p.username) }) w).1
  pub delete_answer :
      (p : Principal) (id : ℕ) (w : World R)
      → P w
      → Q p (delete_answer env (record { id = id; username = p.username }) w).1
  pub update_answer :
      (p : Principal) (id : ℕ) (content : String) (w : World R)
      → P w
      → Q p (update_answer env (record { id = id; content = content; username = p.username }) w).1
  pub agree_answer :
      (p : Principal) (payload : AnswerAgreeRequest)
      → IsVote payload
      → (w : World R) → P w
      → Q p
          (agree_answer env
            (record { id = payload.id; create_by = p.username; action = payload.action })
            w).1

module _ {R : Type 0} (panicked : Status) (env : Env R) (P : World R → Type 0)
    (Q : Principal → World R → Type 0) (calm : IsCalm P) (writes : Writes env P Q) where
  served_state : {E F A : Type 0} (f : E → F) (o : Result E A × World R) → (map_err_of f o).1 ≡ o.1
  served_state f (ok a, w) = refl
  served_state f (err e, w) = refl

  served :
      {A B : Type 0} (handler : A → Handler R B) (req : A)
      → Keeps P (handler req)
      → Keeps P (serve panicked handler req)
  served handler req h = map_err-Keeps P (status_of panicked) (handler req) h

  acting :
      {A B : Type 0} (p : Principal) (handler : A → Handler R B) (req : A) (w : World R)
      → Q p (handler req w).1
      → Q p (serve panicked handler req w).1
  acting p handler req w h = rw (served_state (status_of panicked) (handler req w)) h

  -- A call for a user that only reads, or writes to the session store or the read counts.
  resting :
      {A B : Type 0} (p : Principal) (handler : A → Handler R B) (req : A)
      → Keeps P (handler req)
      → (w : World R) → P w
      → Q p (serve panicked handler req w).1
  resting p handler req h w q = acting p handler req w (writes.idle p (handler req w).1 (h w q))

  pub qa_service-Allows : Allows P Q (qa_service panicked env)
  qa_service-Allows = record {
    user_register = λ req. served (user_register env) req (user_register-Keeps env P calm req);
    user_login = λ req. served (user_login env) req (user_login-Keeps env P calm req);
    verify_token = λ req. served (verify_token env) req (verify_token-Keeps env P calm req);
    latest_question =
        λ req. served (latest_question env) req (latest_question-Keeps env P calm req);
    user_logout = λ p.
        let req : Pb.UserLogoutRequest = record { token = p.token } in
        resting p (user_logout env) req (user_logout-Keeps env P calm req);
    question_detail = λ p id.
        let req : Pb.QuestionDetailRequest = record { id = id; username = p.username } in
        resting p (question_detail env) req (question_detail-Keeps env P calm req);
    add_question = λ p title content w q.
        acting p (add_question env) _ w (writes.add_question p title content w q);
    update_question = λ p id title content w q.
        acting p (update_question env) _ w (writes.update_question p id title content w q);
    delete_question =
        λ p id w q. acting p (delete_question env) _ w (writes.delete_question p id w q);
    add_answer = λ p payload w q. acting p (add_answer env) _ w (writes.add_answer p payload w q);
    delete_answer = λ p id w q. acting p (delete_answer env) _ w (writes.delete_answer p id w q);
    update_answer = λ p id content w q.
        acting p (update_answer env) _ w (writes.update_answer p id content w q);
    answer_detail = λ p id.
        let req : Pb.AnswerDetailRequest = record { id = id; username = p.username } in
        resting p (answer_detail env) req (answer_detail-Keeps env P calm req);
    answer_list = λ p question page limit.
        let req : Pb.AnswerListRequest = record {
          question_id = question;
          page = page;
          limit = limit;
          username = p.username;
        } in
        resting p (answer_list env) req (answer_list-Keeps env P calm req);
    agree_answer = λ p payload good w q.
        acting p (agree_answer env) _ w (writes.agree_answer p payload good w q);
  }

  -- A request through the gateway to the service.
  pub request-Moved :
      (lib : Framework) (timed_out : Bool) (request_id : String) (req : HttpRequest) (w : World R)
      → P w
      → Moved P Q
          (principal_of (authenticate (qa_service panicked env) timed_out request_id req w).0)
          (api_router lib (qa_service panicked env) timed_out request_id req w).1
  request-Moved lib timed_out request_id req w q =
      api_router-Moved lib (qa_service panicked env) P Q writes.idle qa_service-Allows timed_out
        request_id req w q
