-- ===== src/Gateway/Allowed.antt =====
-- What the calls of the service may do for a request of crates/gateway, in the name of its user.
use qa_sys.Prelude.Int.{u64_mod}
use qa_sys.Gateway.Handlers.{answer_of}
use qa_sys.Gateway.Requests.{AnswerAddRequest, AnswerAgreeRequest, answer_agree_failed}
use qa_sys.World.Keeps.{Keeps}
use qa_sys.Gateway.Client.{Client}
use qa_sys.Gateway.{Principal, GatewayError}
use qa_sys.Prelude.{Result, Option, ok, ℕ, String, some, err, none, ◌≡◌, [], ◌<◌}
use qa_sys.Pb

-- A vote that passes the checks, with an id that is a `u64`.
abbrev pub IsVote : AnswerAgreeRequest → Type 0
IsVote payload = (answer_agree_failed payload ≡ []) × (payload.id < u64_mod)

-- The calls that need no principal keep `P`, and those of a principal `p`, which carry its name or its
-- token, lead from `P` to `Q p`.
pub record Allows {S : Type 0} (P : S → Type 0) (Q : Principal → S → Type 0) (client : Client S)
    : Type 0 where
  pub user_register : (req : Pb.UserRegisterRequest) → Keeps P (client.user_register req)
  pub user_login : (req : Pb.UserLoginRequest) → Keeps P (client.user_login req)
  pub verify_token : (req : Pb.VerifyTokenRequest) → Keeps P (client.verify_token req)
  pub latest_question : (req : Pb.LatestQuestionRequest) → Keeps P (client.latest_question req)
  pub user_logout :
      (p : Principal) (s : S) → P s → Q p (client.user_logout (record { token = p.token }) s).1
  pub question_detail :
      (p : Principal) (id : ℕ) (s : S)
      → P s
      → Q p (client.question_detail (record { id = id; username = p.username }) s).1
  pub add_question :
      (p : Principal) (title content : String) (s : S)
      → P s
      → Q p
          (client.add_question
            (record { title = title; content = content; create_by = p.username })
            s).1
  pub update_question :
      (p : Principal) (id : ℕ) (title content : String) (s : S)
      → P s
      → Q p
          (client.update_question
            (record { id = id; title = title; content = content; update_by = p.username })
            s).1
  pub delete_question :
      (p : Principal) (id : ℕ) (s : S)
      → P s
      → Q p (client.delete_question (record { id = id; username = p.username }) s).1
  pub add_answer :
      (p : Principal) (payload : AnswerAddRequest) (s : S)
      → P s
      → Q p (client.add_answer (record { answer = some (answer_of payload p.username) }) s).1
  pub delete_answer :
      (p : Principal) (id : ℕ) (s : S)
      → P s
      → Q p (client.delete_answer (record { id = id; username = p.username }) s).1
  pub update_answer :
      (p : Principal) (id : ℕ) (content : String) (s : S)
      → P s
      → Q p
          (client.update_answer (record { id = id; content = content; username = p.username }) s).1
  pub answer_detail :
      (p : Principal) (id : ℕ) (s : S)
      → P s
      → Q p (client.answer_detail (record { id = id; username = p.username }) s).1
  pub answer_list :
      (p : Principal) (question_id page limit : ℕ) (s : S)
      → P s
      → Q p
          (client.answer_list
            (record {
              question_id = question_id;
              page = page;
              limit = limit;
              username = p.username;
            })
            s).1
  pub agree_answer :
      (p : Principal) (payload : AnswerAgreeRequest)
      → IsVote payload
      → (s : S) → P s
      → Q p
          (client.agree_answer
            (record { id = payload.id; create_by = p.username; action = payload.action })
            s).1

abbrev pub principal_of : Result GatewayError Principal → Option Principal
principal_of (ok principal) = some principal
principal_of (err e) = none

pub principal_of-ok :
    (r : Result GatewayError Principal) (p : Principal) → some p ≡ principal_of r → r ≡ ok p
principal_of-ok (ok q) p e = cc
principal_of-ok (err e') p e = cc
