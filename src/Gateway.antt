-- ===== src/Gateway.antt =====
-- The HTTP gateway of crates/gateway: requests, responses and errors, which its modules share.
pub mod Client
pub mod Handlers
pub mod Auth
pub mod Router
pub mod Content
pub mod Requests
pub mod Validation
pub mod Access
pub mod Headers
pub mod Payloads
pub mod Acts
pub mod Allowed
pub mod Effects
use qa_sys.Prelude.Int.{ℤ, pos}
use qa_sys.Prelude.{List, Action, ℕ, Result, String, Option, [], none, Bool, ok, err}
use qa_sys.Service.{Code}
use qa_sys.Domain.{NaiveDateTime, epoch}

-- `tonic::Status`.
pub record Status : Type 0 where
  pub code : Code
  pub message : String

-- A header of a request: missing, not visible ASCII, or a text.
pub data Header : Type 0 where
  missing opaque : Header
  text : String → Header

pub record HttpRequest : Type 0 where
  pub method : String
  pub path : String
  pub authorization : Header
  pub content_type : Header
  pub content : String

-- `AuthenticatedPrincipal`.
pub record Principal : Type 0 where
  pub username : String
  pub token : String

pub record QuestionObject : Type 0 where
  pub id : ℤ
  pub title : String
  pub content : String
  pub created_by : String
  pub updated_by : String
  pub created_at : NaiveDateTime
  pub updated_at : Option NaiveDateTime
  pub read_count : ℤ
  pub reply_count : ℤ

abbrev pub default_question_object : QuestionObject
default_question_object = record {
  id = pos 0;
  title = "";
  content = "";
  created_by = "";
  updated_by = "";
  created_at = epoch;
  updated_at = none;
  read_count = pos 0;
  reply_count = pos 0;
}

pub record AnswerObject : Type 0 where
  pub id : ℤ
  pub question_id : ℤ
  pub content : String
  pub created_by : String
  pub updated_by : Option String
  pub created_at : NaiveDateTime
  pub updated_at : Option NaiveDateTime
  pub agree_count : ℤ

abbrev pub default_answer_object : AnswerObject
default_answer_object = record {
  id = pos 0;
  question_id = pos 0;
  content = "";
  created_by = "";
  updated_by = none;
  created_at = epoch;
  updated_at = none;
  agree_count = pos 0;
}

-- `AnswerLatestResponse`.
pub record AnswerPage : Type 0 where
  pub answers : List AnswerObject
  pub total : ℤ
  pub total_page : ℤ
  pub page_size : ℤ
  pub current_page : ℤ
  pub is_end : Bool

-- `LastestQuestReply`.
pub record QuestionPage : Type 0 where
  pub questions : List QuestionObject
  pub last_id : ℕ
  pub is_end : Bool

-- What a response carries: nothing, a text, or the JSON of a reply.
pub data Body : Type 0 where
  nothing : Body
  plain : String → Body
  reply : ℤ → String → Body
  state : ℤ → Body
  token : String → Body
  question_id : ℤ → Body
  answer_id : ℤ → Body
  question : Option QuestionObject → Body
  questions : QuestionPage → Body
  answer : Option AnswerObject → Body
  answers : AnswerPage → Body

pub record HttpResponse : Type 0 where
  pub status : ℕ
  pub headers : List (String × String)
  pub content : Body

abbrev pub response : ℕ → Body → HttpResponse
response status content = record { status = status; headers = []; content = content }

pub data GatewayError : Type 0 where
  internal_server_error bad_request not_found unauthorized forbidden : GatewayError
  validation_error : String → GatewayError
  grpc_error : Status → GatewayError

-- The HTTP status of a gRPC code.
unfoldable pub http_status : Code → ℕ
http_status Code.invalid_argument = 400
http_status Code.not_found = 404
http_status Code.unauthenticated = 401
http_status Code.permission_denied = 403
http_status _ = 500

-- `IntoResponse for GatewayError`.
unfoldable pub into_response : GatewayError → HttpResponse
unfolding http_status
into_response internal_server_error = response 500 (plain "Internal server error")
into_response bad_request = response 400 (plain "Bad request")
into_response not_found = response 404 (plain "Not found")
into_response unauthorized = response 401 (plain "Unauthorized")
into_response forbidden = response 403 (plain "Forbidden")
into_response (validation_error msg) = response 400 (plain msg)
into_response (grpc_error status) = response (http_status status.code) (plain status.message)

-- A handler, and an endpoint behind the middleware: the request and the principal, if there is one.
abbrev pub Handling : Type 0 → Type 0 → Type 0
Handling S A = Action S GatewayError A

abbrev pub Endpoint : Type 0 → Type 0
Endpoint S = HttpRequest → Option Principal → S → HttpResponse × S

-- `Ok(Json(reply))`, or the error as a response.
abbrev pub respond : {S : Type 0} → Result GatewayError Body × S → HttpResponse × S
respond (ok body, s) = (response 200 body, s)
respond (err e, s) = (into_response e, s)
