-- ===== src/Gateway/Router.antt =====
-- crates/gateway/src/router.rs: the routes and the layers of `api_router`.
use qa_sys.Prelude.Int.{pos, u64_mod}
use qa_sys.Prelude.{
  List, String, Bool, Option, some, Result, if◌then◌else◌, ◌∷◌, none, err, ◌++◌, str_eq, ok, [],
  ◌≡◌, ◌⊎◌, ◌<◌,
}
use qa_sys.Gateway.Content.{Payload, Rejection, from_request, rejection_response}
use qa_sys.Gateway.Requests
use qa_sys.Gateway.Handlers
use qa_sys.Gateway.Client.{Client}
use qa_sys.Gateway.Auth.{verify_token, no_cache_header}
use qa_sys.Gateway.{
  HttpRequest, HttpResponse, Principal, Endpoint, Handling, Body, respond, response, reply,
}
use Prim.Native.String.{len, slice}
use text.Mathlib.Text

pub data RouteMethod : Type 0 where
  get post : RouteMethod

-- What axum, serde and validator do: which methods a route takes and what it answers to others, the
-- answer to a missing extension, how payloads are read, addresses tested and errors written.
pub record Framework : Type 0 where
  pub accepts : RouteMethod → String → Bool
  pub method_refused : RouteMethod → HttpResponse
  pub missing_extension : HttpResponse
  pub errors_text : List (String × String) → String
  pub is_email : String → Bool
  pub register : Payload Requests.RegisterRequest
  pub login : Payload Requests.LoginRequest
  pub logout : Payload Requests.LogoutRequest
  pub question : Payload Requests.QuestionRequest
  pub add_quest : Payload Requests.AddQuestRequest
  pub update_quest : Payload Requests.UpdateQuestRequest
  pub delete_quest : Payload Requests.DeleteQuestRequest
  pub lastest_quest : Payload Requests.LastestQuestRequest
  pub answer_add : Payload Requests.AnswerAddRequest
  pub answer_delete : Payload Requests.AnswerDeleteRequest
  pub answer_update : Payload Requests.AnswerUpdateRequest
  pub find_answer : Payload Requests.FindAnswerRequest
  pub answer_lastest : Payload Requests.AnswerLastestRequest
  pub answer_agree : Payload Requests.AnswerAgreeRequest
  -- serde reads the id of a vote as a `u64`.
  pub agree_id :
      (req : HttpRequest) (a : Requests.AnswerAgreeRequest)
      → (answer_agree.json req ≡ some a) ⊎ (answer_agree.form req ≡ some a)
      → a.id < u64_mod

pub record Route (S : Type 0) : Type 0 where
  pub path : String
  pub method : RouteMethod
  pub run : Endpoint S

unfoldable pub api_not_found : {S : Type 0} → Endpoint S
api_not_found req principal s = (response 404 (reply (pos 404) "api not found"), s)

unfoldable pub method_not_found : {S : Type 0} → Endpoint S
method_not_found req principal s = (response 405 (reply (pos 405) "method not allowed"), s)

-- `nest("/api", …)`: the path that the nested router sees.
unfoldable pub nested_path : String → Option String
nested_path path =
    if str_eq path "/api"
    then some "/"
    else if Text.starts_with path "/api/"
    then some (slice path 4 (len path))
    else none

module _ {S : Type 0} (lib : Framework) where
  abbrev pub plain_route : Handling S Body → Endpoint S
  plain_route handler req principal s = respond (handler s)

  abbrev pub on_payload :
      {A : Type 0} → (A → Handling S Body) → Result Rejection A → S → HttpResponse × S
  on_payload handler (err r) s = (rejection_response r, s)
  on_payload handler (ok a) s = respond (handler a s)

  -- A handler that takes the payload alone.
  abbrev pub open_route :
      {A : Type 0} → Payload A → (A → Requests.Checks) → (A → Handling S Body) → Endpoint S
  open_route p failed handler req principal s =
      on_payload handler (from_request lib.errors_text p failed req) s

  -- A handler that takes the principal, then the payload.
  abbrev pub closed_route :
      {A : Type 0}
      → Payload A
      → (A → Requests.Checks)
      → (Principal → A → Handling S Body)
      → Endpoint S
  closed_route p failed handler req none s = (lib.missing_extension, s)
  closed_route p failed handler req (some principal) s =
      on_payload (handler principal) (from_request lib.errors_text p failed req) s

  abbrev pub routed : Endpoint S → List (Route S) → String → Endpoint S
  routed fallback [] path req principal s = fallback req principal s
  routed fallback (r ∷ rs) path req principal s =
      if str_eq r.path path
      then (if lib.accepts r.method req.method
          then r.run req principal s
          else (lib.method_refused r.method, s))
      else routed fallback rs path req principal s

  module _ (client : Client S) where
    abbrev pub get_route : String → Endpoint S → Route S
    get_route path run = record { path = path; method = get; run = run }

    abbrev pub post_route : String → Endpoint S → Route S
    post_route path run = record { path = path; method = post; run = run }

    unfoldable pub user_routes : List (Route S)
    user_routes =
        get_route "/home" (plain_route Handlers.root)
        ∷ get_route "/hello" (plain_route Handlers.hello)
        ∷ post_route "/user/register" (
            open_route lib.register (Requests.register_failed lib.is_email)
              (Handlers.user_register client))
        ∷ post_route "/user/login"
            (open_route lib.login Requests.login_failed (Handlers.user_login client))
        ∷ post_route "/user/logout"
            (closed_route lib.logout Requests.logout_failed (Handlers.user_logout client))
        ∷ []

    unfoldable pub question_routes : List (Route S)
    question_routes =
        post_route "/question/add"
          (closed_route lib.add_quest Requests.add_quest_failed (Handlers.question_add client))
        ∷ post_route "/question/detail"
            (closed_route lib.question Requests.question_failed (Handlers.question_detail client))
        ∷ post_route "/question/update" (
            closed_route lib.update_quest Requests.update_quest_failed
              (Handlers.question_update client))
        ∷ post_route "/question/delete" (
            closed_route lib.delete_quest Requests.delete_quest_failed
              (Handlers.question_delete client))
        ∷ post_route "/question/find_latest" (
            open_route lib.lastest_quest Requests.lastest_quest_failed
              (Handlers.question_find_latest client))
        ∷ []

    unfoldable pub answer_routes : List (Route S)
    answer_routes =
        post_route "/answer/add"
          (closed_route lib.answer_add Requests.answer_add_failed (Handlers.answer_add client))
        ∷ post_route "/answer/update" (
            closed_route lib.answer_update Requests.answer_update_failed
              (Handlers.answer_update client))
        ∷ post_route "/answer/delete" (
            closed_route lib.answer_delete Requests.answer_delete_failed
              (Handlers.answer_delete client))
        ∷ post_route "/answer/find_one" (
            closed_route lib.find_answer Requests.find_answer_failed
              (Handlers.answer_find_one client))
        ∷ post_route "/answer/find_list" (
            closed_route lib.answer_lastest Requests.answer_lastest_failed
              (Handlers.answer_find_list client))
        ∷ post_route "/user_vote/add" (
            closed_route lib.answer_agree Requests.answer_agree_failed
              (Handlers.answer_agree client))
        ∷ []

    unfoldable pub api_routes : List (Route S)
    unfolding user_routes question_routes answer_routes
    api_routes = user_routes ++ (question_routes ++ answer_routes)

    abbrev pub root_routes : List (Route S)
    root_routes = get_route "/" (plain_route Handlers.root) ∷ []

    abbrev pub at_path : Option String → Endpoint S
    at_path (some inner) req principal s = routed api_not_found api_routes inner req principal s
    at_path none req principal s = routed method_not_found root_routes req.path req principal s

    unfoldable pub routes : Endpoint S
    routes req principal s = at_path (nested_path req.path) req principal s

    -- The layer that is added last runs first.
    unfoldable pub api_router : Bool → String → HttpRequest → S → HttpResponse × S
    api_router timed_out request_id req s =
        verify_token client timed_out request_id (no_cache_header routes) req none s
