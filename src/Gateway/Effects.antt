-- ===== src/Gateway/Effects.antt =====
-- What a request through crates/gateway/src/router.rs can do to the state of the service, in terms of
-- what each call of the service does in the name of a user.
use qa_sys.Gateway.Access.{authenticate-Keeps}
use qa_sys.Gateway.Handlers.{answer_of}
use qa_sys.Gateway.Requests.{
  answer_add_failed, add_quest_failed, answer_agree_failed, logout_failed, answer_update_failed,
  question_failed, answer_delete_failed, update_quest_failed, find_answer_failed,
  delete_quest_failed, answer_lastest_failed,
}
use qa_sys.Gateway.Acts.{
  Moves, Moved, answered, compared, open_route-Moves, closed_route-Moves, routed-Moves, still,
  acted,
}
use qa_sys.Gateway.Auth.{no_cache_header, admit, authenticate, is_public_path}
use qa_sys.Gateway.Client.{Client}
use qa_sys.Gateway.{Principal, GatewayError, Endpoint, HttpRequest}
use qa_sys.Prelude.{
  Result, Option, Bool, ok, String, All, some, err, All-append, none, ◌++◌, if◌then◌else◌, not,
  str_eq, true, false,
}
use qa_sys.Gateway.Router.{
  Framework, api_routes, answer_routes, api_not_found, question_routes, user_routes,
  method_not_found, routes, api_router, nested_path, at_path, root_routes,
}
use qa_sys.Gateway.Handlers
use qa_sys.Gateway.Auth
use qa_sys.Gateway.Allowed.{Allows, principal_of}

module _ {S : Type 0} (lib : Framework) (client : Client S) (P : S → Type 0)
    (Q : Principal → S → Type 0) (idle : (p : Principal) (s : S) → P s → Q p s)
    (calls : Allows P Q client) where
  user_routes-Moves : All (λ r. Moves lib P Q idle r.run) (user_routes lib client)
  unfolding user_routes Handlers.user_register Handlers.user_login Handlers.user_logout
      Handlers.authenticated_token
  user_routes-Moves = (
    (λ req principal s p. still p),
    (
      (λ req principal s p. still p),
      (
        open_route-Moves lib P Q idle lib.register _ _
            (λ a. answered lib P Q idle (client.user_register _) _ (calls.user_register _)),
        (
          open_route-Moves lib P Q idle lib.login _ _
              (λ a. answered lib P Q idle (client.user_login _) _ (calls.user_login _)),
          (
            closed_route-Moves lib P Q idle lib.logout logout_failed _ (λ who a s good p.
                compared lib P Q idle who (not (str_eq who.token a.token)) who.token _ _ s p
                  (calls.user_logout who s p)),
            tt,
          ),
        ),
      ),
    ),
  )

  question_routes-Moves : All (λ r. Moves lib P Q idle r.run) (question_routes lib client)
  unfolding question_routes Handlers.question_add Handlers.question_detail Handlers.question_update
      Handlers.question_delete Handlers.question_find_latest Handlers.authenticated_username
  question_routes-Moves = (
    closed_route-Moves lib P Q idle lib.add_quest add_quest_failed _ (λ who a s good p.
        compared lib P Q idle who (not (str_eq who.username a.username)) who.username _ _ s p
          (calls.add_question who a.title a.content s p)),
    (
      closed_route-Moves lib P Q idle lib.question question_failed _ (λ who a s good p.
          compared lib P Q idle who (not (str_eq who.username a.username)) who.username _ _ s p
            (calls.question_detail who a.question_id s p)),
      (
        closed_route-Moves lib P Q idle lib.update_quest update_quest_failed _ (λ who a s good p.
            compared lib P Q idle who (not (str_eq who.username a.question.updated_by)) who.username
              _ _ s p (calls.update_question who a.id a.question.title a.question.content s p)),
        (
          closed_route-Moves lib P Q idle lib.delete_quest delete_quest_failed _ (λ who a s good p.
              compared lib P Q idle who (not (str_eq who.username a.username)) who.username _ _ s p
                (calls.delete_question who a.id s p)),
          (
            open_route-Moves lib P Q idle lib.lastest_quest _ _
                (λ a. answered lib P Q idle (client.latest_question _) _ (calls.latest_question _)),
            tt,
          ),
        ),
      ),
    ),
  )

  answer_routes-Moves : All (λ r. Moves lib P Q idle r.run) (answer_routes lib client)
  unfolding answer_routes Handlers.answer_add Handlers.answer_update Handlers.answer_delete
      Handlers.answer_find_one Handlers.answer_find_list Handlers.answer_agree
      Handlers.authenticated_username
  answer_routes-Moves = (
    closed_route-Moves lib P Q idle lib.answer_add answer_add_failed _ (λ who a s good p.
        compared lib P Q idle who (not (str_eq who.username a.username)) who.username _ _ s p
          (calls.add_answer who a s p)),
    (
      closed_route-Moves lib P Q idle lib.answer_update answer_update_failed _ (λ who a s good p.
          compared lib P Q idle who (not (str_eq who.username a.username)) who.username _ _ s p
            (calls.update_answer who a.id a.content s p)),
      (
        closed_route-Moves lib P Q idle lib.answer_delete answer_delete_failed _ (λ who a s good p.
            compared lib P Q idle who (not (str_eq who.username a.username)) who.username _ _ s p
              (calls.delete_answer who a.id s p)),
        (
          closed_route-Moves lib P Q idle lib.find_answer find_answer_failed _ (λ who a s good p.
              compared lib P Q idle who (not (str_eq who.username a.username)) who.username _ _ s p
                (calls.answer_detail who a.id s p)),
          (
            closed_route-Moves lib P Q idle lib.answer_lastest answer_lastest_failed _
                (λ who a s good p.
                  compared lib P Q idle who (not (str_eq who.username a.username)) who.username _ _
                    s p (calls.answer_list who a.question_id a.page a.limit s p)),
            (
              closed_route-Moves lib P Q idle lib.answer_agree answer_agree_failed _
                  (λ who a s good p.
                    compared lib P Q idle who (not (str_eq who.username a.username)) who.username _
                      _ s p (calls.agree_answer who a (good.0, lib.agree_id good.1 a good.2) s p)),
              tt,
            ),
          ),
        ),
      ),
    ),
  )

  api_routes-Moves : All (λ r. Moves lib P Q idle r.run) (api_routes lib client)
  unfolding api_routes
  api_routes-Moves =
      All-append (λ r. Moves lib P Q idle r.run) (user_routes lib client)
        (question_routes lib client ++ answer_routes lib client) user_routes-Moves
        (All-append (λ r. Moves lib P Q idle r.run) (question_routes lib client)
          (answer_routes lib client) question_routes-Moves answer_routes-Moves)

  at_path-Moves : (path : Option String) → Moves lib P Q idle (at_path lib client path)
  unfolding api_not_found method_not_found
  at_path-Moves (some inner) req principal s p =
      routed-Moves lib P Q idle api_not_found (api_routes lib client) inner (λ _ _ _ q. still q)
        api_routes-Moves req principal s p
  at_path-Moves none req principal s p =
      routed-Moves lib P Q idle method_not_found (root_routes lib client) req.path
        (λ _ _ _ q. still q) ((λ _ _ _ q. still q), tt) req principal s p

  routes-Moves : Moves lib P Q idle (no_cache_header (routes lib client))
  unfolding no_cache_header routes
  routes-Moves req principal s p = at_path-Moves (nested_path req.path) req principal s p

  module _ (timed_out : Bool) (request_id : String) where
    admit-Moved :
        (e : Endpoint S) (req : HttpRequest) (o : Result GatewayError Principal × S)
        → Moves lib P Q idle e
        → P o.1
        → Moved P Q (principal_of o.0) (admit client timed_out request_id e req o).1
    admit-Moved e req (ok principal, s) h p = h req (some principal) s p
    admit-Moved e req (err x, s) h p = still p

    no_one : {who : Option Principal} {s : S} → Moved P Q none s → Moved P Q who s
    no_one (still p) = still p
    no_one (acted p e q) = cc

    admitted-Moved :
        (exempt : Bool) (e : Endpoint S) (req : HttpRequest) (s : S)
        → Moves lib P Q idle e
        → P s
        → Moved P Q
            (principal_of (authenticate client timed_out request_id req s).0)
            (if exempt
              then e req none s
              else admit client timed_out request_id e req
                  (authenticate client timed_out request_id req s)).1
    admitted-Moved true e req s h p = no_one (h req none s p)
    admitted-Moved false e req s h p =
        admit-Moved e req (authenticate client timed_out request_id req s) h
          (authenticate-Keeps client P calls.verify_token timed_out request_id req s p)

    -- A request through the router keeps the property, or is an act of the user that `authenticate`
    -- finds.
    pub api_router-Moved :
        (req : HttpRequest) (s : S)
        → P s
        → Moved P Q
            (principal_of (authenticate client timed_out request_id req s).0)
            (api_router lib client timed_out request_id req s).1
    unfolding api_router Auth.verify_token
    api_router-Moved req s p =
        admitted-Moved (is_public_path req.path) (no_cache_header (routes lib client)) req s
          routes-Moves p
