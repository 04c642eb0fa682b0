-- ===== src/Gateway/Acts.antt =====
-- What an endpoint of crates/gateway/src/router.rs does to the state of the service: rules for the kinds
-- of routes, for a property of that state and for what a user may do to it.
use qa_sys.Gateway.Payloads.{from_request-IsRead, IsRead}
use qa_sys.Gateway.Handlers.{call}
use qa_sys.World.Keeps.{Keeps, bind-Keeps, map_err-Keeps}
use qa_sys.Gateway.Requests.{Checks}
use qa_sys.Prelude.{
  Action, Bool, Option, Result, ◌≡◌, List, String, continue, All, some, [], if◌then◌else◌, pure,
  ◌∷◌, map_err_of, ok, ◌>>=◌, str_eq, err, refl, none, true, false,
}
use qa_sys.Gateway.Content.{Payload, Rejection, from_request}
use qa_sys.Gateway.{
  Principal, Endpoint, HttpRequest, Handling, GatewayError, Status, HttpResponse, Body, respond,
  grpc_error, forbidden,
}
use qa_sys.Gateway.Router.{Framework, Route, open_route, routed, closed_route, on_payload}

-- The state after a request: it has the property still, or this principal has acted on it.
pub data Moved {S : Type 0} (P : S → Type 0) (Q : Principal → S → Type 0)
    (principal : Option Principal) (s : S) : Type 0 where
  still : P s → Moved P Q principal s
  acted : (p : Principal) → principal ≡ some p → Q p s → Moved P Q principal s

module _ {S : Type 0} (lib : Framework) (P : S → Type 0) (Q : Principal → S → Type 0)
    (idle : (p : Principal) (s : S) → P s → Q p s) where
  abbrev pub Moves : Endpoint S → Type 0
  Moves e =
      (req : HttpRequest) (principal : Option Principal) (s : S)
      → P s
      → Moved P Q principal (e req principal s).1

  -- A handler that passes its answer on.
  pub answered :
      {A B : Type 0} (m : Action S Status A) (k : A → B)
      → Keeps P m
      → Keeps P (call m >>= λ a. pure (k a))
  answered m k h = bind-Keeps {P = P} (call m) _ (map_err-Keeps P grpc_error m h) λ _ s p. p

  answered_state :
      {A B : Type 0} (k : A → B) (o : Result Status A × S)
      → (continue (λ a. pure (k a)) (map_err_of grpc_error o)).1 ≡ o.1
  answered_state k (ok a, s) = refl
  answered_state k (err e, s) = refl

  -- A handler that compares what the request claims with the principal first, and calls in the
  -- principal's name.
  pub compared :
      {A B : Type 0} (p : Principal) (other : Bool) (own : String) (m : String → Action S Status A)
      (k : A → B) (s : S)
      → P s
      → Q p (m own s).1
      → Q p
          (continue
            (λ name. call (m name) >>= λ a. pure (k a))
            (if other then err forbidden else ok own, s)).1
  compared p true own m k s h act = idle p s h
  compared p false own m k s h act = rw (answered_state k (m own s)) act

  respond_state : (o : Result GatewayError Body × S) → (respond o).1 ≡ o.1
  respond_state (ok b, s) = refl
  respond_state (err e, s) = refl

  open_payload :
      {A : Type 0} (principal : Option Principal) (handler : A → Handling S Body)
      (r : Result Rejection A)
      → ((a : A) → Keeps P (handler a))
      → (s : S) → P s
      → Moved P Q principal (on_payload lib handler r s).1
  open_payload principal handler (ok a) h s p = still (rw (respond_state (handler a s)) (h a s p))
  open_payload principal handler (err e) h s p = still p

  pub open_route-Moves :
      {A : Type 0} (from : Payload A) (failed : A → Checks) (handler : A → Handling S Body)
      → ((a : A) → Keeps P (handler a))
      → Moves (open_route lib from failed handler)
  open_route-Moves from failed handler h req principal s p =
      open_payload principal handler (from_request lib.errors_text from failed req) h s p

  closed_payload :
      {A : Type 0} (Good : A → Type 0) (who : Principal) (handler : A → Handling S Body)
      (r : Result Rejection A)
      → ((a : A) → r ≡ ok a → Good a)
      → ((a : A) (s : S) → Good a → P s → Q who (handler a s).1)
      → (s : S) → P s
      → Moved P Q (some who) (on_payload lib handler r s).1
  closed_payload Good who handler (ok a) good h s p =
      acted who refl (rw (respond_state (handler a s)) (h a s (good a refl) p))
  closed_payload Good who handler (err e) good h s p = still p

  pub closed_route-Moves :
      {A : Type 0} (from : Payload A) (failed : A → Checks)
      (handler : Principal → A → Handling S Body)
      → ((who : Principal) (a : A) (s : S) → IsRead from failed a → P s → Q who (handler who a s).1)
      → Moves (closed_route lib from failed handler)
  closed_route-Moves from failed handler h req none s p = still p
  closed_route-Moves from failed handler h req (some who) s p =
      closed_payload (IsRead from failed) who (handler who)
        (from_request lib.errors_text from failed req)
        (λ a e. from_request-IsRead lib.errors_text from failed req a e) (h who) s p

  taken-Moved :
      (r : Route S) (here fits : Bool) (req : HttpRequest) (principal : Option Principal) (s : S)
      (rest : HttpResponse × S)
      → Moves r.run
      → P s
      → Moved P Q principal rest.1
      → Moved P Q principal
          (if here
            then (if fits then r.run req principal s else (lib.method_refused r.method, s))
            else rest).1
  taken-Moved r true true req principal s rest h p m = h req principal s p
  taken-Moved r true false req principal s rest h p m = still p
  taken-Moved r false fits req principal s rest h p m = m

  pub routed-Moves :
      (fallback : Endpoint S) (rs : List (Route S)) (path : String)
      → Moves fallback
      → All (λ r. Moves r.run) rs
      → Moves (routed lib fallback rs path)
  routed-Moves fallback [] path h hs req principal s p = h req principal s p
  routed-Moves fallback (r ∷ rs) path h hs req principal s p =
      taken-Moved r (str_eq r.path path) (lib.accepts r.method req.method) req principal s _ hs.0 p
        (routed-Moves fallback rs path h hs.1 req principal s p)
