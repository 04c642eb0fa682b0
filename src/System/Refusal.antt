-- ===== src/System/Refusal.antt =====
-- What a request to crates/gateway leaves behind that its middleware refuses.
use qa_sys.Gateway.Access.{authenticate-Keeps}
use qa_sys.Gateway.Router.{Framework, api_router, routes}
use qa_sys.Gateway.Client.{qa_service, status_of}
use qa_sys.World.Keeps.{Keeps, bind-Keeps, map_err-Keeps}
use qa_sys.Prelude.{◌≡◌, Bool, String, lift, arith, Result, err, false, ok, refl}
use qa_sys.Service.{Env}
use qa_sys.World.{World, reach}
use qa_sys.Gateway.{Status, Endpoint, HttpRequest, GatewayError, Principal, into_response}
use qa_sys.Gateway.Auth
use qa_sys.Gateway.Auth.{authenticate, in_time, admit, is_public_path, no_cache_header}
use qa_sys.Service.Sessions.{verify_token, session_key}
use qa_sys.Users
use qa_sys.Pb

-- All of the world but the outcomes of the calls to come.
abbrev pub HasRest : {R : Type 0} → World R → World R → Type 0
HasRest v w = v ≡ record w { faults = v.faults }

module _ {R : Type 0} (panicked : Status) (env : Env R) (w : World R) where
  get-HasRest : (key : String) → Keeps (λ v. HasRest v w) (Users.get env.externals env.now key)
  unfolding Users.get reach
  get-HasRest key v h = ground arith

  verify_token-HasRest :
      (req : Pb.VerifyTokenRequest) → Keeps (λ v. HasRest v w) (verify_token env req)
  unfolding verify_token
  verify_token-HasRest req =
      bind-Keeps {P = λ v. HasRest v w} (lift _) _ (λ v p. p)
        λ openid v h. get-HasRest (session_key openid) v h

  served-HasRest :
      (req : Pb.VerifyTokenRequest)
      → Keeps (λ v. HasRest v w) ((qa_service panicked env).verify_token req)
  served-HasRest req =
      map_err-Keeps (λ v. HasRest v w) (status_of panicked) (verify_token env req)
        (verify_token-HasRest req)

module _ {R : Type 0} (lib : Framework) (panicked : Status) (env : Env R) where
  refused :
      (timed_out : Bool) (request_id : String) (next : Endpoint (World R)) (req : HttpRequest)
      (o : Result GatewayError Principal × World R) (e : GatewayError) (w : World R)
      → o.0 ≡ err e
      → HasRest o.1 w
      → let after = admit (qa_service panicked env) timed_out request_id next req o in
        (after.0 ≡ into_response e) × HasRest after.1 w
  refused timed_out request_id next req (ok p, v) e w h rest = cc
  refused timed_out request_id next req (err e', v) e w h rest = (cc, rest)

  -- A request to a path that is not public, whose authentication ends in an error, is answered
  -- with exactly that error as a response and leaves the tables, the session store, the topic and
  -- the acknowledgements as they were.
  pub api_router-refused :
      (timed_out : Bool) (request_id : String) (req : HttpRequest) (w : World R) (e : GatewayError)
      → is_public_path req.path ≡ false
      → (authenticate (qa_service panicked env) timed_out request_id req w).0 ≡ err e
      → let after = api_router lib (qa_service panicked env) timed_out request_id req w in
        (after.0 ≡ into_response e) × HasRest after.1 w
  unfolding api_router Auth.verify_token
  api_router-refused timed_out request_id req w e closed h = rw closed (
      refused timed_out request_id (no_cache_header (routes lib (qa_service panicked env))) req
        (authenticate (qa_service panicked env) timed_out request_id req w) e w h
        (authenticate-Keeps (qa_service panicked env) (λ v. HasRest v w)
          (served-HasRest panicked env w) timed_out request_id req w refl))
