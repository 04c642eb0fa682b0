-- ===== src/Gateway/Auth.antt =====
-- The middleware of crates/gateway/src/router.rs and crates/gateway/src/middleware/header.rs.
use qa_sys.Prelude.Int.{eq_ℤ, pos}
use qa_sys.Service.{Code}
use qa_sys.Prelude.{
  List, Bool, ℕ, String, Option, Result, if◌then◌else◌, ◌>>=◌, Action, any, ok, ◌∷◌, err, keep,
  str_eq, lift, [], map_err, some, not, true, pure, ◌||◌, false, ltb, none,
}
use qa_sys.Gateway.Client.{Client}
use qa_sys.Gateway.{
  Header, missing, opaque, text, HttpRequest, HttpResponse, Principal, GatewayError, unauthorized,
  internal_server_error, grpc_error, Endpoint, Status, into_response, Handling,
}
use qa_sys.Prelude.Strings.{split_once}
use qa_sys.Prelude.Strings.Ascii.{eq_ignore_ascii_case, any_char, is_ascii_whitespace}
use qa_sys.Pb.{VerifyTokenResponse}
use Prim.Native.String.{len}

abbrev pub max_token_length : ℕ
max_token_length = 512

abbrev pub max_username_length : ℕ
max_username_length = 64

abbrev pub public_paths : List String
public_paths = "/" ∷ "/api/home" ∷ "/api/hello" ∷ "/api/user/register" ∷ "/api/user/login" ∷ []

unfoldable pub is_public_path : String → Bool
is_public_path path = any (λ p. str_eq p path) public_paths

abbrev pub bearer_token : Option (String × String) → Result GatewayError String
bearer_token none = err unauthorized
bearer_token (some (scheme, token)) =
    if not (eq_ignore_ascii_case scheme "Bearer")
      || (str_eq token ""
          || (ltb max_token_length (len token) || any_char is_ascii_whitespace token))
    then err unauthorized
    else ok token

abbrev pub header_token : Header → Result GatewayError String
header_token missing = err unauthorized
header_token opaque = err unauthorized
header_token (text authorization) = bearer_token (split_once b' ' authorization)

unfoldable pub authorization_token : HttpRequest → Result GatewayError String
authorization_token req = header_token req.authorization

-- The user of a verification (`authenticated_username` of router.rs).
unfoldable pub verified_username : VerifyTokenResponse → Result GatewayError String
verified_username r =
    if not (eq_ℤ r.state (pos 1))
      || (str_eq r.username "" || ltb max_username_length (len r.username))
    then err unauthorized
    else ok r.username

abbrev pub verification_error : Code → Status → GatewayError
verification_error Code.invalid_argument status = unauthorized
verification_error Code.unauthenticated status = unauthorized
verification_error Code.permission_denied status = unauthorized
verification_error _ status = grpc_error status

unfoldable pub map_verification_error : Status → GatewayError
map_verification_error status = verification_error status.code status

-- `headers_mut().insert(name, value)`.
abbrev pub set_header : String → String → HttpResponse → HttpResponse
set_header name value r = record r {
  headers = (name, value) ∷ keep (λ h. not (str_eq h.0 name)) r.headers;
}

abbrev pub no_cache : HttpResponse → HttpResponse
no_cache r = set_header "expires" "-1" (
    set_header "pragma" "no-cache"
      (set_header "cache-control" "no-store, no-cache, must-revalidate" r))

abbrev pub uncached : {S : Type 0} → HttpResponse × S → HttpResponse × S
uncached (r, s) = (no_cache r, s)

-- The layer `from_fn(no_cache_header)`.
unfoldable pub no_cache_header : {S : Type 0} → Endpoint S → Endpoint S
no_cache_header next req principal s = uncached (next req principal s)

module _ {S : Type 0} (client : Client S) (timed_out : Bool) (request_id : String) where
  -- The call of the service within three seconds; after a timeout the service may have answered it
  -- still.
  abbrev pub in_time : Bool → Action S Status VerifyTokenResponse → Handling S VerifyTokenResponse
  in_time true m s = (err internal_server_error, (m s).1)
  in_time false m s = map_err map_verification_error m s

  unfoldable pub authenticate : HttpRequest → Handling S Principal
  authenticate req = do
    token ← lift (authorization_token req)
    verification ←
        in_time timed_out (client.verify_token (record { token = token; request_id = request_id }))
    username ← lift (verified_username verification)
    pure (record { username = username; token = token })

  abbrev pub admit : Endpoint S → HttpRequest → Result GatewayError Principal × S → HttpResponse × S
  admit next req (ok principal, s) = next req (some principal) s
  admit next req (err e, s) = (into_response e, s)

  -- The layer `from_fn_with_state(state, verify_token)`.
  unfoldable pub verify_token : Endpoint S → Endpoint S
  verify_token next req principal s =
      if is_public_path req.path then next req principal s else admit next req (authenticate req s)
