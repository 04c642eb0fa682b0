-- ===== src/Gateway/Headers.antt =====
-- The headers of responses that pass the layer of crates/gateway/src/middleware/header.rs.
use qa_sys.Gateway.Client.{Client}
use qa_sys.Gateway.{HttpResponse, HttpRequest, GatewayError, Principal}
use qa_sys.Prelude.{
  String, List, ◌≢◌, ◌≡◌, ◌∷◌, arith, keep, Bool, [], str_eq_iff, not, str_eq, str_eq_refl, Result,
  refl, true, ◌⊎◌, ok, inl, none, some, err, inr, Bool-cases, ◌∙◌,
}
use qa_sys.Gateway.Router.{Framework, api_router, routes}
use qa_sys.Gateway.Auth
use qa_sys.Gateway.Auth.{
  set_header, no_cache, uncached, no_cache_header, admit, authenticate, is_public_path,
}

-- The values of a header.
abbrev pub values : String → List (String × String) → List (String × String)
values name = keep (λ h. str_eq h.0 name)

-- The response may not be kept by caches.
abbrev pub IsUncached : HttpResponse → Type 0
IsUncached r =
    (values "cache-control" r.headers
      ≡ ("cache-control", "no-store, no-cache, must-revalidate") ∷ [])
    × (values "pragma" r.headers ≡ ("pragma", "no-cache") ∷ [])
    × (values "expires" r.headers ≡ ("expires", "-1") ∷ [])

values-removed :
    (name : String) (hs : List (String × String))
    → values name (keep (λ h. not (str_eq h.0 name)) hs) ≡ []
values-removed name [] = refl
values-removed name (h ∷ hs) = ground (arith, values-removed name hs)

values-others :
    (name other : String) (hs : List (String × String))
    → name ≢ other
    → values name (keep (λ h. not (str_eq h.0 other)) hs) ≡ values name hs
values-others name other [] ne = refl
values-others name other (h ∷ hs) ne =
    ground (arith, values-others name other hs ne, str_eq_iff h.0 name, str_eq_iff h.0 other)

values-set_header :
    (name value : String) (r : HttpResponse)
    → values name (set_header name value r).headers ≡ (name, value) ∷ []
values-set_header name value r = rw (str_eq_refl name) (rw (values-removed name r.headers) refl)

values-set_other :
    (name other value : String) (r : HttpResponse)
    → name ≢ other
    → values name (set_header other value r).headers ≡ values name r.headers
values-set_other name other value r ne =
    ground (arith, values-others name other r.headers ne, str_eq_iff other name)

no_cache-IsUncached : (r : HttpResponse) → IsUncached (no_cache r)
no_cache-IsUncached r =
    let stored = set_header "cache-control" "no-store, no-cache, must-revalidate" r in
    let dated = set_header "pragma" "no-cache" stored in
    (
      values-set_other "cache-control" "expires" "-1" dated (λ e. cc)
          ∙ values-set_other "cache-control" "pragma" "no-cache" stored (λ e. cc)
          ∙ values-set_header "cache-control" "no-store, no-cache, must-revalidate" r,
      values-set_other "pragma" "expires" "-1" dated (λ e. cc)
          ∙ values-set_header "pragma" "no-cache" stored,
      values-set_header "expires" "-1" dated,
    )

module _ {S : Type 0} (lib : Framework) (client : Client S) (timed_out : Bool)
    (request_id : String) where
  uncached-IsUncached : (o : HttpResponse × S) → IsUncached (uncached o).0
  uncached-IsUncached (r, s) = no_cache-IsUncached r

  admitted :
      (req : HttpRequest) (o : Result GatewayError Principal × S) (p : Principal)
      → o.0 ≡ ok p
      → IsUncached (admit client timed_out request_id (no_cache_header (routes lib client)) req o).0
  unfolding no_cache_header
  admitted req (ok q, s) p e = uncached-IsUncached (routes lib client req (some q) s)
  admitted req (err x, s) p e = cc

  -- Every response to a request to a public path, or to one whose authentication finds a user, has
  -- each of the headers cache-control, pragma and expires exactly once, with the value against
  -- caching.
  pub api_router-IsUncached :
      (req : HttpRequest) (s : S)
      → (is_public_path req.path ≡ true)
        ⊎ ((p : Principal) × ((authenticate client timed_out request_id req s).0 ≡ ok p))
      → IsUncached (api_router lib client timed_out request_id req s).0
  unfolding api_router Auth.verify_token no_cache_header
  api_router-IsUncached req s (inl exempt) =
      rw exempt (uncached-IsUncached (routes lib client req none s))
  api_router-IsUncached req s (inr (p, e)) = elim (Bool-cases (is_public_path req.path)) [
    | inl exempt ↦ rw exempt (uncached-IsUncached (routes lib client req none s))
    | inr closed ↦ rw closed (admitted req (authenticate client timed_out request_id req s) p e)
  ]
