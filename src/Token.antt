-- ===== src/Token.antt =====
-- The tokens of crates/qa-svc/src/application/app.rs: `check_token`, and the payload that `user_login`
-- encrypts.
pub mod Laws
use qa_sys.Prelude.Strings.{
  format, Parsed, bad, show_i64, parse_error_text, value, split, parse_i64,
}
use qa_sys.Prelude.{String, Result, List, if◌then◌else◌, ◌∷◌, err, str_eq, [], not, ◌==◌, ok}
use qa_sys.Prelude.Int.{ℤ, leb_ℤ}
use qa_sys.Aes.{Crypto, AesError, AesCbcCrypto, decrypt}
use Prim.Native.String.{len}

-- `format!("{}:{}:{}", login_id, u.openid, expired)`.
unfoldable pub payload_of : String → String → ℤ → String
payload_of login_id openid expired = format (login_id ∷ ":" ∷ openid ∷ ":" ∷ show_i64 expired ∷ [])

-- The expiry, once it has been parsed.
abbrev pub check_expiry : ℤ → String → Parsed → Result String String
check_expiry now openid (bad e) =
    err (format ("token expire_time parse error:" ∷ parse_error_text e ∷ []))
check_expiry now openid (value expire_time) =
    if leb_ℤ expire_time now then err "token has expired" else ok openid

abbrev pub check_openid : ℤ → String → String → Result String String
check_openid now openid expire_time =
    if not (len openid == 32)
    then err "token length invalid"
    else check_expiry now openid (parse_i64 expire_time)

-- The three parts of the payload, and no fourth.
abbrev pub check_parts : ℤ → List String → Result String String
check_parts now (login_id ∷ openid ∷ expire_time ∷ []) = check_openid now openid expire_time
check_parts now _ = err "token invalid"

abbrev pub check_payload : (AesError → String) → ℤ → Result AesError String → Result String String
check_payload debug_text now (err e) = err (format ("parse token error:" ∷ debug_text e ∷ []))
check_payload debug_text now (ok payload) = check_parts now (split b':' payload)

-- `now` is `Local::now().timestamp()`.
unfoldable pub check_token : Crypto → AesCbcCrypto → ℤ → String → Result String String
check_token c a now token =
    if str_eq token ""
    then err "token length invalid"
    else check_payload c.debug_text now (decrypt c a token)
