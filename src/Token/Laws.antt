-- ===== src/Token/Laws.antt =====
-- What a token of crates/qa-svc/src/application/app.rs says: its parts, its expiry, and the payload
-- that `user_login` encrypts.
use qa_sys.Prelude.Strings.Laws.{IsFree, parse-show, split-colon, split-free, show-IsFree}
use qa_sys.Aes.{
  AesError, Crypto, AesCbcCrypto, decrypt, CryptoLaws, AesKeySize, new_crypto, encrypt,
  decrypt-encrypt,
}
use qa_sys.Token.{check_expiry, check_parts, check_token, check_payload, payload_of}
use qa_sys.Prelude.Strings.{Parsed, value, parse_i64, bad, split, show_i64}
use qa_sys.Prelude.{
  String, List, ◌≡◌, ok, ◌∷◌, [], arith, refl, Result, ◌↔◌, ◌≢◌, err, str_eq_iff, ℕ, ◌<◌,
  if◌then◌else◌, ◌∙◌, ap,
}
use qa_sys.Prelude.Int.{ℤ, ◌<ℤ◌, pos, i64_half, leb_ℤ}
use Prim.Native.String.{len}
use text.Mathlib.TextLemmas.{append-nil}

-- Three parts behind colons: any login id, an openid of 32 bytes, and an expiry after `now`.
abbrev pub IsLive : ℤ → String → List String → Type 0
IsLive now openid parts =
    (login_id : String) × (expire_time : String) × (z : ℤ) × (parts
      ≡ login_id ∷ openid ∷ expire_time ∷ [])
    × (len openid ≡ 32)
    × (parse_i64 expire_time ≡ value z)
    × (now <ℤ z)

check_expiry-ok :
    (now : ℤ) (openid id : String) (p : Parsed)
    → check_expiry now openid p ≡ ok id
    → (z : ℤ) × (p ≡ value z) × (now <ℤ z) × (id ≡ openid)
check_expiry-ok now openid id (bad e) h = cc
check_expiry-ok now openid id (value z) h = (z, refl, ground arith, ground arith)

check_parts-ok :
    (now : ℤ) (id : String) (parts : List String)
    → check_parts now parts ≡ ok id
    → IsLive now id parts
check_parts-ok now id [] h = cc
check_parts-ok now id (a ∷ []) h = cc
check_parts-ok now id (a ∷ b ∷ []) h = cc
check_parts-ok now id (a ∷ b ∷ e ∷ f ∷ more) h = cc
check_parts-ok now id (a ∷ b ∷ e ∷ []) h =
    let long : len b ≡ 32 = ground arith in
    let (z, parsed, before, same) = check_expiry-ok now b id (parse_i64 e) (ground arith) in
    (a, e, z, rw same, rw same long, parsed, before)

check_parts-live :
    (now : ℤ) (id : String) (parts : List String)
    → IsLive now id parts
    → check_parts now parts ≡ ok id
check_parts-live now id parts (login_id, expire_time, z, same, long, parsed, before) =
    rw same (rw (long, parsed) (ground arith))

check_payload-ok :
    (debug : AesError → String) (now : ℤ) (id : String) (r : Result AesError String)
    → check_payload debug now r ≡ ok id
    → (payload : String) × (r ≡ ok payload) × IsLive now id (split b':' payload)
check_payload-ok debug now id (err e) h = cc
check_payload-ok debug now id (ok payload) h =
    (payload, refl, check_parts-ok now id (split b':' payload) h)

module _ (c : Crypto) (a : AesCbcCrypto) where
  -- A token is accepted, for an openid, exactly when it is not empty and decrypts to three parts
  -- behind colons of which the second is the openid, of 32 bytes, and the third is an `i64` that
  -- is later than now.
  pub check_token_iff :
      (now : ℤ) (token id : String)
      → (check_token c a now token ≡ ok id) ↔ (
          (token ≢ "")
          × ((payload : String) × (decrypt c a token ≡ ok payload)
              × IsLive now id (split b':' payload)))
  unfolding check_token
  check_token_iff now token id = (
    λ h. (
      ground (arith, str_eq_iff token ""),
      check_payload-ok c.debug_text now id (decrypt c a token) (ground arith),
    ),
    λ (ne, found).
        let (payload, dec, live) = found in
        let parts = check_parts-live now id (split b':' payload) live in
        rw dec (ground (arith, str_eq_iff token "", parts)),
  )

  module _ (laws : CryptoLaws c) (key iv : String) (size : AesKeySize)
      (made : new_crypto c key iv size ≡ ok a) where
    -- The payload of a login comes apart into what it was made of.
    split-payload_of :
        (login_id openid : String) (n : ℕ)
        → IsFree b':' login_id
        → IsFree b':' openid
        → split b':' (payload_of login_id openid (pos n))
          ≡ login_id ∷ openid ∷ show_i64 (pos n) ∷ []
    unfolding payload_of
    split-payload_of login_id openid n f g =
        split-colon login_id _ f
        ∙ ap (λ ps. login_id ∷ ps)
            (split-colon openid _ g
              ∙ ap (λ ps. openid ∷ ps)
                  (rw (append-nil (show_i64 (pos n))) (split-free b':' _ (show-IsFree n))))

    -- For a crypto that `new` has made and that keeps the laws of its libraries, a token of a
    -- login id and an openid of 32 bytes, both without colons, and an expiry that is an `i64` can
    -- be made, is accepted for that openid before the expiry, and is refused as expired from then
    -- on.
    pub check_token-encrypt :
        (login_id openid : String) (n : ℕ)
        → IsFree b':' login_id
        → IsFree b':' openid
        → len openid ≡ 32
        → n < i64_half
        → (t : String) × (encrypt c a (payload_of login_id openid (pos n)) ≡ ok t)
          × ((now : ℤ)
              → check_token c a now t
                ≡ (if leb_ℤ (pos n) now then err "token has expired" else ok openid))
    unfolding check_token
    check_token-encrypt login_id openid n f g long small =
        let (t, enc, dec, ne) =
          decrypt-encrypt c laws key iv size a (payload_of login_id openid (pos n)) made in
        (
          t,
          enc,
          λ now.
              rw (dec, split-payload_of login_id openid n f g, long, parse-show n small)
                (ground (arith, str_eq_iff t "")),
        )
