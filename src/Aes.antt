-- ===== src/Aes.antt =====
-- crates/core/src/aes.rs: AES-CBC with PKCS#7 padding behind Base64. The ciphers, Base64 and the UTF-8
-- conversions of a `String` are the parameter `Crypto`.
use qa_sys.Prelude.{
  ℕ, Result, String, List, if◌then◌else◌, ◌≡◌, ok, arith, ◌↔◌, not, err, ◌==◌, ◌≢◌, [],
}
use Prim.Native.String.{len}

pub data AesKeySize : Type 0 where
  size128 size192 size256 : AesKeySize

pub data AesError : Type 0 where
  invalid_key_length : ℕ → ℕ → AesError
  invalid_iv_length : ℕ → ℕ → AesError
  encrypt_error : String → AesError
  decrypt_error : String → AesError
  base64_decode_error : String → AesError
  utf8_error : String → AesError

-- `new_from_slices` of a cipher, with `encrypt_padded_vec` or `decrypt_padded_vec` of its value.
pub record Crypto : Type 0 where
  pub as_bytes : String → List ℕ
  pub from_utf8 : List ℕ → Result String String
  pub base64_encode : List ℕ → String
  pub base64_decode : String → Result String (List ℕ)
  pub encryptor : AesKeySize → List ℕ → List ℕ → Result String (List ℕ → List ℕ)
  pub decryptor : AesKeySize → List ℕ → List ℕ → Result String (List ℕ → Result String (List ℕ))
  pub debug_text : AesError → String

pub record AesCbcCrypto : Type 0 where
  pub key : List ℕ
  pub iv : List ℕ
  pub key_size : AesKeySize

abbrev pub aes_block_size : ℕ
aes_block_size = 16

abbrev pub expected_key_length : AesKeySize → ℕ
expected_key_length size128 = 16
expected_key_length size192 = 24
expected_key_length size256 = 32

abbrev pub and_then : {E A B : Type 0} → Result E A → (A → Result E B) → Result E B
and_then (ok a) k = k a
and_then (err e) k = err e

abbrev pub wrap_err : {E F A : Type 0} → (E → F) → Result E A → Result F A
wrap_err f (ok a) = ok a
wrap_err f (err e) = err (f e)

module _ (c : Crypto) where
  -- `AesCBCCrypto::new`.
  unfoldable pub new_crypto : String → String → AesKeySize → Result AesError AesCbcCrypto
  new_crypto key iv key_size =
      if not (len key == expected_key_length key_size)
      then err (invalid_key_length (expected_key_length key_size) (len key))
      else if not (len iv == aes_block_size)
      then err (invalid_iv_length aes_block_size (len iv))
      else ok (record { key = c.as_bytes key; iv = c.as_bytes iv; key_size = key_size })

  unfoldable pub encrypt : AesCbcCrypto → String → Result AesError String
  encrypt a text =
      and_then (wrap_err encrypt_error (c.encryptor a.key_size a.key a.iv))
        λ run. ok (c.base64_encode (run (c.as_bytes text)))

  unfoldable pub decrypt : AesCbcCrypto → String → Result AesError String
  decrypt a encrypted_base64 =
      and_then (wrap_err base64_decode_error (c.base64_decode encrypted_base64)) λ bytes.
        and_then (wrap_err decrypt_error (c.decryptor a.key_size a.key a.iv)) λ run.
          and_then (wrap_err decrypt_error (run bytes))
            λ plain. wrap_err utf8_error (c.from_utf8 plain)

-- What the libraries document: a `String` comes back from its bytes, Base64 gives back what it
-- encoded, a cipher accepts a key and an IV of its lengths in bytes and decrypts what it encrypted,
-- and neither padding nor Base64 of some bytes gives an empty result.
pub record CryptoLaws (c : Crypto) : Type 0 where
  pub from_utf8-as_bytes : (s : String) → c.from_utf8 (c.as_bytes s) ≡ ok s
  pub decode-encode : (bytes : List ℕ) → c.base64_decode (c.base64_encode bytes) ≡ ok bytes
  pub encode-ne-empty : (bytes : List ℕ) → bytes ≢ [] → c.base64_encode bytes ≢ ""
  pub cipher :
      (size : AesKeySize) (key iv : String)
      → len key ≡ expected_key_length size
      → len iv ≡ aes_block_size
      → (run : List ℕ → List ℕ) × (back : List ℕ → Result String (List ℕ)) × (c.encryptor size
            (c.as_bytes key)
            (c.as_bytes iv)
          ≡ ok run)
        × (c.decryptor size (c.as_bytes key) (c.as_bytes iv) ≡ ok back)
        × ((bytes : List ℕ) → back (run bytes) ≡ ok bytes)
        × ((bytes : List ℕ) → run bytes ≢ [])

-- A crypto that `new` has made, over libraries that keep their laws, encrypts every text to some
-- text that is not empty, and decrypts the result to the text.
pub decrypt-encrypt :
    (c : Crypto) (laws : CryptoLaws c) (key iv : String) (size : AesKeySize) (a : AesCbcCrypto)
    (text : String)
    → new_crypto c key iv size ≡ ok a
    → (t : String) × (encrypt c a text ≡ ok t) × (decrypt c a t ≡ ok text) × (t ≢ "")
unfolding new_crypto encrypt decrypt
decrypt-encrypt c laws key iv size a text made =
    let (run, back, enc, dec, law, padded) =
      laws.cipher size key iv (ground arith) (ground arith) in
    let same : (a.key ≡ c.as_bytes key) × (a.iv ≡ c.as_bytes iv) × (a.key_size ≡ size) =
      ground arith in
    let (same_key, same_iv, same_size) = same in
    let bytes = c.as_bytes text in
    (
      c.base64_encode (run bytes),
      rw (same_key, same_iv, same_size) (rw enc),
      rw (same_key, same_iv, same_size)
          (rw (laws.decode-encode (run bytes), dec, law bytes, laws.from_utf8-as_bytes text)),
      laws.encode-ne-empty (run bytes) (padded bytes),
    )

-- `new` makes a crypto exactly if the key has the length of the key size and the IV the length of
-- a block, in bytes.
pub new_crypto_iff :
    (c : Crypto) (key iv : String) (size : AesKeySize)
    → ((a : AesCbcCrypto) × (new_crypto c key iv size ≡ ok a))
      ↔ ((len key ≡ expected_key_length size) × (len iv ≡ aes_block_size))
unfolding new_crypto
new_crypto_iff c key iv size = (
  λ (a, h). ground arith,
  λ h. (record { key = c.as_bytes key; iv = c.as_bytes iv; key_size = size }, ground arith),
)
