-- ===== src/Tests/Tokens.antt =====
-- Runs of the crypto of crates/core/src/aes.rs and of the tokens of crates/qa-svc.
use qa_sys.Prelude.Strings.{split}
use qa_sys.Prelude.Int.{pos, ℤ, leb_ℤ}
use qa_sys.Prelude.{◌≡◌, String, ok, ◌↔◌, ◌≢◌, refl, if◌then◌else◌, err, arith}
use qa_sys.Aes.{new_crypto, size128, encrypt, decrypt, decrypt-encrypt}
use qa_sys.Token.{check_token, payload_of}
use qa_sys.Token.Laws.{IsLive, check_token_iff, check_token-encrypt}
use qa_sys.Tests.Ciphers.{toy_crypto, toy_laws}
use qa_sys.Tests.Worlds.{toy_key, toy_iv, toy_aes, ann}

pub made : new_crypto toy_crypto toy_key toy_iv size128 ≡ ok toy_aes
unfolding new_crypto
made = refl

decrypt-encrypt_example :
    (t : String) × (encrypt toy_crypto toy_aes "a text" ≡ ok t)
    × (decrypt toy_crypto toy_aes t ≡ ok "a text")
    × (t ≢ "")
decrypt-encrypt_example =
    decrypt-encrypt toy_crypto toy_laws toy_key toy_iv size128 toy_aes "a text" made

abbrev sample : String
sample = "1.11."

check_token_iff_example : (check_token toy_crypto toy_aes (pos 5) sample ≡ ok ann.openid) ↔ (
    (sample ≢ "")
    × ((payload : String) × (decrypt toy_crypto toy_aes sample ≡ ok payload)
        × IsLive (pos 5) ann.openid (split b':' payload)))
check_token_iff_example = check_token_iff toy_crypto toy_aes (pos 5) sample ann.openid

check_token-encrypt_example :
    (t : String) × (encrypt toy_crypto toy_aes (payload_of "abc" ann.openid (pos 1000)) ≡ ok t)
    × ((now : ℤ)
        → check_token toy_crypto toy_aes now t
          ≡ (if leb_ℤ (pos 1000) now then err "token has expired" else ok ann.openid))
check_token-encrypt_example =
    check_token-encrypt toy_crypto toy_aes toy_laws toy_key toy_iv size128 made "abc" ann.openid
      1000 (ground arith) (ground arith) refl (omega arith)
