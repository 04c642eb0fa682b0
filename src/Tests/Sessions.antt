-- ===== src/Tests/Sessions.antt =====
-- Runs of the sessions of crates/qa-svc/src/application/app.rs.
use qa_sys.Prelude.Strings.{format}
use qa_sys.Prelude.Strings.Laws.{IsFree}
use qa_sys.Prelude.Int.{ltb_ℤ, pos}
use qa_sys.Service.{Failure, status, already_exists}
use qa_sys.World.{World}
use qa_sys.Pb.{UserLoginResponse, UserLoginRequest, VerifyTokenRequest}
use qa_sys.Prelude.{
  Bool, Result, ◌≡◌, arith, List, ok, str_eq_refl, str_eq, true, err, ◌&&◌, false, find?, keep, not,
  none, ◌∷◌, refl, [], String, some,
}
use qa_sys.Tests.Tokens.{made}
use qa_sys.Users.{without_dashes, named, fetch_one}
use qa_sys.Users
use qa_sys.Aes.{encrypt, size128}
use qa_sys.Token.{check_token}
use qa_sys.Aes.{decrypt}
use qa_sys.Prelude.Strings.{split, parse_i64, scan_digits}
use qa_sys.Prelude.Int.{◌+ℤ◌}
use qa_sys.Service.Sessions.{user_login, user_logout, verify_token, session_of_user, session_key}
use qa_sys.Service.Sessions.Lifecycle.{SessionLaws, verify_token-user_login}
use qa_sys.Service.Sessions.Logout.{verify_token-user_logout, user_login-again, logged_out}
use qa_sys.Tests.Ciphers.{toy_crypto, toy_laws}
use qa_sys.Tests.Worlds.{
  toy, toy_env, toy_key, toy_iv, toy_aes, ann, start, Store, Entry, ann_session,
}

find?-keep :
    (p : Entry → Bool) (q : Entry → Bool) (es : List Entry)
    → ((e : Entry) → p e ≡ true → q e ≡ false)
    → find? p (keep q es) ≡ none
find?-keep p q [] h = refl
find?-keep p q (e ∷ es) h = ground (arith, h e, find?-keep p q es h)

start_laws : SessionLaws toy (session_of_user toy_env ann)
start_laws = record {
  get-set_ex = λ r now later key value second before. ground (arith, str_eq_refl key);
  get-del = λ r now key.
      rw
        (find?-keep (λ e. str_eq e.key key && ltb_ℤ now e.until) (λ e. not (str_eq e.key key))
          r.entries (λ e h. ground arith))
        refl;
  from_json-to_json = refl;
}

abbrev pub login : UserLoginRequest
login = record { username = "ann"; password = "secret" }

abbrev pub logged_in : World Store
logged_in = (user_login toy_env login start).1

abbrev pub reply_of : Result Failure UserLoginResponse → UserLoginResponse
reply_of (ok r) = r
reply_of (err e) = record { token = "" }

abbrev pub first_reply : UserLoginResponse
first_reply = reply_of (user_login toy_env login start).0

logged_in_ok : user_login toy_env login start ≡ (ok first_reply, logged_in)
unfolding user_login fetch_one Users.get Users.set str_eq encrypt
logged_in_ok = refl

calm_after : logged_in.faults ≡ []
unfolding user_login fetch_one Users.get Users.set str_eq encrypt
calm_after = refl

ann_first : find? (named "ann") start.db.users ≡ some ann
unfolding str_eq
ann_first = refl

without_dashes-IsFree : IsFree b':' (without_dashes toy_env.uuid)
unfolding without_dashes
without_dashes-IsFree = ground arith

abbrev verify_first : VerifyTokenRequest
verify_first = record { token = first_reply.token; request_id = "r1" }

-- An hour later, from the world that the login left.
verify_token-user_login_example :
    verify_token (record toy_env { now = pos 4600 }) verify_first logged_in
    ≡ (ok (record { state = pos 1; reason = ""; username = "ann" }), logged_in)
verify_token-user_login_example =
    verify_token-user_login toy_env ann 1000 start_laws toy_laws toy_key toy_iv size128 made refl
      (omega arith) without_dashes-IsFree (ground arith) refl login first_reply start logged_in
      logged_in (pos 4600) verify_first ann_first logged_in_ok refl (omega arith) refl calm_after

ann_after : find? (named "ann") logged_in.db.users ≡ some ann
unfolding user_login fetch_one Users.get Users.set str_eq encrypt
ann_after = refl

stored_after : toy.redis_get logged_in.redis toy_env.now (session_key ann.openid) ≡ some "ann"
unfolding user_login fetch_one Users.get Users.set str_eq encrypt ◌+ℤ◌
stored_after = refl

-- The world after the login, with the session that `set` stored.
user_login-again_example :
    user_login toy_env login logged_in
    ≡ (err (status already_exists (format ("用户 " ∷ "ann" ∷ " 已经登陆，请不要重复登录" ∷ []))), logged_in)
user_login-again_example =
    user_login-again toy_env login ann (record ann_session { username = "ann" }) "ann" logged_in
      ann_after refl stored_after refl calm_after

-- The token decrypts to a payload made by hand.
abbrev handmade : String
handmade =
    toy_crypto.base64_encode (1 ∷ toy_crypto.as_bytes "x:0123456789abcdef0123456789abcdef:5000")

handmade_good : check_token toy_crypto toy_aes (pos 1000) handmade ≡ ok ann.openid
unfolding check_token str_eq decrypt split parse_i64 scan_digits
handmade_good = refl

verify_token-user_logout_example :
    let out = user_logout toy_env (record { token = handmade }) start in
    (out.0 ≡ ok (record { state = pos 1 }))
    × (out.1.db ≡ start.db)
    × (verify_token toy_env (record { token = handmade; request_id = "r2" }) out.1
        ≡ (ok logged_out, out.1))
verify_token-user_logout_example =
    verify_token-user_logout toy_env (session_of_user toy_env ann) start_laws
      (record { token = handmade }) (record { token = handmade; request_id = "r2" }) ann.openid
      start refl handmade_good refl
