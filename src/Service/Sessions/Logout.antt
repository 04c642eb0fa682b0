-- ===== src/Service/Sessions/Logout.antt =====
-- What crates/qa-svc/src/application/app.rs answers after a logout, and to a login while a session is
-- open.
use qa_sys.Prelude.Strings.{format}
use qa_sys.Votes.Handling.{reach_calm}
use qa_sys.Token.{check_token}
use qa_sys.Prelude.{String, err, ◌≡◌, find?, some, [], refl, ok, ◌∷◌, str_eq, true, str_eq_iff, ap}
use qa_sys.World.{error_text, World, message, sql_failed}
use qa_sys.Domain.{UserSessionEntity, UserEntity}
use qa_sys.Prelude.Int.{pos}
use qa_sys.Pb.{VerifyTokenResponse, UserLogoutRequest, UserLoginRequest, VerifyTokenRequest}
use qa_sys.Users.{fetch_one, named}
use qa_sys.Service.{contains, Env, status, already_exists}
use qa_sys.Service.Sessions.{session_key, user_login, user_logout, verify_token, session_reply}
use qa_sys.Service.Sessions.Lifecycle.{SessionLaws, get_found, get_missing, del_calm}

abbrev pub logged_out : VerifyTokenResponse
logged_out = record { state = pos 0; reason = "login session not found"; username = "" }

module _ {R : Type 0} (env : Env R) (s : UserSessionEntity)
    (laws : SessionLaws env.externals s) where
  not_found_reply : session_reply env (err (message "user session not found")) ≡ logged_out
  unfolding contains error_text
  not_found_reply = refl

  -- With calls that go through and a session store that keeps its laws, a logout with a token that
  -- `check_token` accepts answers state 1 and leaves the tables, and afterwards the same token is
  -- verified as not logged in: state 0 with "login session not found", without a change.
  pub verify_token-user_logout :
      (req : UserLogoutRequest) (verify : VerifyTokenRequest) (openid : String) (v : World R)
      → verify.token ≡ req.token
      → check_token env.crypto env.aes env.now req.token ≡ ok openid
      → v.faults ≡ []
      → let out = user_logout env req v in
        (out.0 ≡ ok (record { state = pos 1 }))
        × (out.1.db ≡ v.db)
        × (verify_token env verify out.1 ≡ (ok logged_out, out.1))
  unfolding user_logout verify_token
  verify_token-user_logout req verify openid v same good calm =
      let w = record v { redis = env.externals.redis_del v.redis (session_key openid) } in
      let gone =
        get_missing env.externals env.now (session_key openid) w calm
          (laws.get-del v.redis env.now (session_key openid)) in
      rw same (
        rw good (
          rw (del_calm env.externals env.now (session_key openid) v calm)
            (refl, refl, rw gone (ap (λ r. (ok r, w)) not_found_reply))))

module _ {R : Type 0} (env : Env R) where
  fetch_one_calm :
      (name : String) (u : UserEntity) (v : World R)
      → v.faults ≡ []
      → find? (named name) v.db.users ≡ some u
      → fetch_one name v ≡ (ok u, v)
  unfolding fetch_one
  fetch_one_calm name u v calm here = rw (reach_calm sql_failed v calm) (rw here refl)

  -- While the session of a user can be read from the store, with calls that go through, a login of
  -- that user with the right password is refused as already existing and changes nothing.
  pub user_login-again :
      (req : UserLoginRequest) (u : UserEntity) (s : UserSessionEntity) (text : String)
      (v : World R)
      → find? (named req.username) v.db.users ≡ some u
      → u.password ≡ env.externals.md5_hex req.password
      → env.externals.redis_get v.redis env.now (session_key u.openid) ≡ some text
      → env.externals.session_from_json text ≡ ok s
      → v.faults ≡ []
      → user_login env req v
        ≡ (err (status already_exists (format ("用户 " ∷ req.username ∷ " 已经登陆，请不要重复登录" ∷ []))), v)
  unfolding user_login
  user_login-again req u s text v here right found parsed calm =
      let matched : str_eq u.password (env.externals.md5_hex req.password) ≡ true =
        (str_eq_iff _ _).1 right in
      rw (fetch_one_calm req.username u v calm here) (
        rw matched (
          rw (get_found env.externals env.now (session_key u.openid) v calm text s found parsed)
            refl))
