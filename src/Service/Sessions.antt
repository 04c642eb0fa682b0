-- ===== src/Service/Sessions.antt =====
-- crates/qa-svc/src/application/app.rs: `user_login`, `user_logout`, `user_register` and
-- `verify_token`.
pub mod Registration
pub mod Lifecycle
pub mod Logout
use qa_sys.Users
use qa_sys.Token.{check_token, payload_of}
use qa_sys.Users.{fetch_one, check_user_exist, without_dashes}
use qa_sys.Prelude.Int.{◌+ℤ◌, pos}
use qa_sys.Aes.{AesError, wrap_err, encrypt}
use qa_sys.Domain.{UserEntity, UserSessionEntity}
use qa_sys.Prelude.Strings.{format}
use qa_sys.World.{AnyError, db, error_text, message, row_not_found}
use qa_sys.Pb.{
  UserRegisterRequest, UserLoginRequest, UserLogoutRequest, VerifyTokenRequest, UserLoginResponse,
  VerifyTokenResponse, UserRegisterResponse, UserLogoutResponse,
}
use qa_sys.Prelude.{
  String, ℕ, Result, ◌∷◌, Bool, if◌then◌else◌, not, [], ◌>>=◌, ok, str_eq, err, fail, lift, map_err,
  ◌>>◌, attempt, ensure, pure,
}
use qa_sys.Service.{
  Env, Failure, Handler, status, contains, unknown, unauthenticated, internal, invalid_argument,
  already_exists, panic, or_status, aborted,
}

abbrev pub session_key : String → String
session_key openid = format ("user_login:" ∷ openid ∷ [])

abbrev pub day : ℕ
day = 86400

module _ {R : Type 0} (env : Env R) where
  abbrev pub session_of_user : UserEntity → UserSessionEntity
  session_of_user u = record {
    uid = u.id;
    username = u.username;
    openid = u.openid;
    login_time = env.externals.format_time env.now;
    expire_time = env.externals.format_time (env.now +ℤ pos day);
  }

  -- The token, once it has been encrypted, and the session behind it.
  abbrev pub open_session : UserEntity → Result AesError String → Handler R UserLoginResponse
  open_session u (err e) = fail (panic "fail to encrypt token")
  open_session u (ok token) = do
    or_status env.externals internal "保存 Session 失败: "
        (Users.set env.externals env.now (session_key u.openid) (session_of_user u) day)
    pure (record { token = token })

  -- A session that can be read refuses the login; any error of the read does not.
  abbrev pub start_session :
      String → UserEntity → Result AnyError UserSessionEntity → Handler R UserLoginResponse
  start_session username u (ok session) =
      fail (status already_exists (format ("用户 " ∷ username ∷ " 已经登陆，请不要重复登录" ∷ [])))
  start_session username u (err e) = open_session u (
      encrypt env.crypto env.aes
        (payload_of (without_dashes env.uuid) u.openid (env.now +ℤ pos day)))

  -- `err.downcast().expect("fail to conver into sqlx error")`, and the two kinds of `sqlx::Error`.
  abbrev pub login_refused : String → AnyError → Failure
  login_refused username (db row_not_found) =
      status unknown (format ("当前用户 " ∷ username ∷ " 未注册" ∷ []))
  login_refused username (db e) =
      status internal (format ("用户 " ∷ username ∷ " 登陆发生未知错误: " ∷ env.externals.db_text e ∷ []))
  login_refused username (message t) = panic "fail to conver into sqlx error"

  abbrev pub wrong_password : String → UserEntity → Bool
  wrong_password password u = not (str_eq u.password (env.externals.md5_hex password))

  unfoldable pub user_login : UserLoginRequest → Handler R UserLoginResponse
  user_login req = do
    u ← map_err (login_refused req.username) (fetch_one req.username)
    ensure (not (wrong_password req.password u))
        (status invalid_argument (format ("用户 " ∷ req.username ∷ " 输入的密码错误" ∷ [])))
    found ← attempt (Users.get env.externals env.now (session_key u.openid))
    start_session req.username u found

  -- What `user_logout` and `verify_token` answer to a token that `check_token` refuses.
  abbrev pub refused_token : String → Failure
  refused_token e =
      if contains e "token has expired"
      then status unauthenticated "token has expired"
      else status invalid_argument e

  unfoldable pub user_logout : UserLogoutRequest → Handler R UserLogoutResponse
  user_logout req = do
    openid ← lift (wrap_err refused_token (check_token env.crypto env.aes env.now req.token))
    map_err (λ e. status aborted (format ("用户登出 失败:" ∷ env.externals.debug_error e ∷ [])))
        (Users.del env.externals (session_key openid))
    pure (record { state = pos 1 })

  unfoldable pub user_register : UserRegisterRequest → Handler R UserRegisterResponse
  user_register req = do
    exists ←
        map_err
          (λ e.
            status internal
              (format ("查询用户 " ∷ req.username ∷ " 失败:" ∷ error_text env.externals e ∷ [])))
          (check_user_exist req.username)
    ensure (not exists) (status already_exists "用户名已存在")
    map_err
        (λ e.
          status unknown
            (format ("用户 " ∷ req.username ∷ " 注册失败:" ∷ error_text env.externals e ∷ [])))
        (Users.add env.externals env.now env.uuid req.username req.password)
    pure (record { state = pos 1 })

  -- The reply for what the session store answers: a failing store counts as state 1, with no name.
  abbrev pub session_reply : Result AnyError UserSessionEntity → VerifyTokenResponse
  session_reply (ok user) = record { state = pos 1; reason = ""; username = user.username }
  session_reply (err e) =
      if contains (error_text env.externals e) "session not found"
      then record { state = pos 0; reason = "login session not found"; username = "" }
      else record {
        state = pos 1;
        reason = format ("Unkown error: " ∷ error_text env.externals e ∷ []);
        username = "";
      }

  unfoldable pub verify_token : VerifyTokenRequest → Handler R VerifyTokenResponse
  verify_token req = do
    openid ← lift (wrap_err refused_token (check_token env.crypto env.aes env.now req.token))
    found ← attempt (Users.get env.externals env.now (session_key openid))
    pure (session_reply found)
