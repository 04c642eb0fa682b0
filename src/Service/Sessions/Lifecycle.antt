-- ===== src/Service/Sessions/Lifecycle.antt =====
-- A session of crates/qa-svc/src/application/app.rs from its login to its logout.
use qa_sys.Prelude.Strings.{format}
use qa_sys.Token.Laws.{check_token-encrypt}
use qa_sys.Prelude.Strings.Laws.{IsFree}
use qa_sys.Votes.Handling.{reach_calm}
use qa_sys.Pb.{UserLoginRequest, UserLoginResponse, VerifyTokenRequest}
use qa_sys.Token.{payload_of, check_token}
use qa_sys.Service.Sessions.{
  wrong_password, session_of_user, open_session, start_session, user_login, day, session_key,
  verify_token,
}
use qa_sys.Aes.{encrypt, AesError, CryptoLaws, AesKeySize, new_crypto}
use qa_sys.Service.{Env, status, invalid_argument}
use qa_sys.Domain.{UserSessionEntity, UserEntity}
use qa_sys.Prelude.Int.{ℤ, ◌<ℤ◌, ◌+ℤ◌, pos, i64_half}
use qa_sys.Prelude.{
  String, ℕ, ◌≡◌, ok, arith, find?, some, none, Result, continue-ok, map_err-ok, ensure-ok,
  attempt-ok, err, [], str_eq_iff, ◌∙◌, refl, ap, ◌+◌, ◌<◌, subst, sym, attempt, ◌>>=◌, not, ◌∷◌,
}
use qa_sys.World.{Externals, reach, World, AnyError, message}
use qa_sys.Users
use Prim.Native.String.{len}
use qa_sys.Users.{fetch_one, named, without_dashes}

-- What Redis and serde_json document, for one session: a key that is set with an expiry can be read
-- until then, a key that is deleted cannot, and the session comes back from its text.
pub record SessionLaws {R : Type 0} (x : Externals R) (s : UserSessionEntity) : Type 0 where
  pub get-set_ex :
      (r : R) (now later : ℤ) (key value : String) (second : ℕ)
      → later <ℤ now +ℤ pos second
      → x.redis_get (x.redis_set_ex r now key value second) later key ≡ some value
  pub get-del : (r : R) (now : ℤ) (key : String) → x.redis_get (x.redis_del r key) now key ≡ none
  pub from_json-to_json : x.session_from_json (x.session_to_json s) ≡ ok s

module _ {R : Type 0} where
  fetch_one_ok :
      (name : String) (u : UserEntity) (w v : World R)
      → fetch_one name w ≡ (ok u, v)
      → (find? (named name) w.db.users ≡ some u) × (v.redis ≡ w.redis)
  unfolding fetch_one reach
  fetch_one_ok name u w v h = ground arith

  get_redis :
      (x : Externals R) (now : ℤ) (key : String) (w : World R)
      → (Users.get x now key w).1.redis ≡ w.redis
  unfolding Users.get reach
  get_redis x now key w = ground arith

  set_ok :
      (x : Externals R) (now : ℤ) (key : String) (s : UserSessionEntity) (second : ℕ)
      (w v : World R)
      → Users.set x now key s second w ≡ (ok tt, v)
      → v.redis ≡ x.redis_set_ex w.redis now key (x.session_to_json s) second
  unfolding Users.set reach
  set_ok x now key s second w v h = ground arith

module _ {R : Type 0} (env : Env R) where
  -- What a login that gives a token has done.
  abbrev pub IsLogin : UserEntity → World R → String → World R → Type 0
  IsLogin u w token v =
      (encrypt env.crypto env.aes
          (payload_of (without_dashes env.uuid) u.openid (env.now +ℤ pos day))
        ≡ ok token)
      × (v.redis
          ≡ env.externals.redis_set_ex w.redis env.now (session_key u.openid)
              (env.externals.session_to_json (session_of_user env u)) day)

  open_session_ok :
      (u : UserEntity) (r : Result AesError String) (w v : World R) (reply : UserLoginResponse)
      → open_session env u r w ≡ (ok reply, v)
      → (r ≡ ok reply.token)
        × (v.redis
            ≡ env.externals.redis_set_ex w.redis env.now
                (session_key u.openid)
                (env.externals.session_to_json (session_of_user env u))
                day)
  open_session_ok u (err e) w v reply h = cc
  open_session_ok u (ok token) w v reply h =
      let (_, s, e, rest) = continue-ok _ _ reply v h in
      let stored =
        set_ok env.externals env.now (session_key u.openid) (session_of_user env u) day w s
          (map_err-ok _ _ tt s e) in
      (cc, cc)

  start_session_ok :
      (name : String) (u : UserEntity) (found : Result AnyError UserSessionEntity) (w v : World R)
      (reply : UserLoginResponse)
      → start_session env name u found w ≡ (ok reply, v)
      → IsLogin u w reply.token v
  start_session_ok name u (ok s) w v reply h = cc
  start_session_ok name u (err e) w v reply h = open_session_ok u _ w v reply h

  pub user_login_ok :
      (req : UserLoginRequest) (w v : World R) (reply : UserLoginResponse)
      → user_login env req w ≡ (ok reply, v)
      → (u : UserEntity) × (find? (named req.username) w.db.users ≡ some u)
        × (u.password ≡ env.externals.md5_hex req.password)
        × IsLogin u w reply.token v
  unfolding user_login
  user_login_ok req w v reply h =
      let (u, w1, e1, h1) = continue-ok _ _ reply v h in
      let (found, same1) = fetch_one_ok req.username u w w1 (map_err-ok _ _ u w1 e1) in
      let (right, h2) =
        ensure-ok
          (attempt (Users.get env.externals env.now (session_key u.openid))
            >>= start_session env req.username u)
          (not (wrong_password env req.password u))
          (status invalid_argument (format ("用户 " ∷ req.username ∷ " 输入的密码错误" ∷ []))) w1 reply v
          h1 in
      let h3 =
        attempt-ok (start_session env req.username u)
          (Users.get env.externals env.now (session_key u.openid) w1) reply v h2 in
      let (made, stored) = start_session_ok req.username u _ _ v reply h3 in
      let right_password : u.password ≡ env.externals.md5_hex req.password =
        ground (arith, str_eq_iff u.password (env.externals.md5_hex req.password)) in
      let before : (Users.get env.externals env.now (session_key u.openid) w1).1.redis ≡ w.redis =
        get_redis env.externals env.now (session_key u.openid) w1 ∙ same1 in
      (
        u,
        found,
        right_password,
        (
          made,
          stored
              ∙ ap
                  (λ r.
                    env.externals.redis_set_ex r env.now (session_key u.openid)
                      (env.externals.session_to_json (session_of_user env u)) day)
                  before,
        ),
      )

module _ {R : Type 0} (x : Externals R) (now : ℤ) (key : String) (v : World R)
    (calm : v.faults ≡ []) where
  pub get_found :
      (text : String) (s : UserSessionEntity)
      → x.redis_get v.redis now key ≡ some text
      → x.session_from_json text ≡ ok s
      → Users.get x now key v ≡ (ok s, v)
  unfolding Users.get
  get_found text s found parsed =
      rw (reach_calm message v calm) (rw (reach_calm message v calm) (rw (found, parsed) refl))

  pub get_missing :
      x.redis_get v.redis now key ≡ none
      → Users.get x now key v ≡ (err (message "user session not found"), v)
  unfolding Users.get
  get_missing missing =
      rw (reach_calm message v calm) (rw (reach_calm message v calm) (rw missing refl))

  pub del_calm : Users.del x key v ≡ (ok tt, record v { redis = x.redis_del v.redis key })
  unfolding Users.del
  del_calm = rw (reach_calm message v calm) (
      rw (reach_calm message v calm)
        (rw (reach_calm message (record v { redis = x.redis_del v.redis key }) calm) refl))

expires_at : (n : ℕ) → pos n +ℤ pos day ≡ pos (n + day)
unfolding ◌+ℤ◌
expires_at n = ground arith

-- What is the case when a token has been given out.
module _ {R : Type 0} (env : Env R) (u : UserEntity) (n : ℕ)
    (laws : SessionLaws env.externals (session_of_user env u)) (crypto_laws : CryptoLaws env.crypto)
    (key iv : String) (size : AesKeySize) (made : new_crypto env.crypto key iv size ≡ ok env.aes)
    (clock : env.now ≡ pos n) (range : n + day < i64_half)
    (login_free : IsFree b':' (without_dashes env.uuid)) (openid_free : IsFree b':' u.openid)
    (openid_len : len u.openid ≡ 32) where
  token_good :
      (token : String) (later : ℤ)
      → encrypt env.crypto env.aes
          (payload_of (without_dashes env.uuid) u.openid (env.now +ℤ pos day))
        ≡ ok token
      → later <ℤ pos (n + day)
      → check_token env.crypto env.aes later token ≡ ok u.openid
  token_good token later enc before =
      let (t, enc', good) =
        check_token-encrypt env.crypto env.aes crypto_laws key iv size made
          (without_dashes env.uuid) u.openid (n + day) login_free openid_free openid_len range in
      let expiry : env.now +ℤ pos day ≡ pos (n + day) = rw clock (expires_at n) in
      let enc2 : encrypt env.crypto env.aes
            (payload_of (without_dashes env.uuid) u.openid (pos (n + day)))
          ≡ ok token =
        rw (sym expiry) enc in
      let same : token ≡ t = cc in rw same (good later ∙ ground arith)

  -- A token that a login has given out is verified for its user at every time before the day is
  -- over, from any world with the session store that the login left and with calls that go
  -- through: the reply has state 1 and the user's name. The conditions: the user is the first row
  -- of the name and has an openid of 32 bytes without colons, the login id has no colon, the clock
  -- fits an `i64`, `new` has made the crypto, and the laws of the crypto and of the session store
  -- hold.
  pub verify_token-user_login :
      (req : UserLoginRequest) (reply : UserLoginResponse) (w w' v : World R) (later : ℤ)
      (verify : VerifyTokenRequest)
      → find? (named req.username) w.db.users ≡ some u
      → user_login env req w ≡ (ok reply, w')
      → verify.token ≡ reply.token
      → later <ℤ pos (n + day)
      → v.redis ≡ w'.redis
      → v.faults ≡ []
      → verify_token (record env { now = later }) verify v
        ≡ (ok (record { state = pos 1; reason = ""; username = u.username }), v)
  unfolding verify_token
  verify_token-user_login req reply w w' v later verify here login same_token before same calm =
      let key = session_key u.openid in
      let text = env.externals.session_to_json (session_of_user env u) in
      let (u', here', _, (enc', stored')) = user_login_ok env req w w' reply login in
      let same_user : u' ≡ u = cc in
      let (enc, stored) : IsLogin env u w reply.token w' =
        subst (λ a. IsLogin env a w reply.token w') same_user (enc', stored') in
      let in_time : later <ℤ env.now +ℤ pos day = rw (clock, expires_at n) before in
      let found =
        (ap (λ r. env.externals.redis_get r later key) (same ∙ stored))
        ∙ laws.get-set_ex w.redis env.now later key text day in_time in
      rw same_token (
        rw (token_good reply.token later enc before)
          (rw (get_found env.externals later key v calm text _ found laws.from_json-to_json) refl))
