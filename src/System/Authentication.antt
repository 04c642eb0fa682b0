-- ===== src/System/Authentication.antt =====
-- Whom the gateway of crates/gateway/src/router.rs lets in when crates/qa-svc/src/application/app.rs
-- verifies its tokens.
use qa_sys.Gateway.Access.{IsPresented, IsToken, authorization_token_iff, verified_username_iff}
use qa_sys.Gateway.Client.{serve, qa_service, status_of}
use qa_sys.Token.{check_token}
use qa_sys.Domain.{UserSessionEntity}
use qa_sys.World.{AnyError, World}
use qa_sys.Service.{Env, Failure, Handler}
use qa_sys.Aes.{wrap_err}
use qa_sys.Gateway.{Status, HttpRequest, Principal}
use qa_sys.Prelude.{
  Result, ◌≡◌, String, ok, ◌≢◌, err, continue-ok, refl, attempt-ok, arith, pure, sym, ◌∙◌, ap,
  subst, Bool, Action, map_err-ok, false, true, ◌≤◌,
}
use qa_sys.Service.Sessions.{verify_token, session_reply, session_key}
use qa_sys.Gateway.Auth.{
  authenticate, in_time, map_verification_error, authorization_token, verified_username,
}
use Prim.Native.String.{len}
use qa_sys.Users
use qa_sys.Pb

wrap_err_ok : {E F A : Type 0} (f : E → F) (r : Result E A) (a : A) → wrap_err f r ≡ ok a → r ≡ ok a
wrap_err_ok f (ok b) a h = cc
wrap_err_ok f (err e) a h = cc

-- The name in a reply.
abbrev username_of : Result Failure Pb.VerifyTokenResponse → String
username_of (ok r) = r.username
username_of (err e) = ""

module _ {R : Type 0} (panicked : Status) (env : Env R) where
  -- The session that this token opens in this world.
  abbrev pub HasSession : World R → String → UserSessionEntity → Type 0
  HasSession w token session =
      (openid : String) × (check_token env.crypto env.aes env.now token ≡ ok openid)
      × ((Users.get env.externals env.now (session_key openid) w).0 ≡ ok session)

  unnamed : (e : AnyError) → (session_reply env (err e)).username ≡ ""
  unnamed e = ground arith

  session_reply_named :
      (found : Result AnyError UserSessionEntity) (name : String)
      → (session_reply env found).username ≡ name
      → name ≢ ""
      → (session : UserSessionEntity) × (found ≡ ok session) × (session.username ≡ name)
  session_reply_named (ok session) name e n = (session, refl, e)
  session_reply_named (err e') name e n = absurd (n (sym e ∙ unnamed e'))

  verify_token_named :
      (req : Pb.VerifyTokenRequest) (r : Pb.VerifyTokenResponse) (w v : World R)
      → verify_token env req w ≡ (ok r, v)
      → r.username ≢ ""
      → (session : UserSessionEntity) × HasSession w req.token session
        × (session.username ≡ r.username)
  unfolding verify_token
  verify_token_named req r w v h n =
      let (openid, u, found, rest) =
        continue-ok _ (wrap_err _ (check_token env.crypto env.aes env.now req.token), w) r v h in
      let reply : (pure
            (session_reply env (Users.get env.externals env.now (session_key openid) u).0)
            (Users.get env.externals env.now (session_key openid) u).1
          ≡ (ok r, v)) =
        attempt-ok (λ found. pure (session_reply env found))
          (Users.get env.externals env.now (session_key openid) u) r v rest in
      let (session, got, same) =
        session_reply_named _ r.username (ap (λ o. username_of o.0) reply) n in
      (
        session,
        (
          openid,
          wrap_err_ok _ (check_token env.crypto env.aes env.now req.token) openid
              (ap (λ o. o.0) found),
          subst (λ x. (Users.get env.externals env.now (session_key openid) x).0 ≡ ok session)
              (sym (ap (λ o. o.1) found)) got,
        ),
        same,
      )

  served_ok :
      {A B : Type 0} (handler : A → Handler R B) (req : A) (w v : World R) (b : B)
      → serve panicked handler req w ≡ (ok b, v)
      → handler req w ≡ (ok b, v)
  served_ok handler req w v b h = map_err-ok (status_of panicked) (handler req w) b v h

  in_time_ok :
      (timed_out : Bool) (request_id : String) (late : Bool)
      (m : Action (World R) Status Pb.VerifyTokenResponse) (r : Pb.VerifyTokenResponse)
      (w v : World R)
      → in_time (qa_service panicked env) timed_out request_id late m w ≡ (ok r, v)
      → (late ≡ false) × (m w ≡ (ok r, v))
  in_time_ok timed_out request_id true m r w v h = cc
  in_time_ok timed_out request_id false m r w v h =
      (refl, map_err-ok map_verification_error (m w) r v h)

  -- This principal presents a token that is accepted for an openid with a session in the store, in
  -- time, and goes by the name in that session, which is not empty and has at most 64 bytes.
  abbrev pub IsLetIn : Bool → HttpRequest → World R → Principal → Type 0
  IsLetIn timed_out req w p =
      IsPresented p.token req.authorization
      × IsToken p.token
      × (timed_out ≡ false)
      × ((session : UserSessionEntity) × HasSession w p.token session
          × (session.username ≡ p.username))
      × (p.username ≢ "")
      × (len p.username ≤ 64)

  let_in :
      (request_id token name : String) (verification : Pb.VerifyTokenResponse) (w v : World R)
      (late : Bool) (req : HttpRequest)
      → authorization_token req ≡ ok token
      → (qa_service panicked env).verify_token (record { token = token; request_id = request_id }) w
        ≡ (ok verification, v)
      → verified_username verification ≡ ok name
      → late ≡ false
      → IsLetIn late req w (record { username = name; token = token })
  let_in request_id token name verification w v late req t a n l =
      let (presented, good) = (authorization_token_iff req token).0 t in
      let (state, same, some_name, short) = (verified_username_iff verification name).0 n in
      let (session, open_session, named) =
        verify_token_named (record { token = token; request_id = request_id }) verification w v
          (served_ok (verify_token env) (record { token = token; request_id = request_id }) w v
            verification a)
          (rw same some_name) in
      (presented, good, l, (session, open_session, named ∙ same), some_name, short)

  -- Whoever the gateway lets in before qa-svc presents in its header, after "Bearer" and a space,
  -- a token of 1 to 512 bytes without ASCII white space, which `check_token` accepts for some
  -- openid; the session store holds a session under the key of that openid, with an answer in
  -- time; and the name that is let in is the one in that session, which is not empty and has at
  -- most 64 bytes.
  pub authenticate-IsLetIn :
      (timed_out : Bool) (request_id : String) (req : HttpRequest) (w v : World R) (p : Principal)
      → authenticate (qa_service panicked env) timed_out request_id req w ≡ (ok p, v)
      → IsLetIn timed_out req w p
  unfolding authenticate
  authenticate-IsLetIn timed_out request_id req w v p h =
      let (token, u, found, after) = continue-ok _ (authorization_token req, w) p v h in
      let (verification, u', answered, named) =
        continue-ok _
          (in_time (qa_service panicked env) timed_out request_id timed_out
            ((qa_service panicked env).verify_token
              (record { token = token; request_id = request_id }))
            u)
          p v after in
      let (name, u'', verified, same) =
        continue-ok _ (verified_username verification, u') p v named in
      let (on_time, call) =
        in_time_ok timed_out request_id timed_out
          ((qa_service panicked env).verify_token
            (record { token = token; request_id = request_id }))
          verification u u' answered in
      let who : Path Principal (record { username = name; token = token }) p = cc in
      subst (IsLetIn timed_out req w) who (
        let_in request_id token name verification w u' timed_out req (ap (λ o. o.0) found)
          (subst
            (λ x.
              (qa_service panicked env).verify_token
                (record { token = token; request_id = request_id }) x
              ≡ (ok verification, u'))
            (sym (ap (λ o. o.1) found)) call)
          (ap (λ o. o.0) verified) on_time)
