-- ===== src/Service/Sessions/Registration.antt =====
-- What a registration of crates/qa-svc/src/application/app.rs leaves behind.
use qa_sys.Prelude.Strings.{format}
use qa_sys.Votes.Handling.{reach_calm}
use qa_sys.Votes.{is_some}
use qa_sys.Prelude.Int.{pos}
use qa_sys.World.{reach, World, sql_failed, error_text, in_varchar, fits_varchar, IsWhole}
use qa_sys.Pb.{UserRegisterRequest, UserRegisterResponse}
use qa_sys.Prelude.{
  String, Bool, List, ℕ, ◌≡◌, [], none, ok, find?, arith, err, ◌++◌, some, false, true, continue-ok,
  ◌∷◌, refl, map_err-ok, ap, ◌∙◌, map_err, ◌>>◌, pure, ensure-ok, not, str_eq_refl,
}
use qa_sys.Domain.{UserEntity}
use qa_sys.Service.{Env, status, already_exists, Handler, unknown}
use qa_sys.Users
use qa_sys.Users.{fetch_one, named, check_user_exist, without_dashes}
use qa_sys.Service.Sessions.{user_register}

-- The row of a new user.
abbrev pub registered : {R : Type 0} → Env R → UserRegisterRequest → ℕ → UserEntity
registered env req n = record {
  id = pos n;
  username = in_varchar 50 req.username;
  password = in_varchar 50 (env.externals.md5_hex req.password);
  nick = "";
  openid = in_varchar 32 (without_dashes env.uuid);
  created_at = env.externals.naive_local env.now;
  updated_at = none;
}

find?-appended :
    (p : UserEntity → Bool) (u : UserEntity) (us : List UserEntity)
    → is_some (find? p us) ≡ false
    → p u ≡ true
    → find? p (us ++ u ∷ []) ≡ some u
find?-appended p u [] h e = rw e refl
find?-appended p u (v ∷ vs) h e = ground (arith, find?-appended p u vs)

module _ {R : Type 0} (env : Env R) where
  check_user_exist_ok :
      (name : String) (b : Bool) (w v : World R)
      → check_user_exist name w ≡ (ok b, v)
      → (is_some (find? (named name) w.db.users) ≡ b) × (v.db ≡ w.db)
  unfolding check_user_exist reach
  check_user_exist_ok name b w v h = ground arith

  add_ok :
      (req : UserRegisterRequest) (w v : World R)
      → Users.add env.externals env.now env.uuid req.username req.password w ≡ (ok tt, v)
      → (v.db.users ≡ w.db.users ++ registered env req w.db.user_seq ∷ [])
        × (fits_varchar 50 req.username ≡ true)
  unfolding Users.add reach
  add_ok req w v h = ground arith

  check_user_exist_calm :
      (name : String) (v : World R)
      → v.faults ≡ []
      → check_user_exist name v ≡ (ok (is_some (find? (named name) v.db.users)), v)
  unfolding check_user_exist
  check_user_exist_calm name v calm = rw (reach_calm sql_failed v calm) refl

  user_register_ok :
      (req : UserRegisterRequest) (reply : UserRegisterResponse) (w v : World R)
      → IsWhole 50 req.username
      → user_register env req w ≡ (ok reply, v)
      → find? (named req.username) v.db.users ≡ some (registered env req w.db.user_seq)
  unfolding user_register
  user_register_ok req reply w v whole h =
      let (exists, w1, e1, h1) = continue-ok _ _ reply v h in
      let (missing, same) =
        check_user_exist_ok req.username exists w w1 (map_err-ok _ _ exists w1 e1) in
      let rest : Handler R UserRegisterResponse =
        map_err
          (λ e.
            status unknown
              (format ("用户 " ∷ req.username ∷ " 注册失败:" ∷ error_text env.externals e ∷ [])))
          (Users.add env.externals env.now env.uuid req.username req.password)
        >> pure (record { state = pos 1 }) in
      let (free, h2) = ensure-ok rest (not exists) (status already_exists "用户名已存在") w1 reply v h1 in
      let (_, w2, e2, h3) = continue-ok _ _ reply v h2 in
      let same_world : v ≡ w2 = (cc) in
      let (added, fits) = add_ok req w1 w2 (map_err-ok _ _ tt w2 e2) in
      let rows : v.db.users ≡ w1.db.users ++ registered env req w1.db.user_seq ∷ [] =
        ap (λ x. x.db.users) same_world ∙ added in
      let none_yet : is_some (find? (named req.username) w.db.users) ≡ false = ground arith in
      rw rows (
        rw same (
          find?-appended (named req.username) (registered env req w.db.user_seq) w.db.users none_yet
            (rw (whole fits) (str_eq_refl req.username))))

  -- After a registration that answered without an error, of a name from which the column cuts no
  -- spaces, from the tables that it left and with calls that go through, the user is found under
  -- its name with the md5 of the password and the uuid without dashes, each as its column keeps
  -- it, as password and openid, and a second registration of the name is refused as already
  -- existing and changes nothing.
  pub user_register-fetch_one :
      (req again : UserRegisterRequest) (reply : UserRegisterResponse) (w v u : World R)
      → IsWhole 50 req.username
      → user_register env req w ≡ (ok reply, v)
      → again.username ≡ req.username
      → u.db ≡ v.db
      → u.faults ≡ []
      → (fetch_one req.username u ≡ (ok (registered env req w.db.user_seq), u))
        × (user_register env again u ≡ (err (status already_exists "用户名已存在"), u))
  unfolding user_register fetch_one
  user_register-fetch_one req again reply w v u whole h name same calm =
      let found : find? (named req.username) u.db.users ≡ some (registered env req w.db.user_seq) =
        ap (λ d. find? (named req.username) d.users) same
        ∙ user_register_ok req reply w v whole h in
      (
        rw (reach_calm sql_failed u calm) (rw found refl),
        rw name (rw (check_user_exist_calm req.username u calm) (rw found refl)),
      )
