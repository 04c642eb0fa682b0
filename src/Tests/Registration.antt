-- ===== src/Tests/Registration.antt =====
-- A registration in crates/qa-svc/src/application/app.rs.
use qa_sys.World.{fits_varchar, in_varchar, in_varchar_short}
use qa_sys.Service.{status, already_exists}
use qa_sys.Prelude.Int.{pos}
use qa_sys.Pb.{UserRegisterRequest}
use qa_sys.World.{World}
use qa_sys.Prelude.{◌≡◌, str_eq, [], ok, refl, err, arith}
use qa_sys.Users
use qa_sys.Users.{fetch_one, check_user_exist, without_dashes}
use qa_sys.Service.Sessions.{user_register}
use qa_sys.Service.Sessions.Registration.{user_register-fetch_one, registered}
use qa_sys.Tests.Worlds.{start, toy_env, Store}

abbrev bob : UserRegisterRequest
bob = record { username = "bob"; password = "pass"; email = ""; phone = "" }

abbrev joined_world : World Store
joined_world = (user_register toy_env bob start).1

joined_ok : user_register toy_env bob start ≡ (ok (record { state = pos 1 }), joined_world)
unfolding user_register check_user_exist Users.add str_eq without_dashes fits_varchar in_varchar
joined_ok = refl

joined_calm : joined_world.faults ≡ []
unfolding user_register check_user_exist Users.add str_eq without_dashes fits_varchar in_varchar
joined_calm = refl

user_register-fetch_one_example :
    (fetch_one "bob" joined_world ≡ (ok (registered toy_env bob 2), joined_world))
    × (user_register toy_env bob joined_world
        ≡ (err (status already_exists "用户名已存在"), joined_world))
user_register-fetch_one_example =
    user_register-fetch_one toy_env bob bob (record { state = pos 1 }) start joined_world
      joined_world (λ _. in_varchar_short 50 "bob" (omega arith)) joined_ok refl refl joined_calm
