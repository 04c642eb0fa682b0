-- ===== src/Users.antt =====
-- crates/qa-svc/src/core/user.rs: the users of the database, and their sessions in Redis.
use qa_sys.Votes.{is_some}
use qa_sys.Answers.{one_row}
use Prim.Native.Char.{code}
use qa_sys.Prelude.Strings.{format, show_u64}
use qa_sys.Prelude.Int.{ℤ, i64_half, pos}
use qa_sys.Domain.{UserEntity, UserSessionEntity}
use qa_sys.Prelude.{
  String, List, ℕ, if◌then◌else◌, [], Option, ◌∷◌, Bool, suc, ◌>>◌, str_eq, ◌==◌, pure, fail, ◌+◌,
  zero, ◌>>=◌, modify, some, gets, map_err, lift, keep, none, ensure, not, find?, any, ltb, ◌&&◌,
  ◌++◌,
}
use qa_sys.World.{
  Externals, reach, Repo, message, sql_failed, get_db, put_db, fits_varchar, in_varchar, write_db,
  db, violation,
}

abbrev pub named : String → UserEntity → Bool
named username u = str_eq u.username username

-- `s.replace('-', "")`.
unfoldable pub without_dashes : String → String
without_dashes String.[] = ""
without_dashes (String.◌∷◌ c s) =
    if code c == b'-' then without_dashes s else String.◌∷◌ c (without_dashes s)

-- `$1,$2,…,$len`, from `$i` on.
abbrev pub placeholders_from : ℕ → ℕ → List String
placeholders_from zero i = []
placeholders_from (suc n) i = format ("$" ∷ show_u64 i ∷ []) ∷ placeholders_from n (i + 1)

-- `join(",")`.
abbrev pub joined : List String → String
joined [] = ""
joined (s ∷ []) = s
joined (s ∷ t ∷ ts) = format (s ∷ "," ∷ joined (t ∷ ts) ∷ [])

unfoldable pub gen_in_placeholder : ℕ → String
gen_in_placeholder len = joined (placeholders_from len 1)

module _ {R : Type 0} where
  unfoldable pub check_user_exist : String → Repo R Bool
  unfolding reach
  check_user_exist username = do
    reach sql_failed
    d ← get_db
    pure (is_some (find? (named username) d.users))

  unfoldable pub fetch_one : String → Repo R UserEntity
  unfolding reach
  fetch_one username = do reach sql_failed; d ← get_db; one_row (find? (named username) d.users)

  -- `username in ($1,…)`.
  unfoldable pub fetch_users : List String → Repo R (List UserEntity)
  unfolding reach
  fetch_users [] = pure []
  fetch_users (u ∷ us) = do
    reach sql_failed
    d ← get_db
    pure (keep (λ v. any (str_eq v.username) (u ∷ us)) d.users)

  unfoldable pub delete : String → Repo R (Unit {0})
  unfolding reach
  delete username = do
    reach sql_failed
    d ← get_db
    write_db (record d { users = keep (λ u. not (named username u)) d.users })

module _ {R : Type 0} (x : Externals R) where
  -- `uuid` is what `Uuid::new_v4().to_string()` gives.
  unfoldable pub add : ℤ → String → String → String → Repo R (Unit {0})
  unfolding reach
  add now uuid username password = do
    reach sql_failed
    d ← get_db
    put_db (record d { user_seq = d.user_seq + 1 })
    ensure
        (ltb d.user_seq i64_half
          && (fits_varchar 50 username
              && (fits_varchar 50 (x.md5_hex password)
                  && (fits_varchar 32 (without_dashes uuid)
                      && not (any (named (in_varchar 50 username)) d.users)))))
        (db violation)
    write_db (record d {
      user_seq = d.user_seq + 1;
      users =
          d.users
          ++ record {
            id = pos d.user_seq;
            username = in_varchar 50 username;
            password = in_varchar 50 (x.md5_hex password);
            nick = "";
            openid = in_varchar 32 (without_dashes uuid);
            created_at = x.naive_local now;
            updated_at = none;
          }
            ∷ [];
    })

  abbrev pub session_of : Option String → Repo R UserSessionEntity
  session_of none = fail (message "user session not found")
  session_of (some text) = map_err message (lift (x.session_from_json text))

  -- The connection from the pool, then the command.
  unfoldable pub get : ℤ → String → Repo R UserSessionEntity
  unfolding reach
  get now key = do
    reach message
    reach message
    text ← gets (λ w. x.redis_get w.redis now key)
    session_of text

  unfoldable pub set : ℤ → String → UserSessionEntity → ℕ → Repo R (Unit {0})
  unfolding reach
  set now key value second = do
    reach message
    reach message
    modify
        (λ w. record w { redis = x.redis_set_ex w.redis now key (x.session_to_json value) second })
    reach message

  unfoldable pub del : String → Repo R (Unit {0})
  unfolding reach
  del key = do
    reach message
    reach message
    modify (λ w. record w { redis = x.redis_del w.redis key })
    reach message
