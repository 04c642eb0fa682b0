-- ===== src/System/Calm.antt =====
-- The operations of crates/qa-svc/src/core that read the tables, or write only to the session store, the
-- read counts in Redis and the table of users: they keep every property of the rest of the world.
use qa_sys.Prelude.Strings.{show_u64}
use qa_sys.Prelude.Int.{ℤ, pos, try_i64, negsuc, pos_part, ◌-ℤ◌, leb_ℤ}
use qa_sys.Domain.{QuestionEntity, UserSessionEntity, UserEntity}
use qa_sys.World.{reach, World, Externals, message, Repo, sql_failed, AnyError, Db, write_db}
use qa_sys.Prelude.{
  ℕ, List, String, Bool, ◌∷◌, [], ensure, if◌then◌else◌, Option, ◌==◌, true, Result, Action, ◌>>=◌,
  ◌>>◌, some, false, none, lift, ok, err, ltb, pure,
}
use qa_sys.Votes.{is_batch_voted, is_voted, try_bigint, bigint_or}
use qa_sys.World.Keeps.{Keeps, bind-Keeps, reach-Keeps, map_err-Keeps}
use qa_sys.Users
use qa_sys.Questions
use qa_sys.Answers

-- A property that says nothing of the outcomes to come, of Redis and of the users.
pub record IsCalm {R : Type 0} (P : World R → Type 0) : Type 0 where
  pub faults : (w : World R) (fs : List (Option String)) → P w → P (record w { faults = fs })
  pub redis : (w : World R) (r : R) → P w → P (record w { redis = r })
  pub users :
      (w : World R) (us : List UserEntity) (n : ℕ)
      → P w
      → P (record w { db = record w.db { users = us; user_seq = n } })

module _ {R : Type 0} (P : World R → Type 0) (calm : IsCalm P) where
  pub reached-Keeps :
      {E A : Type 0} (wrap : String → E) (k : Action (World R) E A)
      → Keeps P k
      → Keeps P (reach wrap >> k)
  reached-Keeps wrap k h = bind-Keeps {P = P} (reach wrap) _ (reach-Keeps P calm.faults wrap) λ _. h

  one_row-Keeps : {A : Type 0} (o : Option A) → Keeps P (Answers.one_row o)
  one_row-Keeps none w p = p
  one_row-Keeps (some a) w p = p

  bigint_or-Keeps :
      {A : Type 0} (text : String) (id : Option ℤ) (k : ℤ → Repo R A)
      → ((z : ℤ) → Keeps P (k z))
      → Keeps P (bigint_or text id >>= k)
  bigint_or-Keeps text none k h w p = p
  bigint_or-Keeps text (some z) k h w p = h z w p

  pub ensured-Keeps :
      {E A : Type 0} (b : Bool) (e : E) (k : Action (World R) E A)
      → Keeps P k
      → Keeps P (ensure b e >> k)
  ensured-Keeps true e k h w p = h w p
  ensured-Keeps false e k h w p = p

  pub lifted-Keeps :
      {E A B : Type 0} (r : Result E A) (k : A → Action (World R) E B)
      → ((a : A) → Keeps P (k a))
      → Keeps P (lift r >>= k)
  lifted-Keeps (ok a) k h w p = h a w p
  lifted-Keeps (err e) k h w p = p

  -- The end of a statement, whose reply may be lost.
  pub write_db-Keeps : (d : Db) (w : World R) → P (record w { db = d }) → P (write_db {R = R} d w).1
  write_db-Keeps d w q = reach-Keeps P calm.faults sql_failed (record w { db = d }) q

  -- A statement that the database may refuse.
  pub put_if-Keeps :
      (b : Bool) (e : AnyError) (d : Db) (w : World R)
      → P w
      → P (record w { db = d })
      → P ((ensure b e >> write_db d) w).1
  put_if-Keeps true e d w p q = write_db-Keeps d w q
  put_if-Keeps false e d w p q = p

  pub put_then-Keeps :
      {A : Type 0} (a : A) (b : Bool) (e : AnyError) (d : Db) (w : World R)
      → P w
      → P (record w { db = d })
      → P ((ensure b e >> (write_db d >> pure a)) w).1
  put_then-Keeps a true e d w p q =
      bind-Keeps {P = P} (reach sql_failed) _ (reach-Keeps P calm.faults sql_failed) (λ _ v r. r)
        (record w { db = d }) q
  put_then-Keeps a false e d w p q = p

  pub check_user_exist-Keeps : (name : String) → Keeps P (Users.check_user_exist name)
  unfolding Users.check_user_exist
  check_user_exist-Keeps name = reached-Keeps sql_failed _ (λ w p. p)

  pub fetch_one-Keeps : (name : String) → Keeps P (Users.fetch_one name)
  unfolding Users.fetch_one
  fetch_one-Keeps name = reached-Keeps sql_failed _ (λ w p. one_row-Keeps _ w p)

  pub users_add-Keeps :
      (x : Externals R) (now : ℤ) (uuid name pwd : String) → Keeps P (Users.add x now uuid name pwd)
  unfolding Users.add
  users_add-Keeps x now uuid name pwd =
      reached-Keeps sql_failed _
        λ w p. put_if-Keeps _ _ _ _ (calm.users w _ _ p) (calm.users w _ _ p)

  session_of-Keeps : (x : Externals R) (o : Option String) → Keeps P (Users.session_of x o)
  session_of-Keeps x none w p = p
  session_of-Keeps x (some text) w p = map_err-Keeps P message (lift _) (λ w p. p) w p

  pub get-Keeps : (x : Externals R) (now : ℤ) (key : String) → Keeps P (Users.get x now key)
  unfolding Users.get
  get-Keeps x now key =
      reached-Keeps message _ (reached-Keeps message _ (λ w p. session_of-Keeps x _ w p))

  pub set-Keeps :
      (x : Externals R) (now : ℤ) (key : String) (s : UserSessionEntity) (n : ℕ)
      → Keeps P (Users.set x now key s n)
  unfolding Users.set
  set-Keeps x now key s n =
      reached-Keeps message _
        (reached-Keeps message _ (λ w p. reach-Keeps P calm.faults message _ (calm.redis w _ p)))

  pub del-Keeps : (x : Externals R) (key : String) → Keeps P (Users.del x key)
  unfolding Users.del
  del-Keeps x key =
      reached-Keeps message _
        (reached-Keeps message _ (λ w p. reach-Keeps P calm.faults message _ (calm.redis w _ p)))

  pub questions_find_one-Keeps : (id : ℕ) → Keeps P (Questions.find_one id)
  unfolding Questions.find_one
  questions_find_one-Keeps id = reached-Keeps sql_failed _ (λ w p. one_row-Keeps _ w p)

  select_latest-Keeps : (q : QuestionEntity → Bool) (n : ℕ) → Keeps P (Questions.select_latest q n)
  unfolding Questions.select_latest
  select_latest-Keeps q n = reached-Keeps sql_failed _ (λ w p. p)

  rows_from-Keeps :
      (first : Bool) (last_id n : ℕ)
      → Keeps P (
          if first
          then Questions.select_latest (λ q. true) n
          else (try_bigint "question cursor exceeds PostgreSQL bigint" last_id >>= λ id.
              Questions.select_latest (Questions.older_than id) n))
  rows_from-Keeps true last_id n = select_latest-Keeps (λ q. true) n
  rows_from-Keeps false last_id n =
      bigint_or-Keeps _ (try_i64 last_id) _ λ id. select_latest-Keeps (Questions.older_than id) n

  pub questions_find_latest-Keeps :
      (last_id limit : ℕ) → Keeps P (Questions.find_latest last_id limit)
  unfolding Questions.find_latest
  questions_find_latest-Keeps last_id limit = bigint_or-Keeps _ (try_i64 limit) _ λ n.
      bind-Keeps {P = P} (Questions.rows_after last_id (pos_part n)) _
        (rows_from-Keeps (last_id == 0) last_id (pos_part n)) (λ _ v p. p)

  stored-Keeps :
      {A : Type 0} (x : Externals R) (o : Result String (A × R)) (w : World R)
      → P w
      → P (Questions.store_after x o w).1
  stored-Keeps x (err t) w p = p
  stored-Keeps x (ok (a, r)) w p = calm.redis w r p

  pub hincr-Keeps :
      (x : Externals R) (key field : String) (by : ℤ) → Keeps P (Questions.hincr x key field by)
  unfolding Questions.hincr
  hincr-Keeps x key field by = reached-Keeps message _ (
      reached-Keeps message _ (
        bind-Keeps {P = P} (λ w. Questions.store_after x (x.redis_hincr w.redis key field by) w) _
          (λ w p. stored-Keeps x _ w p) (λ n. reached-Keeps message _ (λ w p. p))))

  reply_u64-Keeps : (x : Externals R) (n : ℤ) → Keeps P (Questions.reply_u64 x n)
  reply_u64-Keeps x (pos n) w p = p
  reply_u64-Keeps x (negsuc n) w p = p

  pub incr-Keeps : (x : Externals R) (id : ℕ) (kind : String) → Keeps P (Questions.incr x id kind)
  unfolding Questions.incr
  incr-Keeps x id kind =
      bind-Keeps {P = P} (Questions.hincr x (Questions.get_hash_key kind) (show_u64 id) (pos 1)) _
        (hincr-Keeps x _ _ _) (λ n. reply_u64-Keeps x n)

  pub answers_find_one-Keeps : (id : ℕ) → Keeps P (Answers.find_one id)
  unfolding Answers.find_one
  answers_find_one-Keeps id = reached-Keeps sql_failed _ (λ w p. one_row-Keeps _ w p)

  pub answers_find_latest-Keeps :
      (question limit page : ℕ) → Keeps P (Answers.find_latest question limit page)
  unfolding Answers.find_latest
  answers_find_latest-Keeps question limit page = ensured-Keeps (ltb 0 limit) _ _ (
      bigint_or-Keeps _ (try_i64 question) _ λ q. bigint_or-Keeps _ (try_i64 limit) _ λ n.
        bigint_or-Keeps _ (try_i64 page) _ λ number.
          lifted-Keeps (Answers.checked _ (number -ℤ pos 1)) _ λ index.
            lifted-Keeps (Answers.checked _ (Answers.times index (pos_part n))) _ λ offset.
              reached-Keeps sql_failed _ (λ w p.
                reached-Keeps sql_failed _
                  (ensured-Keeps (leb_ℤ (pos 0) offset) _ _
                    (map_err-Keeps P Answers.pagination_error (lift _) (λ w p. p)))
                  w p))

  pub is_voted-Keeps : (id : ℕ) (by kind : String) → Keeps P (is_voted id by kind)
  unfolding is_voted
  is_voted-Keeps id by kind = reached-Keeps sql_failed _ (λ w p. p)

  pub is_batch_voted-Keeps :
      (ids : List ℕ) (by kind : String) → Keeps P (is_batch_voted ids by kind)
  unfolding is_batch_voted
  is_batch_voted-Keeps [] by kind w p = p
  is_batch_voted-Keeps (id ∷ ids) by kind w p = reached-Keeps sql_failed _ (λ w p. p) w p
