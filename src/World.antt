-- ===== src/World.antt =====
-- What stands behind the pools and clients of crates/qa-svc: the tables of migrations/*.sql, the
-- Redis store, the vote topic, and the outcomes of the calls to those servers. Third-party code is
-- the parameter `Externals`.
pub mod Keeps
use qa_sys.Domain.{
  AnswerEntity, QuestionEntity, NaiveDateTime, UserEntity, UserSessionEntity, UserVoteEntity,
  VoteMessage,
}
use qa_sys.Prelude.Int.{ℤ}
use qa_sys.Prelude.{
  Action, ok, List, Result, ℕ, String, Bool, Option, leb, err, ◌>>◌, ◌∷◌, ◌>>=◌, some, pure, [],
  none, zero, suc, true, ◌&&◌, ◌==◌, ◌≤◌, ◌≡◌, refl, ap, arith,
}
use Prim.Native.String
use Prim.Native.String.{count}
use Prim.Native.Char.{Char, code}

-- The tables, each with its `bigserial` sequence: the next id that it gives.
pub record Db : Type 0 where
  pub answers : List AnswerEntity
  pub answer_seq : ℕ
  pub questions : List QuestionEntity
  pub question_seq : ℕ
  pub users : List UserEntity
  pub user_seq : ℕ
  pub votes : List UserVoteEntity
  pub vote_seq : ℕ

-- `sqlx::Error`: no row for `fetch_one`, values that a constraint, a column's type or a clause of the
-- statement refuses, and whatever else the driver reports.
pub data DbError : Type 0 where
  row_not_found violation : DbError
  failed : String → DbError

-- `anyhow::Error`: an error of the database, or any other by its text.
pub data AnyError : Type 0 where
  db : DbError → AnyError
  message : String → AnyError

-- Third-party code: the Redis commands over a store `R` at a time, md5, serde_json, chrono, and the
-- texts of the database's errors.
pub record Externals (R : Type 0) : Type 0 where
  pub db_text : DbError → String
  pub debug_error : AnyError → String
  pub md5_hex : String → String
  pub naive_local : ℤ → NaiveDateTime
  pub format_time : ℤ → String
  pub redis_get : R → ℤ → String → Option String
  pub redis_set_ex : R → ℤ → String → String → ℕ → R
  pub redis_del : R → String → R
  pub redis_hincr : R → String → String → ℤ → Result String (ℤ × R)
  pub redis_type_error : String
  pub redis_hscan : R → String → ℕ → Result String (ℕ × List (String × ℤ))
  pub session_to_json : UserSessionEntity → String
  pub session_from_json : String → Result String UserSessionEntity
  pub vote_to_json : VoteMessage → String
  pub vote_from_json : String → Result String VoteMessage

-- `faults` decides, in order, how the calls to the servers end: `none` is a call that goes through,
-- a text is the error that the driver reports, and past its end every call goes through.
pub record World (R : Type 0) : Type 0 where
  pub db : Db
  pub redis : R
  pub published : List String
  pub acked : List String
  pub faults : List (Option String)

-- An operation of a repository.
abbrev pub Repo : Type 0 → Type 0 → Type 0
Repo R A = Action (World R) AnyError A

abbrev pub take_fault :
    {R E : Type 0} → (String → E) → List (Option String) → Action (World R) E (Unit {0})
take_fault wrap [] w = (ok tt, w)
take_fault wrap (none ∷ fs) w = (ok tt, record w { faults = fs })
take_fault wrap (some t ∷ fs) w = (err (wrap t), record w { faults = fs })

-- The next call to a server goes through, or ends in an error.
unfoldable pub reach : {R E : Type 0} → (String → E) → Action (World R) E (Unit {0})
reach wrap w = take_fault wrap w.faults w

abbrev pub sql_failed : String → AnyError
sql_failed t = db (failed t)

-- `err.to_string()`.
unfoldable pub error_text : {R : Type 0} → Externals R → AnyError → String
error_text x (db e) = x.db_text e
error_text x (message t) = t

unfoldable pub is_blank : String → Bool
is_blank String.[] = true
is_blank (String.◌∷◌ c s) = (code c == 32) && is_blank s

-- Whether a column `varchar(n)` takes a text: it counts characters, and refuses one behind the n-th
-- that is not a space.
unfoldable pub fits_varchar : ℕ → String → Bool
unfolding is_blank
fits_varchar zero s = is_blank s
fits_varchar (suc n) String.[] = true
fits_varchar (suc n) (String.◌∷◌ c s) = fits_varchar n s

-- What the column keeps of a text that it takes: the spaces behind the n-th character are cut.
unfoldable pub in_varchar : ℕ → String → String
in_varchar zero s = ""
in_varchar (suc n) String.[] = ""
in_varchar (suc n) (String.◌∷◌ c s) = String.◌∷◌ c (in_varchar n s)

-- A text that the column keeps as it is, or does not take.
abbrev pub IsWhole : ℕ → String → Type 0
IsWhole n s = fits_varchar n s ≡ true → in_varchar n s ≡ s

count_next : (c : Char) (s : String) → count (String.◌∷◌ c s) ≡ suc (count s)
count_next c s = Prim.Native.String.count.cons c s

pub fits_varchar_short : (n : ℕ) (s : String) → count s ≤ n → fits_varchar n s ≡ true
unfolding fits_varchar is_blank
fits_varchar_short zero String.[] h = refl
fits_varchar_short zero (String.◌∷◌ c s) h = absurd (omega (arith, count_next c s))
fits_varchar_short (suc n) String.[] h = refl
fits_varchar_short (suc n) (String.◌∷◌ c s) h =
    fits_varchar_short n s (omega (arith, count_next c s))

pub in_varchar_short : (n : ℕ) (s : String) → count s ≤ n → in_varchar n s ≡ s
unfolding in_varchar
in_varchar_short zero String.[] h = refl
in_varchar_short zero (String.◌∷◌ c s) h = absurd (omega (arith, count_next c s))
in_varchar_short (suc n) String.[] h = refl
in_varchar_short (suc n) (String.◌∷◌ c s) h =
    ap (λ t. String.◌∷◌ c t) (in_varchar_short n s (omega (arith, count_next c s)))

pub in_varchar_twice : (n : ℕ) (s : String) → in_varchar n (in_varchar n s) ≡ in_varchar n s
unfolding in_varchar
in_varchar_twice zero s = refl
in_varchar_twice (suc n) String.[] = refl
in_varchar_twice (suc n) (String.◌∷◌ c s) = ap (λ t. String.◌∷◌ c t) (in_varchar_twice n s)

abbrev pub get_db : {R : Type 0} → Repo R Db
get_db w = (ok w.db, w)

abbrev pub put_db : {R : Type 0} → Db → Repo R (Unit {0})
put_db d w = (ok tt, record w { db = d })

-- The end of a statement that is its own transaction: the rows are written, and its reply arrives or
-- is lost.
abbrev pub write_db : {R : Type 0} → Db → Repo R (Unit {0})
write_db d = put_db d >> reach sql_failed

-- The rows of `before` with the sequences of `after`, which a rollback does not turn back.
abbrev pub roll_back : Db → Db → Db
roll_back before after = record before {
  answer_seq = after.answer_seq;
  question_seq = after.question_seq;
  user_seq = after.user_seq;
  vote_seq = after.vote_seq;
}

-- `COMMIT`, or the rollback of a transaction that is dropped before it.
abbrev pub close_transaction :
    {R A : Type 0} → Db → Result AnyError A × World R → Result AnyError A × World R
close_transaction before (err e, w) = (err e, record w { db = roll_back before w.db })
close_transaction before (ok a, w) = (ok a, w)

-- `begin().await?`, the statements, `commit().await?`: the commit may fail before it has taken effect,
-- and then none of the rows has changed, or its reply may be lost after it has.
unfoldable pub transaction : {R A : Type 0} → Repo R A → Repo R A
transaction body = do
  reach sql_failed
  before ← get_db
  a ← λ w. close_transaction before ((do a ← body; reach sql_failed; pure a) w)
  reach sql_failed
  pure a
