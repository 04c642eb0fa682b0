-- ===== src/Votes.antt =====
-- crates/qa-svc/src/core/user_vote.rs: the vote records, the two transactions that a vote message
-- leads to, and the consumer of the vote topic.
pub mod Effects
pub mod Redelivery
pub mod Batch
pub mod Refinement
pub mod Consumption
pub mod Keeps
pub mod Delivery
pub mod Consumer
pub mod Handling
pub mod Consistency
use qa_sys.Domain.{UserVoteEntity, AnswerEntity, NaiveDateTime}
use qa_sys.Prelude.{
  modify_if, Option, String, Bool, ℕ, if◌then◌else◌, false, ◌>>=◌, ◌>>◌, some, ensure, ◌&&◌, str_eq,
  ◌==◌, true, pure, none, not, keep, find?, ◌+◌, err, any, count_if, ltb, ok, fail, ◌++◌, ◌∷◌, [],
  List, map,
}
use qa_sys.Prelude.Int.{
  ℤ, ◌+ℤ◌, try_i64, ltb_ℤ, eq_ℤ, pos, ◌-ℤ◌, as_i64, fits_i64, i64_half, as_u64,
}
use qa_sys.World.{
  transaction, reach, Repo, sql_failed, get_db, message, put_db, db, fits_varchar, in_varchar,
  violation,
}
use Prim.Native.String

-- `select … where target_id=$1 and created_by=$2 and target_type=$3`.
abbrev pub vote_matches : ℤ → String → String → UserVoteEntity → Bool
vote_matches target_id username target_type v =
    eq_ℤ v.target_id target_id && (str_eq v.created_by username && str_eq v.target_type target_type)

abbrev pub has_id : ℤ → AnswerEntity → Bool
has_id id a = eq_ℤ a.id id

abbrev pub is_some : {A : Type 0} → Option A → Bool
is_some none = false
is_some (some _) = true

abbrev pub more : ℤ → ℤ
more n = n +ℤ pos 1

-- `greatest(agree_count - 1, 0)`.
abbrev pub fewer : ℤ → ℤ
fewer n = if ltb_ℤ (n -ℤ pos 1) (pos 0) then pos 0 else n -ℤ pos 1

module _ {R : Type 0} where
  abbrev pub bigint_or : String → Option ℤ → Repo R ℤ
  bigint_or text none = fail (message text)
  bigint_or text (some z) = pure z

  -- The text of `context("…")` for an id that no `bigint` holds.
  abbrev pub try_bigint : String → ℕ → Repo R ℤ
  try_bigint text n = bigint_or text (try_i64 n)

  unfoldable pub is_voted : ℕ → String → String → Repo R Bool
  unfolding reach
  is_voted target_id username target_type = do
    reach sql_failed
    d ← get_db
    pure (is_some (find? (vote_matches (as_i64 target_id) username target_type) d.votes))

  -- The ids of the answers among `target_ids` that the user has voted for: the keys of the map.
  unfoldable pub is_batch_voted : List ℕ → String → String → Repo R (List ℕ)
  unfolding reach
  is_batch_voted [] username target_type = pure []
  is_batch_voted (id ∷ ids) username target_type = do
    reach sql_failed
    d ← get_db
    pure (
        map (λ v. as_u64 v.target_id)
          (keep (λ v. any (λ n. vote_matches (as_i64 n) username target_type v) (id ∷ ids))
            d.votes))

  -- `insert into users_votes …`: the rows affected.
  unfoldable pub insert_vote : ℤ → String → String → NaiveDateTime → Repo R ℕ
  unfolding reach
  insert_vote target_id target_type created_by now = do
    reach sql_failed
    d ← get_db
    put_db (record d { vote_seq = d.vote_seq + 1 })
    ensure (ltb d.vote_seq i64_half && (fits_varchar 50 target_type && fits_varchar 50 created_by))
        (db violation)
    put_db (record d {
      vote_seq = d.vote_seq + 1;
      votes =
          d.votes
          ++ record {
            id = pos d.vote_seq;
            target_id = target_id;
            target_type = in_varchar 50 target_type;
            created_by = in_varchar 50 created_by;
            created_at = now;
          }
            ∷ [];
    })
    pure 1

  -- `delete from users_votes where …`: the rows affected.
  unfoldable pub delete_vote : ℤ → String → String → Repo R ℕ
  unfolding reach
  delete_vote target_id target_type created_by = do
    reach sql_failed
    d ← get_db
    put_db (record d {
      votes = keep (λ v. not (vote_matches target_id created_by target_type v)) d.votes;
    })
    pure (count_if (vote_matches target_id created_by target_type) d.votes)

  -- `update answers set agree_count = …, updated_at = $2 where id = $3`: the rows affected.
  unfoldable pub update_agree : (ℤ → ℤ) → NaiveDateTime → ℤ → Repo R ℕ
  unfolding reach
  update_agree next now id = do
    reach sql_failed
    d ← get_db
    ensure (not (any (λ a. has_id id a && not (fits_i64 (next a.agree_count))) d.answers))
        (db violation)
    put_db (record d {
      answers =
          modify_if (has_id id)
            (λ a. record a { agree_count = next a.agree_count; updated_at = some now }) d.answers;
    })
    pure (count_if (has_id id) d.answers)

  -- The two statements of `vote_answer`, between `begin` and `commit`.
  unfoldable pub vote_statements : ℤ → String → NaiveDateTime → Repo R Bool
  unfolding insert_vote update_agree
  vote_statements target_id created_by now = do
    inserted ← insert_vote target_id "answer" created_by now
    ensure (inserted == 1) (message "failed to insert answer vote")
    updated ← update_agree more now target_id
    ensure (updated == 1) (message "answer vote target does not exist")
    pure true

  unfoldable pub vote_answer : ℤ → ℕ → String → Repo R Bool
  vote_answer now target_id created_by = do
    id ← try_bigint "answer vote target ID exceeds PostgreSQL bigint" target_id
    transaction (vote_statements id created_by now)

  unfoldable pub cancel_statements : ℤ → String → NaiveDateTime → Repo R Bool
  unfolding delete_vote update_agree
  cancel_statements target_id created_by now = do
    deleted ← delete_vote target_id "answer" created_by
    ensure (deleted == 1) (message "answer vote record does not exist")
    updated ← update_agree fewer now target_id
    ensure (updated == 1) (message "answer vote target does not exist")
    pure true

  unfoldable pub cancel_vote_answer : ℤ → ℕ → String → Repo R Bool
  cancel_vote_answer now target_id created_by = do
    id ← try_bigint "answer vote target ID exceeds PostgreSQL bigint" target_id
    transaction (cancel_statements id created_by now)

  -- `now` is what `Local::now().naive_local()` gives when the message is handled.
  unfoldable pub handler_answer_agree : ℤ → ℕ → String → String → Repo R Bool
  handler_answer_agree now target_id created_by action = do
    has_voted ← is_voted target_id created_by "answer"
    if str_eq action "up"
        then (if has_voted then pure false else vote_answer now target_id created_by)
        else if str_eq action "down"
        then (if has_voted then cancel_vote_answer now target_id created_by else pure false)
        else fail (message "unsupported answer vote action")
