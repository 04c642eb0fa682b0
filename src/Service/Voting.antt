-- ===== src/Service/Voting.antt =====
-- crates/qa-svc/src/application/app.rs: `agree_answer` and `answer_agree`, which have one body.
pub mod Publishing
use qa_sys.Votes.{is_voted}
use qa_sys.Answers
use qa_sys.Votes.Consumer.{publish}
use qa_sys.Prelude.Int.{ℤ, pos, as_i64, as_u64, wrap_i64, ◌+ℤ◌, ◌-ℤ◌}
use qa_sys.Domain.{VoteMessage}
use qa_sys.Prelude.{String, ℕ, ◌>>◌, ◌>>=◌, if◌then◌else◌, str_eq, pure, false}
use qa_sys.Pb.{AgreeAnswerRequest, AgreeAnswerResponse}
use qa_sys.Service.{Env, Handler, or_status, internal, unknown, or_default}

module _ {R : Type 0} (env : Env R) where
  abbrev pub not_done : String → AgreeAnswerResponse
  not_done reason = record { state = pos 0; agree_count = 0; reason = reason }

  abbrev pub vote_message : AgreeAnswerRequest → VoteMessage
  vote_message req = record {
    target_id = as_i64 req.id;
    target_type = "answer";
    created_by = req.create_by;
    action = req.action;
  }

  -- The counter that the reply promises: one more for "up", and one less for any other action.
  abbrev pub promised : String → ℤ → ℕ
  promised action n =
      if str_eq action "up" then as_u64 (wrap_i64 (n +ℤ pos 1)) else as_u64 (wrap_i64 (n -ℤ pos 1))

  abbrev pub send_vote : AgreeAnswerRequest → ℤ → Handler R AgreeAnswerResponse
  send_vote req n = do
    or_status env.externals internal "failed to publish vote message, error:"
        (publish env.externals (vote_message req))
    pure (record { state = pos 1; agree_count = promised req.action n; reason = "" })

  unfoldable pub agree_answer : AgreeAnswerRequest → Handler R AgreeAnswerResponse
  agree_answer req = do
    answer ←
        or_status env.externals unknown "failed to find answer, error:" (Answers.find_one req.id)
    voted ← or_default false (is_voted req.id req.create_by "answer")
    if str_eq req.action "up"
        then (if voted
            then pure (not_done "already voted it")
            else send_vote req answer.agree_count)
        else (if voted then send_vote req answer.agree_count else pure (not_done "not voted it"))

  unfoldable pub answer_agree : AgreeAnswerRequest → Handler R AgreeAnswerResponse
  answer_agree req = do
    answer ←
        or_status env.externals unknown "failed to find answer, error:" (Answers.find_one req.id)
    voted ← or_default false (is_voted req.id req.create_by "answer")
    if str_eq req.action "up"
        then (if voted
            then pure (not_done "already voted it")
            else send_vote req answer.agree_count)
        else (if voted then send_vote req answer.agree_count else pure (not_done "not voted it"))
