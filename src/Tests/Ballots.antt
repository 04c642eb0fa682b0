-- ===== src/Tests/Ballots.antt =====
-- Votes as a set, asked for one by one and together, and from the request to the tables.
use qa_sys.World.{in_varchar_short}
use qa_sys.Service.Voting.{vote_message}
use qa_sys.Votes.{handler_answer_agree}
use qa_sys.Prelude.{arith, ◌∷◌, ◌≡◌, refl, [], ok, find?, false, some}
use qa_sys.Domain.{AnswerEntity, default_answer}
use qa_sys.Prelude.Int.{pos}
use qa_sys.Prelude.Int.{◌+ℤ◌, as_i64}
use qa_sys.Votes.Redelivery.{has_voted}
use qa_sys.Votes.{has_id}
use qa_sys.Prelude.{str_eq}
use qa_sys.Votes.Refinement.{IsCastOrKept, handler_answer_agree-ballot}
use qa_sys.Votes.Batch.{Agree, is_batch_voted-is_voted}
use qa_sys.System.Vote.{HasRoom, IsCast, agree_answer-IsCast, up_vote, payload}
use qa_sys.Tests.Worlds.{toy_env, start}

handler_answer_agree-ballot_example :
    IsCastOrKept 2 "bob" "down" start.db (handler_answer_agree (pos 7) 2 "bob" "down" start)
handler_answer_agree-ballot_example =
    handler_answer_agree-ballot (pos 7) 2 "bob" "down" start (omega arith)
      (λ _. in_varchar_short 50 "bob" (omega arith))

is_batch_voted-is_voted_example : Agree "bob" "answer" 2 (1 ∷ 2 ∷ []) start
is_batch_voted-is_voted_example =
    is_batch_voted-is_voted "bob" "answer" 2 (omega arith) (1 ∷ 2 ∷ []) start
      (omega arith, (omega arith, tt)) refl

room : HasRoom start.db 1 "ann"
unfolding ◌+ℤ◌
room = record {
  small = omega arith;
  once = refl;
  grows = refl;
  next = omega arith;
  name_fits = omega arith;
}

abbrev first_answer : AnswerEntity
first_answer = record default_answer { id = pos 1; question_id = pos 1; created_by = "bob" }

first_found : find? (has_id (as_i64 1)) start.db.answers ≡ some first_answer
unfolding as_i64
first_found = refl

not_yet : has_voted 1 "ann" start.db ≡ false
unfolding as_i64 str_eq
not_yet = refl

read_back :
    toy_env.externals.vote_from_json (payload toy_env 1 "ann")
    ≡ ok (vote_message toy_env (up_vote toy_env 1 "ann"))
unfolding as_i64 str_eq
read_back = refl

agree_answer-IsCast_example : IsCast toy_env 1 "ann" (pos 7) start first_answer
agree_answer-IsCast_example =
    agree_answer-IsCast toy_env 1 "ann" (pos 7) first_answer start read_back refl first_found
      not_yet room
