-- ===== src/Votes/Consumer.antt =====
-- The producer and the consumer of the vote topic in crates/qa-svc/src/core/user_vote.rs. What
-- `tokio::select!` sees is a list of events: a change of the shutdown channel or its end, a message
-- with the time at which it is handled, the end of the stream, or an error of it.
use qa_sys.Votes.{handler_answer_agree}
use qa_sys.Prelude.{
  String, Result, List, ℕ, ◌>>◌, Bool, pure, err, fail, modify, false, ok, ◌++◌, ◌>>=◌, true,
  if◌then◌else◌, ◌∷◌, ◌+◌, str_eq, [], attempt,
}
use qa_sys.Domain.{VoteMessage}
use qa_sys.World.{Externals, reach, Repo, AnyError, message}
use qa_sys.Prelude.Int.{ℤ, as_u64}

pub data Event : Type 0 where
  changed : Event
  sender_gone : Event
  incoming : ℤ → String → Event
  stream_ended : Event
  stream_failed : String → Event

-- Whether the loop has been left, or waits for the next event.
pub data Exit : Type 0 where
  stopped waiting : Exit

module _ {R : Type 0} (x : Externals R) where
  -- `build`, `check_connection`, `send_non_blocking` and the receipt may each fail; the broker has
  -- the message once it has been sent.
  unfoldable pub publish : VoteMessage → Repo R Bool
  unfolding reach
  publish msg = do
    reach message
    reach message
    reach message
    modify (λ w. record w { published = w.published ++ x.vote_to_json msg ∷ [] })
    reach message
    pure true

  unfoldable pub ack : String → Repo R (Unit {0})
  ack payload = do reach message; modify (λ w. record w { acked = w.acked ++ payload ∷ [] })

  -- An error of the handling is logged, and the message is not acknowledged.
  abbrev pub acknowledge : String → Result AnyError Bool → Repo R Bool
  acknowledge payload (err e) = pure false
  acknowledge payload (ok b) = ack payload >> pure true

  abbrev pub handle_vote : ℤ → VoteMessage → Repo R Bool
  handle_vote now m =
      handler_answer_agree (x.naive_local now) (as_u64 m.target_id) m.created_by m.action

  abbrev pub handle_parsed : String → ℤ → String → Result String VoteMessage → Repo R Bool
  handle_parsed target_type now payload (err e) = pure false
  handle_parsed target_type now payload (ok m) =
      if str_eq target_type "answer"
      then (attempt (handle_vote now m) >>= acknowledge payload)
      else (ack payload >> pure true)

  -- One message: whether it counts as processed.
  unfoldable pub deliver : String → ℤ → String → Repo R Bool
  deliver target_type now payload = handle_parsed target_type now payload (x.vote_from_json payload)

  unfoldable pub consume : String → List Event → ℕ → Repo R (Exit × ℕ)
  consume target_type [] counter = pure (waiting, counter)
  consume target_type (changed ∷ es) counter = consume target_type es counter
  consume target_type (sender_gone ∷ es) counter = pure (stopped, counter)
  consume target_type (stream_ended ∷ es) counter = pure (stopped, counter)
  consume target_type (stream_failed t ∷ es) counter = fail (message t)
  consume target_type (incoming now payload ∷ es) counter = do
    counted ← deliver target_type now payload
    consume target_type es (if counted then counter + 1 else counter)

  unfoldable pub consumer : String → List Event → Repo R (Exit × ℕ)
  consumer target_type es = reach message >> consume target_type es 0
