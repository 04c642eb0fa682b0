-- ===== src/Tests/Voting.antt =====
-- Runs of the vote messages of crates/qa-svc/src/core/user_vote.rs.
use qa_sys.World.{fits_varchar, in_varchar, in_varchar_short}
use qa_sys.Domain.{VoteMessage}
use qa_sys.Prelude.{sym, ap, String, Bool, err, Result, if◌then◌else◌}
use qa_sys.Prelude.Int.{pos}
use qa_sys.World.{World}
use qa_sys.Prelude.{List, arith, ◌≡◌, refl, ◌∷◌, ok, str_eq, [], false, true}
use qa_sys.Votes.Consistency.{IsConsistent}
use qa_sys.Votes.Consumption.{
  consume-IsConsistent, consume-IsTallied, IsTallied, HasWholeName, HaveWholeNames,
}
use qa_sys.Votes.Redelivery.{handler_answer_agree-redelivered}
use qa_sys.Votes.Delivery.{Delivered, deliver-Delivered}
use qa_sys.Votes.Consumer.{Event, incoming, changed, sender_gone, consume, deliver}
use qa_sys.Votes.{
  handler_answer_agree, is_voted, vote_answer, vote_statements, cancel_vote_answer,
  cancel_statements,
}
use qa_sys.Prelude.{str_eq}
use qa_sys.Prelude.Int.{as_i64, try_i64, ◌+ℤ◌, ◌-ℤ◌, as_u64}
use qa_sys.World.{transaction}
use qa_sys.Votes.Consumer.{ack}
use qa_sys.Tests.Worlds.{start, toy, some_tables, Store}

pub start-IsConsistent : IsConsistent some_tables
unfolding str_eq
start-IsConsistent = record {
  counted = (refl, (refl, tt));
  voted_once = (refl, tt);
  known = (omega arith, tt);
  given = (omega arith, (omega arith, tt));
}

-- A vote, the same vote again, a message that is no vote, and the withdrawal.
abbrev events : List Event
events =
    incoming (pos 7) "up"
    ∷ changed
    ∷ incoming (pos 8) "up"
    ∷ incoming (pos 9) ""
    ∷ incoming (pos 10) "down"
    ∷ sender_gone
    ∷ []

-- The messages of the toy format all name "ann".
abbrev name_in : Result String VoteMessage → String
name_in (ok m) = m.created_by
name_in (err e) = "ann"

abbrev read_as : Bool → String → Result String VoteMessage
read_as b t =
    if b
    then err "EOF while parsing a value"
    else ok (record { target_id = pos 1; target_type = "answer"; created_by = "ann"; action = t })

named_ann : (b : Bool) (t : String) (m : VoteMessage) → read_as b t ≡ ok m → m.created_by ≡ "ann"
named_ann true t m h = cc
named_ann false t m h = sym (ap name_in h)

pub toy_whole : (payload : String) → HasWholeName toy payload
toy_whole payload m h =
    rw (named_ann (str_eq payload "") payload m h) (λ _. in_varchar_short 50 "ann" (omega arith))

events_whole : HaveWholeNames toy events
events_whole = (toy_whole "up", (toy_whole "up", (toy_whole "", (toy_whole "down", tt))))

consume-IsConsistent_example : IsConsistent (consume toy "answer" events 0 start).1.db
consume-IsConsistent_example =
    consume-IsConsistent toy "answer" events 0 start events_whole start-IsConsistent

consume-IsTallied_example : IsTallied toy start 0 (consume toy "answer" events 0 start)
consume-IsTallied_example = consume-IsTallied toy "answer" events 0 start

deliver-Delivered_example : Delivered toy "up" start (deliver toy "answer" (pos 7) "up" start)
deliver-Delivered_example = deliver-Delivered toy "answer" (pos 7) "up" start

abbrev voted_world : World Store
voted_world = (handler_answer_agree (pos 7) 1 "ann" "up" start).1

calm_after : voted_world.faults ≡ []
unfolding handler_answer_agree is_voted str_eq as_i64 vote_answer try_i64 transaction
    vote_statements ◌+ℤ◌ fits_varchar
calm_after = refl

voted_first : (handler_answer_agree (pos 7) 1 "ann" "up" start).0 ≡ ok true
unfolding handler_answer_agree is_voted str_eq as_i64 vote_answer try_i64 transaction
    vote_statements ◌+ℤ◌ fits_varchar
voted_first = refl

handler_answer_agree-redelivered_example :
    handler_answer_agree (pos 8) 1 "ann" "up" voted_world ≡ (ok false, voted_world)
handler_answer_agree-redelivered_example =
    handler_answer_agree-redelivered (pos 7) (pos 8) 1 "ann" "up" start voted_world true
      (λ _. in_varchar_short 50 "ann" (omega arith)) voted_first refl calm_after

-- The messages acknowledged: the first vote, its redelivery and the withdrawal.
events_acked : (consume toy "answer" events 0 start).1.acked ≡ "up" ∷ "up" ∷ "down" ∷ []
unfolding consume deliver handler_answer_agree as_u64 ack cancel_vote_answer cancel_statements ◌-ℤ◌
    is_voted str_eq as_i64 vote_answer try_i64 transaction vote_statements ◌+ℤ◌ fits_varchar
    in_varchar
events_acked = refl
