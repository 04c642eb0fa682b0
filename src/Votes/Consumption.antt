-- ===== src/Votes/Consumption.antt =====
-- What the consumer of the vote topic in crates/qa-svc/src/core/user_vote.rs guarantees over any
-- sequence of messages, with redelivery and with failing calls.
use qa_sys.Votes.Delivery.{Delivered, left, broken, deliver-Delivered}
use qa_sys.Votes.Keeps.{deliver-Keeps}
use qa_sys.World.Keeps.{Keeps, bind-Keeps}
use qa_sys.Votes.Handling.{handler_answer_agree-Handled, Handled, ignored, voted, unvoted}
use qa_sys.Votes.Consistency.{IsConsistent, with_vote-IsConsistent, without_vote-IsConsistent}
use qa_sys.Votes.{handler_answer_agree, vote_matches}
use qa_sys.Votes.Consumer.{
  consume, deliver, Event, Exit, stream_failed, incoming, changed, sender_gone, stream_ended,
}
use qa_sys.Prelude.{
  Bool, ℕ, List, ◌≡◌, String, Result, false, arith, find?-eq-none, if◌then◌else◌, ok, true,
  continue, ◌∷◌, [], err, length, refl, ◌+◌, ◌≤◌, ap, length-append,
}
use qa_sys.World.{Externals, Db, World, AnyError, Repo, IsWhole}
use qa_sys.Domain.{VoteMessage}
use qa_sys.Prelude.Int.{ℤ, pos, as_u64}

renumbered-IsConsistent :
    (d e : Db) (n : ℕ) → e ≡ record d { vote_seq = n } → IsConsistent d → IsConsistent e
renumbered-IsConsistent d e n same c =
    rw same
      (record { counted = c.counted; voted_once = c.voted_once; known = c.known; given = c.given })

module _ {R : Type 0} where
  Handled-IsConsistent :
      {now : ℤ} {id : ℕ} {by : String} {up down : Bool} {d : Db}
      {o : Result AnyError Bool × World R}
      → IsWhole 50 by
      → Handled now id by up down d o
      → IsConsistent d
      → IsConsistent o.1.db
  Handled-IsConsistent whole (ignored _ _ same) c = rw same c
  Handled-IsConsistent {d} whole (Handled.failed e n _ same) c =
      renumbered-IsConsistent d _ n same c
  Handled-IsConsistent {now} {id} {by} {d} whole (voted _ _ _ new (same, found, fits)) c = rw same (
      with_vote-IsConsistent (pos id) by now d
        (rw (whole fits) (find?-eq-none (vote_matches (pos id) by "answer") d.votes new)) found c)
  Handled-IsConsistent {now} {id} {by} {d} whole (unvoted _ _ _ _ (same, one, _)) c =
      rw same (without_vote-IsConsistent (pos id) by now d one c)

  -- Handling a vote message with a name that the column does not cut keeps consistent tables
  -- consistent, with every answer's counter equal to the number of its vote records and no user with
  -- two records for one target, on every outcome of the calls to the database.
  pub handler_answer_agree-IsConsistent :
      (now : ℤ) (id : ℕ) (by action : String) (w : World R)
      → IsWhole 50 by
      → IsConsistent w.db
      → IsConsistent (handler_answer_agree now id by action w).1.db
  handler_answer_agree-IsConsistent now id by action w whole c =
      Handled-IsConsistent whole (handler_answer_agree-Handled now id by action w) c

module _ {R : Type 0} (x : Externals R) where
  -- How many messages have been acknowledged more than have been counted.
  abbrev pub IsTallied : World R → ℕ → Result AnyError (Exit × ℕ) × World R → Type 0
  IsTallied w n (ok (_, n'), v) = length v.acked + n ≡ length w.acked + n'
  IsTallied w n (err e, v) = length w.acked ≤ length v.acked

  IsTallied-shift :
      (w v : World R) (n k : ℕ) (o : Result AnyError (Exit × ℕ) × World R)
      → length v.acked + n ≡ length w.acked + k
      → n ≤ k
      → IsTallied v k o
      → IsTallied w n o
  IsTallied-shift w v n k (ok (_, n'), u) e le h = omega arith
  IsTallied-shift w v n k (err _, u) e le h = omega arith

  after_message :
      (payload : String) (n : ℕ) (w : World R) (o : Result AnyError Bool × World R)
      (rest : ℕ → Repo R (Exit × ℕ))
      → Delivered x payload w o
      → ((k : ℕ) (v : World R) → IsTallied v k (rest k v))
      → IsTallied w n (continue (λ counted. rest (if counted then n + 1 else n)) o)
  after_message payload n w (ok true, v) rest (Delivered.counted e same) h =
      IsTallied-shift w v n (n + 1) (rest (n + 1) v)
        (omega (arith, ap length same, length-append w.acked (payload ∷ []))) (omega arith)
        (h (n + 1) v)
  after_message payload n w (ok false, v) rest (left e same) h =
      IsTallied-shift w v n n (rest n v) (omega (arith, ap length same)) (omega arith) (h n v)
  after_message payload n w (err z, v) rest (broken e z' same) h = omega (arith, ap length same)
  after_message payload n w (ok false, v) rest (Delivered.counted e same) h = cc
  after_message payload n w (ok true, v) rest (left e same) h = cc
  after_message payload n w (ok b, v) rest (broken e z' same) h = cc
  after_message payload n w (err z, v) rest (Delivered.counted e same) h = cc
  after_message payload n w (err z, v) rest (left e same) h = cc

  -- When the consumer stops or waits, its counter has grown by as many messages as it has
  -- acknowledged since the loop began; when it ends with an error, no acknowledgement has been
  -- lost.
  pub consume-IsTallied :
      (target_type : String) (es : List Event) (n : ℕ) (w : World R)
      → IsTallied w n (consume x target_type es n w)
  unfolding consume
  consume-IsTallied target_type [] n w = refl
  consume-IsTallied target_type (changed ∷ es) n w = consume-IsTallied target_type es n w
  consume-IsTallied target_type (sender_gone ∷ es) n w = refl
  consume-IsTallied target_type (stream_ended ∷ es) n w = refl
  consume-IsTallied target_type (stream_failed e ∷ es) n w = omega arith
  consume-IsTallied target_type (incoming now payload ∷ es) n w =
      after_message payload n w (deliver x target_type now payload w) (consume x target_type es)
        (deliver-Delivered x target_type now payload w)
        (λ k v. consume-IsTallied target_type es k v)

  -- The vote that is read from this payload, if any, has a name that the column does not cut.
  abbrev pub HasWholeName : String → Type 0
  HasWholeName payload =
      (m : VoteMessage) → x.vote_from_json payload ≡ ok m → IsWhole 50 m.created_by

  abbrev pub HaveWholeNames : List Event → Type 0
  HaveWholeNames [] = Unit
  HaveWholeNames (changed ∷ es) = HaveWholeNames es
  HaveWholeNames (sender_gone ∷ es) = HaveWholeNames es
  HaveWholeNames (stream_ended ∷ es) = HaveWholeNames es
  HaveWholeNames (stream_failed e ∷ es) = HaveWholeNames es
  HaveWholeNames (incoming now payload ∷ es) = HasWholeName payload × HaveWholeNames es

  pub deliver-IsConsistent :
      (target_type : String) (now : ℤ) (payload : String)
      → HasWholeName payload
      → Keeps {S = World R} (λ w. IsConsistent w.db) (deliver x target_type now payload)
  deliver-IsConsistent target_type now payload whole =
      deliver-Keeps x (λ w. IsConsistent w.db) (λ w a fs c. c) target_type now payload
        λ m e w c.
          handler_answer_agree-IsConsistent (x.naive_local now) (as_u64 m.target_id) m.created_by
            m.action w (whole m e) c

  -- Over every sequence of events of the vote topic, and however the calls to the servers end, the
  -- consumer keeps the tables consistent: if at the start every answer's counter is the number of
  -- its vote records, no user has two records for one target, and the ids in use are below the
  -- sequence, then so it is at the end. The condition: no vote that is read from a message has a
  -- name from which the column cuts spaces behind the 50th character.
  pub consume-IsConsistent :
      (target_type : String) (es : List Event) (n : ℕ) (w : World R)
      → HaveWholeNames es
      → IsConsistent w.db
      → IsConsistent (consume x target_type es n w).1.db
  unfolding consume
  consume-IsConsistent target_type [] n w whole c = c
  consume-IsConsistent target_type (changed ∷ es) n w whole c =
      consume-IsConsistent target_type es n w whole c
  consume-IsConsistent target_type (sender_gone ∷ es) n w whole c = c
  consume-IsConsistent target_type (stream_ended ∷ es) n w whole c = c
  consume-IsConsistent target_type (stream_failed e ∷ es) n w whole c = c
  consume-IsConsistent target_type (incoming now payload ∷ es) n w (whole, rest) c =
      bind-Keeps {P = λ w. IsConsistent w.db} (deliver x target_type now payload) _
        (deliver-IsConsistent target_type now payload whole)
        (λ counted v p. consume-IsConsistent target_type es (if counted then n + 1 else n) v rest p)
        w c
