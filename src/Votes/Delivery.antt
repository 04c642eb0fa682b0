-- ===== src/Votes/Delivery.antt =====
-- What one message of the vote topic leaves acknowledged (crates/qa-svc/src/core/user_vote.rs).
use qa_sys.Domain.{NaiveDateTime, VoteMessage}
use qa_sys.World.Keeps.{Keeps, bind-Keeps, transaction-Keeps}
use qa_sys.Votes.{
  handler_answer_agree, cancel_statements, vote_statements, vote_answer, cancel_vote_answer,
  is_voted, bigint_or,
}
use qa_sys.Votes.Consumer.{ack, deliver, acknowledge, handle_parsed, handle_vote}
use qa_sys.Prelude.{
  Bool, ℕ, List, ◌≡◌, String, Result, false, none, arith, if◌then◌else◌, ◌>>◌, ok, Option, true,
  str_eq, pure, continue, fail, ◌++◌, ◌∷◌, [], some, err, ◌∙◌, modify, attempt, refl, caught, ◌>>=◌,
}
use qa_sys.World.{Externals, World, AnyError, reach, Repo, message}
use qa_sys.Prelude.Int.{ℤ, try_i64, as_u64}

-- The messages acknowledged so far, and those published.
abbrev pub HasLogs : {R : Type 0} → List String → List String → World R → Type 0
HasLogs a l w = (w.acked ≡ a) × (w.published ≡ l)

module _ {R : Type 0} (a l : List String) where
  vote_statements-HasLogs :
      (id : ℤ) (by : String) (now : NaiveDateTime)
      → Keeps {S = World R} (HasLogs a l) (vote_statements id by now)
  unfolding vote_statements reach
  vote_statements-HasLogs id by now w h = ground arith

  cancel_statements-HasLogs :
      (id : ℤ) (by : String) (now : NaiveDateTime)
      → Keeps {S = World R} (HasLogs a l) (cancel_statements id by now)
  unfolding cancel_statements reach
  cancel_statements-HasLogs id by now w h = ground arith

  id_then-HasLogs :
      (text : String) (id : Option ℤ) (k : ℤ → Repo R Bool)
      → ((z : ℤ) → Keeps (HasLogs a l) (k z))
      → (w : World R) → HasLogs a l w
      → HasLogs a l (continue k (bigint_or text id w)).1
  id_then-HasLogs text none k h w p = p
  id_then-HasLogs text (some z) k h w p = h z w p

  vote_answer-HasLogs :
      (now : ℤ) (id : ℕ) (by : String) → Keeps {S = World R} (HasLogs a l) (vote_answer now id by)
  unfolding vote_answer
  vote_answer-HasLogs now id by = id_then-HasLogs _ (try_i64 id) _ λ z.
      transaction-Keeps (HasLogs a l) (λ w fs p. p) (λ w d p. p) _
        (vote_statements-HasLogs z by now)

  cancel_vote_answer-HasLogs :
      (now : ℤ) (id : ℕ) (by : String)
      → Keeps {S = World R} (HasLogs a l) (cancel_vote_answer now id by)
  unfolding cancel_vote_answer
  cancel_vote_answer-HasLogs now id by = id_then-HasLogs _ (try_i64 id) _ λ z.
      transaction-Keeps (HasLogs a l) (λ w fs p. p) (λ w d p. p) _
        (cancel_statements-HasLogs z by now)

  is_voted-HasLogs :
      (id : ℕ) (by kind : String) → Keeps {S = World R} (HasLogs a l) (is_voted id by kind)
  unfolding is_voted reach
  is_voted-HasLogs id by kind w h = ground arith

  on_action-HasLogs :
      (now : ℤ) (id : ℕ) (by : String) (up down found : Bool)
      → Keeps {S = World R} (HasLogs a l) (
          if up
          then (if found then pure false else vote_answer now id by)
          else if down
          then (if found then cancel_vote_answer now id by else pure false)
          else fail (message "unsupported answer vote action"))
  on_action-HasLogs now id by true down true w h = h
  on_action-HasLogs now id by true down false w h = vote_answer-HasLogs now id by w h
  on_action-HasLogs now id by false true true w h = cancel_vote_answer-HasLogs now id by w h
  on_action-HasLogs now id by false true false w h = h
  on_action-HasLogs now id by false false found w h = h

  -- Handling a vote acknowledges nothing by itself.
  pub handler_answer_agree-HasLogs :
      (now : ℤ) (id : ℕ) (by action : String)
      → Keeps {S = World R} (HasLogs a l) (handler_answer_agree now id by action)
  unfolding handler_answer_agree
  handler_answer_agree-HasLogs now id by action =
      bind-Keeps {P = HasLogs a l} (is_voted id by "answer") _ (is_voted-HasLogs id by "answer")
        λ found. on_action-HasLogs now id by (str_eq action "up") (str_eq action "down") found

module _ {R : Type 0} (x : Externals R) where
  -- What one message leaves: the acknowledged messages grow by it exactly when it counts.
  pub data Delivered (payload : String) (w : World R) (o : Result AnyError Bool × World R)
      : Type 0 where
    counted : o.0 ≡ ok true → o.1.acked ≡ w.acked ++ payload ∷ [] → Delivered payload w o
    left : o.0 ≡ ok false → o.1.acked ≡ w.acked → Delivered payload w o
    broken : (e : AnyError) → o.0 ≡ err e → o.1.acked ≡ w.acked → Delivered payload w o

  acked_after :
      (payload : String) (w : World R) (o : Result AnyError (Unit {0}) × World R)
      → o.1.acked ≡ w.acked
      → Delivered payload w (
          continue
            (λ _. pure true)
            (continue (λ _. modify (λ v. record v { acked = v.acked ++ payload ∷ [] })) o))
  acked_after payload w (ok tt, v) same = counted refl (rw same)
  acked_after payload w (err e, v) same = broken e refl same

  reach-acked : (wrap : String → AnyError) (w : World R) → (reach wrap w).1.acked ≡ w.acked
  unfolding reach
  reach-acked wrap w = ground arith

  ack-true-Delivered :
      (payload : String) (v w : World R)
      → v.acked ≡ w.acked
      → Delivered payload w ((ack x payload >> pure true) v)
  unfolding ack
  ack-true-Delivered payload v w same =
      acked_after payload w (reach message v) (reach-acked message v ∙ same)

  handled-Delivered :
      (payload : String) (w : World R) (o : Result AnyError Bool × World R)
      → o.1.acked ≡ w.acked
      → Delivered payload w (continue (acknowledge x payload) (caught o))
  handled-Delivered payload w (ok b, v) same = ack-true-Delivered payload v w same
  handled-Delivered payload w (err e, v) same = left refl same

  parsed-Delivered :
      (now : ℤ) (payload : String) (w : World R) (m : VoteMessage) (is_answer : Bool)
      → Delivered payload w (
          (if is_answer
              then (attempt (handle_vote x now m) >>= acknowledge x payload)
              else (ack x payload >> pure true))
            w)
  parsed-Delivered now payload w m true = handled-Delivered payload w (handle_vote x now m w) (
      (handler_answer_agree-HasLogs w.acked w.published (x.naive_local now) (as_u64 m.target_id)
        m.created_by m.action w (refl, refl)).0)
  parsed-Delivered now payload w m false = ack-true-Delivered payload w w refl

  handle_parsed-Delivered :
      (target_type : String) (now : ℤ) (payload : String) (w : World R)
      (parsed : Result String VoteMessage)
      → Delivered payload w (handle_parsed x target_type now payload parsed w)
  handle_parsed-Delivered target_type now payload w (err e) = left refl refl
  handle_parsed-Delivered target_type now payload w (ok m) =
      parsed-Delivered now payload w m (str_eq target_type "answer")

  -- One message of the topic ends in one of three ways: it counts and its acknowledgement is the
  -- one that is added; or it does not count and nothing is acknowledged; or the loop ends with an
  -- error and nothing is acknowledged.
  pub deliver-Delivered :
      (target_type : String) (now : ℤ) (payload : String) (w : World R)
      → Delivered payload w (deliver x target_type now payload w)
  unfolding deliver
  deliver-Delivered target_type now payload w =
      handle_parsed-Delivered target_type now payload w (x.vote_from_json payload)
