-- ===== src/Votes/Keeps.antt =====
-- The rule for one message of the vote topic (crates/qa-svc/src/core/user_vote.rs): a property that says
-- nothing of the acknowledgements and of the outcomes to come is kept if handling the vote keeps it.
use qa_sys.Prelude.Int.{ℤ}
use qa_sys.Prelude.{
  List, String, Option, Result, ◌≡◌, Bool, if◌then◌else◌, ok, err, Result-cases, attempt, ◌>>=◌,
  inl, ◌>>◌, str_eq, pure, inr, true, false,
}
use qa_sys.World.Keeps.{Keeps, bind-Keeps, reach-Keeps}
use qa_sys.World.{World, Externals, AnyError, message, reach}
use qa_sys.Domain.{VoteMessage}
use qa_sys.Votes.Consumer.{ack, deliver, acknowledge, handle_vote}

module _ {R : Type 0} (x : Externals R) (P : World R → Type 0)
    (quiet : (w : World R) (acked : List String) (fs : List (Option String))
      → P w
      → P (record w { acked = acked; faults = fs })) where
  ack-Keeps : (payload : String) → Keeps P (ack x payload)
  unfolding ack
  ack-Keeps payload =
      bind-Keeps {P = P} (reach message) _ (reach-Keeps P (λ w fs p. quiet w w.acked fs p) message)
        λ _ w p. quiet w _ w.faults p

  acknowledge-Keeps :
      (payload : String) (r : Result AnyError Bool) → Keeps P (acknowledge x payload r)
  acknowledge-Keeps payload (err e) w p = p
  acknowledge-Keeps payload (ok b) w p =
      bind-Keeps {P = P} (ack x payload) _ (ack-Keeps payload) (λ _ v q. q) w p

  parsed-Keeps :
      (now : ℤ) (payload : String) (m : VoteMessage) (is_answer : Bool)
      → Keeps P (handle_vote x now m)
      → Keeps P (
          if is_answer
          then (attempt (handle_vote x now m) >>= acknowledge x payload)
          else (ack x payload >> pure true))
  parsed-Keeps now payload m true h w p =
      acknowledge-Keeps payload (handle_vote x now m w).0 (handle_vote x now m w).1 (h w p)
  parsed-Keeps now payload m false h w p = acknowledge-Keeps payload (ok true) w p

  pub deliver-Keeps :
      (target_type : String) (now : ℤ) (payload : String)
      → ((m : VoteMessage) → x.vote_from_json payload ≡ ok m → Keeps P (handle_vote x now m))
      → Keeps P (deliver x target_type now payload)
  unfolding deliver
  deliver-Keeps target_type now payload h w p = elim (Result-cases (x.vote_from_json payload)) [
    | inl (m, e) ↦ rw e (parsed-Keeps now payload m (str_eq target_type "answer") (h m e) w p)
    | inr (z, e) ↦ rw e p
  ]
