-- ===== src/System/Reach.antt =====
-- The runs of qa-sys: HTTP requests through the gateway, messages of the vote topic, and rounds of
-- the job that moves read counts, in any order, with any outcomes of the calls to the servers.
use qa_sys.Votes.Consumer.{deliver}
use qa_sys.Gateway.Client.{qa_service}
use qa_sys.System.Untouched.{handler-Keeps}
use qa_sys.Votes.Consumption.{deliver-IsConsistent, HasWholeName}
use qa_sys.System.Requests.{request-IsSound, HasAsked}
use qa_sys.System.Posting.{IsSound, IsSound-IsCalm, IsSound-free}
use qa_sys.Votes.Consistency.{IsConsistent}
use qa_sys.World.{World}
use qa_sys.Prelude.{Option, String, List, Bool, ℕ, refl}
use qa_sys.Prelude.Int.{ℤ}
use qa_sys.Gateway.{Status, Principal, HttpRequest}
use qa_sys.Service.{Env}
use qa_sys.Gateway.Router.{Framework, api_router}
use qa_sys.Gateway.Acts.{still, acted, Moved}
use qa_sys.Questions

-- The service at a moment: the clock and the next random id have moved on.
abbrev pub moment : {R : Type 0} → Env R → ℤ → String → Env R
moment env now uuid = record env { now = now; uuid = uuid }

module _ {R : Type 0} (lib : Framework) (panicked : Status) (env : Env R) where
  -- One event, from the start of its handling to its end.
  pub data Step : World R → World R → Type 0 where
    -- From here on the calls to the servers end like this.
    turned : (faults : List (Option String)) (w : World R) → Step w (record w { faults = faults })
    requested :
        (now : ℤ) (uuid : String) (timed_out : Bool) (request_id : String) (req : HttpRequest)
        (w : World R)
        → Step w
            (api_router lib
              (qa_service panicked (moment env now uuid))
              timed_out
              request_id
              req
              w).1
    delivered :
        (target_type : String) (now : ℤ) (payload : String) (w : World R)
        → HasWholeName env.externals payload
        → Step w (deliver env.externals target_type now payload w).1
    moved :
        (fuel : ℕ) (target_type : String) (w : World R)
        → Step w (Questions.handler env.externals fuel target_type w).1

  -- A run of any number of events.
  pub data Run : World R → World R → Type 0 where
    start : (w : World R) → Run w w
    then : {u v w : World R} → Run u v → Step v w → Run u w

module _ {R : Type 0} (lib : Framework) (panicked : Status) (env : Env R) where
  Moved-IsConsistent :
      {who : Option Principal} {C : Type 0} {l : List String} {w : World R}
      → C
      → Moved (IsSound C l) (HasAsked env C l) who w
      → IsConsistent w.db
  Moved-IsConsistent ready (still h) = h.0 ready
  Moved-IsConsistent ready (acted p e h) = h.0 ready

  Step-IsConsistent :
      {v w : World R} → Step lib panicked env v w → IsConsistent v.db → IsConsistent w.db
  Step-IsConsistent (turned faults w) c = c
  Step-IsConsistent (requested now uuid timed_out request_id req w) c = Moved-IsConsistent c (
      request-IsSound (moment env now uuid) (IsConsistent w.db) w.published lib panicked timed_out
        request_id req w ((λ ready. ready), refl))
  Step-IsConsistent (delivered target_type now payload w whole) c =
      deliver-IsConsistent env.externals target_type now payload whole w c
  Step-IsConsistent (moved fuel target_type w) c =
      (handler-Keeps (IsSound (IsConsistent w.db) w.published)
          (IsSound-IsCalm (IsConsistent w.db) w.published)
          (λ v id by h. IsSound-free (IsConsistent w.db) w.published v _ _ h) env.externals fuel
          target_type w ((λ ready. ready), refl)).0
        c

  -- In every run of the system, which is any sequence of HTTP requests through the gateway to the
  -- service, of deliveries of payloads to the consumer and of rounds of the read-count job, with
  -- any outcomes of the calls to the servers, consistent tables stay consistent: every answer has
  -- as its counter the number of its vote records, no user has two records for one target, and the
  -- ids in use are below the sequence. The condition on the payloads, which are arbitrary
  -- otherwise: no vote that is read from one has a name from which the column cuts spaces behind
  -- the 50th character.
  pub Run-IsConsistent :
      {v w : World R} → Run lib panicked env v w → IsConsistent v.db → IsConsistent w.db
  Run-IsConsistent (start w) c = c
  Run-IsConsistent (then run step) c = Step-IsConsistent step (Run-IsConsistent run c)
