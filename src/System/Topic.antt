-- ===== src/System/Topic.antt =====
-- What one HTTP request can put on the vote topic.
use qa_sys.Gateway.Auth.{authenticate}
use qa_sys.Votes.Consistency.{IsConsistent}
use qa_sys.Gateway.Client.{qa_service}
use qa_sys.Gateway.Allowed.{principal_of, principal_of-ok}
use qa_sys.System.Posting.{IsSound}
use qa_sys.World.{World}
use qa_sys.Prelude.{Bool, String, List, ◌≡◌, ◌⊎◌, inl, ok, inr, sym, refl}
use qa_sys.Service.{Env}
use qa_sys.Gateway.{Status, HttpRequest, Principal}
use qa_sys.Gateway.Router.{Framework, api_router}
use qa_sys.Gateway.Acts.{still, acted, Moved}
use qa_sys.System.Requests.{HasTopic, request-IsSound, HasAsked}

module _ {R : Type 0} (lib : Framework) (panicked : Status) (env : Env R) (timed_out : Bool)
    (request_id : String) (req : HttpRequest) (w : World R) where
  -- The topic after the request, and the user behind a message that is new.
  abbrev HasNews : List String → Type 0
  HasNews after =
      (after ≡ w.published)
      ⊎ ((p : Principal) × ((authenticate (qa_service panicked env) timed_out request_id req w).0
            ≡ ok p)
          × HasTopic env w.published p after)

  Moved-HasNews :
      {C : Type 0} {v : World R}
      → Moved
          (IsSound C w.published)
          (HasAsked env C w.published)
          (principal_of (authenticate (qa_service panicked env) timed_out request_id req w).0)
          v
      → HasNews v.published
  Moved-HasNews (still h) = inl h.1
  Moved-HasNews (acted p e h) = inr (p, principal_of-ok _ p (sym e), h.1)

  -- After any HTTP request the vote topic is as it was, or has exactly one message more: a vote
  -- "up" or "down" in the name of the user that the gateway authenticated for this request, on the
  -- answer whose id is the `i64` of an id from 1 to 2^64 - 1, so never on the answer 0. That serde
  -- reads the id as a `u64` is part of `Framework`.
  pub api_router-HasNews :
      HasNews (api_router lib (qa_service panicked env) timed_out request_id req w).1.published
  api_router-HasNews = Moved-HasNews (
      request-IsSound env (IsConsistent w.db) w.published lib panicked timed_out request_id req w
        ((λ ready. ready), refl))
