-- ===== src/System/Requests.antt =====
-- What an HTTP request through crates/gateway does to the tables of answers and votes, and to the vote
-- topic, when crates/qa-svc is behind it.
use qa_sys.Gateway.Client.{qa_service}
use qa_sys.Gateway.Auth.{authenticate}
use qa_sys.Gateway.Allowed.{principal_of}
use qa_sys.Gateway.Router.{Framework, api_router}
use qa_sys.Prelude.Int.{as_i64, u64_mod}
use qa_sys.Service.Posts.{
  add_question, update_question, delete_question, add_answer, delete_answer, update_answer,
}
use qa_sys.Votes.Consistency.{IsConsistent}
use qa_sys.Domain.{VoteMessage}
use qa_sys.Service.{Env, Failure}
use qa_sys.System.Calls.{add_question-Keeps, update_question-Keeps, delete_question-Keeps}
use qa_sys.System.Posting.{
  IsSound, IsSound-IsCalm, IsSound-free, add_answer-IsSound, delete_answer-IsSound,
  update_answer-IsSound,
}
use qa_sys.Service.Voting.{vote_message}
use qa_sys.Service.Voting.Publishing.{Sent, sent, declined, broken, agree_answer-Sent}
use qa_sys.Prelude.{
  subst, inl, inr, ◌∷◌, [], ◌++◌, ◌≡◌, ◌≤◌, ◌⊎◌, Result, String, ℕ, List, ◌∙◌, some, Bool, ◌<◌,
}
use qa_sys.Pb
use qa_sys.Gateway.{Principal, Status, HttpRequest}
use qa_sys.World.{World}
use qa_sys.System.Served.{Writes, request-Moved}
use qa_sys.Gateway.Acts.{Moved}
use qa_sys.Gateway.Validation.{answer_agree_failed_iff}
use qa_sys.Gateway.Requests.{AnswerAgreeRequest}
use qa_sys.Gateway.Allowed.{IsVote}
use qa_sys.Gateway.Handlers.{answer_of}

-- The message of a vote on an answer.
abbrev pub vote_on : ℕ → String → String → VoteMessage
vote_on id user action = record {
  target_id = as_i64 id;
  target_type = "answer";
  created_by = user;
  action = action;
}

-- The topic is as it was, or has one message more, for a vote of this user.
abbrev pub HasTopic : {R : Type 0} → Env R → List String → Principal → List String → Type 0
HasTopic env l p after =
    (after ≡ l)
    ⊎ ((id : ℕ) × (action : String) × (1 ≤ id)
        × (id < u64_mod)
        × ((action ≡ "up") ⊎ (action ≡ "down"))
        × (after ≡ l ++ env.externals.vote_to_json (vote_on id p.username action) ∷ []))

-- What a user's call leaves.
abbrev pub HasAsked : {R : Type 0} → Env R → Type 0 → List String → Principal → World R → Type 0
HasAsked env C l p w = (C → IsConsistent w.db) × HasTopic env l p w.published

module _ {R : Type 0} (env : Env R) (C : Type 0) (l : List String) where
  idle : (p : Principal) (w : World R) → IsSound C l w → HasAsked env C l p w
  idle p w h = (h.0, inl h.1)

  module _ (p : Principal) (payload : AnswerAgreeRequest) (good : IsVote payload) where
    abbrev request : Pb.AgreeAnswerRequest
    request = record { id = payload.id; create_by = p.username; action = payload.action }

    abbrev one_more : List String → List String
    one_more before = before ++ env.externals.vote_to_json (vote_message env request) ∷ []

    with_message :
        (w : World R) (after : List String)
        → IsSound C l w
        → after ≡ one_more w.published
        → HasTopic env l p after
    with_message w after h e =
        let (positive, name, action) = (answer_agree_failed_iff payload).0 good.0 in
        inr (
          payload.id,
          payload.action,
          positive,
          good.1,
          action,
          subst (λ m. after ≡ one_more m) h.1 e,
        )

    Sent-HasAsked :
        (w : World R) (o : Result Failure Pb.AgreeAnswerResponse × World R)
        → IsSound C l w
        → Sent (env.externals.vote_to_json (vote_message env request)) w o
        → HasAsked env C l p o.1
    Sent-HasAsked w o h (sent r e s m d) = ((λ ready. rw d (h.0 ready)), with_message w _ h m)
    Sent-HasAsked w o h (declined r e s m d) = ((λ ready. rw d (h.0 ready)), inl (m ∙ h.1))
    Sent-HasAsked w o h (broken e e' (inl m) d) = ((λ ready. rw d (h.0 ready)), inl (m ∙ h.1))
    Sent-HasAsked w o h (broken e e' (inr m) d) =
        ((λ ready. rw d (h.0 ready)), with_message w _ h m)

  pub IsSound-Writes : Writes env (IsSound C l) (HasAsked env C l)
  IsSound-Writes = record {
    idle = idle;
    add_question = λ p title content w h.
        let req : Pb.AddQuestionRequest = record {
          title = title;
          content = content;
          create_by = p.username;
        } in
        idle p (add_question env req w).1
          (add_question-Keeps env (IsSound C l) (IsSound-IsCalm C l) (IsSound-free C l) req w h);
    update_question = λ p id title content w h.
        let req : Pb.UpdateQuestionRequest = record {
          id = id;
          title = title;
          content = content;
          update_by = p.username;
        } in
        idle p (update_question env req w).1
          (update_question-Keeps env (IsSound C l) (IsSound-IsCalm C l) (IsSound-free C l) req w h);
    delete_question = λ p id w h.
        let req : Pb.DeleteQuestionRequest = record { id = id; username = p.username } in
        idle p (delete_question env req w).1
          (delete_question-Keeps env (IsSound C l) (IsSound-IsCalm C l) (IsSound-free C l) req w h);
    add_answer = λ p payload w h.
        let req : Pb.AddAnswerRequest = record { answer = some (answer_of payload p.username) } in
        idle p (add_answer env req w).1 (add_answer-IsSound env C l req w h);
    delete_answer = λ p id w h.
        let req : Pb.DeleteAnswerRequest = record { id = id; username = p.username } in
        idle p (delete_answer env req w).1 (delete_answer-IsSound env C l req w h);
    update_answer = λ p id content w h.
        let req : Pb.UpdateAnswerRequest = record {
          id = id;
          content = content;
          username = p.username;
        } in
        idle p (update_answer env req w).1 (update_answer-IsSound env C l req w h);
    agree_answer = λ p payload good w h.
        Sent-HasAsked p payload good w _ h (agree_answer-Sent env (request p payload good) w);
  }

  -- A request through the gateway to the service.
  pub request-IsSound :
      (lib : Framework) (panicked : Status) (timed_out : Bool) (request_id : String)
      (req : HttpRequest) (w : World R)
      → IsSound C l w
      → Moved
          (IsSound C l)
          (HasAsked env C l)
          (principal_of (authenticate (qa_service panicked env) timed_out request_id req w).0)
          (api_router lib (qa_service panicked env) timed_out request_id req w).1
  request-IsSound lib panicked timed_out request_id req w h =
      request-Moved panicked env (IsSound C l) (HasAsked env C l) (IsSound-IsCalm C l)
        IsSound-Writes lib timed_out request_id req w h
