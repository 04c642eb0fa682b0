-- ===== src/System/Authorship.antt =====
-- Whose questions and answers an HTTP request can add or remove.
use qa_sys.Gateway.Client.{qa_service}
use qa_sys.Gateway.Allowed.{principal_of, principal_of-ok}
use qa_sys.Gateway.Auth.{authenticate}
use qa_sys.Gateway.Router.{Framework, api_router}
use qa_sys.World.Keeps.{reply-Keeps}
use qa_sys.Prelude.{
  String, ◌≡◌, Bool, refl, sym, Result, continue, ◌⊎◌, pure, map_err_of, ok, inl, Bool-cases, inr,
  true,
}
use qa_sys.World.{World, Db, AnyError}
use qa_sys.Gateway.{Principal, Status, HttpRequest}
use qa_sys.Pb
use qa_sys.Service.Posts.{
  add_question, delete_question, update_question, add_answer, delete_answer, update_answer,
}
use qa_sys.Service.Voting.Publishing.{Sent, sent, declined, broken, agree_answer-Sent}
use qa_sys.System.Served.{Writes, request-Moved}
use qa_sys.Gateway.Acts.{Moved, still, acted}
use qa_sys.Service.{Failure, Env}
use qa_sys.System.Posts.{
  HasSamePosts, HasOthersPosts, HasSamePosts-IsCalm, questions_of, answers_of, idle, goes_by,
  questions_add-Others, questions_update-Others, questions_delete-Others, answers_add-Others,
  answers_delete-Others, answers_update-Others,
}

module _ {R : Type 0} (env : Env R) (name : String) (d : Db) where
  replied :
      {A B : Type 0} (p : Principal) (f : AnyError → Failure) (k : A → B)
      (o : Result AnyError A × World R)
      → HasOthersPosts name d p o.1
      → HasOthersPosts name d p (continue (λ a. pure (k a)) (map_err_of f o)).1
  replied p = reply-Keeps (HasOthersPosts name d p)

  Sent-Others :
      (p : Principal) (text : String) (w : World R)
      (o : Result Failure Pb.AgreeAnswerResponse × World R)
      → HasSamePosts name d w
      → Sent text w o
      → HasOthersPosts name d p o.1
  Sent-Others p text w o h (sent r e s m same) = idle name d p o.1 (rw same h)
  Sent-Others p text w o h (declined r e s m same) = idle name d p o.1 (rw same h)
  Sent-Others p text w o h (broken e e' m same) = idle name d p o.1 (rw same h)

  posts-Writes : Writes env (HasSamePosts name d) (HasOthersPosts name d)
  unfolding add_question update_question delete_question add_answer update_answer delete_answer
  posts-Writes = record {
    idle = idle name d;
    add_question =
        λ p title content w h. replied p _ _ _ (questions_add-Others name d p _ w refl h);
    update_question =
        λ p id title content w h. replied p _ _ _ (questions_update-Others name d p id _ w h);
    delete_question = λ p id w h. replied p _ _ _ (questions_delete-Others name d p id w h);
    add_answer = λ p payload w h. replied p _ _ _ (answers_add-Others name d p _ w refl h);
    delete_answer = λ p id w h. replied p _ _ _ (answers_delete-Others name d p id w h);
    update_answer = λ p id content w h.
        replied p _ _ _ (answers_update-Others name d p _ id content p.username w h);
    agree_answer = λ p payload good w h. Sent-Others p _ w _ h (agree_answer-Sent env _ w);
  }

module _ {R : Type 0} (lib : Framework) (panicked : Status) (env : Env R) (timed_out : Bool)
    (request_id : String) (req : HttpRequest) (w : World R) (name : String) where
  abbrev after : World R
  after = (api_router lib (qa_service panicked env) timed_out request_id req w).1

  abbrev IsHis : Type 0
  IsHis =
      (p : Principal) × ((authenticate (qa_service panicked env) timed_out request_id req w).0
        ≡ ok p)
      × (goes_by p.username name ≡ true)

  -- The posts of a name after the request.
  abbrev IsAuthored : Type 0
  IsAuthored =
      (after.db.votes ≡ w.db.votes)
      × (((questions_of name after.db ≡ questions_of name w.db)
            × (answers_of name after.db ≡ answers_of name w.db))
          ⊎ IsHis)

  others :
      Moved
        (HasSamePosts name w.db)
        (HasOthersPosts name w.db)
        (principal_of (authenticate (qa_service panicked env) timed_out request_id req w).0)
        after
      → IsAuthored
  others (still (asked, answered, votes)) = (votes, inl (asked, answered))
  others (acted p e (votes, rest)) = elim (Bool-cases (goes_by p.username name)) [
    | inl own ↦ (votes, inr (p, principal_of-ok _ p (sym e), own))
    | inr other ↦ (votes, inl (rest other))
  ]

  pub api_router-IsAuthored : IsAuthored
  api_router-IsAuthored = others (
      request-Moved panicked env (HasSamePosts name w.db) (HasOthersPosts name w.db)
        (HasSamePosts-IsCalm name w.db) (posts-Writes env name w.db) lib timed_out request_id req w
        (refl, refl, refl))
