-- ===== src/System/Titles.antt =====
-- Titles that the checks of crates/gateway/src/handler/qa.rs let pass and that the column of
-- migrations/20260725064428_db.sql does not hold.
use qa_sys.Prelude.Strings.{format}
use qa_sys.Prelude.Int.{as_i64}
use qa_sys.Gateway.Client.{qa_service, status_of}
use qa_sys.Domain.{QuestionEntity}
use qa_sys.Service.{Env, status, unknown}
use qa_sys.Gateway.{
  Status, Principal, into_response, HttpResponse, http_status, respond, grpc_error, forbidden,
}
use qa_sys.World.{fits_varchar, reach, World, AnyError, error_text}
use qa_sys.Prelude.{
  Result, Bool, ok, false, ◌≡◌, err, ◌⊎◌, true, ℕ, continue, pure, arith, not, ◌>>=◌, str_eq,
  map_err_of, if◌then◌else◌, inl, ◌∷◌, [], inr, refl,
}
use qa_sys.Gateway.Handlers
use qa_sys.Gateway.Requests.{AddQuestRequest}
use qa_sys.Questions
use qa_sys.Pb
use qa_sys.Gateway.{question_id}
use qa_sys.Service.Posts.{add_question}

abbrev is_err : {E A : Type 0} → Result E A → Bool
is_err (ok a) = false
is_err (err e) = true

module _ {R : Type 0} where
  add_too_long :
      (q : QuestionEntity) (w : World R)
      → fits_varchar 300 q.title ≡ false
      → (is_err (Questions.add q w).0 ≡ true)
        × ((Questions.add q w).1.db.questions ≡ w.db.questions)
  unfolding Questions.add reach
  add_too_long q w h = ground (arith, h)

module _ {R : Type 0} (panicked : Status) (env : Env R) where
  -- A refusal that has added no question.
  abbrev pub IsRefused : World R → HttpResponse × World R → Type 0
  IsRefused w o = ((o.0.status ≡ 403) ⊎ (o.0.status ≡ 500)) × (o.1.db.questions ≡ w.db.questions)

  added-IsRefused :
      (w : World R) (o : Result AnyError ℕ × World R)
      → is_err o.0 ≡ true
      → o.1.db.questions ≡ w.db.questions
      → IsRefused w (
          respond (
            continue
              (λ (resp : Pb.AddQuestionResponse). pure (question_id (as_i64 resp.id)))
              (map_err_of grpc_error (
                map_err_of (status_of panicked) (
                  continue
                    (λ id. pure (record { id = id }))
                    (map_err_of
                      (λ e. status unknown (
                        format
                          ("failed to add question, error:" ∷ error_text env.externals e ∷ [])))
                      o))))))
  unfolding into_response http_status
  added-IsRefused w (ok n, v) h same = cc
  added-IsRefused w (err e, v) h same = (inr refl, same)

  claimed-IsRefused :
      (principal : Principal) (payload : AddQuestRequest) (other : Bool) (w : World R)
      → fits_varchar 300 payload.title ≡ false
      → IsRefused w (
          respond (
            continue
              (λ username.
                Handlers.call (
                  (qa_service panicked env).add_question (record {
                    title = payload.title;
                    content = payload.content;
                    create_by = username;
                  }))
                >>= λ resp. pure (question_id (as_i64 resp.id)))
              (if other then err forbidden else ok principal.username, w)))
  unfolding into_response add_question
  claimed-IsRefused principal payload true w long = (inl refl, refl)
  claimed-IsRefused principal payload false w long =
      let (failed, same) = add_too_long _ w long in added-IsRefused w _ failed same

  -- A new question whose title the column does not take, since a character other than a space
  -- stands behind its 300th, is answered with status 403 or 500 by the handler of the gateway
  -- before qa-svc, whatever the calls to the servers do, and no question is added.
  pub question_add-IsRefused :
      (principal : Principal) (payload : AddQuestRequest) (w : World R)
      → fits_varchar 300 payload.title ≡ false
      → IsRefused w (respond (Handlers.question_add (qa_service panicked env) principal payload w))
  unfolding Handlers.question_add Handlers.authenticated_username
  question_add-IsRefused principal payload w long =
      claimed-IsRefused principal payload (not (str_eq principal.username payload.username)) w long
