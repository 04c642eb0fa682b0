-- ===== src/System/Calls.antt =====
-- The handlers of crates/qa-svc/src/application/app.rs that read, or write to the session store, the read
-- counts, the users or the questions only: what they keep.
use qa_sys.System.Untouched.{questions_update-Keeps, questions_add-Keeps, questions_delete-Keeps}
use qa_sys.System.Calm.{
  IsCalm, answers_find_one-Keeps, is_batch_voted-Keeps, fetch_one-Keeps, questions_find_one-Keeps,
  get-Keeps, answers_find_latest-Keeps, set-Keeps, questions_find_latest-Keeps, del-Keeps,
  check_user_exist-Keeps, users_add-Keeps, is_voted-Keeps, incr-Keeps,
}
use qa_sys.Votes.{is_voted, is_batch_voted}
use qa_sys.Prelude.Int.{eq_ℤ, pos, as_u64}
use qa_sys.Aes.{AesError}
use qa_sys.World.Keeps.{Keeps, bind-Keeps, map_err-Keeps}
use qa_sys.Prelude.{
  Bool, Result, String, if◌then◌else◌, map_err, attempt, ok, not, false, pure, err, ◌>>=◌, lift, [],
  map, true, List, ℕ,
}
use qa_sys.Service.Posts.{delete_question, add_question, update_question}
use qa_sys.Domain.{LatestAnswerResponse, UserEntity, UserSessionEntity, QuestionEntity}
use qa_sys.Service.Reading.{answer_detail, latest_question, answer_list, no_answers, answers_reply}
use qa_sys.Service.Sessions.{
  user_login, user_logout, user_register, verify_token, start_session, wrong_password, session_key,
  open_session, session_of_user, day, session_reply,
}
use qa_sys.Service.Reading.{question_detail}
use qa_sys.System.Calm.{IsCalm, ensured-Keeps}
use qa_sys.Users
use qa_sys.Questions
use qa_sys.Answers
use qa_sys.Pb
use qa_sys.World.{World, Repo, AnyError}
use qa_sys.Service.{Env, Handler, Failure, unwrap_or, or_default}

module _ {R A : Type 0} (P : World R → Type 0) where
  unwrap_or-Keeps : (d : A) (o : Result AnyError A × World R) → P o.1 → P (unwrap_or d o).1
  unwrap_or-Keeps d (ok a, w) p = p
  unwrap_or-Keeps d (err e, w) p = p

  or_default-Keeps : (d : A) (m : Repo R A) → Keeps P m → Keeps P (or_default d m)
  or_default-Keeps d m h w p = unwrap_or-Keeps d (m w) (h w p)

module _ {R : Type 0} (env : Env R) (P : World R → Type 0) (calm : IsCalm P) where
  -- A repository's operation under a change of its error, and what the handler does with the result.
  named-Keeps :
      {A B : Type 0} (f : AnyError → Failure) (m : Repo R A) (k : A → Handler R B)
      → Keeps P m
      → ((a : A) → Keeps P (k a))
      → Keeps P (map_err f m >>= k)
  named-Keeps f m k h = bind-Keeps {P = P} (map_err f m) k (map_err-Keeps P f m h)

  attempted-Keeps :
      {A B : Type 0} (m : Repo R A) (k : Result AnyError A → Handler R B)
      → Keeps P m
      → ((r : Result AnyError A) → Keeps P (k r))
      → Keeps P (attempt m >>= k)
  attempted-Keeps m k h hk = bind-Keeps {P = P} (attempt m) k (λ w p. h w p) hk

  pub user_register-Keeps : (req : Pb.UserRegisterRequest) → Keeps P (user_register env req)
  unfolding user_register
  user_register-Keeps req =
      named-Keeps _ (Users.check_user_exist req.username) _
        (check_user_exist-Keeps P calm req.username)
        λ exists. ensured-Keeps P calm (not exists) _ _ (
          named-Keeps _ (Users.add env.externals env.now env.uuid req.username req.password) _
            (users_add-Keeps P calm _ _ _ _ _) λ _ w p. p)

  open_session-Keeps :
      (u : UserEntity) (token : Result AesError String) → Keeps P (open_session env u token)
  open_session-Keeps u (err e) w p = p
  open_session-Keeps u (ok token) w p =
      named-Keeps _
        (Users.set env.externals env.now (session_key u.openid) (session_of_user env u) day) _
        (set-Keeps P calm _ _ _ _ _) (λ _ v q. q) w p

  start_session-Keeps :
      (name : String) (u : UserEntity) (found : Result AnyError UserSessionEntity)
      → Keeps P (start_session env name u found)
  start_session-Keeps name u (ok session) w p = p
  start_session-Keeps name u (err e) w p = open_session-Keeps u _ w p

  pub user_login-Keeps : (req : Pb.UserLoginRequest) → Keeps P (user_login env req)
  unfolding user_login
  user_login-Keeps req =
      named-Keeps _ (Users.fetch_one req.username) _ (fetch_one-Keeps P calm req.username) λ u.
        ensured-Keeps P calm (not (wrong_password env req.password u)) _ _ (
          attempted-Keeps (Users.get env.externals env.now (session_key u.openid))
            (start_session env req.username u) (get-Keeps P calm _ _ _)
            λ found. start_session-Keeps req.username u found)

  pub user_logout-Keeps : (req : Pb.UserLogoutRequest) → Keeps P (user_logout env req)
  unfolding user_logout
  user_logout-Keeps req =
      bind-Keeps {P = P} (lift _) _ (λ w p. p)
        λ openid.
          named-Keeps _ (Users.del env.externals (session_key openid)) _ (del-Keeps P calm _ _)
            λ _ w p. p

  pub verify_token-Keeps : (req : Pb.VerifyTokenRequest) → Keeps P (verify_token env req)
  unfolding verify_token
  verify_token-Keeps req =
      bind-Keeps {P = P} (lift _) _ (λ w p. p)
        λ openid.
          attempted-Keeps (Users.get env.externals env.now (session_key openid))
            (λ found. pure (session_reply env found)) (get-Keeps P calm _ _ _) λ _ w p. p

  pub question_detail-Keeps : (req : Pb.QuestionDetailRequest) → Keeps P (question_detail env req)
  unfolding question_detail
  question_detail-Keeps req =
      named-Keeps _ (Questions.find_one req.id) _ (questions_find_one-Keeps P calm req.id) λ q.
        named-Keeps _ (Questions.incr env.externals _ "question") _ (incr-Keeps P calm _ _ _)
          λ _ w p. p

  pub latest_question-Keeps : (req : Pb.LatestQuestionRequest) → Keeps P (latest_question env req)
  unfolding latest_question
  latest_question-Keeps req =
      named-Keeps _ (Questions.find_latest req.last_id req.limit) _
        (questions_find_latest-Keeps P calm _ _) λ _ w p. p

  pub answer_detail-Keeps : (req : Pb.AnswerDetailRequest) → Keeps P (answer_detail env req)
  unfolding answer_detail
  answer_detail-Keeps req =
      named-Keeps _ (Answers.find_one req.id) _ (answers_find_one-Keeps P calm req.id) λ a.
        bind-Keeps {P = P} (or_default false (is_voted _ req.username "answer")) _
          (or_default-Keeps P false (is_voted _ req.username "answer")
            (is_voted-Keeps P calm _ req.username "answer"))
          λ _ w p. p

  listed-Keeps :
      (res : LatestAnswerResponse) (username : String) (empty : Bool) (w : World R)
      → P w
      → P
          ((if empty then pure no_answers else (do
            ids ←
                or_default []
                  (is_batch_voted (map (λ a. as_u64 a.id) res.answers) username "answer")
            pure (answers_reply res ids)))
            w).1
  listed-Keeps res username true w p = p
  listed-Keeps res username false w p =
      bind-Keeps {P = P} (or_default [] (is_batch_voted _ username "answer")) _
        (or_default-Keeps P [] (is_batch_voted _ username "answer")
          (is_batch_voted-Keeps P calm _ username "answer"))
        (λ _ w p. p) w p

  pub answer_list-Keeps : (req : Pb.AnswerListRequest) → Keeps P (answer_list env req)
  unfolding answer_list
  answer_list-Keeps req =
      named-Keeps _ (Answers.find_latest req.question_id req.limit req.page) _
        (answers_find_latest-Keeps P calm _ _ _)
        λ res. listed-Keeps res req.username (eq_ℤ res.total (pos 0))

module _ {R : Type 0} (env : Env R) (P : World R → Type 0) (calm : IsCalm P)
    (free : (w : World R) (qs : List QuestionEntity) (n : ℕ)
      → P w
      → P (record w { db = record w.db { questions = qs; question_seq = n } })) where
  pub add_question-Keeps : (req : Pb.AddQuestionRequest) → Keeps P (add_question env req)
  unfolding add_question
  add_question-Keeps req =
      named-Keeps env P calm _ (Questions.add _) _ (questions_add-Keeps P calm free _) λ _ w p. p

  pub update_question-Keeps : (req : Pb.UpdateQuestionRequest) → Keeps P (update_question env req)
  unfolding update_question
  update_question-Keeps req =
      named-Keeps env P calm _ (Questions.update req.id _) _
        (questions_update-Keeps P calm free _ _) λ _ w p. p

  pub delete_question-Keeps : (req : Pb.DeleteQuestionRequest) → Keeps P (delete_question env req)
  unfolding delete_question
  delete_question-Keeps req =
      named-Keeps env P calm _ (Questions.delete req.id req.username) _
        (questions_delete-Keeps P calm free _ _) λ _ w p. p
