-- ===== src/Service/Reading.antt =====
-- crates/qa-svc/src/application/app.rs: the handlers that read questions and answers.
pub mod Listing
pub mod Views
use qa_sys.Votes.{is_voted, is_batch_voted}
use qa_sys.Pb
use qa_sys.Questions
use qa_sys.Answers
use qa_sys.Prelude.Int.{as_u64, eq_ℤ, pos, wrap_i64, ◌+ℤ◌, as_i64, ℤ}
use qa_sys.Pb.{
  AnswerListResponse, QuestionDetailRequest, AnswerDetailRequest, AnswerListRequest,
  LatestQuestionRequest, QuestionDetailResponse, AnswerDetailResponse,
}
use qa_sys.Prelude.{
  List, [], ℕ, Bool, map, any, true, ◌>>=◌, ◌==◌, pure, ◌∷◌, if◌then◌else◌, false, some, Option,
  none,
}
use qa_sys.Service.{Env, Handler, or_status, unknown, or_default}
use qa_sys.Domain.{LatestAnswerResponse, LatestQuestionResponse, QuestionEntity, AnswerEntity}

abbrev pub to_pb_question : QuestionEntity → Pb.QuestionEntity
to_pb_question q = record {
  id = as_u64 q.id;
  title = q.title;
  content = q.content;
  create_by = q.created_by;
  read_count = as_u64 q.read_count;
  reply_count = as_u64 q.reply_count;
}

abbrev pub to_pb_answer : (AnswerEntity → Bool) → AnswerEntity → Pb.AnswerEntity
to_pb_answer has_agreed a = record {
  id = as_u64 a.id;
  question_id = as_u64 a.question_id;
  content = a.content;
  create_by = a.created_by;
  agree_count = as_u64 a.agree_count;
  has_aggreed = has_agreed a;
}

abbrev pub id_or_zero : Option ℤ → ℤ
id_or_zero none = pos 0
id_or_zero (some id) = id

abbrev pub questions_reply : LatestQuestionResponse → Pb.LatestQuestionResponse
questions_reply result = elim result.questions [
  | [] ↦ record { last_id = 0; is_end = true; questions = [] }
  | q ∷ qs ↦ record {
    last_id = as_u64 (id_or_zero result.last_id);
    is_end = result.is_end;
    questions = map to_pb_question (q ∷ qs);
  }
]

abbrev pub no_answers : AnswerListResponse
no_answers = record {
  answers = [];
  total = 0;
  total_page = 0;
  page_size = 0;
  current_page = 0;
  is_end = true;
}

-- `vote_map.contains_key(&(a.id as u64))`.
abbrev pub in_votes : List ℕ → AnswerEntity → Bool
in_votes ids a = any (λ n. n == as_u64 a.id) ids

abbrev pub answers_reply : LatestAnswerResponse → List ℕ → AnswerListResponse
answers_reply res ids = record {
  answers = map (to_pb_answer (in_votes ids)) res.answers;
  total = as_u64 res.total;
  total_page = as_u64 res.total_page;
  page_size = as_u64 res.page_size;
  current_page = as_u64 res.current_page;
  is_end = res.is_end;
}

module _ {R : Type 0} (env : Env R) where
  unfoldable pub question_detail : QuestionDetailRequest → Handler R QuestionDetailResponse
  question_detail req = do
    question ←
        or_status env.externals unknown "failed to find question, error:"
          (Questions.find_one req.id)
    views ←
        or_status env.externals unknown "failed to incr question, error:"
          (Questions.incr env.externals (as_u64 question.id) "question")
    pure (record {
      question = some (
          to_pb_question
            (record question { read_count = wrap_i64 (question.read_count +ℤ as_i64 views) }));
    })

  unfoldable pub latest_question : LatestQuestionRequest → Handler R Pb.LatestQuestionResponse
  latest_question req = do
    result ←
        or_status env.externals unknown "failed to find latest question, error:"
          (Questions.find_latest req.last_id req.limit)
    pure (questions_reply result)

  unfoldable pub answer_list : AnswerListRequest → Handler R AnswerListResponse
  answer_list req = do
    res ←
        or_status env.externals unknown "failed to find answer, error:"
          (Answers.find_latest req.question_id req.limit req.page)
    if eq_ℤ res.total (pos 0) then pure no_answers else (do
      ids ←
          or_default [] (is_batch_voted (map (λ a. as_u64 a.id) res.answers) req.username "answer")
      pure (answers_reply res ids))

  unfoldable pub answer_detail : AnswerDetailRequest → Handler R AnswerDetailResponse
  answer_detail req = do
    answer ←
        or_status env.externals unknown "failed to find answer, error:" (Answers.find_one req.id)
    voted ← or_default false (is_voted (as_u64 answer.id) req.username "answer")
    pure (record { answer = some (to_pb_answer (λ _. voted) answer) })
