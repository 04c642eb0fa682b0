-- ===== src/Service/Posts/Lookup.antt =====
-- What a question that crates/qa-svc/src/application/app.rs adds looks like when it is read.
use qa_sys.Votes.Handling.{reach_calm}
use qa_sys.Prelude.Int.{◌<ℤ◌, pos, as_u64, i64_half, eq_ℤ_iff, as_u64_small, as_i64_small}
use qa_sys.Domain.{QuestionEntity, default_question}
use qa_sys.Pb.{AddQuestionRequest, AddQuestionResponse}
use qa_sys.Prelude.{
  ℕ, All, List, ◌≡◌, find?, ok, ◌++◌, [], continue-ok, ◌<◌, ◌∷◌, map_err-ok, some, arith, ◌∙◌, ap,
  refl,
}
use qa_sys.Service.{Env}
use qa_sys.World.{Db, reach, World, sql_failed, in_varchar}
use qa_sys.Questions
use qa_sys.Questions.{question_id}
use qa_sys.Service.Posts.{add_question}

-- Every id in use lies below the sequence.
abbrev pub AreBelow : Db → Type 0
AreBelow d = All (λ q. q.id <ℤ pos d.question_seq) d.questions

abbrev pub stored : AddQuestionRequest → ℕ → QuestionEntity
stored req n = record default_question {
  id = pos n;
  title = in_varchar 300 req.title;
  content = req.content;
  created_by = in_varchar 50 req.create_by;
}

find?-new_id :
    (n : ℕ) (q : QuestionEntity) (qs : List QuestionEntity)
    → q.id ≡ pos n
    → All (λ r. r.id <ℤ pos n) qs
    → find? (question_id (pos n)) (qs ++ q ∷ []) ≡ some q
find?-new_id n q [] e h = rw e (ground (arith))
find?-new_id n q (r ∷ rs) e (lt, h) = ground (arith, find?-new_id n q rs e h, eq_ℤ_iff r.id (pos n))

module _ {R : Type 0} where
  add_ok :
      (q : QuestionEntity) (id : ℕ) (w v : World R)
      → Questions.add q w ≡ (ok id, v)
      → (id ≡ as_u64 (pos w.db.question_seq))
        × (w.db.question_seq < i64_half)
        × (v.db.questions
            ≡ w.db.questions
              ++ record default_question {
                id = pos w.db.question_seq;
                title = in_varchar 300 q.title;
                content = q.content;
                created_by = in_varchar 50 q.created_by;
                created_at = q.created_at;
              }
                ∷ [])
  unfolding Questions.add reach
  add_ok q id w v h = ground arith

  -- A question whose addition answered without an error is found under the id of the reply, from
  -- the tables as the addition left them and with calls that go through, if all ids were below the
  -- sequence: it has the content of the request, the title and the author of the request as the
  -- columns of 300 and of 50 characters keep them, without spaces behind, and the default for
  -- every other column, the creation time included.
  pub find_one-add_question :
      (env : Env R) (req : AddQuestionRequest) (reply : AddQuestionResponse) (w v u : World R)
      → AreBelow w.db
      → add_question env req w ≡ (ok reply, v)
      → u.db ≡ v.db
      → u.faults ≡ []
      → Questions.find_one reply.id u ≡ (ok (stored req w.db.question_seq), u)
  unfolding add_question Questions.find_one
  find_one-add_question env req reply w v u below h same calm =
      let (id, w1, e, done) = continue-ok _ _ reply v h in
      let (given, small, rows) = add_ok _ id w w1 (map_err-ok _ _ id w1 e) in
      let seq = w.db.question_seq in
      let same_reply : (reply.id ≡ id) × (v ≡ w1) = ((cc), (cc)) in
      let (same_id, same_world) = same_reply in
      let number : reply.id ≡ seq = same_id ∙ given ∙ as_u64_small seq small in
      let rows_now : u.db.questions ≡ w.db.questions ++ stored req seq ∷ [] =
        ap (λ d. d.questions) (same ∙ ap (λ x. x.db) same_world) ∙ rows in
      rw (reach_calm sql_failed u calm) (
        rw number (
          rw (as_i64_small seq small)
            (rw rows_now (rw (find?-new_id seq (stored req seq) w.db.questions refl below) refl))))
