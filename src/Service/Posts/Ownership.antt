-- ===== src/Service/Posts/Ownership.antt =====
-- Whose rows the deletions of crates/qa-svc/src/application/app.rs remove.
use qa_sys.Votes.Effects.{reach-cases}
use qa_sys.Prelude.Int.{as_i64, pos}
use qa_sys.Domain.{QuestionEntity, AnswerEntity}
use qa_sys.World.{World, Db, AnyError, sql_failed, write_db}
use qa_sys.Pb.{DeleteAnswerRequest, DeleteQuestionRequest}
use qa_sys.Service.{Env, Failure}
use qa_sys.Prelude.{
  String, List, Bool, count_if, ◌≡◌, true, Result, keep, not, ◌∷◌, str_eq, ok, arith, [], ◌⊎◌, inl,
  err, refl, inr, ◌∙◌, ap, continue, map_err_of, pure,
}
use qa_sys.Questions
use qa_sys.Questions.{asked_by}
use qa_sys.Answers
use qa_sys.Answers.{owned_by}
use qa_sys.Service.Posts.{delete_question, delete_answer}

module _ {A : Type 0} where
  keep-keep :
      (p q : A → Bool) (xs : List A)
      → ((x : A) → p x ≡ true → q x ≡ true)
      → keep p (keep q xs) ≡ keep p xs
  keep-keep p q [] h = refl
  keep-keep p q (x ∷ xs) h = ground (arith, h x, keep-keep p q xs h)

  count_if-removed : (p : A → Bool) (xs : List A) → count_if p (keep (λ x. not (p x)) xs) ≡ 0
  count_if-removed p [] = refl
  count_if-removed p (x ∷ xs) = ground (arith, count_if-removed p xs)

abbrev pub questions_of_others : String → List QuestionEntity → List QuestionEntity
questions_of_others username = keep (λ q. not (str_eq q.created_by username))

abbrev pub answers_of_others : String → List AnswerEntity → List AnswerEntity
answers_of_others username = keep (λ a. not (str_eq a.created_by username))

-- A deletion that took effect, with its answer or with an error in its place, or an error that left
-- the rows.
abbrev pub IsDeletion :
    {R A B : Type 0}
    → (List B → Type 0)
    → (World R → List B)
    → A
    → World R
    → Result Failure A × World R
    → Type 0
IsDeletion gone rows reply w o =
    (((o.0 ≡ ok reply) ⊎ ((e : Failure) × (o.0 ≡ err e))) × gone (rows o.1))
    ⊎ ((e : Failure) × (o.0 ≡ err e) × (rows o.1 ≡ rows w))

-- What a table is after its statement, whether the reply comes or not.
module _ {R A B : Type 0} (rows : World R → List B) (gone : List B → Type 0)
    (others : List B → List B) (reply : A) (f : AnyError → Failure) where
  abbrev answered_by : Result AnyError (Unit {0}) × World R → Result Failure A × World R
  answered_by o = continue (λ _. pure reply) (map_err_of f o)

  written-IsDeletion :
      (w v : World R) (d : Db)
      → ((u : World R) → u.db ≡ d → (others (rows u) ≡ others (rows w)) × gone (rows u))
      → let o = answered_by (write_db d v) in
        (others (rows o.1) ≡ others (rows w)) × IsDeletion gone rows reply w o
  written-IsDeletion w v d h = elim (reach-cases sql_failed (record v { db = d })) [
    | inl (u, e, kept) ↦ rw e ((h u kept).0, inl (inl refl, (h u kept).1))
    | inr (t, u, e, kept) ↦ rw e ((h u kept).0, inl (inr (f t, refl), (h u kept).1))
  ]

module _ {R : Type 0} (env : Env R) where
  -- Deleting a question keeps every question of another author, in order; and either leaves no
  -- question of that id and author, and answers state 1 or an error when the reply of the database
  -- is lost, or ends in an error with the questions as they were.
  pub delete_question-others :
      (req : DeleteQuestionRequest) (w : World R)
      → (questions_of_others req.username (delete_question env req w).1.db.questions
          ≡ questions_of_others req.username w.db.questions)
        × IsDeletion
            (λ qs. count_if (asked_by (as_i64 req.id) req.username) qs ≡ 0)
            (λ v. v.db.questions)
            (record { state = pos 1 })
            w
            (delete_question env req w)
  unfolding delete_question Questions.delete
  delete_question-others req w = elim (reach-cases sql_failed w) [
    | inl (v, e, same) ↦ rw e (
        written-IsDeletion (λ v. v.db.questions)
          (λ rs. count_if (asked_by (as_i64 req.id) req.username) rs ≡ 0)
          (questions_of_others req.username) (record { state = pos 1 }) _ w v _
          (λ u kept. (
            ap (λ d. questions_of_others req.username d.questions) kept
                ∙ keep-keep (λ r. not (str_eq r.created_by req.username))
                    (λ r. not (asked_by (as_i64 req.id) req.username r)) v.db.questions
                    (λ r h. ground arith)
                ∙ ap (λ d. questions_of_others req.username d.questions) same,
            rw kept (count_if-removed (asked_by (as_i64 req.id) req.username) v.db.questions),
          )))
    | inr (t, v, e, same) ↦ rw e (
      ap (λ d. questions_of_others req.username d.questions) same,
      inr (_, refl, ap (λ d. d.questions) same),
    )
  ]

  -- Deleting an answer keeps every answer of another author, in order; and either leaves no answer
  -- of that id and author, and answers state 1 or an error when the reply of the database is lost,
  -- or ends in an error with the answers as they were.
  pub delete_answer-others :
      (req : DeleteAnswerRequest) (w : World R)
      → (answers_of_others req.username (delete_answer env req w).1.db.answers
          ≡ answers_of_others req.username w.db.answers)
        × IsDeletion
            (λ qs. count_if (owned_by (as_i64 req.id) req.username) qs ≡ 0)
            (λ v. v.db.answers)
            (record { state = pos 1 })
            w
            (delete_answer env req w)
  unfolding delete_answer Answers.delete
  delete_answer-others req w = elim (reach-cases sql_failed w) [
    | inl (v, e, same) ↦ rw e (
        written-IsDeletion (λ v. v.db.answers)
          (λ rs. count_if (owned_by (as_i64 req.id) req.username) rs ≡ 0)
          (answers_of_others req.username) (record { state = pos 1 }) _ w v _
          (λ u kept. (
            ap (λ d. answers_of_others req.username d.answers) kept
                ∙ keep-keep (λ r. not (str_eq r.created_by req.username))
                    (λ r. not (owned_by (as_i64 req.id) req.username r)) v.db.answers
                    (λ r h. ground arith)
                ∙ ap (λ d. answers_of_others req.username d.answers) same,
            rw kept (count_if-removed (owned_by (as_i64 req.id) req.username) v.db.answers),
          )))
    | inr (t, v, e, same) ↦ rw e (
      ap (λ d. answers_of_others req.username d.answers) same,
      inr (_, refl, ap (λ d. d.answers) same),
    )
  ]
