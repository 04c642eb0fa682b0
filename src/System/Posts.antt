-- ===== src/System/Posts.antt =====
-- The rows of one author in the tables of questions and answers, and what the statements of
-- crates/qa-svc/src/core/question.rs and answer.rs do to them for a user.
use qa_sys.World.Keeps.{bind-Leads, reach-Keeps}
use qa_sys.Domain.{QuestionEntity, AnswerEntity}
use qa_sys.System.Calm.{IsCalm}
use qa_sys.Prelude.Int.{ℤ}
use qa_sys.Prelude.{
  String, List, ◌≡◌, Bool, false, map, ◌≢◌, modify_if, ◌++◌, ◌∷◌, keep, [], arith, str_eq,
  str_eq_iff, refl, ℕ, ◌∙◌, ◌>>◌, not, ◌&&◌, ◌||◌, ap,
}
use qa_sys.System.Calm.{IsCalm, put_then-Keeps, put_if-Keeps, write_db-Keeps}
use qa_sys.World.{World, Db, Repo, reach, sql_failed, in_varchar}
use qa_sys.Gateway.{Principal}
use qa_sys.Questions
use qa_sys.Answers

-- The ids of the rows of one author, in the order of the table.
abbrev pub posts_of : {A : Type 0} → (A → ℤ) → (A → String) → String → List A → List ℤ
posts_of id author name rows = map id (keep (λ r. str_eq (author r) name) rows)

abbrev pub questions_of : String → Db → List ℤ
questions_of name d = posts_of (λ q. q.id) (λ q. q.created_by) name d.questions

abbrev pub answers_of : String → Db → List ℤ
answers_of name d = posts_of (λ a. a.id) (λ a. a.created_by) name d.answers

module _ {A : Type 0} (id : A → ℤ) (author : A → String) (name : String) where
  posts_of-add :
      (r : A) (rows : List A)
      → author r ≢ name
      → posts_of id author name (rows ++ r ∷ []) ≡ posts_of id author name rows
  posts_of-add r [] other = ground (arith, str_eq_iff (author r) name)
  posts_of-add r (s ∷ rows) other = ground (arith, posts_of-add r rows other)

  pub posts_of-modify_if :
      (p : A → Bool) (f : A → A) (rows : List A)
      → ((r : A) → (id (f r) ≡ id r) × (author (f r) ≡ author r))
      → posts_of id author name (modify_if p f rows) ≡ posts_of id author name rows
  posts_of-modify_if p f [] same = refl
  posts_of-modify_if p f (r ∷ rows) same = ground (arith, same r, posts_of-modify_if p f rows same)

  posts_of-keep :
      (p : A → Bool) (rows : List A)
      → ((r : A) → p r ≡ false → author r ≢ name)
      → posts_of id author name (keep p rows) ≡ posts_of id author name rows
  posts_of-keep p [] others = refl
  posts_of-keep p (r ∷ rows) others =
      ground (arith, others r, str_eq_iff (author r) name, posts_of-keep p rows others)

-- A row that a deletion takes is one of its own.
own_row :
    (found : Bool) (author own : String) → not (found && str_eq author own) ≡ false → author ≡ own
own_row found author own gone = ground (arith, str_eq_iff author own)

-- The tables of posts hold the same rows of this author as before, and the votes are the same.
abbrev pub HasSamePosts : {R : Type 0} → String → Db → World R → Type 0
HasSamePosts name d w =
    (questions_of name w.db ≡ questions_of name d)
    × (answers_of name w.db ≡ answers_of name d)
    × (w.db.votes ≡ d.votes)

-- A row that this user writes carries this name: the user's own, or what the column keeps of it.
abbrev pub goes_by : String → String → Bool
goes_by user name = str_eq name user || str_eq name (in_varchar 50 user)

-- After a call for a user: the same, if the author is another.
abbrev pub HasOthersPosts : {R : Type 0} → String → Db → Principal → World R → Type 0
HasOthersPosts name d p w =
    (w.db.votes ≡ d.votes)
    × (goes_by p.username name ≡ false
        → (questions_of name w.db ≡ questions_of name d)
          × (answers_of name w.db ≡ answers_of name d))

module _ {R : Type 0} (name : String) (d : Db) where
  pub HasSamePosts-IsCalm : IsCalm {R = R} (HasSamePosts name d)
  HasSamePosts-IsCalm = record { faults = λ w fs h. h; redis = λ w r h. h; users = λ w us n h. h }

module _ {R : Type 0} (name : String) (d : Db) (p : Principal) where
  calm : IsCalm {R = R} (HasOthersPosts name d p)
  calm = record { faults = λ w fs h. h; redis = λ w r h. h; users = λ w us n h. h }

  pub idle : (w : World R) → HasSamePosts name d w → HasOthersPosts name d p w
  idle w (asked, answered, votes) = (votes, λ _. (asked, answered))

  -- A statement after its call has been reached.
  reached-Leads :
      {A : Type 0} (k : Repo R A)
      → ((w : World R) → HasSamePosts name d w → HasOthersPosts name d p (k w).1)
      → (w : World R) → HasSamePosts name d w
      → HasOthersPosts name d p ((reach sql_failed >> k) w).1
  reached-Leads k h =
      bind-Leads {P = HasSamePosts name d} (HasOthersPosts name d p) (reach sql_failed) (λ _. k)
        (reach-Keeps (HasSamePosts name d) (λ w fs q. q) sql_failed) idle (λ _ w q. h w q)

  pub questions_add-Others :
      (q : QuestionEntity) (w : World R)
      → q.created_by ≡ p.username
      → HasSamePosts name d w
      → HasOthersPosts name d p (Questions.add q w).1
  unfolding Questions.add
  questions_add-Others q w own =
      reached-Leads _
        (λ v h. put_then-Keeps (HasOthersPosts name d p) calm _ _ _ _ _ (idle v h) (
          h.2,
          λ other. (
            posts_of-add (λ r. r.id) (λ r. r.created_by) name _ v.db.questions
                  (λ e.
                    ground
                      (arith, str_eq_iff name (in_varchar 50 p.username), ap (in_varchar 50) own))
                ∙ h.0,
            h.1,
          ),
        ))
        w

  pub questions_update-Others :
      (id : ℕ) (q : QuestionEntity) (w : World R)
      → HasSamePosts name d w
      → HasOthersPosts name d p (Questions.update id q w).1
  unfolding Questions.update
  questions_update-Others id q = reached-Leads _ λ v h.
      put_if-Keeps (HasOthersPosts name d p) calm _ _ _ _ (idle v h) (
        h.2,
        λ other. (
          posts_of-modify_if (λ r. r.id) (λ r. r.created_by) name _ _ v.db.questions
                (λ r. (refl, refl))
              ∙ h.0,
          h.1,
        ),
      )

  pub questions_delete-Others :
      (id : ℕ) (w : World R)
      → HasSamePosts name d w
      → HasOthersPosts name d p (Questions.delete id p.username w).1
  unfolding Questions.delete
  questions_delete-Others id = reached-Leads _ λ v h.
      write_db-Keeps (HasOthersPosts name d p) calm _ v (
        h.2,
        λ other. (
          posts_of-keep (λ r. r.id) (λ r. r.created_by) name _ v.db.questions
                (λ r gone e.
                  ground
                    (arith, own_row _ r.created_by p.username gone, str_eq_iff name p.username))
              ∙ h.0,
          h.1,
        ),
      )

  pub answers_add-Others :
      (a : AnswerEntity) (w : World R)
      → a.created_by ≡ p.username
      → HasSamePosts name d w
      → HasOthersPosts name d p (Answers.add a w).1
  unfolding Answers.add
  answers_add-Others a w own =
      reached-Leads _
        (λ v h. put_then-Keeps (HasOthersPosts name d p) calm _ _ _ _ _ (idle v h) (
          h.2,
          λ other. (
            h.0,
            posts_of-add (λ r. r.id) (λ r. r.created_by) name _ v.db.answers
                  (λ e.
                    ground
                      (arith, str_eq_iff name (in_varchar 50 p.username), ap (in_varchar 50) own))
                ∙ h.1,
          ),
        ))
        w

  pub answers_update-Others :
      (now : ℤ) (id : ℕ) (content by : String) (w : World R)
      → HasSamePosts name d w
      → HasOthersPosts name d p (Answers.update now id content by w).1
  unfolding Answers.update
  answers_update-Others now id content by = reached-Leads _ λ v h.
      put_if-Keeps (HasOthersPosts name d p) calm _ _ _ _ (idle v h) (
        h.2,
        λ other. (
          h.0,
          posts_of-modify_if (λ r. r.id) (λ r. r.created_by) name _ _ v.db.answers
                (λ r. (refl, refl))
              ∙ h.1,
        ),
      )

  pub answers_delete-Others :
      (id : ℕ) (w : World R)
      → HasSamePosts name d w
      → HasOthersPosts name d p (Answers.delete id p.username w).1
  unfolding Answers.delete
  answers_delete-Others id = reached-Leads _ λ v h.
      write_db-Keeps (HasOthersPosts name d p) calm _ v (
        h.2,
        λ other. (
          h.0,
          posts_of-keep (λ r. r.id) (λ r. r.created_by) name _ v.db.answers
                (λ r gone e.
                  ground
                    (arith, own_row _ r.created_by p.username gone, str_eq_iff name p.username))
              ∙ h.1,
        ),
      )
