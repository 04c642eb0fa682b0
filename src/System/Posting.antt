-- ===== src/System/Posting.antt =====
-- What the operations on answers of crates/qa-svc/src/core/answer.rs do to the consistency of answers
-- and votes.
use qa_sys.System.Calm.{IsCalm, reached-Keeps, put_if-Keeps, put_then-Keeps, write_db-Keeps}
use qa_sys.Domain.{QuestionEntity, UserEntity}
use qa_sys.Service.{Env, Failure}
use qa_sys.Prelude.Int.{ℤ, pos, eq_ℤ_iff}
use qa_sys.World.Keeps.{Keeps, bind-Keeps, map_err-Keeps}
use qa_sys.Domain.{UserVoteEntity, AnswerEntity, NaiveDateTime}
use qa_sys.World.{Db, World, sql_failed, AnyError, Repo}
use qa_sys.Prelude.{
  ℕ, List, ◌+◌, String, Bool, All-imply, ◌≡◌, count_if, keep, Option, arith, ◌∷◌, ◌++◌, All-keep,
  modify_if, [], All-add, All-modify_if, refl, ap, sym, some, none, map_err, ◌>>=◌, pure,
}
use qa_sys.Votes.Consistency.{IsConsistent, AreKnown, votes_for}
use qa_sys.Answers
use qa_sys.Pb
use qa_sys.Service.Posts.{add_answer, delete_answer, update_answer, new_answer, add_given_answer}

-- No vote names an id that has not been given out yet.
count_if-AreKnown :
    (seq : ℕ) (vs : List UserVoteEntity) → AreKnown seq vs → count_if (votes_for (pos seq)) vs ≡ 0
count_if-AreKnown seq [] h = refl
count_if-AreKnown seq (v ∷ vs) h =
    ground (arith, count_if-AreKnown seq vs h.1, h.0, eq_ℤ_iff v.target_id (pos seq))

-- The next id of the sequence is used up, whatever becomes of the row.
next_id-IsConsistent :
    (d : Db) → IsConsistent d → IsConsistent (record d { answer_seq = d.answer_seq + 1 })
next_id-IsConsistent d h = record {
  counted = h.counted;
  voted_once = h.voted_once;
  known = All-imply (λ v p. omega arith) d.votes h.known;
  given = All-imply (λ a p. omega arith) d.answers h.given;
}

new_row-IsConsistent :
    (d : Db) (a : AnswerEntity)
    → a.id ≡ pos d.answer_seq
    → a.agree_count ≡ pos 0
    → IsConsistent d
    → IsConsistent (record d { answer_seq = d.answer_seq + 1; answers = d.answers ++ a ∷ [] })
new_row-IsConsistent d a i n h = record {
  counted =
      All-add _ a d.answers
        (rw i (rw n (ap pos (sym (count_if-AreKnown d.answer_seq d.votes h.known))))) h.counted;
  voted_once = h.voted_once;
  known = (next_id-IsConsistent d h).known;
  given = All-add _ a d.answers (rw i (omega arith)) (next_id-IsConsistent d h).given;
}

edit-IsConsistent :
    (d : Db) (q : AnswerEntity → Bool) (content : String) (by : Option String)
    (at : Option NaiveDateTime)
    → IsConsistent d
    → IsConsistent (record d {
      answers =
          modify_if q
            (λ a. record a { content = content; updated_by = by; updated_at = at })
            d.answers;
    })
edit-IsConsistent d q content by at h = record {
  counted = All-modify_if _ q _ d.answers (λ a p. p) h.counted;
  voted_once = h.voted_once;
  known = h.known;
  given = All-modify_if _ q _ d.answers (λ a p. p) h.given;
}

fewer_rows-IsConsistent :
    (d : Db) (q : AnswerEntity → Bool)
    → IsConsistent d
    → IsConsistent (record d { answers = keep q d.answers })
fewer_rows-IsConsistent d q h = record {
  counted = All-keep _ q d.answers h.counted;
  voted_once = h.voted_once;
  known = h.known;
  given = All-keep _ q d.answers h.given;
}

-- The tables are consistent on this condition, and the topic holds these messages.
abbrev pub IsSound : {R : Type 0} → Type 0 → List String → World R → Type 0
IsSound C l w = (C → IsConsistent w.db) × (w.published ≡ l)

module _ {R : Type 0} (C : Type 0) (l : List String) where
  -- Questions and users are not what consistency is about.
  apart :
      (w : World R) (qs : List QuestionEntity) (n : ℕ) (us : List UserEntity) (m : ℕ)
      → IsSound C l w
      → IsSound C l (record w {
        db = record w.db { questions = qs; question_seq = n; users = us; user_seq = m };
      })
  apart w qs n us m (sound, same) = (
    (λ c. record {
      counted = (sound c).counted;
      voted_once = (sound c).voted_once;
      known = (sound c).known;
      given = (sound c).given;
    }),
    same,
  )

  pub IsSound-free :
      (w : World R) (qs : List QuestionEntity) (n : ℕ)
      → IsSound C l w
      → IsSound C l (record w { db = record w.db { questions = qs; question_seq = n } })
  IsSound-free w qs n h = apart w qs n w.db.users w.db.user_seq h

  pub IsSound-IsCalm : IsCalm {R = R} (IsSound C l)
  IsSound-IsCalm = record {
    faults = λ w fs h. h;
    redis = λ w r h. h;
    users = λ w us m h. apart w w.db.questions w.db.question_seq us m h;
  }

module _ {R : Type 0} (C : Type 0) (l : List String) where
  pub add-IsSound : (a : AnswerEntity) → Keeps {S = World R} (IsSound C l) (Answers.add a)
  unfolding Answers.add
  add-IsSound a = reached-Keeps (IsSound C l) (IsSound-IsCalm C l) sql_failed _ λ w h.
      put_then-Keeps (IsSound C l) (IsSound-IsCalm C l) _ _ _ _ _
        ((λ c. next_id-IsConsistent w.db (h.0 c)), h.1)
        ((λ c. new_row-IsConsistent w.db _ refl refl (h.0 c)), h.1)

  pub update-IsSound :
      (now : ℤ) (id : ℕ) (content by : String)
      → Keeps {S = World R} (IsSound C l) (Answers.update now id content by)
  unfolding Answers.update
  update-IsSound now id content by =
      reached-Keeps (IsSound C l) (IsSound-IsCalm C l) sql_failed _ λ w h.
        put_if-Keeps (IsSound C l) (IsSound-IsCalm C l) _ _ _ _ h
          ((λ c. edit-IsConsistent w.db _ content _ (some now) (h.0 c)), h.1)

  pub delete-IsSound :
      (id : ℕ) (by : String) → Keeps {S = World R} (IsSound C l) (Answers.delete id by)
  unfolding Answers.delete
  delete-IsSound id by = reached-Keeps (IsSound C l) (IsSound-IsCalm C l) sql_failed _ λ w h.
      write_db-Keeps (IsSound C l) (IsSound-IsCalm C l) _ w
        ((λ c. fewer_rows-IsConsistent w.db _ (h.0 c)), h.1)

module _ {R : Type 0} (env : Env R) (C : Type 0) (l : List String) where
  named-IsSound :
      {A B : Type 0} (f : AnyError → Failure) (m : Repo R A) (k : A → B)
      → Keeps (IsSound C l) m
      → Keeps {S = World R} (IsSound C l) (map_err f m >>= λ a. pure (k a))
  named-IsSound f m k h =
      bind-Keeps {P = IsSound C l} (map_err f m) _ (map_err-Keeps (IsSound C l) f m h) λ _ w p. p

  given_answer-IsSound : (a : Option Pb.AnswerEntity) → Keeps (IsSound C l) (add_given_answer env a)
  given_answer-IsSound none w p = p
  given_answer-IsSound (some a) w p =
      named-IsSound _ (Answers.add (new_answer env a)) _ (add-IsSound C l _) w p

  pub add_answer-IsSound : (req : Pb.AddAnswerRequest) → Keeps (IsSound C l) (add_answer env req)
  unfolding add_answer
  add_answer-IsSound req = given_answer-IsSound req.answer

  pub delete_answer-IsSound :
      (req : Pb.DeleteAnswerRequest) → Keeps (IsSound C l) (delete_answer env req)
  unfolding delete_answer
  delete_answer-IsSound req =
      named-IsSound _ (Answers.delete req.id req.username) _ (delete-IsSound C l _ _)

  pub update_answer-IsSound :
      (req : Pb.UpdateAnswerRequest) → Keeps (IsSound C l) (update_answer env req)
  unfolding update_answer
  update_answer-IsSound req =
      named-IsSound _
        (Answers.update (env.externals.naive_local env.now) req.id req.content req.username) _
        (update-IsSound C l _ _ _ _)
