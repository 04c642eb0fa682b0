-- ===== src/Service/Reading/Views.antt =====
-- What question_detail of crates/qa-svc/src/application/app.rs counts and replies.
use qa_sys.Domain.{QuestionEntity}
use qa_sys.Pb.{QuestionDetailResponse}
use qa_sys.Prelude.Int.{
  as_i64, as_i64_small, as_u64, as_u64_small, eq_ℤ_iff, i64_half, pos, negsuc, wrap_i64, ◌+ℤ◌, ℤ,
  int_laws,
}
use qa_sys.Prelude.Strings.{show_i64, show_u64}
use qa_sys.Prelude.{
  ℕ, String, Result, ok, err, some, inl, inr, ◌<◌, ◌≡◌, find?, refl, ap, arith, ◌∙◌, continue,
  map_err_of, pure, sym, Bool, List, true, ◌∷◌, [],
}
use qa_sys.Questions
use qa_sys.Questions.Counting.{CounterLaws, hincr_err, hincr_ok, hincr_reply, reads, stored_reads}
use qa_sys.Service.{Env, Failure}
use qa_sys.Service.Reading.{question_detail, to_pb_question}
use qa_sys.World.{AnyError, World, reach}

abbrev pub hash_key : String
hash_key = Questions.get_hash_key "question"

-- The reply with a question and the views that Redis has of it.
abbrev pub detail_of : QuestionEntity → ℕ → QuestionDetailResponse
detail_of q views = record {
  question =
      some (to_pb_question (record q { read_count = wrap_i64 (q.read_count +ℤ as_i64 views) }));
}

later : (a b : ℤ) → a +ℤ (b +ℤ pos 1) ≡ (a +ℤ b) +ℤ pos 1
later a b = grind int_laws

-- A view of a question: it counts once, and the reply shows the question with its stored reads and
-- those in Redis; or the request ends in an error, and the view counts or does not.
pub data Viewed {R : Type 0} (hget : R → String → String → ℤ) (id : ℤ) (w : World R)
    (o : Result Failure QuestionDetailResponse × World R) : Type 0 where
  shown :
      (q : QuestionEntity) (views : ℕ)
      → find? (Questions.question_id id) w.db.questions ≡ some q
      → hget o.1.redis hash_key (show_i64 id) ≡ pos views
      → o.0 ≡ ok (detail_of q views)
      → o.1.db ≡ w.db
      → reads hget "question" id o.1 ≡ reads hget "question" id w +ℤ pos 1
      → Viewed hget id w o
  counted :
      (e : Failure)
      → o.0 ≡ err e
      → o.1.db ≡ w.db
      → reads hget "question" id o.1 ≡ reads hget "question" id w +ℤ pos 1
      → Viewed hget id w o
  uncounted :
      (e : Failure)
      → o.0 ≡ err e
      → o.1.db ≡ w.db
      → reads hget "question" id o.1 ≡ reads hget "question" id w
      → Viewed hget id w o

find?-holds : {A : Type 0} (p : A → Bool) (xs : List A) (a : A) → find? p xs ≡ some a → p a ≡ true
find?-holds p [] a h = cc
find?-holds p (x ∷ xs) a h = ground (arith, find?-holds p xs a)

id_found :
    (n : ℕ) (q : QuestionEntity) (qs : List QuestionEntity)
    → n < i64_half
    → find? (Questions.question_id (pos n)) qs ≡ some q
    → as_u64 q.id ≡ n
id_found n q qs small row =
    let same = (eq_ℤ_iff q.id (pos n)).0 (find?-holds (Questions.question_id (pos n)) qs q row) in
    ap as_u64 same ∙ as_u64_small n small

show_same : (n : ℕ) → show_u64 n ≡ show_i64 (pos n)
unfolding show_u64 show_i64
show_same n = refl

module _ {R : Type 0} where
  find_one_ok :
      (n : ℕ) (q : QuestionEntity) (w v : World R)
      → Questions.find_one n w ≡ (ok q, v)
      → (find? (Questions.question_id (as_i64 n)) w.db.questions ≡ some q)
        × (v.db ≡ w.db)
        × (v.redis ≡ w.redis)
  unfolding Questions.find_one reach
  find_one_ok n q w v h = ground arith

  find_one_err :
      (n : ℕ) (e : AnyError) (w v : World R)
      → Questions.find_one n w ≡ (err e, v)
      → (v.db ≡ w.db) × (v.redis ≡ w.redis)
  unfolding Questions.find_one reach
  find_one_err n e w v h = ground arith

module _ {R : Type 0} (env : Env R) (hget : R → String → String → ℤ)
    (laws : CounterLaws env.externals hget) where
  one_more_read :
      (field : ℤ) (w u v : World R)
      → v.db ≡ w.db
      → u.redis ≡ w.redis
      → hget v.redis hash_key (show_i64 field) ≡ hget u.redis hash_key (show_i64 field) +ℤ pos 1
      → reads hget "question" field v ≡ reads hget "question" field w +ℤ pos 1
  one_more_read field w u v db_same redis_same more =
      rw (db_same, more, redis_same) (later (stored_reads field w.db) _)

  -- What follows the answer of Redis to HINCRBY.
  bumped :
      (n : ℕ) (q : QuestionEntity) (f : AnyError → Failure) (w u : World R)
      (o : Result AnyError ℤ × World R)
      → n < i64_half
      → find? (Questions.question_id (pos n)) w.db.questions ≡ some q
      → u.db ≡ w.db
      → u.redis ≡ w.redis
      → Questions.hincr env.externals hash_key (show_i64 (pos n)) (pos 1) u ≡ o
      → Viewed hget (pos n) w (
          continue
            (λ views. pure (detail_of q views))
            (map_err_of f (continue (Questions.reply_u64 env.externals) o)))
  bumped n q f w u (ok (pos m), v) small row db_same redis_same h =
      let (kept, more) =
        hincr_ok env.externals hget laws hash_key (show_i64 (pos n)) (pos 1) (pos m) u v h in
      let (kept', reply) =
        hincr_reply env.externals hget laws hash_key (show_i64 (pos n)) (pos 1) (pos m) u v h in
      shown q m row (laws.replied u.redis v.redis hash_key (show_i64 (pos n)) (pos 1) (pos m) reply)
        refl (kept ∙ db_same) (one_more_read (pos n) w u v (kept ∙ db_same) redis_same more)
  bumped n q f w u (ok (negsuc m), v) small row db_same redis_same h =
      let (kept, more) =
        hincr_ok env.externals hget laws hash_key (show_i64 (pos n)) (pos 1) (negsuc m) u v h in
      counted _ refl (kept ∙ db_same) (one_more_read (pos n) w u v (kept ∙ db_same) redis_same more)
  bumped n q f w u (err e, v) small row db_same redis_same h =
      let (kept, landed) =
        hincr_err env.externals hget laws hash_key (show_i64 (pos n)) (pos 1) e u v h in
      elim landed [
        | inl same ↦ uncounted _ refl (kept ∙ db_same) (rw (kept ∙ db_same, same ∙ redis_same) refl)
        | inr more ↦
            counted _ refl (kept ∙ db_same)
              (one_more_read (pos n) w u v (kept ∙ db_same) redis_same more)
      ]

  found_one :
      (n : ℕ) (f g : AnyError → Failure) (w : World R)
      (o : Result AnyError QuestionEntity × World R)
      → n < i64_half
      → Questions.find_one n w ≡ o
      → Viewed hget (pos n) w (
          continue
            (λ q u.
              continue
                (λ views. pure (detail_of q views))
                (map_err_of g (Questions.incr env.externals (as_u64 q.id) "question" u)))
            (map_err_of f o))
  unfolding Questions.incr
  found_one n f g w (ok q, u) small h =
      let (row, db_same, redis_same) = find_one_ok n q w u h in
      let row' : find? (Questions.question_id (pos n)) w.db.questions ≡ some q =
        rw (sym (as_i64_small n small)) row in
      let field = ap show_u64 (id_found n q w.db.questions small row') ∙ show_same n in
      bumped n q g w u _ small row' db_same redis_same
        (ap (λ t. Questions.hincr env.externals hash_key t (pos 1) u) (sym field))
  found_one n f g w (err e, u) small h =
      let (db_same, redis_same) = find_one_err n e w u h in
      uncounted _ refl db_same (rw (db_same, redis_same) refl)

  -- For an id that is an `i64` and a HINCRBY that adds and replies the new value, asking for a
  -- question, on any outcome of the calls to the servers, ends in one of three ways: the reply
  -- shows the question of that id, with the reads of the database and of Redis added as `i64`
  -- values, and the reads of both together have grown by exactly one; or it ends in an error with
  -- one read more; or in an error with the reads as they were. The tables stay as they are.
  pub question_detail-Viewed :
      (n : ℕ) (username : String) (w : World R)
      → n < i64_half
      → Viewed hget (pos n) w (question_detail env (record { id = n; username = username }) w)
  unfolding question_detail
  question_detail-Viewed n username w small = found_one n _ _ w _ small refl
