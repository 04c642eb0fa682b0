-- ===== src/System/Vote.antt =====
-- A vote from the request of crates/qa-svc/src/application/app.rs over the topic to the tables.
use qa_sys.Service.Voting.{vote_message, agree_answer}
use qa_sys.Pb.{AgreeAnswerRequest}
use qa_sys.Service.{Env}
use qa_sys.Domain.{VoteMessage, AnswerEntity}
use qa_sys.Votes.Redelivery.{has_voted, is_voted_calm, with_vote-has_voted}
use qa_sys.Votes.Consumer.{publish, ack, deliver, acknowledge}
use qa_sys.Prelude.Int.{
  ℤ, i64_half, pos, fits_i64, try_i64_small, as_u64_small, wrap_i64, as_i64, as_u64, as_i64_small,
  wrap_i64_fits,
}
use qa_sys.Prelude.{
  ℕ, String, ◌≡◌, ◌<◌, [], count_if, ok, true, refl, any, arith, ◌&&◌, not, false, ◌≤◌, str_eq,
  ◌++◌, ◌∷◌, str_eq_refl, ap, continue, caught, ◌∙◌, Bool, List, find?, some, modify_if, subst, sym,
}
use qa_sys.Votes.{vote_statements, has_id, more, vote_answer, handler_answer_agree}
use qa_sys.Votes.Effects.{in_varchar-answer}
use qa_sys.World.{
  fits_varchar_short, in_varchar_short, transaction, Db, reach, Repo, World, sql_failed, Externals,
}
use Prim.Native.String.{count}
use qa_sys.Answers
use qa_sys.Votes.Handling.{reach_calm}
use qa_sys.Votes.Effects.{with_vote}

-- The tables have room for a vote on this answer: it is there once, its counter can grow, the next id
-- of the votes is a `bigint`, and the name fits its column.
pub record HasRoom (d : Db) (id : ℕ) (by : String) : Type 0 where
  pub small : id < i64_half
  pub once : count_if (has_id (pos id)) d.answers ≡ 1
  pub grows : any (λ a. has_id (pos id) a && not (fits_i64 (more a.agree_count))) d.answers ≡ false
  pub next : d.vote_seq < i64_half
  pub name_fits : count by ≤ 50

module _ {R : Type 0} where
  transaction_calm :
      {A : Type 0} (body : Repo R A) (w v : World R) (a : A)
      → w.faults ≡ []
      → v.faults ≡ []
      → body w ≡ (ok a, v)
      → transaction body w ≡ (ok a, v)
  unfolding transaction
  transaction_calm body w v a calm calm' h =
      rw (reach_calm sql_failed w calm)
        (rw h (rw (reach_calm sql_failed v calm') (rw (reach_calm sql_failed v calm') refl)))

  vote_statements_calm :
      (now : ℤ) (id : ℕ) (by : String) (w : World R)
      → w.faults ≡ []
      → HasRoom w.db id by
      → vote_statements (pos id) by now w
        ≡ (ok true, record w { db = with_vote (pos id) by now w.db })
  unfolding vote_statements reach
  vote_statements_calm now id by w calm h = ground (
    arith,
    h.once,
    h.grows,
    h.next,
    fits_varchar_short 50 by h.name_fits,
    fits_varchar_short 50 "answer" (omega arith),
    in_varchar-answer,
  )

  vote_answer_calm :
      (now : ℤ) (id : ℕ) (by : String) (w : World R)
      → w.faults ≡ []
      → HasRoom w.db id by
      → vote_answer now id by w ≡ (ok true, record w { db = with_vote (pos id) by now w.db })
  unfolding vote_answer
  vote_answer_calm now id by w calm h = rw (try_i64_small id h.small) (
      transaction_calm (vote_statements (pos id) by now) w _ true calm calm
        (vote_statements_calm now id by w calm h))

  -- A vote message that is the first for its pair.
  handler_answer_agree_calm :
      (now : ℤ) (id : ℕ) (by : String) (w : World R)
      → w.faults ≡ []
      → has_voted id by w.db ≡ false
      → HasRoom w.db id by
      → handler_answer_agree now id by "up" w
        ≡ (ok true, record w { db = with_vote (pos id) by now w.db })
  unfolding handler_answer_agree str_eq
  handler_answer_agree_calm now id by w calm new h =
      rw (is_voted_calm id by w calm) (rw new (vote_answer_calm now id by w calm h))

module _ {R : Type 0} (x : Externals R) where
  publish_calm :
      (m : VoteMessage) (w : World R)
      → w.faults ≡ []
      → publish x m w ≡ (ok true, record w { published = w.published ++ x.vote_to_json m ∷ [] })
  unfolding publish reach
  publish_calm m w calm = ground (arith, calm)

  ack_calm :
      (payload : String) (w : World R)
      → w.faults ≡ []
      → ack x payload w ≡ (ok tt, record w { acked = w.acked ++ payload ∷ [] })
  unfolding ack reach
  ack_calm payload w calm = ground (arith, calm)

  deliver_calm :
      (now : ℤ) (payload : String) (id : ℕ) (by : String) (w : World R)
      → w.faults ≡ []
      → x.vote_from_json payload
        ≡ ok (record { target_id = pos id; target_type = "answer"; created_by = by; action = "up" })
      → has_voted id by w.db ≡ false
      → HasRoom w.db id by
      → deliver x "answer" now payload w ≡ (
        ok true,
        record w {
          db = with_vote (pos id) by (x.naive_local now) w.db;
          acked = w.acked ++ payload ∷ [];
        },
      )
  unfolding deliver
  deliver_calm now payload id by w calm read new h = rw read (
      rw (str_eq_refl "answer") (
        ap (λ o. continue (acknowledge x payload) (caught o))
          (ap (λ n. handler_answer_agree (x.naive_local now) n by "up" w) (as_u64_small id h.small)
            ∙ handler_answer_agree_calm (x.naive_local now) id by w calm new h)
        ∙ rw
            (ack_calm payload (record w { db = with_vote (pos id) by (x.naive_local now) w.db })
              calm)
            refl))

module _ {A : Type 0} (p : A → Bool) where
  find?-any :
      (q : A → Bool) (xs : List A) (a : A)
      → find? p xs ≡ some a
      → any (λ x. p x && q x) xs ≡ false
      → q a ≡ false
  find?-any q [] a e h = cc
  find?-any q (x ∷ xs) a e h = ground (arith, find?-any q xs a)

  find?-modify_if :
      (f : A → A) (xs : List A) (a : A)
      → ((x : A) → p (f x) ≡ p x)
      → find? p xs ≡ some a
      → find? p (modify_if p f xs) ≡ some (f a)
  find?-modify_if f [] a same e = cc
  find?-modify_if f (x ∷ xs) a same e = ground (arith, same x, find?-modify_if f xs a same)

not-false : (b : Bool) → not b ≡ false → b ≡ true
not-false b h = ground arith

module _ {R : Type 0} (env : Env R) (id : ℕ) (by : String) where
  abbrev pub up_vote : AgreeAnswerRequest
  up_vote = record { id = id; create_by = by; action = "up" }

  abbrev pub payload : String
  payload = env.externals.vote_to_json (vote_message env up_vote)

  find_one_calm :
      (a : AnswerEntity) (w : World R)
      → w.faults ≡ []
      → find? (has_id (as_i64 id)) w.db.answers ≡ some a
      → Answers.find_one id w ≡ (ok a, w)
  unfolding Answers.find_one
  find_one_calm a w calm found = rw (reach_calm sql_failed w calm) (rw found refl)

  agree_answer_calm :
      (a : AnswerEntity) (w : World R)
      → w.faults ≡ []
      → find? (has_id (as_i64 id)) w.db.answers ≡ some a
      → has_voted id by w.db ≡ false
      → agree_answer env up_vote w ≡ (
        ok (record {
          state = pos 1;
          agree_count = as_u64 (wrap_i64 (more a.agree_count));
          reason = "";
        }),
        record w { published = w.published ++ payload ∷ [] },
      )
  unfolding agree_answer str_eq
  agree_answer_calm a w calm found new = rw (find_one_calm a w calm found) (
      rw (is_voted_calm id by w calm)
        (rw new (rw (publish_calm env.externals (vote_message env up_vote) w calm) refl)))

  -- A first vote: what the request and then the delivery of its message leave.
  pub record IsCast (now : ℤ) (w : World R) (a : AnswerEntity) : Type 0 where
    pub asked : World R
    pub answered : agree_answer env up_vote w ≡ (
      ok (record { state = pos 1; agree_count = as_u64 (more a.agree_count); reason = "" }),
      asked,
    )
    pub sent : asked.published ≡ w.published ++ payload ∷ []
    pub done : World R
    pub handled : deliver env.externals "answer" now payload asked ≡ (ok true, done)
    pub acked : done.acked ≡ w.acked ++ payload ∷ []
    pub recorded : has_voted id by done.db ≡ true
    pub counted :
        find? (has_id (as_i64 id)) done.db.answers
        ≡ some (record a {
          agree_count = more a.agree_count;
          updated_at = some (env.externals.naive_local now);
        })

  -- A first vote "up" that is asked for with calls that go through is recorded and counted: for an
  -- answer that is there once, whose counter can grow, a user who has not voted for it and whose
  -- name fits the column, ids in range, and a JSON that gives the message back, the request
  -- answers state 1 with a counter of one more and puts its message on the topic, and the delivery
  -- of that message succeeds, acknowledges it, leaves the user as having voted, and leaves the
  -- answer with that counter.
  pub agree_answer-IsCast :
      (now : ℤ) (a : AnswerEntity) (w : World R)
      → env.externals.vote_from_json payload ≡ ok (vote_message env up_vote)
      → w.faults ≡ []
      → find? (has_id (as_i64 id)) w.db.answers ≡ some a
      → has_voted id by w.db ≡ false
      → HasRoom w.db id by
      → IsCast now w a
  agree_answer-IsCast now a w read calm found new h =
      let found' : find? (has_id (pos id)) w.db.answers ≡ some a =
        subst (λ z. find? (has_id z) w.db.answers ≡ some a) (as_i64_small id h.small) found in
      let grown : fits_i64 (more a.agree_count) ≡ true = not-false _ (
        find?-any (has_id (pos id)) (λ b. not (fits_i64 (more b.agree_count))) w.db.answers a found'
          h.grows) in
      record {
        asked = record w { published = w.published ++ payload ∷ [] };
        answered =
            subst
              (λ n. agree_answer env up_vote w ≡ (
                ok (record { state = pos 1; agree_count = as_u64 n; reason = "" }),
                record w { published = w.published ++ payload ∷ [] },
              ))
              (wrap_i64_fits (more a.agree_count) grown) (agree_answer_calm a w calm found new);
        sent = refl;
        done = record w {
          db = with_vote (pos id) by (env.externals.naive_local now) w.db;
          published = w.published ++ payload ∷ [];
          acked = w.acked ++ payload ∷ [];
        };
        handled =
            deliver_calm env.externals now payload id by _ calm
              (read
                ∙ ap
                    (λ z. ok (record {
                      target_id = z;
                      target_type = "answer";
                      created_by = by;
                      action = "up";
                    }))
                    (as_i64_small id h.small))
              new h;
        acked = refl;
        recorded =
            with_vote-has_voted (env.externals.naive_local now) id by w.db h.small
              (in_varchar_short 50 by h.name_fits);
        counted =
            subst
              (λ z.
                find? (has_id z)
                  (with_vote (pos id) by (env.externals.naive_local now) w.db).answers
                ≡ some (record a {
                  agree_count = more a.agree_count;
                  updated_at = some (env.externals.naive_local now);
                }))
              (sym (as_i64_small id h.small))
              (find?-modify_if (has_id (pos id)) _ w.db.answers a (λ _. refl) found');
      }
