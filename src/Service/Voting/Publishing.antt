-- ===== src/Service/Voting/Publishing.antt =====
-- What `agree_answer` of crates/qa-svc/src/application/app.rs puts on the vote topic.
use qa_sys.Prelude.Strings.{format}
use qa_sys.Prelude.Int.{pos, ℤ}
use qa_sys.Domain.{VoteMessage, AnswerEntity}
use qa_sys.Votes.Consumer.{publish}
use qa_sys.Service.Voting.{vote_message, agree_answer, send_vote, promised, not_done}
use qa_sys.Pb.{AgreeAnswerRequest, AgreeAnswerResponse}
use qa_sys.Votes.{is_voted}
use qa_sys.World.{reach, World, Externals, AnyError, Repo, message, take_fault, error_text}
use qa_sys.Service.{Env, Failure, or_default, unwrap_or, status, internal, unknown}
use qa_sys.Prelude.{
  String, ℕ, ◌≡◌, Result, arith, ok, err, ◌⊎◌, ◌++◌, ◌∷◌, [], true, Bool, inr, continue, List, inl,
  Option, some, refl, none, sym, pure, if◌then◌else◌, ◌∙◌, str_eq, false, ◌>>=◌, map_err_of,
}
use qa_sys.Answers

-- The reply of a vote request and what it has sent: the message behind a reply with state 1, nothing
-- behind one with state 0, and at most the message behind an error.
pub data Sent {R : Type 0} (text : String) (w : World R)
    (o : Result Failure AgreeAnswerResponse × World R) : Type 0 where
  sent :
      (r : AgreeAnswerResponse)
      → o.0 ≡ ok r
      → r.state ≡ pos 1
      → o.1.published ≡ w.published ++ text ∷ []
      → o.1.db ≡ w.db
      → Sent text w o
  declined :
      (r : AgreeAnswerResponse)
      → o.0 ≡ ok r
      → r.state ≡ pos 0
      → o.1.published ≡ w.published
      → o.1.db ≡ w.db
      → Sent text w o
  broken :
      (e : Failure)
      → o.0 ≡ err e
      → (o.1.published ≡ w.published) ⊎ (o.1.published ≡ w.published ++ text ∷ [])
      → o.1.db ≡ w.db
      → Sent text w o

module _ {R : Type 0} where
  find_one_same :
      (id : ℕ) (w : World R)
      → ((Answers.find_one id w).1.published ≡ w.published) × ((Answers.find_one id w).1.db ≡ w.db)
  unfolding Answers.find_one reach
  find_one_same id w = ground arith

  is_voted_same :
      (id : ℕ) (by kind : String) (w : World R)
      → ((is_voted id by kind w).1.published ≡ w.published) × ((is_voted id by kind w).1.db ≡ w.db)
  unfolding is_voted reach
  is_voted_same id by kind w = ground arith

-- A world with the messages and the tables of another.
abbrev Same : {R : Type 0} → World R → World R → Type 0
Same w v = (v.published ≡ w.published) × (v.db ≡ w.db)

module _ {R A : Type 0} (P : Result AnyError A × World R → Type 0) (k : Repo R A) where
  take_then :
      (fs : List (Option String)) (w : World R)
      → ((v : World R) → Same w v → P (k v))
      → ((e : AnyError) (v : World R) → Same w v → P (err e, v))
      → P (continue (λ _. k) (take_fault message fs w))
  take_then [] w good bad = good w (refl, refl)
  take_then (none ∷ fs) w good bad = good (record w { faults = fs }) (refl, refl)
  take_then (some t ∷ fs) w good bad = bad (message t) (record w { faults = fs }) (refl, refl)

  -- A call to a server, and what follows it.
  reach_then :
      (w : World R)
      → ((v : World R) → Same w v → P (k v))
      → ((e : AnyError) (v : World R) → Same w v → P (err e, v))
      → P (continue (λ _. k) (reach message w))
  unfolding reach
  reach_then w good bad = take_then w.faults w good bad

-- How publishing ends: the message is sent, or an error comes before it or after it.
data Published {R : Type 0} (text : String) (w : World R) (o : Result AnyError Bool × World R)
    : Type 0 where
  done :
      o.0 ≡ ok true → o.1.published ≡ w.published ++ text ∷ [] → o.1.db ≡ w.db → Published text w o
  refused :
      (e : AnyError)
      → o.0 ≡ err e
      → (o.1.published ≡ w.published) ⊎ (o.1.published ≡ w.published ++ text ∷ [])
      → o.1.db ≡ w.db
      → Published text w o

module _ {R : Type 0} (x : Externals R) where
  publish-Published :
      (m : VoteMessage) (w : World R) → Published (x.vote_to_json m) w (publish x m w)
  unfolding publish
  publish-Published m w =
      let P = Published {R = R} (x.vote_to_json m) w in
      reach_then P _ w
        (λ v1 s1.
          reach_then P _ v1
            (λ v2 s2.
              reach_then P _ v2
                (λ v3 s3.
                  reach_then P _ (record v3 { published = v3.published ++ x.vote_to_json m ∷ [] })
                    (λ v s. done refl (cc) (cc)) (λ e v s. refused e refl (inr (cc)) (cc)))
                (λ e v s. refused e refl (inl (cc)) (cc)))
            (λ e v s. refused e refl (inl (cc)) (cc)))
        (λ e v s. refused e refl (inl s.0) s.1)

module _ {R : Type 0} (env : Env R) (req : AgreeAnswerRequest) where
  abbrev pub payload : String
  payload = env.externals.vote_to_json (vote_message env req)

  reply-Sent :
      (n : ℤ) (w : World R) (o : Result AnyError Bool × World R)
      → Published payload w o
      → Sent payload w (
          continue
            (λ _.
              pure (record { state = pos 1; agree_count = promised env req.action n; reason = "" }))
            (map_err_of
              (λ e. status internal (
                format
                  ("failed to publish vote message, error:" ∷ error_text env.externals e ∷ [])))
              o))
  reply-Sent n w (ok b, v) (done e p d) = sent _ refl refl p d
  reply-Sent n w (err e, v) (refused z e' p d) = broken _ refl p d
  reply-Sent n w (ok b, v) (refused z e' p d) = cc
  reply-Sent n w (err e, v) (done e' p d) = cc

  send_vote-Sent : (n : ℤ) (w : World R) → Sent payload w (send_vote env req n w)
  send_vote-Sent n w = reply-Sent n w _ (publish-Published env.externals (vote_message env req) w)

  Sent-shift :
      (w v : World R) (o : Result Failure AgreeAnswerResponse × World R)
      → Same w v
      → Sent payload v o
      → Sent payload w o
  Sent-shift w v o (p, d) (sent r e s p' d') = sent r e s (rw (sym p) p') (d' ∙ d)
  Sent-shift w v o (p, d) (declined r e s p' d') = declined r e s (p' ∙ p) (d' ∙ d)
  Sent-shift w v o (p, d) (broken e e' p' d') = broken e e' (rw (sym p) p') (d' ∙ d)

  decided-Sent :
      (n : ℤ) (up voted : Bool) (w : World R)
      → Sent payload w (
          (if up
              then (if voted then pure (not_done env "already voted it") else send_vote env req n)
              else (if voted then send_vote env req n else pure (not_done env "not voted it")))
            w)
  decided-Sent n true true w = declined _ refl refl refl refl
  decided-Sent n true false w = send_vote-Sent n w
  decided-Sent n false true w = send_vote-Sent n w
  decided-Sent n false false w = declined _ refl refl refl refl

  voted-Sent :
      (n : ℤ) (w : World R) (o : Result AnyError Bool × World R)
      → Same w o.1
      → Sent payload w (
          continue
            (λ voted.
              if str_eq req.action "up"
              then (if voted then pure (not_done env "already voted it") else send_vote env req n)
              else (if voted then send_vote env req n else pure (not_done env "not voted it")))
            (unwrap_or false o))
  voted-Sent n w (ok voted, v) same =
      Sent-shift w v _ same (decided-Sent n (str_eq req.action "up") voted v)
  voted-Sent n w (err e, v) same =
      Sent-shift w v _ same (decided-Sent n (str_eq req.action "up") false v)

  found-Sent :
      (w : World R) (o : Result AnyError AnswerEntity × World R)
      → Same w o.1
      → Sent payload w (
          continue
            (λ answer. or_default false (is_voted req.id req.create_by "answer") >>= λ voted.
              if str_eq req.action "up"
              then (if voted
                  then pure (not_done env "already voted it")
                  else send_vote env req answer.agree_count)
              else (if voted
                  then send_vote env req answer.agree_count
                  else pure (not_done env "not voted it")))
            (map_err_of
              (λ e.
                status unknown
                  (format ("failed to find answer, error:" ∷ error_text env.externals e ∷ [])))
              o))
  found-Sent w (err e, v) (p, d) = broken _ refl (inl p) d
  found-Sent w (ok a, v) same =
      Sent-shift w v _ same
        (voted-Sent a.agree_count v _ (is_voted_same req.id req.create_by "answer" v))

  -- On every outcome of the calls to the servers, a vote request leaves the tables alone and
  -- either answers state 1 with exactly its message added to the topic, or answers state 0 with
  -- nothing added, or ends in an error with nothing or exactly its message added.
  pub agree_answer-Sent : (w : World R) → Sent payload w (agree_answer env req w)
  unfolding agree_answer
  agree_answer-Sent w = found-Sent w _ (find_one_same req.id w)
