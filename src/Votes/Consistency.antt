-- ===== src/Votes/Consistency.antt =====
-- The invariant of the vote records and the counters of the answers, and the effects of the
-- transactions of crates/qa-svc/src/core/user_vote.rs on it.
use qa_sys.Votes.Effects.{with_vote, without_vote}
use qa_sys.Votes.{vote_matches, has_id, more, fewer}
use qa_sys.World.{Db, in_varchar}
use qa_sys.Prelude.Int.{ℤ, ◌<ℤ◌, eq_ℤ, pos, eq_ℤ_iff, ◌-ℤ◌, ◌+ℤ◌}
use qa_sys.Domain.{UserVoteEntity, AnswerEntity, NaiveDateTime}
use qa_sys.Prelude.{
  List, ℕ, ◌∷◌, count_if, Bool, All, ◌≡◌, keep, ◌≤◌, arith, [], not, ◌&&◌, ◌++◌, refl, str_eq, ◌+◌,
  String, count_if-append, ◌≢◌, str_eq_iff, if◌then◌else◌, some, ap, ◌∙◌, subst, sym, true, false,
  modify_if, str_eq_refl,
}

-- A vote record for the answer of this id.
abbrev pub votes_for : ℤ → UserVoteEntity → Bool
votes_for id v = eq_ℤ v.target_id id && str_eq v.target_type "answer"

abbrev pub same_vote : UserVoteEntity → UserVoteEntity → Bool
same_vote v = vote_matches v.target_id v.created_by v.target_type

-- No user has two records for one target.
abbrev pub VotedOnce : List UserVoteEntity → Type 0
VotedOnce [] = Unit
VotedOnce (v ∷ vs) = (count_if (same_vote v) vs ≡ 0) × VotedOnce vs

-- The counter of every answer is the number of its vote records.
abbrev pub IsCounted : List UserVoteEntity → List AnswerEntity → Type 0
IsCounted votes = All (λ a. a.agree_count ≡ pos (count_if (votes_for a.id) votes))

abbrev pub AreKnown : ℕ → List UserVoteEntity → Type 0
AreKnown seq = All (λ v. v.target_id <ℤ pos seq)

abbrev pub AreGiven : ℕ → List AnswerEntity → Type 0
AreGiven seq = All (λ a. a.id <ℤ pos seq)

pub record IsConsistent (d : Db) : Type 0 where
  pub counted : IsCounted d.votes d.answers
  pub voted_once : VotedOnce d.votes
  pub known : AreKnown d.answer_seq d.votes
  pub given : AreGiven d.answer_seq d.answers

module _ (p : UserVoteEntity → Bool) where
  -- What a deletion leaves of the rows that pass a test.
  count_if-keep :
      (q : UserVoteEntity → Bool) (vs : List UserVoteEntity)
      → count_if p (keep (λ v. not (q v)) vs) + count_if (λ v. p v && q v) vs ≡ count_if p vs
  count_if-keep q [] = omega arith
  count_if-keep q (v ∷ vs) = ground (arith, count_if-keep q vs)

  count_if-le_keep :
      (q : UserVoteEntity → Bool) (vs : List UserVoteEntity)
      → count_if p (keep q vs) ≤ count_if p vs
  count_if-le_keep q [] = omega arith
  count_if-le_keep q (v ∷ vs) = ground (arith, count_if-le_keep q vs)

VotedOnce-keep :
    (q : UserVoteEntity → Bool) (vs : List UserVoteEntity) → VotedOnce vs → VotedOnce (keep q vs)
VotedOnce-keep q [] h = tt
VotedOnce-keep q (v ∷ vs) h =
    ground (arith, VotedOnce-keep q vs h.1, count_if-le_keep (same_vote v) q vs)

AreKnown-keep :
    (seq : ℕ) (q : UserVoteEntity → Bool) (vs : List UserVoteEntity)
    → AreKnown seq vs
    → AreKnown seq (keep q vs)
AreKnown-keep seq q [] h = tt
AreKnown-keep seq q (v ∷ vs) h = ground (arith, AreKnown-keep seq q vs h.1)

-- A record that is not there yet can be added.
VotedOnce-add :
    (n : UserVoteEntity) (vs : List UserVoteEntity)
    → count_if (same_vote n) vs ≡ 0
    → VotedOnce vs
    → VotedOnce (vs ++ n ∷ [])
VotedOnce-add n [] z h = (refl, tt)
VotedOnce-add n (v ∷ vs) z h = (
  rw (count_if-append (same_vote v) vs (n ∷ [])) (
      ground (
        arith,
        h.0,
        eq_ℤ_iff v.target_id n.target_id,
        eq_ℤ_iff n.target_id v.target_id,
        str_eq_iff v.created_by n.created_by,
        str_eq_iff n.created_by v.created_by,
        str_eq_iff v.target_type n.target_type,
        str_eq_iff n.target_type v.target_type,
      )),
  VotedOnce-add n vs (ground arith) h.1,
)

-- A change of one answer's counter by the change in its records.
module _ (id : ℤ) (now : NaiveDateTime) (next : ℤ → ℤ) (votes votes' : List UserVoteEntity)
    (here : next (pos (count_if (votes_for id) votes)) ≡ pos (count_if (votes_for id) votes'))
    (other : (n : ℤ) → n ≢ id → count_if (votes_for n) votes' ≡ count_if (votes_for n) votes) where
  abbrev changed : AnswerEntity → AnswerEntity
  changed a = record a { agree_count = next a.agree_count; updated_at = some now }

  IsCounted_one :
      (a : AnswerEntity) (b : Bool)
      → eq_ℤ a.id id ≡ b
      → a.agree_count ≡ pos (count_if (votes_for a.id) votes)
      → let a' = if b then changed a else a in
        a'.agree_count ≡ pos (count_if (votes_for a'.id) votes')
  IsCounted_one a true e h =
      let same = (eq_ℤ_iff a.id id).0 e in
      ap next h
      ∙ (subst
          (λ i. next (pos (count_if (votes_for i) votes)) ≡ pos (count_if (votes_for i) votes'))
          (sym same) here)
  IsCounted_one a false e h = h ∙ ap pos (sym (other a.id (λ same. cc ((eq_ℤ_iff a.id id).1 same))))

  IsCounted-step :
      (answers : List AnswerEntity)
      → IsCounted votes answers
      → IsCounted votes' (modify_if (has_id id) changed answers)
  IsCounted-step [] h = tt
  IsCounted-step (a ∷ rest) (h, hs) =
      (IsCounted_one a (eq_ℤ a.id id) refl h, IsCounted-step rest hs)

module _ (id : ℤ) (next : ℤ → ℤ) (now : NaiveDateTime) where
  AreGiven-modify :
      (seq : ℕ) (answers : List AnswerEntity)
      → AreGiven seq answers
      → AreGiven seq (
          modify_if
            (has_id id)
            (λ a. record a { agree_count = next a.agree_count; updated_at = some now })
            answers)
  AreGiven-modify seq [] h = tt
  AreGiven-modify seq (a ∷ rest) h = ground (arith, AreGiven-modify seq rest h.1)

AreGiven_found :
    (id : ℤ) (seq : ℕ) (answers : List AnswerEntity)
    → AreGiven seq answers
    → count_if (has_id id) answers ≡ 1
    → id <ℤ pos seq
AreGiven_found id seq [] h n = absurd (omega arith)
AreGiven_found id seq (a ∷ rest) h n =
    ground (arith, AreGiven_found id seq rest h.1, eq_ℤ_iff a.id id)

AreKnown-add :
    (seq : ℕ) (n : UserVoteEntity) (vs : List UserVoteEntity)
    → n.target_id <ℤ pos seq
    → AreKnown seq vs
    → AreKnown seq (vs ++ n ∷ [])
AreKnown-add seq n [] p h = (p, tt)
AreKnown-add seq n (v ∷ vs) p (h, hs) = (h, AreKnown-add seq n vs p hs)

-- The new record of `vote_answer`.
abbrev new_vote : ℤ → String → NaiveDateTime → Db → UserVoteEntity
new_vote id by now d = record {
  id = pos d.vote_seq;
  target_id = id;
  target_type = "answer";
  created_by = in_varchar 50 by;
  created_at = now;
}

module _ (id : ℤ) (by : String) (now : NaiveDateTime) (d : Db) where
  count_added :
      more (pos (count_if (votes_for id) d.votes))
      ≡ pos (count_if (votes_for id) (d.votes ++ new_vote id by now d ∷ []))
  unfolding ◌+ℤ◌
  count_added =
      rw (count_if-append (votes_for id) d.votes (new_vote id by now d ∷ []))
        (ground (arith, str_eq_refl "answer", eq_ℤ_iff id id))

  count_unchanged :
      (n : ℤ)
      → n ≢ id
      → count_if (votes_for n) (d.votes ++ new_vote id by now d ∷ [])
        ≡ count_if (votes_for n) d.votes
  count_unchanged n ne =
      rw (count_if-append (votes_for n) d.votes (new_vote id by now d ∷ []))
        (ground (arith, eq_ℤ_iff id n))

  -- The records of the answer, with and without the ones of a user.
  count_both :
      (vs : List UserVoteEntity)
      → count_if (λ v. votes_for id v && vote_matches id by "answer" v) vs
        ≡ count_if (vote_matches id by "answer") vs
  count_both [] = refl
  count_both (v ∷ vs) = ground (arith, count_both vs)

  count_neither :
      (n : ℤ) (vs : List UserVoteEntity)
      → n ≢ id
      → count_if (λ v. votes_for n v && vote_matches id by "answer" v) vs ≡ 0
  count_neither n [] ne = refl
  count_neither n (v ∷ vs) ne =
      ground (arith, count_neither n vs ne, eq_ℤ_iff v.target_id n, eq_ℤ_iff v.target_id id)

  count_removed :
      count_if (vote_matches id by "answer") d.votes ≡ 1
      → fewer (pos (count_if (votes_for id) d.votes))
        ≡ pos (count_if (votes_for id) (keep (λ v. not (vote_matches id by "answer" v)) d.votes))
  unfolding ◌-ℤ◌
  count_removed one = ground (
    arith,
    count_if-keep (votes_for id) (vote_matches id by "answer") d.votes,
    count_both d.votes,
  )

  count_kept :
      (n : ℤ)
      → n ≢ id
      → count_if (votes_for n) (keep (λ v. not (vote_matches id by "answer" v)) d.votes)
        ≡ count_if (votes_for n) d.votes
  count_kept n ne = omega (
    arith,
    count_if-keep (votes_for n) (vote_matches id by "answer") d.votes,
    count_neither n d.votes ne,
  )

-- No record of the vote: the tables with it are consistent.
pub with_vote-IsConsistent :
    (id : ℤ) (by : String) (now : NaiveDateTime) (d : Db)
    → count_if (vote_matches id (in_varchar 50 by) "answer") d.votes ≡ 0
    → count_if (has_id id) d.answers ≡ 1
    → IsConsistent d
    → IsConsistent (with_vote id by now d)
with_vote-IsConsistent id by now d new found c = record {
  counted =
      IsCounted-step id now more d.votes _ (count_added id by now d) (count_unchanged id by now d)
        d.answers c.counted;
  voted_once = VotedOnce-add _ d.votes new c.voted_once;
  known =
      AreKnown-add d.answer_seq _ d.votes (AreGiven_found id d.answer_seq d.answers c.given found)
        c.known;
  given = AreGiven-modify id more now d.answer_seq d.answers c.given;
}

-- Exactly one record of the vote: the tables without it are consistent.
pub without_vote-IsConsistent :
    (id : ℤ) (by : String) (now : NaiveDateTime) (d : Db)
    → count_if (vote_matches id by "answer") d.votes ≡ 1
    → IsConsistent d
    → IsConsistent (without_vote id by now d)
without_vote-IsConsistent id by now d one c = record {
  counted =
      IsCounted-step id now fewer d.votes _ (count_removed id by now d one) (count_kept id by now d)
        d.answers c.counted;
  voted_once = VotedOnce-keep _ d.votes c.voted_once;
  known = AreKnown-keep d.answer_seq _ d.votes c.known;
  given = AreGiven-modify id fewer now d.answer_seq d.answers c.given;
}
