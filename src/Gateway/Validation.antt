-- ===== src/Gateway/Validation.antt =====
-- What the checks of the requests in crates/gateway/src/handler/qa.rs let pass.
use qa_sys.Gateway.Requests.{
  answer_agree_failed, validate_required, validate_vote_action, check, name_checks, Checks,
  AnswerAgreeRequest, within, add_quest_failed, length_within, answer_lastest_failed,
  AddQuestRequest, AnswerLastestRequest,
}
use qa_sys.Prelude.{
  List, Bool, ℕ, String, ◌≡◌, ◌≤◌, leb, ◌++◌, true, [], ◌↔◌, false, ◌⊎◌, arith, ◌≢◌, ◌∷◌, refl,
  str_eq_iff, inl, subst, inr,
}
use Prim.Native.String.{count}

append_nil_iff : {A : Type 0} (xs ys : List A) → (xs ++ ys ≡ []) ↔ ((xs ≡ []) × (ys ≡ []))
append_nil_iff [] ys = ((λ h. (refl, h)), λ h. h.1)
append_nil_iff (x ∷ xs) ys = ((λ h. cc), λ h. cc)

check_nil_iff : (b : Bool) (field message : String) → (check b field message ≡ []) ↔ (b ≡ true)
check_nil_iff true field message = ((λ h. refl), λ h. refl)
check_nil_iff false field message = ((λ h. cc), λ h. cc)

module _ {P : Type 0} where
  one : (b : Bool) (field message : String) → (b ≡ true) ↔ P → (check b field message ≡ []) ↔ P
  one b field message p = (
    (λ h. p.0 ((check_nil_iff b field message).0 h)),
    (λ h. (check_nil_iff b field message).1 (p.1 h)),
  )

  both : {Q : Type 0} (xs ys : Checks) → (xs ≡ []) ↔ P → (ys ≡ []) ↔ Q → (xs ++ ys ≡ []) ↔ (P × Q)
  both xs ys p q = (
    (λ h. let (first, others) = (append_nil_iff xs ys).0 h in (p.0 first, q.0 others)),
    (λ h. (append_nil_iff xs ys).1 (p.1 h.0, q.1 h.1)),
  )

leb_iff : (m n : ℕ) → (leb m n ≡ true) ↔ (m ≤ n)
leb_iff m n = ground arith

within_iff : (low high n : ℕ) → (within low high n ≡ true) ↔ ((low ≤ n) × (n ≤ high))
within_iff low high n = ground arith

required_iff : (s : String) → (validate_required s ≡ true) ↔ (s ≢ "")
unfolding validate_required
required_iff s = ground (arith, str_eq_iff s "")

vote_action_iff : (s : String) → (validate_vote_action s ≡ true) ↔ ((s ≡ "up") ⊎ (s ≡ "down"))
unfolding validate_vote_action
vote_action_iff s = ground (arith, str_eq_iff s "up", str_eq_iff s "down")

abbrev pub IsName : String → Type 0
IsName s = (1 ≤ count s) × (count s ≤ 32)

not_empty : (s : String) → 1 ≤ count s → s ≢ ""
not_empty s h e = absurd (omega (arith, subst (λ t. 1 ≤ count t) e h))

IsName-iff : (empty invalid s : String) → (name_checks empty invalid s ≡ []) ↔ IsName s
IsName-iff empty invalid s =
    let parts =
      both _ _ (one (validate_required s) "username" empty (required_iff s))
        (one (length_within 1 32 s) "username" invalid (within_iff 1 32 (count s))) in
    ((λ h. (parts.0 h).1), (λ h. parts.1 (not_empty s h.0, h)))

abbrev pub IsVoteAction : String → Type 0
IsVoteAction s = (s ≡ "up") ⊎ (s ≡ "down")

action_size : (s : String) → IsVoteAction s → (1 ≤ count s) × (count s ≤ 32)
action_size s (inl e) = rw e (omega arith, omega arith)
action_size s (inr e) = rw e (omega arith, omega arith)

-- A vote request passes the checks exactly if its id is positive, the name that it claims has 1 to
-- 32 characters, and its action is "up" or "down".
pub answer_agree_failed_iff :
    (r : AnswerAgreeRequest)
    → (answer_agree_failed r ≡ []) ↔ ((1 ≤ r.id) × IsName r.username × IsVoteAction r.action)
unfolding answer_agree_failed
answer_agree_failed_iff r =
    let parts = both _ _ (one (leb 1 r.id) "id" "id invalid" (leb_iff 1 r.id)) (
      both _ _ (IsName-iff "create_by is empty" "create_by invalid" r.username) (
        both _ _
          (one (validate_required r.action) "action" "action is empty" (required_iff r.action))
          (both _ _
            (one (length_within 1 32 r.action) "action" "action invalid"
              (within_iff 1 32 (count r.action)))
            (one (validate_vote_action r.action) "action" "action invalid"
              (vote_action_iff r.action))))) in
    (
      (λ h. let (id, (name, (_, (_, action)))) = parts.0 h in (id, name, action)),
      (λ h. parts.1 (
        h.0,
        (h.1, (not_empty r.action (action_size r.action h.2).0, (action_size r.action h.2, h.2))),
      )),
    )

-- A request for a page of answers passes the checks exactly if the id of the question and the page
-- are positive, the limit is between 1 and 100, and the name has 1 to 32 characters.
pub answer_lastest_failed_iff :
    (r : AnswerLastestRequest)
    → (answer_lastest_failed r ≡ [])
      ↔ ((1 ≤ r.question_id) × (1 ≤ r.page) × ((1 ≤ r.limit) × (r.limit ≤ 100)) × IsName r.username)
unfolding answer_lastest_failed
answer_lastest_failed_iff r =
    let parts = both _ _ (one (leb 1 r.question_id) _ _ (leb_iff 1 r.question_id)) (
      both _ _ (one (leb 1 r.page) _ _ (leb_iff 1 r.page)) (
        both _ _ (one (within 1 100 r.limit) _ _ (within_iff 1 100 r.limit))
          (IsName-iff "sort is empty" "sort invalid" r.username))) in
    (
      (λ h. let (id, (page, (limit, name))) = parts.0 h in (id, page, limit, name)),
      (λ h. parts.1 (h.0, (h.1, (h.2, h.3)))),
    )

-- A new question passes the checks exactly if its title has 1 to 512 characters, its content 1 to
-- 4096, and the name of its author is not empty.
pub add_quest_failed_iff :
    (r : AddQuestRequest)
    → (add_quest_failed r ≡ []) ↔ (
        ((1 ≤ count r.title) × (count r.title ≤ 512))
        × ((1 ≤ count r.content) × (count r.content ≤ 4096))
        × (r.username ≢ ""))
unfolding add_quest_failed
add_quest_failed_iff r =
    let parts =
      both _ _ (one (validate_required r.title) "title" "title is empty" (required_iff r.title)) (
        both _ _
          (one (length_within 1 512 r.title) "title" "title invalid"
            (within_iff 1 512 (count r.title)))
          (both _ _
            (one (validate_required r.content) "content" "content is empty"
              (required_iff r.content))
            (both _ _
              (one (length_within 1 4096 r.content) "content" "content invalid"
                (within_iff 1 4096 (count r.content)))
              (one (validate_required r.username) "username" "username is empty"
                (required_iff r.username))))) in
    (
      (λ h. let (_, (title, (_, (content, name)))) = parts.0 h in (title, content, name)),
      (λ h. parts.1 (not_empty r.title h.0.0, (h.0, (not_empty r.content h.1.0, (h.1, h.2))))),
    )
