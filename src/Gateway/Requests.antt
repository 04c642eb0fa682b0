-- ===== src/Gateway/Requests.antt =====
-- The request payloads of crates/gateway/src/handler/qa.rs and the checks that `validate` makes of
-- them: each failed check with its field and message, in the order of the attributes.
use qa_sys.Prelude.{◌++◌, List, ℕ, Bool, String, leb, not, str_eq, [], ◌&&◌, ◌∷◌, ◌||◌, true, false}
use Prim.Native.String.{count}
use qa_sys.Gateway.{QuestionObject}

pub record RegisterRequest : Type 0 where
  pub username : String
  pub password : String
  pub email : String
  pub phone : String

pub record LoginRequest : Type 0 where
  pub username : String
  pub password : String

pub record LogoutRequest : Type 0 where
  pub token : String

pub record QuestionRequest : Type 0 where
  pub question_id : ℕ
  pub username : String

pub record AddQuestRequest : Type 0 where
  pub title : String
  pub content : String
  pub username : String

pub record UpdateQuestRequest : Type 0 where
  pub id : ℕ
  pub question : QuestionObject

pub record DeleteQuestRequest : Type 0 where
  pub id : ℕ
  pub username : String

pub record LastestQuestRequest : Type 0 where
  pub last_id : ℕ
  pub limit : ℕ

pub record AnswerAddRequest : Type 0 where
  pub content : String
  pub username : String
  pub question_id : ℕ

pub record AnswerDeleteRequest : Type 0 where
  pub id : ℕ
  pub username : String

pub record AnswerUpdateRequest : Type 0 where
  pub id : ℕ
  pub content : String
  pub username : String

pub record FindAnswerRequest : Type 0 where
  pub id : ℕ
  pub username : String

pub record AnswerLastestRequest : Type 0 where
  pub question_id : ℕ
  pub page : ℕ
  pub limit : ℕ
  pub username : String

pub record AnswerAgreeRequest : Type 0 where
  pub id : ℕ
  pub username : String
  pub action : String

-- The failed checks of a field.
abbrev pub Checks : Type 0
Checks = List (String × String)

abbrev pub check : Bool → String → String → Checks
check true field message = []
check false field message = (field, message) ∷ []

-- `length(min, max)` counts characters.
abbrev pub length_within : ℕ → ℕ → String → Bool
length_within low high s = leb low (count s) && leb (count s) high

abbrev pub within : ℕ → ℕ → ℕ → Bool
within low high n = leb low n && leb n high

unfoldable pub validate_required : String → Bool
validate_required value = not (str_eq value "")

unfoldable pub validate_vote_action : String → Bool
validate_vote_action value = str_eq value "up" || str_eq value "down"

-- A name that a request claims: 1 to 32 characters.
abbrev pub name_checks : String → String → String → Checks
name_checks empty invalid username =
    check (validate_required username) "username" empty
    ++ check (length_within 1 32 username) "username" invalid

unfoldable pub login_failed : LoginRequest → Checks
login_failed r =
    check (leb (count r.username) 32) "username" "username invalid"
    ++ (check (validate_required r.username) "username" "username is empty"
        ++ (check (length_within 6 32 r.password) "password" "password invalid"
            ++ check (validate_required r.password) "password" "password is empty"))

-- `is_email` is the crate's test of an address.
unfoldable pub register_failed : (String → Bool) → RegisterRequest → Checks
unfolding login_failed
register_failed is_email r =
    login_failed (record { username = r.username; password = r.password })
    ++ (check (is_email r.email) "email" "email invalid"
        ++ (check (validate_required r.email) "email" "email is empty"
            ++ (check (length_within 8 11 r.phone) "phone" "phone invalid"
                ++ check (validate_required r.phone) "phone" "phone is empty")))

unfoldable pub logout_failed : LogoutRequest → Checks
logout_failed r =
    check (leb (count r.token) 512) "token" "token invalid"
    ++ check (validate_required r.token) "token" "token is empty"

unfoldable pub question_failed : QuestionRequest → Checks
question_failed r =
    check (leb 1 r.question_id) "question_id" "question_id invalid"
    ++ check (validate_required r.username) "username" "username is empty"

unfoldable pub add_quest_failed : AddQuestRequest → Checks
add_quest_failed r =
    check (validate_required r.title) "title" "title is empty"
    ++ (check (length_within 1 512 r.title) "title" "title invalid"
        ++ (check (validate_required r.content) "content" "content is empty"
            ++ (check (length_within 1 4096 r.content) "content" "content invalid"
                ++ check (validate_required r.username) "username" "username is empty")))

unfoldable pub update_quest_failed : UpdateQuestRequest → Checks
update_quest_failed r = check (leb 1 r.id) "id" "id invalid"

unfoldable pub delete_quest_failed : DeleteQuestRequest → Checks
delete_quest_failed r =
    check (leb 1 r.id) "id" "id invalid"
    ++ name_checks "username is empty" "username invalid" r.username

unfoldable pub lastest_quest_failed : LastestQuestRequest → Checks
lastest_quest_failed r =
    check (leb 0 r.last_id) "last_id" "last_id invalid"
    ++ check (within 1 100 r.limit) "limit" "limit invalid"

unfoldable pub answer_add_failed : AnswerAddRequest → Checks
answer_add_failed r =
    check (validate_required r.content) "content" "content is empty"
    ++ (check (length_within 1 1024 r.content) "content" "content invalid"
        ++ (name_checks "username is empty" "username invalid" r.username
            ++ check (leb 1 r.question_id) "question_id" "question_id invalid"))

unfoldable pub answer_delete_failed : AnswerDeleteRequest → Checks
answer_delete_failed r =
    check (leb 1 r.id) "id" "id invalid"
    ++ name_checks "username is empty" "username invalid" r.username

unfoldable pub answer_update_failed : AnswerUpdateRequest → Checks
answer_update_failed r =
    check (leb 1 r.id) "id" "id invalid"
    ++ (check (validate_required r.content) "content" "content is empty"
        ++ (check (length_within 1 1024 r.content) "content" "content invalid"
            ++ name_checks "username is empty" "username invalid" r.username))

unfoldable pub find_answer_failed : FindAnswerRequest → Checks
find_answer_failed r =
    check (leb 1 r.id) "id" "id invalid"
    ++ name_checks "username is empty" "username invalid" r.username

unfoldable pub answer_lastest_failed : AnswerLastestRequest → Checks
answer_lastest_failed r =
    check (leb 1 r.question_id) "question_id" "question_id invalid"
    ++ (check (leb 1 r.page) "page" "page invalid"
        ++ (check (within 1 100 r.limit) "limit" "limit invalid"
            ++ name_checks "sort is empty" "sort invalid" r.username))

unfoldable pub answer_agree_failed : AnswerAgreeRequest → Checks
answer_agree_failed r =
    check (leb 1 r.id) "id" "id invalid"
    ++ (name_checks "create_by is empty" "create_by invalid" r.username
        ++ (check (validate_required r.action) "action" "action is empty"
            ++ (check (length_within 1 32 r.action) "action" "action invalid"
                ++ check (validate_vote_action r.action) "action" "action invalid")))
