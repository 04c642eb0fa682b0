-- ===== src/Domain.antt =====
-- The entities of crates/qa-svc/src/domain/entity: rows of the tables, sessions, vote messages, and
-- the pages of answers and questions.
use qa_sys.Prelude.{String, Option, none, List, Bool}
use qa_sys.Prelude.Int.{ℤ, pos}

-- `chrono::NaiveDateTime`, as seconds from its default value 1970-01-01T00:00:00.
abbrev pub NaiveDateTime : Type 0
NaiveDateTime = ℤ

abbrev pub epoch : NaiveDateTime
epoch = pos 0

pub record AnswerEntity : Type 0 where
  pub id : ℤ
  pub question_id : ℤ
  pub content : String
  pub created_by : String
  pub updated_by : Option String
  pub created_at : NaiveDateTime
  pub updated_at : Option NaiveDateTime
  pub agree_count : ℤ

abbrev pub default_answer : AnswerEntity
default_answer = record {
  id = pos 0;
  question_id = pos 0;
  content = "";
  created_by = "";
  updated_by = none;
  created_at = epoch;
  updated_at = none;
  agree_count = pos 0;
}

pub record QuestionEntity : Type 0 where
  pub id : ℤ
  pub title : String
  pub content : String
  pub created_by : String
  pub updated_by : String
  pub created_at : NaiveDateTime
  pub updated_at : Option NaiveDateTime
  pub read_count : ℤ
  pub reply_count : ℤ

abbrev pub default_question : QuestionEntity
default_question = record {
  id = pos 0;
  title = "";
  content = "";
  created_by = "";
  updated_by = "";
  created_at = epoch;
  updated_at = none;
  read_count = pos 0;
  reply_count = pos 0;
}

pub record LatestQuestionResponse : Type 0 where
  pub questions : List QuestionEntity
  pub last_id : Option ℤ
  pub is_end : Bool

pub record UserEntity : Type 0 where
  pub id : ℤ
  pub username : String
  pub password : String
  pub nick : String
  pub openid : String
  pub created_at : NaiveDateTime
  pub updated_at : Option NaiveDateTime

pub record UserSessionEntity : Type 0 where
  pub uid : ℤ
  pub username : String
  pub openid : String
  pub login_time : String
  pub expire_time : String

pub record UserVoteEntity : Type 0 where
  pub id : ℤ
  pub target_id : ℤ
  pub target_type : String
  pub created_by : String
  pub created_at : NaiveDateTime

pub record VoteMessage : Type 0 where
  pub target_id : ℤ
  pub target_type : String
  pub created_by : String
  pub action : String

pub record LatestAnswerResponse : Type 0 where
  pub answers : List AnswerEntity
  pub total : ℤ
  pub total_page : ℤ
  pub page_size : ℤ
  pub current_page : ℤ
  pub is_end : Bool

pub data PaginationError : Type 0 where
  negative_total invalid_page_size invalid_current_page : ℤ → PaginationError
