-- ===== src/Pb.antt =====
-- The messages of proto/qa.proto, as crates/pb/src/pb.rs declares them. A `u64` is a number below
-- 2 ^ 64, and an `i64` an integer.
use qa_sys.Prelude.Int.{ℤ}
use qa_sys.Prelude.{Option, String, ℕ, List, Bool}

pub record UserLoginRequest : Type 0 where
  pub username : String
  pub password : String

pub record UserLoginResponse : Type 0 where
  pub token : String

pub record UserLogoutRequest : Type 0 where
  pub token : String

pub record UserLogoutResponse : Type 0 where
  pub state : ℤ

pub record UserRegisterRequest : Type 0 where
  pub username : String
  pub password : String
  pub email : String
  pub phone : String

pub record UserRegisterResponse : Type 0 where
  pub state : ℤ

pub record VerifyTokenRequest : Type 0 where
  pub token : String
  pub request_id : String

pub record VerifyTokenResponse : Type 0 where
  pub state : ℤ
  pub reason : String
  pub username : String

pub record AddQuestionRequest : Type 0 where
  pub title : String
  pub content : String
  pub create_by : String

pub record AddQuestionResponse : Type 0 where
  pub id : ℕ

pub record DeleteQuestionRequest : Type 0 where
  pub id : ℕ
  pub username : String

pub record DeleteQuestionResponse : Type 0 where
  pub state : ℤ

pub record UpdateQuestionRequest : Type 0 where
  pub id : ℕ
  pub title : String
  pub content : String
  pub update_by : String

pub record UpdateQuestionResponse : Type 0 where
  pub state : ℤ

pub record AnswerEntity : Type 0 where
  pub id : ℕ
  pub question_id : ℕ
  pub content : String
  pub create_by : String
  pub agree_count : ℕ
  pub has_aggreed : Bool

pub record AddAnswerRequest : Type 0 where
  pub answer : Option AnswerEntity

pub record AddAnswerResponse : Type 0 where
  pub id : ℕ

pub record DeleteAnswerRequest : Type 0 where
  pub id : ℕ
  pub username : String

pub record DeleteAnswerResponse : Type 0 where
  pub state : ℤ

pub record UpdateAnswerRequest : Type 0 where
  pub id : ℕ
  pub content : String
  pub username : String

pub record UpdateAnswerResponse : Type 0 where
  pub state : ℤ

pub record AgreeAnswerRequest : Type 0 where
  pub id : ℕ
  pub create_by : String
  pub action : String

pub record AgreeAnswerResponse : Type 0 where
  pub state : ℤ
  pub agree_count : ℕ
  pub reason : String

pub record QuestionDetailRequest : Type 0 where
  pub id : ℕ
  pub username : String

pub record QuestionEntity : Type 0 where
  pub id : ℕ
  pub title : String
  pub content : String
  pub create_by : String
  pub read_count : ℕ
  pub reply_count : ℕ

pub record QuestionDetailResponse : Type 0 where
  pub question : Option QuestionEntity

pub record LatestQuestionRequest : Type 0 where
  pub last_id : ℕ
  pub limit : ℕ

pub record LatestQuestionResponse : Type 0 where
  pub questions : List QuestionEntity
  pub last_id : ℕ
  pub is_end : Bool

pub record AnswerListRequest : Type 0 where
  pub question_id : ℕ
  pub page : ℕ
  pub limit : ℕ
  pub username : String

pub record AnswerListResponse : Type 0 where
  pub answers : List AnswerEntity
  pub total : ℕ
  pub total_page : ℕ
  pub page_size : ℕ
  pub current_page : ℕ
  pub is_end : Bool

pub record AnswerDetailRequest : Type 0 where
  pub id : ℕ
  pub username : String

pub record AnswerDetailResponse : Type 0 where
  pub answer : Option AnswerEntity
