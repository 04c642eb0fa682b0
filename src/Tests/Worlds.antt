-- ===== src/Tests/Worlds.antt =====
-- Servers and tables for the examples: a Redis of texts that expire and one hash of counters, and a
-- database of two answers, two questions, one user and one vote.
use qa_sys.Tests.Ciphers.{toy_crypto}
use qa_sys.Aes.{AesCbcCrypto, size128}
use qa_sys.Service.{Env}
use qa_sys.Prelude.{
  String, List, Option, Bool, ok, err, some, none, ◌∷◌, [], if◌then◌else◌, str_eq, keep, find?, not,
  ◌&&◌,
}
use qa_sys.Prelude.Int.{ℤ, pos, ◌+ℤ◌, ltb_ℤ}
use qa_sys.Domain.{
  AnswerEntity, QuestionEntity, UserEntity, UserSessionEntity, UserVoteEntity, default_answer,
  default_question,
}
use qa_sys.World.{Externals, World, Db}

pub record Entry : Type 0 where
  pub key : String
  pub value : String
  pub until : ℤ

pub record Counter : Type 0 where
  pub hash : String
  pub field : String
  pub count : ℤ

pub record Store : Type 0 where
  pub entries : List Entry
  pub counters : List Counter

abbrev value_of : Option Entry → Option String
value_of none = none
value_of (some e) = some e.value

abbrev pub count_of : Option Counter → ℤ
count_of none = pos 0
count_of (some c) = c.count

abbrev pub same_counter : String → String → Counter → Bool
same_counter hash field c = str_eq c.hash hash && str_eq c.field field

abbrev incremented : Store → String → String → ℤ → ℤ
incremented r hash field by = count_of (find? (same_counter hash field) r.counters) +ℤ by

abbrev fields_of : String → List Counter → List (String × ℤ)
fields_of hash [] = []
fields_of hash (c ∷ cs) =
    if str_eq c.hash hash then (c.field, c.count) ∷ fields_of hash cs else fields_of hash cs

abbrev pub ann_session : UserSessionEntity
ann_session = record {
  uid = pos 1;
  username = "ann";
  openid = "0123456789abcdef0123456789abcdef";
  login_time = "";
  expire_time = "";
}

abbrev pub toy : Externals Store
toy = record {
  db_text = λ _. "database error";
  debug_error = λ _. "error";
  md5_hex = λ s. s;
  naive_local = λ z. z;
  format_time = λ _. "";
  redis_get = λ r now k. value_of (find? (λ e. str_eq e.key k && ltb_ℤ now e.until) r.entries);
  redis_set_ex = λ r now k v second. record r {
    entries =
        record { key = k; value = v; until = now +ℤ pos second }
        ∷ keep (λ e. not (str_eq e.key k)) r.entries;
  };
  redis_del = λ r k. record r { entries = keep (λ e. not (str_eq e.key k)) r.entries };
  redis_hincr = λ r hash field by. ok (
    incremented r hash field by,
    record r {
      counters =
          record { hash = hash; field = field; count = incremented r hash field by }
          ∷ keep (λ c. not (same_counter hash field c)) r.counters;
    },
  );
  redis_type_error = "type error";
  redis_hscan = λ r hash cursor. ok (0, fields_of hash r.counters);
  session_to_json = λ s. s.username;
  session_from_json = λ t. ok (record ann_session { username = t });
  vote_to_json = λ m. m.action;
  vote_from_json = λ t.
      if str_eq t ""
      then err "EOF while parsing a value"
      else ok
          (record { target_id = pos 1; target_type = "answer"; created_by = "ann"; action = t });
}

abbrev pub two_answers : List AnswerEntity
two_answers =
    record default_answer { id = pos 1; question_id = pos 1; created_by = "bob" }
    ∷ record default_answer {
      id = pos 2;
      question_id = pos 1;
      created_by = "ann";
      agree_count = pos 1;
    }
    ∷ []

abbrev pub bob_vote : UserVoteEntity
bob_vote = record {
  id = pos 1;
  target_id = pos 2;
  target_type = "answer";
  created_by = "bob";
  created_at = pos 0;
}

abbrev pub two_questions : List QuestionEntity
two_questions =
    record default_question { id = pos 1; title = "first"; created_by = "ann" }
    ∷ record default_question {
      id = pos 2;
      title = "second";
      created_by = "bob";
      read_count = pos 5;
    }
    ∷ []

abbrev pub ann : UserEntity
ann = record {
  id = pos 1;
  username = "ann";
  password = "secret";
  nick = "";
  openid = "0123456789abcdef0123456789abcdef";
  created_at = pos 0;
  updated_at = none;
}

abbrev pub some_tables : Db
some_tables = record {
  answers = two_answers;
  answer_seq = 3;
  questions = two_questions;
  question_seq = 3;
  users = ann ∷ [];
  user_seq = 2;
  votes = bob_vote ∷ [];
  vote_seq = 2;
}

abbrev pub start : World Store
start = record {
  db = some_tables;
  redis = record { entries = []; counters = [] };
  published = [];
  acked = [];
  faults = [];
}

abbrev pub toy_key : String
toy_key = "0123456789abcdef"

abbrev pub toy_iv : String
toy_iv = "fedcba9876543210"

abbrev pub toy_aes : AesCbcCrypto
toy_aes = record {
  key = toy_crypto.as_bytes toy_key;
  iv = toy_crypto.as_bytes toy_iv;
  key_size = size128;
}

abbrev pub toy_env : Env Store
toy_env = record {
  externals = toy;
  crypto = toy_crypto;
  aes = toy_aes;
  now = pos 1000;
  uuid = "a1b2-c3d4";
}
