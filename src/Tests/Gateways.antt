-- ===== src/Tests/Gateways.antt =====
-- A framework for the examples, whose payloads are read from short texts, and requests to it.
use qa_sys.Prelude.Int.{pos, u64_mod}
use qa_sys.World.{World}
use qa_sys.Prelude.Strings.{format}
use qa_sys.Prelude.{
  str_eq, none, ◌∷◌, true, [], some, String, Result, ok, err, ◌⊎◌, Option, ◌≡◌, ℕ, ◌<◌, inl, arith,
  ap, inr,
}
use qa_sys.Tests.Sessions.{login, reply_of}
use qa_sys.Tests.Ciphers.{toy_crypto, from_utf8, as_bytes}
use qa_sys.Tests.Worlds.{toy_env, start, Store}
use qa_sys.Service.Sessions.{user_login}
use qa_sys.Gateway.{HttpRequest, text, Status, response, nothing}
use qa_sys.Gateway.Requests.{AnswerAgreeRequest}
use qa_sys.Gateway.Router.{Framework, get, post}
use qa_sys.Gateway.Content.{Payload}
use qa_sys.Gateway.{missing}
use qa_sys.Service.{internal, Env}

abbrev text_of : Result String String → String
text_of (ok s) = s
text_of (err e) = ""

-- A crypto with short tokens: their characters are the encrypted bytes.
abbrev pub short_env : Env Store
short_env = record toy_env {
  crypto = record toy_crypto {
    base64_encode = λ bytes. text_of (from_utf8 bytes);
    base64_decode = λ s. ok (as_bytes s);
  };
}

-- A login of ann.
abbrev pub entered : World Store
entered = (user_login short_env login start).1

abbrev pub ann_token : String
ann_token = (reply_of (user_login short_env login start).0).token

-- The service an hour later.
abbrev pub later : Env Store
later = record short_env { now = pos 4600; uuid = "e5f6" }

abbrev unread : {A : Type 0} → Payload A
unread = record { json = λ _. none; form = λ _. none }

abbrev pub ann_vote : AnswerAgreeRequest
ann_vote = record { id = 1; username = "ann"; action = "up" }

abbrev id_of : Option AnswerAgreeRequest → ℕ
id_of none = 0
id_of (some a) = a.id

pub toy_id :
    (req : HttpRequest) (a : AnswerAgreeRequest)
    → ◌⊎◌
        (◌≡◌ {A = Option AnswerAgreeRequest}
          (some (record ann_vote { action = req.content }))
          (some a))
        (◌≡◌ {A = Option AnswerAgreeRequest} none (some a))
    → a.id < u64_mod
toy_id req a (inl h) = omega (arith, ap id_of h)
toy_id req a (inr h) = cc

abbrev pub toy_framework : Framework
toy_framework = record {
  accepts = λ m method. elim m [ get ↦ str_eq method "GET" | post ↦ str_eq method "POST" ];
  method_refused = λ _. response 405 nothing;
  missing_extension = response 500 nothing;
  errors_text = λ _. "invalid";
  is_email = λ _. true;
  register = unread;
  login = unread;
  logout = unread;
  question = unread;
  add_quest = unread;
  update_quest = unread;
  delete_quest = record {
    json = λ req. some (record { id = 2; username = req.content });
    form = λ _. none;
  };
  lastest_quest = unread;
  answer_add = unread;
  answer_delete = unread;
  answer_update = unread;
  find_answer = unread;
  answer_lastest = unread;
  answer_agree = record {
    json = λ req. some (record ann_vote { action = req.content });
    form = λ _. none;
  };
  agree_id = toy_id;
}

abbrev pub toy_panic : Status
toy_panic = record { code = internal; message = "panic" }

abbrev pub vote_request : HttpRequest
vote_request = record {
  method = "POST";
  path = "/api/user_vote/add";
  authorization = text (format ("bearer " ∷ ann_token ∷ []));
  content_type = text "application/json; charset=utf-8";
  content = "up";
}

-- The same request without a token.
abbrev pub anonymous_request : HttpRequest
anonymous_request = record vote_request { authorization = missing }
