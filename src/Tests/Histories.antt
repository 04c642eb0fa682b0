-- ===== src/Tests/Histories.antt =====
-- A run with a vote of ann, from her request to the tables.
use qa_sys.System.Ownership.{History-HasPosts}
use qa_sys.System.Posts.{questions_of, answers_of}
use qa_sys.Domain.{VoteMessage}
use qa_sys.Gateway.Requests.{answer_agree_failed, validate_required, validate_vote_action}
use qa_sys.Gateway.Content.{
  from_request, content_type_essence, is_json_content_type, is_form_content_type,
}
use qa_sys.Votes.{is_voted}
use qa_sys.Service.Voting.{agree_answer}
use qa_sys.Prelude.Strings.Ascii.{
  eq_ignore_ascii_case, any_char, rsplit_once, trim, trim_end, trim_start,
}
use qa_sys.Prelude.Strings.{
  split, parse_i64, scan_digits, split_once, show_i64, show_digits, show_u64,
}
use qa_sys.Token.{check_token, payload_of}
use qa_sys.Aes.{encrypt, decrypt}
use qa_sys.Users.{fetch_one, without_dashes}
use qa_sys.Gateway.Auth.{
  authenticate, authorization_token, verified_username, is_public_path, no_cache_header,
  map_verification_error,
}
use qa_sys.Prelude.Int.{pos, ◌+ℤ◌, as_i64, as_u64, wrap_i64, ◌-ℤ◌}
use qa_sys.Gateway.Router.{
  api_router, routes, api_routes, answer_routes, user_routes, question_routes, nested_path,
  method_not_found, api_not_found,
}
use qa_sys.Prelude.{str_eq, List, ok, false, refl, String, [], ◌∷◌, any, ◌≡◌}
use qa_sys.Votes.Consumer.{deliver, publish}
use qa_sys.Tests.Worlds.{Store}
use qa_sys.World.{World, reach, error_text}
use qa_sys.Service.{Env, contains}
use qa_sys.Tests.Gateways.{toy_framework, toy_panic, entered, later, vote_request}
use qa_sys.System.History.{
  IsAmong, joined, History, IsAttributed, History-IsAttributed, began, requested, delivered, moved,
}
use qa_sys.Gateway.Client.{qa_service}
use qa_sys.Gateway.{HttpResponse}
use qa_sys.System.Posts.{goes_by}
use qa_sys.World.{in_varchar}
use qa_sys.Questions
use qa_sys.Users
use qa_sys.Answers
use qa_sys.Gateway.Handlers
use qa_sys.Gateway.Auth
use qa_sys.Service.Sessions.{verify_token, user_login}

-- A text format that keeps the name of the voter.
abbrev recorded : Env Store
recorded = record later {
  externals = record later.externals {
    vote_to_json = λ m. m.created_by;
    vote_from_json = λ t.
        ok (record { target_id = pos 1; target_type = "answer"; created_by = t; action = "up" });
  };
}

abbrev cast : HttpResponse × World Store
cast = api_router toy_framework (qa_service toy_panic recorded) false "r1" vote_request entered

abbrev counted : World Store
counted = (deliver recorded.externals "answer" (pos 4700) "ann" cast.1).1

abbrev finished : World Store
finished = (Questions.handler recorded.externals 3 "question" counted).1

abbrev users : List String
users =
    joined (authenticate (qa_service toy_panic recorded) false "r1" vote_request entered).0
      ("bob" ∷ [])

on_topic : IsAmong "ann" cast.1.published
unfolding api_router trim trim_end trim_start answer_agree_failed validate_required
    validate_vote_action Auth.verify_token authenticate authorization_token verified_username
    verify_token user_login fetch_one Users.get Users.set str_eq encrypt ◌+ℤ◌ check_token decrypt
    split parse_i64 scan_digits split_once eq_ignore_ascii_case payload_of without_dashes show_i64
    show_digits any_char is_public_path no_cache_header routes api_routes answer_routes user_routes
    question_routes Handlers.answer_agree Handlers.authenticated_username agree_answer publish
    is_voted Answers.find_one reach nested_path from_request content_type_essence
    is_json_content_type is_form_content_type as_i64 as_u64 wrap_i64 ◌-ℤ◌ error_text
    method_not_found api_not_found rsplit_once contains map_verification_error show_u64
on_topic = refl

-- The request, its message, and a round of the job, after a vote of bob.
run : History toy_framework toy_panic recorded ("bob" ∷ []) entered users finished
run = moved 3 "question" (
    delivered "answer" (pos 4700) "ann" on_topic
      (requested (pos 4600) "e5f6" false "r1" vote_request began))

reads_name :
    (m m' : VoteMessage)
    → recorded.externals.vote_from_json (recorded.externals.vote_to_json m) ≡ ok m'
    → m'.created_by ≡ m.created_by
reads_name m m' h = cc

entered-IsAttributed : IsAttributed recorded.externals ("bob" ∷ []) entered
unfolding user_login fetch_one Users.get Users.set str_eq encrypt reach
entered-IsAttributed = record { topic = tt; voters = (refl, tt) }

History-IsAttributed_example : IsAttributed recorded.externals users finished
History-IsAttributed_example =
    History-IsAttributed toy_framework toy_panic recorded reads_name run entered-IsAttributed

-- The same run, with nobody before.
abbrev requesters : List String
requesters =
    joined (authenticate (qa_service toy_panic recorded) false "r1" vote_request entered).0 []

own_run : History toy_framework toy_panic recorded [] entered requesters finished
own_run = moved 3 "question" (
    delivered "answer" (pos 4700) "ann" on_topic
      (requested (pos 4600) "e5f6" false "r1" vote_request began))

bob_absent : any (λ u. goes_by u "bob") requesters ≡ false
unfolding in_varchar str_eq authenticate authorization_token verified_username verify_token
    user_login fetch_one Users.get Users.set encrypt ◌+ℤ◌ check_token decrypt split parse_i64
    scan_digits split_once eq_ignore_ascii_case payload_of without_dashes show_i64 show_digits
    any_char reach
bob_absent = refl

History-HasPosts_example :
    (questions_of "bob" finished.db ≡ questions_of "bob" entered.db)
    × (answers_of "bob" finished.db ≡ answers_of "bob" entered.db)
History-HasPosts_example =
    History-HasPosts toy_framework toy_panic recorded "bob" own_run bob_absent
