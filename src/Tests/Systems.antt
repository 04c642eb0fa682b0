-- ===== src/Tests/Systems.antt =====
-- Runs of the gateway over the service.
use qa_sys.World.{fits_varchar, is_blank}
use qa_sys.Tests.Voting.{toy_whole}
use qa_sys.Gateway.Requests.{AddQuestRequest}
use qa_sys.Votes.Consumer.{deliver}
use qa_sys.Tests.Worlds.{Store}
use qa_sys.Users.{fetch_one, without_dashes}
use qa_sys.Prelude.Int.{pos}
use qa_sys.Votes.Consistency.{IsConsistent}
use qa_sys.World.{World}
use qa_sys.Gateway.{Principal, HttpResponse, into_response, unauthorized, respond}
use qa_sys.Prelude.{str_eq, ◌≡◌, false, err, ◌⊎◌, ok, refl, String, ◌∷◌, [], inr, ap}
use qa_sys.Tests.Voting.{start-IsConsistent}
use qa_sys.Tests.Gateways.{
  toy_framework, toy_panic, entered, later, vote_request, anonymous_request, ann_token,
}
use qa_sys.Gateway.Router.{api_router}
use qa_sys.Gateway.Client.{qa_service}
use qa_sys.System.Reach.{Run, start, then, requested, delivered, moved, Run-IsConsistent}
use qa_sys.System.Requests.{HasTopic}
use qa_sys.System.Topic.{api_router-HasNews}
use qa_sys.System.Authentication.{IsLetIn, authenticate-IsLetIn}
use qa_sys.System.Refusal.{HasRest, api_router-refused}
use qa_sys.Users
use qa_sys.Gateway.Auth.{authorization_token, verified_username, authenticate, is_public_path}
use qa_sys.Prelude.Strings.{
  split, parse_i64, scan_digits, split_once, show_i64, show_digits, format,
}
use qa_sys.Prelude.Strings.Ascii.{eq_ignore_ascii_case, any_char}
use qa_sys.Prelude.Int.{◌+ℤ◌}
use qa_sys.Token.{check_token, payload_of}
use qa_sys.Aes.{decrypt, encrypt}
use qa_sys.Service.Sessions.{verify_token, user_login}
use qa_sys.Questions
use qa_sys.Gateway.Handlers
use qa_sys.System.Titles.{IsRefused, question_add-IsRefused}
use qa_sys.Gateway.Headers.{IsUncached, api_router-IsUncached}

-- A vote of ann through the gateway.
abbrev voted : HttpResponse × World Store
voted = api_router toy_framework (qa_service toy_panic later) false "r1" vote_request entered

abbrev delivered_to : World Store
delivered_to = (deliver later.externals "answer" (pos 4700) "up" voted.1).1

abbrev job_done : World Store
job_done = (Questions.handler later.externals 3 "question" delivered_to).1

-- The request, its message, and a round of the job.
busy : Run toy_framework toy_panic later entered job_done
busy =
    then
      (then (then (start entered) (requested (pos 4600) "e5f6" false "r1" vote_request entered))
        (delivered "answer" (pos 4700) "up" voted.1 (toy_whole "up")))
      (moved 3 "question" delivered_to)

entered-IsConsistent : IsConsistent entered.db
unfolding user_login fetch_one Users.get Users.set str_eq encrypt
entered-IsConsistent = start-IsConsistent

Run-IsConsistent_example : IsConsistent job_done.db
Run-IsConsistent_example = Run-IsConsistent toy_framework toy_panic later busy entered-IsConsistent

api_router-HasNews_example :
    (voted.1.published ≡ entered.published)
    ⊎ ((p : Principal) × ((authenticate
            (qa_service toy_panic later)
            false
            "r1"
            vote_request
            entered).0
          ≡ ok p)
        × HasTopic later entered.published p voted.1.published)
api_router-HasNews_example =
    api_router-HasNews toy_framework toy_panic later false "r1" vote_request entered

abbrev ann_principal : Principal
ann_principal = record { username = "ann"; token = ann_token }

let_in :
    authenticate (qa_service toy_panic later) false "r1" vote_request entered
    ≡ (ok ann_principal, entered)
unfolding authenticate authorization_token verified_username verify_token user_login fetch_one
    Users.get Users.set str_eq encrypt ◌+ℤ◌ check_token decrypt split parse_i64 scan_digits
    split_once eq_ignore_ascii_case payload_of without_dashes show_i64 show_digits any_char
let_in = refl

authenticate-IsLetIn_example : IsLetIn toy_panic later false vote_request entered ann_principal
authenticate-IsLetIn_example =
    authenticate-IsLetIn toy_panic later false "r1" vote_request entered entered ann_principal
      let_in

not_public : is_public_path vote_request.path ≡ false
unfolding is_public_path str_eq
not_public = refl

kept_out :
    (authenticate (qa_service toy_panic later) false "r1" anonymous_request entered).0
    ≡ err unauthorized
unfolding authenticate authorization_token
kept_out = refl

api_router-refused_example :
    let after =
      api_router toy_framework (qa_service toy_panic later) false "r1" anonymous_request entered in
    (after.0 ≡ into_response unauthorized) × HasRest after.1 entered
api_router-refused_example =
    api_router-refused toy_framework toy_panic later false "r1" anonymous_request entered
      unauthorized not_public kept_out

api_router-IsUncached_example :
    IsUncached
      (api_router toy_framework (qa_service toy_panic later) false "r1" vote_request entered).0
api_router-IsUncached_example =
    api_router-IsUncached toy_framework (qa_service toy_panic later) false "r1" vote_request entered
      (inr (ann_principal, ap (λ o. o.0) let_in))

abbrev sixty : String
sixty = "aaaaaaaaaaaaaaaaaaaaaaaaaaaaaaaaaaaaaaaaaaaaaaaaaaaaaaaaaaaa"

-- A title of 360 characters.
abbrev long_question : AddQuestRequest
long_question = record {
  title = format (sixty ∷ sixty ∷ sixty ∷ sixty ∷ sixty ∷ sixty ∷ []);
  content = "?";
  username = "ann";
}

too_long : fits_varchar 300 long_question.title ≡ false
unfolding fits_varchar is_blank
too_long = refl

question_add-IsRefused_example : IsRefused toy_panic later entered (
    respond
      (Handlers.question_add (qa_service toy_panic later) ann_principal long_question entered))
question_add-IsRefused_example =
    question_add-IsRefused toy_panic later ann_principal long_question entered too_long
