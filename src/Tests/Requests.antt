-- ===== src/Tests/Requests.antt =====
-- Checks and payloads of requests to crates/gateway.
use qa_sys.Gateway.{text}
use qa_sys.Prelude.Strings.Ascii.{eq_ignore_ascii_case}
use qa_sys.Prelude.Strings.{split_once}
use qa_sys.Prelude.{◌≡◌, String, ok, [], refl, true, ◌↔◌, ◌≤◌, some, ◌⊎◌, str_eq}
use qa_sys.Prelude.Strings.{split_once}
use qa_sys.Prelude.Strings.Ascii.{eq_ignore_ascii_case, trim, trim_end, trim_start}
use qa_sys.Gateway.Requests.{validate_required, validate_vote_action}
use qa_sys.Gateway.Content.{
  from_request, is_json_content_type, is_form_content_type, content_type_essence,
}
use qa_sys.Gateway.Payloads.{from_request-ok}
use qa_sys.Gateway.Validation.{IsName, answer_agree_failed_iff}
use qa_sys.Gateway.Access.{IsPresented, IsToken, authorization_token_iff}
use qa_sys.Gateway.Requests.{answer_agree_failed}
use qa_sys.Gateway.Auth.{authorization_token}
use qa_sys.Tests.Gateways.{vote_request, ann_token, ann_vote, toy_framework}

authorization_token_iff_example :
    (authorization_token vote_request ≡ ok ann_token)
    ↔ (IsPresented ann_token vote_request.authorization × IsToken ann_token)
authorization_token_iff_example = authorization_token_iff vote_request ann_token

answer_agree_failed_iff_example :
    (answer_agree_failed ann_vote ≡ [])
    ↔ ((1 ≤ 1) × IsName "ann" × ((ann_vote.action ≡ "up") ⊎ (ann_vote.action ≡ "down")))
answer_agree_failed_iff_example = answer_agree_failed_iff ann_vote

vote_read :
    from_request toy_framework.errors_text toy_framework.answer_agree answer_agree_failed
      vote_request
    ≡ ok ann_vote
unfolding from_request is_json_content_type content_type_essence split_once eq_ignore_ascii_case
    trim trim_end trim_start answer_agree_failed validate_required str_eq validate_vote_action
vote_read = refl

from_request-ok_example :
    ((value : String) × (vote_request.content_type ≡ text value)
      × (((is_json_content_type value ≡ true)
            × (toy_framework.answer_agree.json vote_request ≡ some ann_vote))
          ⊎ ((is_form_content_type value ≡ true)
              × (toy_framework.answer_agree.form vote_request ≡ some ann_vote))))
    × (answer_agree_failed ann_vote ≡ [])
from_request-ok_example =
    from_request-ok toy_framework.errors_text toy_framework.answer_agree answer_agree_failed
      vote_request ann_vote vote_read
