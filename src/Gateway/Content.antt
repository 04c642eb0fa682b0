-- ===== src/Gateway/Content.antt =====
-- crates/gateway/src/handler/json_or_form.rs: the extractor `JsonOrForm`.
use qa_sys.Prelude.Int.{pos}
use qa_sys.Prelude.{
  Option, List, ℕ, Bool, none, some, false, Result, ◌&&◌, err, ok, if◌then◌else◌, ◌||◌, ◌∷◌, [],
}
use qa_sys.Gateway.{
  Header, HttpRequest, HttpResponse, Body, nothing, reply, response, missing, opaque, text,
}
use Prim.Native.String.{String}
use qa_sys.Prelude.Strings.{split_once}
use qa_sys.Prelude.Strings.Ascii.{trim, rsplit_once, eq_ignore_ascii_case}

abbrev pub essence_of : String → Option (String × String) → String
essence_of content_type none = trim content_type
essence_of content_type (some (essence, _)) = trim essence

unfoldable pub content_type_essence : String → String
content_type_essence content_type = essence_of content_type (split_once b';' content_type)

abbrev pub has_json_suffix : Option (String × String) → Bool
has_json_suffix none = false
has_json_suffix (some (_, suffix)) = eq_ignore_ascii_case suffix "json"

abbrev pub is_json_essence : Option (String × String) → Bool
is_json_essence none = false
is_json_essence (some (media_type, subtype)) =
    eq_ignore_ascii_case media_type "application"
    && (eq_ignore_ascii_case subtype "json" || has_json_suffix (rsplit_once b'+' subtype))

unfoldable pub is_json_content_type : String → Bool
is_json_content_type content_type =
    is_json_essence (split_once b'/' (content_type_essence content_type))

unfoldable pub is_form_content_type : String → Bool
is_form_content_type content_type =
    eq_ignore_ascii_case (content_type_essence content_type) "application/x-www-form-urlencoded"

-- `JsonOrFormRejection`.
pub record Rejection : Type 0 where
  pub status : ℕ
  pub validation_message : Option String

abbrev pub bad_request_rejection : Rejection
bad_request_rejection = record { status = 400; validation_message = none }

abbrev pub validation_rejection : String → Rejection
validation_rejection message = record { status = 400; validation_message = some message }

abbrev pub unsupported_media_type : Rejection
unsupported_media_type = record { status = 415; validation_message = none }

abbrev pub rejection_body : Option String → Body
rejection_body none = nothing
rejection_body (some msg) = reply (pos 400) msg

unfoldable pub rejection_response : Rejection → HttpResponse
rejection_response r = response r.status (rejection_body r.validation_message)

-- How a payload is read: the extractors `Json` and `Form` of axum over serde.
pub record Payload (A : Type 0) : Type 0 where
  pub json : HttpRequest → Option A
  pub form : HttpRequest → Option A

-- `failed` gives the checks that `validate` finds failed, as fields and messages, and `errors_text`
-- is the text of such errors.
module _ {A : Type 0} (errors_text : List (String × String) → String) (p : Payload A)
    (failed : A → List (String × String)) where
  abbrev pub checked_by : A → List (String × String) → Result Rejection A
  checked_by a [] = ok a
  checked_by a (e ∷ es) = err (validation_rejection (errors_text (e ∷ es)))

  abbrev pub validated : Option A → Result Rejection A
  validated none = err bad_request_rejection
  validated (some a) = checked_by a (failed a)

  abbrev pub extract : HttpRequest → Header → Result Rejection A
  extract req missing = err unsupported_media_type
  extract req opaque = err unsupported_media_type
  extract req (text value) =
      if is_json_content_type value
      then validated (p.json req)
      else if is_form_content_type value
      then validated (p.form req)
      else err unsupported_media_type

  unfoldable pub from_request : HttpRequest → Result Rejection A
  from_request req = extract req req.content_type
