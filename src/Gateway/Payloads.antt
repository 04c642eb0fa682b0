-- ===== src/Gateway/Payloads.antt =====
-- What the extractor of crates/gateway/src/handler/json_or_form.rs lets through.
use qa_sys.Gateway.{HttpRequest, text, Header, missing, opaque}
use qa_sys.Prelude.{
  List, String, Option, ◌≡◌, Bool, if◌then◌else◌, ok, some, err, [], ap, ◌∷◌, true, false, subst,
  refl, ◌⊎◌, none, inl, inr,
}
use qa_sys.Gateway.Content.{
  Payload, from_request, checked_by, validated, is_json_content_type, unsupported_media_type,
  is_form_content_type, extract,
}

-- One of the readers gives this payload, and no check fails for it.
abbrev pub IsRead : {A : Type 0} → Payload A → (A → List (String × String)) → A → Type 0
IsRead p failed a =
    (failed a ≡ []) × (req : HttpRequest) × ((p.json req ≡ some a) ⊎ (p.form req ≡ some a))

module _ {A : Type 0} (errors_text : List (String × String) → String) (p : Payload A)
    (failed : A → List (String × String)) where
  checked_by-ok :
      (a : A) (found : List (String × String)) (b : A)
      → checked_by errors_text p failed a found ≡ ok b
      → (a ≡ b) × (found ≡ [])
  checked_by-ok a [] b h = (cc, refl)
  checked_by-ok a (e ∷ es) b h = cc

  validated-ok :
      (read : Option A) (b : A)
      → validated errors_text p failed read ≡ ok b
      → (read ≡ some b) × (failed b ≡ [])
  validated-ok none b h = cc
  validated-ok (some a) b h =
      let (same, none_failed) = checked_by-ok a (failed a) b h in
      (ap some same, subst (λ c. failed c ≡ []) same none_failed)

  extract-ok :
      (req : HttpRequest) (value : String) (b : A) (is_json is_form : Bool)
      → (if is_json
          then validated errors_text p failed (p.json req)
          else if is_form
          then validated errors_text p failed (p.form req)
          else err unsupported_media_type)
        ≡ ok b
      → (((is_json ≡ true) × (p.json req ≡ some b)) ⊎ ((is_form ≡ true) × (p.form req ≡ some b)))
        × (failed b ≡ [])
  extract-ok req value b true is_form h =
      let (read, none_failed) = validated-ok (p.json req) b h in (inl (refl, read), none_failed)
  extract-ok req value b false true h =
      let (read, none_failed) = validated-ok (p.form req) b h in (inr (refl, read), none_failed)
  extract-ok req value b false false h = cc

  -- A payload that the extractor lets through was read by the JSON reader from a request whose
  -- content type is a JSON one, or by the form reader from one whose content type is that of
  -- forms, and no check of `validate` failed for it.
  pub from_request-ok :
      (req : HttpRequest) (b : A)
      → from_request errors_text p failed req ≡ ok b
      → ((value : String) × (req.content_type ≡ text value)
          × (((is_json_content_type value ≡ true) × (p.json req ≡ some b))
              ⊎ ((is_form_content_type value ≡ true) × (p.form req ≡ some b))))
        × (failed b ≡ [])
  unfolding from_request
  from_request-ok req b h = extracted req.content_type refl h
    where
      extracted :
          (c : Header)
          → req.content_type ≡ c
          → extract errors_text p failed req c ≡ ok b
          → ((value : String) × (req.content_type ≡ text value)
              × (((is_json_content_type value ≡ true) × (p.json req ≡ some b))
                  ⊎ ((is_form_content_type value ≡ true) × (p.form req ≡ some b))))
            × (failed b ≡ [])
      extracted missing e h = cc
      extracted opaque e h = cc
      extracted (text value) e h =
          let (read, none_failed) = extract-ok req value b _ _ h in ((value, e, read), none_failed)

  read_by :
      (req : HttpRequest) (b : A) (J F : Type 0)
      → ((J × (p.json req ≡ some b)) ⊎ (F × (p.form req ≡ some b)))
      → (p.json req ≡ some b) ⊎ (p.form req ≡ some b)
  read_by req b J F (inl (_, h)) = inl h
  read_by req b J F (inr (_, h)) = inr h

  pub from_request-IsRead :
      (req : HttpRequest) (b : A) → from_request errors_text p failed req ≡ ok b → IsRead p failed b
  from_request-IsRead req b h =
      let ((value, _, read), good) = from_request-ok req b h in (good, req, read_by req b _ _ read)
