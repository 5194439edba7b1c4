-- ===== src/Store/Keys.antt =====
-- memstore/memstore.go: the map keys of subjects. `encoding/json` and the Subject Identifiers of
-- go-subjectid are parameters: what decoding to a value and encoding give, `none` for their errors.
use go_ssf.Prelude.{Option, none, some, String, ◌==◌, ◌≡◌, ◌≢◌, if◌then◌else◌}
use go_ssf.Errors.{Result, ok, err, invalid_config, sentinel, wrap}
use go_ssf.Wire.{RawMessage, AddSubjectRequest, RemoveSubjectRequest}

pub record Json : Type 1 where
  pub Value : Type 0
  pub unmarshal : String → Option Value
  pub marshal : Value → Option String
  pub Identifier : Type 0
  pub marshal_identifier : Identifier → Option String

-- What the package documents of `encoding/json` and the code relies on: an encoded value is never
-- empty text, and decodes to the value that was encoded.
pub record JsonLaws (j : Json) : Type 0 where
  pub marshal_ne : (v : j.Value) {t : String} → j.marshal v ≡ some t → t ≢ ""
  pub decodes : (v : j.Value) {t : String} → j.marshal v ≡ some t → j.unmarshal t ≡ some v

-- The shapes that `HasSubject` takes for a subject.
pub data AnySubject (Identifier : Type 0) : Type 0 where
  nil_subject : AnySubject Identifier
  raw_json : RawMessage → AnySubject Identifier
  raw_bytes : RawMessage → AnySubject Identifier
  add_request : Option (AddSubjectRequest Identifier) → AnySubject Identifier
  remove_request : Option (RemoveSubjectRequest Identifier) → AnySubject Identifier
  identifier : Identifier → AnySubject Identifier

module _ (j : Json) where
  from_marshal : Option String → Result String
  from_marshal none = err (wrap "canonicalize subject" (sentinel invalid_config))
  from_marshal (some out) = ok out

  from_unmarshal : Option j.Value → Result String
  unfolding from_marshal
  from_unmarshal none = err (wrap "subject is not valid JSON" (sentinel invalid_config))
  from_unmarshal (some v) = from_marshal (j.marshal v)

  unfoldable pub canonical_subject_key : RawMessage → Result String
  unfolding from_unmarshal
  canonical_subject_key none = ok ""
  canonical_subject_key (some raw) = if raw == "" then ok "" else from_unmarshal (j.unmarshal raw)

  key_of_text : Option String → Result String
  key_of_text none = err (wrap "marshal subject" (sentinel invalid_config))
  key_of_text (some raw) = canonical_subject_key (some raw)

  unfoldable pub canonical_subject_key_from_identifier : Option j.Identifier → Result String
  unfolding key_of_text
  canonical_subject_key_from_identifier none =
      err (wrap "subject is required" (sentinel invalid_config))
  canonical_subject_key_from_identifier (some subj) = key_of_text (j.marshal_identifier subj)

  unfoldable pub canonical_subject_key_from_any : AnySubject j.Identifier → Result String
  unfolding canonical_subject_key_from_identifier
  canonical_subject_key_from_any nil_subject =
      err (wrap "subject is required" (sentinel invalid_config))
  canonical_subject_key_from_any (raw_json raw) = canonical_subject_key raw
  canonical_subject_key_from_any (raw_bytes raw) = canonical_subject_key raw
  canonical_subject_key_from_any (add_request none) =
      err (wrap "subject is required" (sentinel invalid_config))
  canonical_subject_key_from_any (add_request (some req)) =
      canonical_subject_key_from_identifier req.subject
  canonical_subject_key_from_any (remove_request none) =
      err (wrap "subject is required" (sentinel invalid_config))
  canonical_subject_key_from_any (remove_request (some req)) =
      canonical_subject_key_from_identifier req.subject
  canonical_subject_key_from_any (identifier subj) =
      canonical_subject_key_from_identifier (some subj)
