-- ===== src/Wire/Subjects.antt =====
-- subjects.go: the JSON of the requests to add and to remove a subject. `encoding/json` splits the envelope, with
-- the bytes of the subject, and go-subjectid's Parse reads these; both are parameters. A decode writes to
-- the request that it is given, so it returns the request with the error, if any.
use go_ssf.Prelude.{Bool, Option, none, some, String, ◌≡◌, refl, ◌⊎◌, inl, inr}
use go_ssf.Errors.{Error, Result, ok, err, Result-cases}
use go_ssf.Wire.{RawMessage, AddSubjectRequest, RemoveSubjectRequest}

-- `addSubjectRequestWire`; `removeSubjectRequestWire` has the subject alone.
pub record AddEnvelope : Type 0 where
  pub subject : RawMessage
  pub verified : Option Bool

pub record SubjectJson (Identifier : Type 0) : Type 0 where
  pub add_envelope : String → Result AddEnvelope
  pub remove_envelope : String → Result RawMessage
  pub parse : RawMessage → Result Identifier

module _ {Identifier : Type 0} (json : SubjectJson Identifier) where
  abbrev pub set_add :
      AddSubjectRequest Identifier
      → Option Bool
      → Result Identifier
      → Option Error × AddSubjectRequest Identifier
  set_add r verified (err e) = (some e, r)
  set_add r verified (ok subject) = (none, record { subject = some subject; verified = verified })

  abbrev pub parse_add :
      AddSubjectRequest Identifier
      → Result AddEnvelope
      → Option Error × AddSubjectRequest Identifier
  parse_add r (err e) = (some e, r)
  parse_add r (ok w) = set_add r w.verified (json.parse w.subject)

  -- `AddSubjectRequest.UnmarshalJSON`
  unfoldable pub unmarshal_add :
      AddSubjectRequest Identifier → String → Option Error × AddSubjectRequest Identifier
  unmarshal_add r bytes = parse_add r (json.add_envelope bytes)

  abbrev pub set_remove :
      RemoveSubjectRequest Identifier
      → Result Identifier
      → Option Error × RemoveSubjectRequest Identifier
  set_remove r (err e) = (some e, r)
  set_remove r (ok subject) = (none, record { subject = some subject })

  abbrev pub parse_remove :
      RemoveSubjectRequest Identifier
      → Result RawMessage
      → Option Error × RemoveSubjectRequest Identifier
  parse_remove r (err e) = (some e, r)
  parse_remove r (ok raw) = set_remove r (json.parse raw)

  -- `RemoveSubjectRequest.UnmarshalJSON`
  unfoldable pub unmarshal_remove :
      RemoveSubjectRequest Identifier → String → Option Error × RemoveSubjectRequest Identifier
  unmarshal_remove r bytes = parse_remove r (json.remove_envelope bytes)

  -- What a decode of a request to add does, whatever the request held: it fails with the envelope's error or
  -- the subject's and leaves the request alone, or it sets both members, the subject to a value.
  add_all_or_nothing :
      (r : AddSubjectRequest Identifier) (bytes : String)
      → ((e : Error) × (unmarshal_add r bytes ≡ (some e, r))
          × ((json.add_envelope bytes ≡ err e)
              ⊎ ((w : AddEnvelope) × (json.add_envelope bytes ≡ ok w)
                  × (json.parse w.subject ≡ err e))))
        ⊎ ((w : AddEnvelope) × (subject : Identifier) × (json.add_envelope bytes ≡ ok w)
            × (json.parse w.subject ≡ ok subject)
            × (unmarshal_add r bytes
                ≡ (none, record { subject = some subject; verified = w.verified })))
  unfolding unmarshal_add
  add_all_or_nothing r bytes = elim (Result-cases (json.add_envelope bytes)) [
    | inl (e, failed) ↦ inl (e, rw failed refl, inl failed)
    | inr (w, split) ↦ elim (Result-cases (json.parse w.subject)) [
      | inl (e, failed) ↦ inl (e, rw (split, failed) refl, inr (w, split, failed))
      | inr (subject, read) ↦ inr (w, subject, split, read, rw (split, read) refl)
    ]
  ]

  -- A request that is encoded, so that its envelope and its subject read back, is decoded as it was, into any
  -- request: nothing of what that one held is left, an absent `verified` included.
  add_read_back :
      (r old : AddSubjectRequest Identifier) (bytes : String) (subject : Identifier)
      (raw : RawMessage)
      → r.subject ≡ some subject
      → json.add_envelope bytes ≡ ok (record { subject = raw; verified = r.verified })
      → json.parse raw ≡ ok subject
      → unmarshal_add old bytes ≡ (none, r)
  unfolding unmarshal_add
  add_read_back r old bytes subject raw given split read = rw (split, read, ← given) refl
