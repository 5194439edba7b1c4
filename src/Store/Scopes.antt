-- ===== src/Store/Scopes.antt =====
-- memstore/memstore.go: canonical subject keys, and the status of a stream against that of a
-- subject within it.
use go_ssf.Prelude.{
  false, some, none, String, ◌≡◌, ◌≢◌, refl, sym, ◌∙◌, arith, eq_refl, ◌==◌, Option-cases, inl, inr,
  if◌then◌else◌,
}
use go_ssf.Prelude.Map.{Map, get, put, get-put}
use go_ssf.Errors.{ok}
use go_ssf.Wire.{RawMessage, StatusResponse, StatusUpdateRequest}
use go_ssf.Store.{InMemoryStore, clone_raw, clone_status_response}
use go_ssf.Store.Keys.{Json, JsonLaws, canonical_subject_key}
use go_ssf.Store.Status.{get_stream_status, set_stream_status, choose_status}
use go_ssf.Store.Reads.{clone_raw_idem, ne-false, same_status}

not-empty : {raw : String} → raw ≢ "" → (raw == "") ≡ false
not-empty ne = ne-false (λ e. ne (sym e))

-- A status as the store keeps it.
abbrev pub recorded : StatusUpdateRequest → StatusResponse
recorded req = record { status = req.status; reason = req.reason; subject = clone_raw req.subject }

clone-recorded : (req : StatusUpdateRequest) → clone_status_response (recorded req) ≡ recorded req
unfolding clone_status_response
clone-recorded req = ground (arith, clone_raw_idem req.subject)

module _ (j : Json) where
  -- A key of a non-empty subject is what encoding gives of the value that the subject decodes to.
  key_parts :
      (raw : String) {key : String}
      → raw ≢ ""
      → canonical_subject_key j (some raw) ≡ ok key
      → (v : j.Value) × (j.unmarshal raw ≡ some v) × (j.marshal v ≡ some key)
  unfolding canonical_subject_key
  key_parts raw ne h = elim (Option-cases (j.unmarshal raw)) [
    | inl bad ↦ cc (rw (not-empty ne, bad, canonical_subject_key) at h)
    | inr (v, decoded) ↦ elim (Option-cases (j.marshal v)) [
      | inl bad ↦ cc (rw (not-empty ne, decoded, bad, canonical_subject_key) at h)
      | inr (t, encoded) ↦ (
        v,
        decoded,
        encoded ∙ cc (rw (not-empty ne, decoded, encoded, canonical_subject_key) at h),
      )
    ]
  ]

  key-ne :
      (raw : String) {key : String}
      → JsonLaws j
      → raw ≢ ""
      → canonical_subject_key j (some raw) ≡ ok key
      → key ≢ ""
  key-ne raw laws ne h = let (v, decoded, encoded) = key_parts raw ne h in laws.marshal_ne v encoded

  -- The canonical form of a subject is its own canonical form, so a caller may send either.
  pub canonical_idem :
      (raw : String) {key : String}
      → JsonLaws j
      → raw ≢ ""
      → canonical_subject_key j (some raw) ≡ ok key
      → canonical_subject_key j (some key) ≡ ok key
  unfolding canonical_subject_key
  canonical_idem raw {key} laws ne h =
      let (v, decoded, encoded) = key_parts raw ne h in
      rw (not-empty (laws.marshal_ne v encoded), laws.decodes v encoded, canonical_subject_key)
        (rw (encoded, canonical_subject_key))

  -- A read is decided by what is recorded under its key and under the whole stream's.
  read_at :
      (s : InMemoryStore) (id : String) (subject : RawMessage) {bucket : Map StatusResponse}
      {key : String}
      → get s.statuses id ≡ some bucket
      → canonical_subject_key j subject ≡ ok key
      → get_stream_status j s id subject
        ≡ ok (choose_status subject (get bucket key) (get bucket ""))
  unfolding get_stream_status
  read_at s id subject e f = rw (e, get_stream_status) (rw (f, get_stream_status))

  write_at :
      (s : InMemoryStore) (id : String) (req : StatusUpdateRequest) {bucket : Map StatusResponse}
      {key : String}
      → get s.statuses id ≡ some bucket
      → canonical_subject_key j req.subject ≡ ok key
      → set_stream_status j s id (some req) ≡ (
        record s { statuses = put s.statuses id (put bucket key (recorded req)) },
        ok (recorded req),
      )
  unfolding set_stream_status
  write_at s id req e f =
      rw (e, set_stream_status) (rw (f, set_stream_status) (rw (clone-recorded req)))

  -- A read after the write, for any key.
  read-write :
      (s : InMemoryStore) (id : String) (req : StatusUpdateRequest) (subject : RawMessage)
      {bucket : Map StatusResponse} {key at : String}
      → get s.statuses id ≡ some bucket
      → canonical_subject_key j req.subject ≡ ok key
      → canonical_subject_key j subject ≡ ok at
      → get_stream_status j (set_stream_status j s id (some req)).0 id subject
        ≡ ok (
            choose_status subject
              (if key == at then some (recorded req) else get bucket at)
              (if key == "" then some (recorded req) else get bucket ""))
  read-write s id req subject {bucket} {key} {at} e f g = rw (write_at s id req e f) (
      read_at _ id subject {bucket = put bucket key (recorded req)} (simp (get-put, eq_refl)) g
      ∙ simp get-put)

  -- After a status is set, a read of the same scope, in any spelling with the same canonical form,
  -- returns what the set returned: the requested status and reason.
  pub status_read_back :
      (s : InMemoryStore) (id : String) (req : StatusUpdateRequest) (subject : RawMessage)
      {bucket : Map StatusResponse} {key : String}
      → get s.statuses id ≡ some bucket
      → canonical_subject_key j req.subject ≡ ok key
      → canonical_subject_key j subject ≡ ok key
      → (get_stream_status j (set_stream_status j s id (some req)).0 id subject
          ≡ (set_stream_status j s id (some req)).1)
        × ((set_stream_status j s id (some req)).1 ≡ ok (recorded req))
  unfolding choose_status
  status_read_back s id req subject e f g = (
    rw (read-write s id req subject e f g)
        (rw (write_at s id req e f) (simp (eq_refl, choose_status, clone-recorded))),
    rw (write_at s id req e f),
  )

  -- A status set for a subject is not seen by a read of the whole stream, nor by one of a subject
  -- with another canonical form, nor by any of another stream, be it for the same subject.
  pub subject_status_isolated :
      (s : InMemoryStore) (id other : String) (req : StatusUpdateRequest) (raw : String)
      (subject : RawMessage) {bucket : Map StatusResponse} {key at : String}
      → JsonLaws j
      → get s.statuses id ≡ some bucket
      → req.subject ≡ some raw
      → raw ≢ ""
      → canonical_subject_key j (some raw) ≡ ok key
      → canonical_subject_key j subject ≡ ok at
      → at ≢ key
      → other ≢ id
      → let s' = (set_stream_status j s id (some req)).0 in
        (get_stream_status j s' id none ≡ get_stream_status j s id none)
        × (get_stream_status j s' id subject ≡ get_stream_status j s id subject)
        × ((any : RawMessage) → get_stream_status j s' other any ≡ get_stream_status j s other any)
  subject_status_isolated s id other req raw subject {bucket} {key} {at} laws e r ne f g apart
        away =
      let f' : canonical_subject_key j req.subject ≡ ok key = rw r f in
      let whole : (key == "") ≡ false = not-empty (key-ne raw laws ne f) in
      let empty : canonical_subject_key j none ≡ ok "" = unfold canonical_subject_key in refl in
      (
        rw (read-write s id req none e f' empty) (rw (read_at s id none e empty) (simp whole)),
        rw (read-write s id req subject e f' g)
            (rw (read_at s id subject e g) (simp (whole, ne-false apart))),
        λ any.
            rw (write_at s id req e f')
              (same_status j s _ other any (simp (get-put, ne-false away))),
      )

  -- A status set for the whole stream is what a read of a subject returns, echoing the subject,
  -- as long as nothing is recorded for that subject.
  status_inherited :
      (s : InMemoryStore) (id : String) (req : StatusUpdateRequest) (raw : String)
      {bucket : Map StatusResponse} {at : String}
      → JsonLaws j
      → get s.statuses id ≡ some bucket
      → req.subject ≡ none
      → raw ≢ ""
      → canonical_subject_key j (some raw) ≡ ok at
      → get bucket at ≡ none
      → get_stream_status j (set_stream_status j s id (some req)).0 id (some raw)
        ≡ ok (record { status = req.status; reason = req.reason; subject = some raw })
  unfolding choose_status clone_raw
  status_inherited s id req raw {bucket} {at} laws e r ne g unset =
      let f : canonical_subject_key j req.subject ≡ ok "" =
        rw r (unfold canonical_subject_key in refl) in
      let apart : ("" == at) ≡ false = ne-false (key-ne raw laws ne g) in
      rw (read-write s id req (some raw) e f g)
        (simp (apart, unset, not-empty ne, choose_status, clone_raw))
