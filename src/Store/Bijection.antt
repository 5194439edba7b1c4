-- ===== src/Store/Bijection.antt =====
-- memstore/memstore.go: the four maps of the store speak of the same streams, whatever is called.
use go_ssf.Prelude.{
  ◌+◌, true, Option, some, none, [], ◌∷◌, String, ◌≡◌, refl, arith, eq_iff, ◌==◌, Bool-cases,
  Option-cases, inl, inr,
}
use go_ssf.Prelude.Map.{Map, get, put, remove, has, get-put, get-remove}
use go_ssf.Errors.{Result-cases}
use go_ssf.Wire.{
  StreamConfig, StatusResponse, StatusUpdateRequest, AddSubjectRequest, RemoveSubjectRequest,
}
use go_ssf.Store.{InMemoryStore, new_in_memory_store}
use go_ssf.Store.Keys.{Json, canonical_subject_key, canonical_subject_key_from_identifier}
use go_ssf.Store.Streams.{create_stream, install, enabled_response, update_stream, delete_stream}
use go_ssf.Store.Status.{set_stream_status}
use go_ssf.Store.Subjects.{SubjectSet, add_subject, remove_subject}
use go_ssf.Store.Queue.{enqueue_set}

-- At every id: the maps agree on which streams there are, a configuration carries its own id, and
-- a stream has a whole-stream status.
pub record AgreesAt (s : InMemoryStore) (id : String) : Type 0 where
  pub statuses_agree : has s.statuses id ≡ has s.streams id
  pub subjects_agree : has s.subjects id ≡ has s.streams id
  pub queues_agree : has s.queues id ≡ has s.streams id
  pub keyed : (cfg : StreamConfig) → get s.streams id ≡ some cfg → cfg.stream_id ≡ id
  pub whole : (bucket : Map StatusResponse) → get s.statuses id ≡ some bucket → has bucket "" ≡ true

abbrev pub IsConsistent : InMemoryStore → Type 0
IsConsistent s = (id : String) → AgreesAt s id

pub new-IsConsistent : (seed : String) → IsConsistent (new_in_memory_store seed)
unfolding new_in_memory_store get
new-IsConsistent seed id = ground arith

has-enabled : has (("", enabled_response) ∷ []) "" ≡ true
unfolding get
has-enabled = refl

install-IsConsistent :
    (s : InMemoryStore) (id : String) (cfg : StreamConfig)
    → IsConsistent s
    → IsConsistent (install s id cfg).0
unfolding install
install-IsConsistent s id cfg h k = record {
  statuses_agree = simp get-put (ground (arith, h k));
  subjects_agree = simp get-put (ground (arith, h k));
  queues_agree = simp get-put (ground (arith, h k));
  keyed = λ c. simp get-put (ground (arith, (h k).keyed c, eq_iff id k));
  whole = λ b. simp get-put (ground (arith, (h k).whole b, has-enabled));
}

renumber-IsConsistent :
    (s : InMemoryStore) → IsConsistent s → IsConsistent (record s { next_id = s.next_id + 1 })
renumber-IsConsistent s h k = record {
  statuses_agree = (h k).statuses_agree;
  subjects_agree = (h k).subjects_agree;
  queues_agree = (h k).queues_agree;
  keyed = (h k).keyed;
  whole = (h k).whole;
}

pub create-IsConsistent :
    (s : InMemoryStore) (cfg : Option StreamConfig)
    → IsConsistent s
    → IsConsistent (create_stream s cfg).0
unfolding create_stream
create-IsConsistent s none h = h
create-IsConsistent s (some cfg) h = elim (Bool-cases (cfg.stream_id == "")) [
  | inl fresh ↦ rw fresh (
      install-IsConsistent (record s { next_id = s.next_id + 1 }) _ cfg (renumber-IsConsistent s h))
  | inr named ↦ rw named (elim (Bool-cases (has s.streams cfg.stream_id)) [
    | inl taken ↦ rw taken h
    | inr free ↦ rw free (install-IsConsistent s cfg.stream_id cfg h)
  ])
]

pub update-IsConsistent :
    (s : InMemoryStore) (cfg : Option StreamConfig)
    → IsConsistent s
    → IsConsistent (update_stream s cfg).0
unfolding update_stream
update-IsConsistent s none h = h
update-IsConsistent s (some cfg) h = elim (Bool-cases (has s.streams cfg.stream_id)) [
  | inr missing ↦ rw missing h
  | inl there ↦ rw there λ k. record {
    statuses_agree = simp get-put (ground (arith, h k, eq_iff cfg.stream_id k));
    subjects_agree = simp get-put (ground (arith, h k, eq_iff cfg.stream_id k));
    queues_agree = simp get-put (ground (arith, h k, eq_iff cfg.stream_id k));
    keyed = λ c. simp get-put (ground (arith, (h k).keyed c, eq_iff cfg.stream_id k));
    whole = (h k).whole;
  }
]

pub delete-IsConsistent :
    (s : InMemoryStore) (id : String) → IsConsistent s → IsConsistent (delete_stream s id)
unfolding delete_stream
delete-IsConsistent s id h k = record {
  statuses_agree = simp get-remove (ground (arith, h k));
  subjects_agree = simp get-remove (ground (arith, h k));
  queues_agree = simp get-remove (ground (arith, h k));
  keyed = λ c. simp get-remove (ground (arith, (h k).keyed c));
  whole = λ b. simp get-remove (ground (arith, (h k).whole b));
}

-- A write to the status map of a stream that has one.
write-IsConsistent :
    (s : InMemoryStore) (id key : String) (bucket : Map StatusResponse) (resp : StatusResponse)
    → get s.statuses id ≡ some bucket
    → IsConsistent s
    → IsConsistent (record s { statuses = put s.statuses id (put bucket key resp) })
write-IsConsistent s id key bucket resp e h k = record {
  statuses_agree = simp get-put (ground (arith, h k, eq_iff id k));
  subjects_agree = (h k).subjects_agree;
  queues_agree = (h k).queues_agree;
  keyed = (h k).keyed;
  whole = λ b.
      simp get-put (ground (arith, (h k).whole b, (h id).whole bucket, get-put bucket key "" resp));
}

rewrite_set-IsConsistent :
    (s : InMemoryStore) (id : String) (old new : SubjectSet)
    → get s.subjects id ≡ some old
    → IsConsistent s
    → IsConsistent (record s { subjects = put s.subjects id new })
rewrite_set-IsConsistent s id old new e h k = record {
  statuses_agree = (h k).statuses_agree;
  subjects_agree = simp get-put (ground (arith, h k, eq_iff id k));
  queues_agree = (h k).queues_agree;
  keyed = (h k).keyed;
  whole = (h k).whole;
}

pub enqueue-IsConsistent :
    (s : InMemoryStore) (id jws : String) → IsConsistent s → IsConsistent (enqueue_set s id jws).0
unfolding enqueue_set
enqueue-IsConsistent s id jws h = elim (Bool-cases (has s.streams id)) [
  | inr missing ↦ rw missing h
  | inl there ↦ rw there λ k. record {
    statuses_agree = (h k).statuses_agree;
    subjects_agree = (h k).subjects_agree;
    queues_agree = simp get-put (ground (arith, h k, eq_iff id k));
    keyed = (h k).keyed;
    whole = (h k).whole;
  }
]

module _ (j : Json) where
  pub set_status-IsConsistent :
      (s : InMemoryStore) (id : String) (req : Option StatusUpdateRequest)
      → IsConsistent s
      → IsConsistent (set_stream_status j s id req).0
  unfolding set_stream_status
  set_status-IsConsistent s id none h = h
  set_status-IsConsistent s id (some req) h = elim (Option-cases (get s.statuses id)) [
    | inl absent ↦ rw (absent, set_stream_status) h
    | inr (bucket, there) ↦
        rw (there, set_stream_status)
          (elim (Result-cases (canonical_subject_key j req.subject)) [
            | inl (e, bad) ↦ rw (bad, set_stream_status) h
            | inr (key, good) ↦
                rw (good, set_stream_status) (write-IsConsistent s id key bucket _ there h)
          ])
  ]

  pub add-IsConsistent :
      (s : InMemoryStore) (id : String) (req : Option (AddSubjectRequest j.Identifier))
      → IsConsistent s
      → IsConsistent (add_subject j s id req).0
  unfolding add_subject
  add-IsConsistent s id none h = h
  add-IsConsistent s id (some req) h = elim (Option-cases (get s.subjects id)) [
    | inl absent ↦ rw (absent, add_subject) h
    | inr (set, there) ↦
        rw (there, add_subject)
          (elim (Result-cases (canonical_subject_key_from_identifier j req.subject)) [
            | inl (e, bad) ↦ rw (bad, add_subject) h
            | inr (key, good) ↦
                rw (good, add_subject) (rewrite_set-IsConsistent s id set (put set key tt) there h)
          ])
  ]

  pub remove-IsConsistent :
      (s : InMemoryStore) (id : String) (req : Option (RemoveSubjectRequest j.Identifier))
      → IsConsistent s
      → IsConsistent (remove_subject j s id req).0
  unfolding remove_subject
  remove-IsConsistent s id none h = h
  remove-IsConsistent s id (some req) h = elim (Option-cases (get s.subjects id)) [
    | inl absent ↦ rw (absent, remove_subject) h
    | inr (set, there) ↦
        rw (there, remove_subject)
          (elim (Result-cases (canonical_subject_key_from_identifier j req.subject)) [
            | inl (e, bad) ↦ rw (bad, remove_subject) h
            | inr (key, good) ↦
                rw (good, remove_subject)
                  (rewrite_set-IsConsistent s id set (remove set key) there h)
          ])
  ]
