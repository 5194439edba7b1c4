-- ===== src/Store/History.antt =====
-- memstore/memstore.go: what holds of a store after any calls of its methods, in any order. The
-- mutex makes concurrent calls such a sequence.
use go_ssf.Prelude.{
  Option, some, none, List, [], ◌∷◌, String, ◌≡◌, refl, arith, ◌==◌, Bool-cases, Option-cases, inl,
  inr, ◌⊎◌, ◌+◌, subst, sym,
}
use go_ssf.Prelude.Map.{Map, put, IsUnique, put-IsUnique, remove-IsUnique, has, get}
use go_ssf.Errors.{Result-cases}
use go_ssf.Wire.{StreamConfig, StatusUpdateRequest, AddSubjectRequest, RemoveSubjectRequest}
use go_ssf.Store.{InMemoryStore, clone_stream_config, new_in_memory_store}
use go_ssf.Store.Keys.{Json, canonical_subject_key, canonical_subject_key_from_identifier}
use go_ssf.Store.Streams.{
  create_stream, install, update_stream, delete_stream, list_streams, stream_id_text,
}
use go_ssf.Store.Status.{set_stream_status}
use go_ssf.Store.Subjects.{add_subject, remove_subject}
use go_ssf.Store.Queue.{enqueue_set}
use go_ssf.Store.Bijection.{
  IsConsistent, new-IsConsistent, create-IsConsistent, update-IsConsistent, delete-IsConsistent,
  set_status-IsConsistent, add-IsConsistent, remove-IsConsistent, enqueue-IsConsistent,
}
use go_ssf.Store.Listing.{ListsAll, list_streams_lem}

-- The map is as it was, or one key was written.
abbrev IsEdit : Map StreamConfig → Map StreamConfig → Type 0
IsEdit m m' = (m' ≡ m) ⊎ ((id : String) × (cfg : StreamConfig) × (m' ≡ put m id cfg))

IsEdit-IsUnique : (m m' : Map StreamConfig) → IsEdit m m' → IsUnique m → IsUnique m'
IsEdit-IsUnique m m' (inl same) u = subst (λ x. IsUnique x) (sym same) u
IsEdit-IsUnique m m' (inr (id, cfg, e)) u =
    subst (λ x. IsUnique x) (sym e) (put-IsUnique m id cfg u)

create-IsEdit :
    (s : InMemoryStore) (cfg : StreamConfig)
    → IsEdit s.streams (create_stream s (some cfg)).0.streams
unfolding create_stream install
create-IsEdit s cfg = elim (Bool-cases (cfg.stream_id == "")) [
  | inl fresh ↦ inr (
    stream_id_text s.id_seed (s.next_id + 1),
    record (clone_stream_config cfg) { stream_id = stream_id_text s.id_seed (s.next_id + 1) },
    rw fresh,
  )
  | inr named ↦ elim (Bool-cases (has s.streams cfg.stream_id)) [
    | inl taken ↦ inl (rw (named, taken))
    | inr free ↦ inr (
      cfg.stream_id,
      record (clone_stream_config cfg) { stream_id = cfg.stream_id },
      rw (named, free),
    )
  ]
]

update-IsEdit :
    (s : InMemoryStore) (cfg : StreamConfig)
    → IsEdit s.streams (update_stream s (some cfg)).0.streams
unfolding update_stream
update-IsEdit s cfg = elim (Bool-cases (has s.streams cfg.stream_id)) [
  | inl there ↦ inr (cfg.stream_id, clone_stream_config cfg, rw there)
  | inr missing ↦ inl (rw missing)
]

enqueue-streams :
    (s : InMemoryStore) (id jws : String) → (enqueue_set s id jws).0.streams ≡ s.streams
unfolding enqueue_set
enqueue-streams s id jws = ground arith

module _ (j : Json) where
  -- The calls that write to a store.
  pub data Call : Type 0 where
    create : Option StreamConfig → Call
    update : Option StreamConfig → Call
    delete : String → Call
    set_status : String → Option StatusUpdateRequest → Call
    add : String → Option (AddSubjectRequest j.Identifier) → Call
    drop : String → Option (RemoveSubjectRequest j.Identifier) → Call
    enqueue : String → String → Call

  unfoldable pub call : InMemoryStore → Call → InMemoryStore
  call s (create cfg) = (create_stream s cfg).0
  call s (update cfg) = (update_stream s cfg).0
  call s (delete id) = delete_stream s id
  call s (set_status id req) = (set_stream_status j s id req).0
  call s (add id req) = (add_subject j s id req).0
  call s (drop id req) = (remove_subject j s id req).0
  call s (enqueue id jws) = (enqueue_set s id jws).0

  unfoldable pub calls : InMemoryStore → List Call → InMemoryStore
  calls s [] = s
  calls s (c ∷ cs) = calls (call s c) cs

  call-IsConsistent : (s : InMemoryStore) (c : Call) → IsConsistent s → IsConsistent (call s c)
  unfolding call
  call-IsConsistent s (create cfg) h = create-IsConsistent s cfg h
  call-IsConsistent s (update cfg) h = update-IsConsistent s cfg h
  call-IsConsistent s (delete id) h = delete-IsConsistent s id h
  call-IsConsistent s (set_status id req) h = set_status-IsConsistent j s id req h
  call-IsConsistent s (add id req) h = add-IsConsistent j s id req h
  call-IsConsistent s (drop id req) h = remove-IsConsistent j s id req h
  call-IsConsistent s (enqueue id jws) h = enqueue-IsConsistent s id jws h

  calls_from-IsConsistent :
      (s : InMemoryStore) (cs : List Call) → IsConsistent s → IsConsistent (calls s cs)
  unfolding calls
  calls_from-IsConsistent s [] h = h
  calls_from-IsConsistent s (c ∷ cs) h =
      calls_from-IsConsistent (call s c) cs (call-IsConsistent s c h)

  -- After any calls on a new store, failed ones among them, at every id: a status map, a subject
  -- set and a queue are there exactly when a configuration is, the configuration carries that id,
  -- and the status map has the whole-stream entry.
  pub calls-IsConsistent :
      (seed : String) (cs : List Call) → IsConsistent (calls (new_in_memory_store seed) cs)
  calls-IsConsistent seed cs =
      calls_from-IsConsistent (new_in_memory_store seed) cs (new-IsConsistent seed)

  -- The methods for status, subjects and queue do not write configurations.
  set_status-streams :
      (s : InMemoryStore) (id : String) (req : Option StatusUpdateRequest)
      → (set_stream_status j s id req).0.streams ≡ s.streams
  unfolding set_stream_status
  set_status-streams s id none = refl
  set_status-streams s id (some req) = elim (Option-cases (get s.statuses id)) [
    | inl absent ↦ rw (absent, set_stream_status)
    | inr (bucket, there) ↦
        rw (there, set_stream_status)
          (elim (Result-cases (canonical_subject_key j req.subject)) [
            | inl (e, bad) ↦ rw (bad, set_stream_status)
            | inr (key, good) ↦ rw (good, set_stream_status)
          ])
  ]

  add-streams :
      (s : InMemoryStore) (id : String) (req : Option (AddSubjectRequest j.Identifier))
      → (add_subject j s id req).0.streams ≡ s.streams
  unfolding add_subject
  add-streams s id none = refl
  add-streams s id (some req) = elim (Option-cases (get s.subjects id)) [
    | inl absent ↦ rw (absent, add_subject)
    | inr (set, there) ↦
        rw (there, add_subject)
          (elim (Result-cases (canonical_subject_key_from_identifier j req.subject)) [
            | inl (e, bad) ↦ rw (bad, add_subject)
            | inr (key, good) ↦ rw (good, add_subject)
          ])
  ]

  remove-streams :
      (s : InMemoryStore) (id : String) (req : Option (RemoveSubjectRequest j.Identifier))
      → (remove_subject j s id req).0.streams ≡ s.streams
  unfolding remove_subject
  remove-streams s id none = refl
  remove-streams s id (some req) = elim (Option-cases (get s.subjects id)) [
    | inl absent ↦ rw (absent, remove_subject)
    | inr (set, there) ↦
        rw (there, remove_subject)
          (elim (Result-cases (canonical_subject_key_from_identifier j req.subject)) [
            | inl (e, bad) ↦ rw (bad, remove_subject)
            | inr (key, good) ↦ rw (good, remove_subject)
          ])
  ]

  call-IsUnique : (s : InMemoryStore) (c : Call) → IsUnique s.streams → IsUnique (call s c).streams
  unfolding call delete_stream
  call-IsUnique s (create none) u = unfold create_stream in u
  call-IsUnique s (create (some cfg)) u = IsEdit-IsUnique s.streams _ (create-IsEdit s cfg) u
  call-IsUnique s (update none) u = unfold update_stream in u
  call-IsUnique s (update (some cfg)) u = IsEdit-IsUnique s.streams _ (update-IsEdit s cfg) u
  call-IsUnique s (delete id) u = remove-IsUnique s.streams id u
  call-IsUnique s (set_status id req) u = rw (set_status-streams s id req) u
  call-IsUnique s (add id req) u = rw (add-streams s id req) u
  call-IsUnique s (drop id req) u = rw (remove-streams s id req) u
  call-IsUnique s (enqueue id jws) u = rw (enqueue-streams s id jws) u

  calls-IsUnique :
      (s : InMemoryStore) (cs : List Call) → IsUnique s.streams → IsUnique (calls s cs).streams
  unfolding calls
  calls-IsUnique s [] u = u
  calls-IsUnique s (c ∷ cs) u = calls-IsUnique (call s c) cs (call-IsUnique s c u)

  -- After any calls on a new store, failed ones among them, ListStreams gives one page, whatever
  -- the page token, with no continuation token: it is sorted by id, and holds each stream once, as
  -- a read of its id gives it, and nothing else.
  pub calls-ListsAll :
      (seed token : String) (cs : List Call)
      → let s = calls (new_in_memory_store seed) cs in
        ListsAll s (list_streams s token).0 × ((list_streams s token).1 ≡ "")
  calls-ListsAll seed token cs =
      list_streams_lem (calls (new_in_memory_store seed) cs) token (calls-IsConsistent seed cs)
        (calls-IsUnique (new_in_memory_store seed) cs (unfold new_in_memory_store in tt))
