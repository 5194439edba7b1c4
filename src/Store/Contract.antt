-- ===== src/Store/Contract.antt =====
-- memstore/memstore.go: the in-memory store as a StreamStore, and that it keeps the interface's rules.
use go_ssf.Prelude.{
  true, false, List, Option, some, none, String, ◌≡◌, refl, sym, ap, ◌∙◌, inl, inr, Option-cases,
  eq_refl,
}
use go_ssf.Prelude.Map.{Map, get, put, remove, has, get-put, put_twice, remove_twice}
use go_ssf.Errors.{ok, is, fails_with, stream_not_found, Result-cases}
use go_ssf.Wire.{
  StreamConfig, StatusResponse, StatusUpdateRequest, AddSubjectRequest, RemoveSubjectRequest,
}
use go_ssf.StreamStore.{StreamStore, IsMissing, OthersKept, RefusesMissing, MeetsContract}
use go_ssf.Store.{InMemoryStore, new_in_memory_store}
use go_ssf.Store.Keys.{Json, canonical_subject_key, canonical_subject_key_from_identifier}
use go_ssf.Store.Streams.{
  create_stream, get_stream, list_streams, update_stream, delete_stream, found_stream,
}
use go_ssf.Store.Status.{get_stream_status, set_stream_status}
use go_ssf.Store.Subjects.{add_subject, remove_subject}
use go_ssf.Store.Queue.{enqueue_set}
use go_ssf.Store.Bijection.{IsConsistent, AgreesAt}
use go_ssf.Store.Reads.{ne-false}
use go_ssf.Store.Lifecycle.{create-CreatedAs, update_lem}
use go_ssf.Store.Deletion.{delete_lem}
use go_ssf.Store.Membership.{added_at, removed_at}
use go_ssf.Store.Scopes.{status_read_back}
use go_ssf.Store.History.{Call, calls, calls-IsConsistent}

-- `InMemoryStore` as a `StreamStore`
abbrev pub in_memory_store : (j : Json) → StreamStore j.Identifier InMemoryStore
in_memory_store j = record {
  create_stream = create_stream;
  get_stream = get_stream;
  list_streams = λ s token. ok (list_streams s token);
  update_stream = update_stream;
  delete_stream = λ s id. (delete_stream s id, ok tt);
  get_stream_status = get_stream_status j;
  set_stream_status = set_stream_status j;
  add_subject = add_subject j;
  remove_subject = remove_subject j;
  enqueue_set = enqueue_set;
}

absent_by :
    (o : Option StreamConfig) → fails_with (found_stream o) stream_not_found ≡ true → o ≡ none
unfolding found_stream
absent_by none h = refl
absent_by (some cfg) h = cc

has-none : {V : Type 0} (m : Map V) (id : String) → has m id ≡ false → get m id ≡ none
has-none m id h = elim (Option-cases (get m id)) [
  | inl absent ↦ absent
  | inr (v, there) ↦ cc (rw there at h)
]

module _ (j : Json) where
  missing-RefusesMissing :
      (s : InMemoryStore) (id : String)
      → AgreesAt s id
      → IsMissing (in_memory_store j) s id
      → RefusesMissing (in_memory_store j) s id
  unfolding get_stream update_stream get_stream_status set_stream_status add_subject remove_subject
      enqueue_set is
  missing-RefusesMissing s id agrees gone =
      let none_stored = absent_by (get s.streams id) gone in
      let no_stream : has s.streams id ≡ false = rw none_stored refl in
      let no_status = has-none s.statuses id (agrees.statuses_agree ∙ no_stream) in
      let no_subjects = has-none s.subjects id (agrees.subjects_agree ∙ no_stream) in
      record {
        update = λ cfg e.
            let absent : has s.streams cfg.stream_id ≡ false =
              ap (λ k. has s.streams k) e ∙ no_stream in
            rw absent (refl, refl);
        status = λ subject. rw (no_status, get_stream_status) refl;
        set_status = λ req. rw (no_status, set_stream_status) (refl, refl);
        add = λ req. rw (no_subjects, add_subject) (refl, refl);
        remove = λ req. rw (no_subjects, remove_subject) (refl, refl);
        enqueue = λ jws. rw no_stream (refl, refl);
      }

  updated_read :
      (s : InMemoryStore) (cfg : StreamConfig) {stored : StreamConfig}
      → (update_stream s (some cfg)).1 ≡ ok stored
      → let s' = (update_stream s (some cfg)).0 in
        (get_stream s' cfg.stream_id ≡ ok stored)
        × OthersKept (in_memory_store j) s s' cfg.stream_id
  updated_read s cfg h = elim (update_lem s cfg) [
    | inl (there, u) ↦ (sym u.returned ∙ h, u.others)
    | inr (missing, same, fails) ↦ cc (rw h at fails)
  ]

  deleted_read :
      (s : InMemoryStore) (id : String)
      → let s' = delete_stream s id in
        IsMissing (in_memory_store j) s' id × OthersKept (in_memory_store j) s s' id
  unfolding is
  deleted_read s id =
      let (reads, _, _, _) = delete_lem j s id in
      (rw (reads id, eq_refl id) refl, λ k ne. rw (reads k, ne-false ne) refl)

  added_again :
      (s : InMemoryStore) (id : String) (req : AddSubjectRequest j.Identifier)
      → (add_subject j s id (some req)).1 ≡ ok tt
      → let s' = (add_subject j s id (some req)).0 in add_subject j s' id (some req) ≡ (s', ok tt)
  added_again s id req h = elim (Option-cases (get s.subjects id)) [
    | inl absent ↦ unfold add_subject in cc (rw (absent, add_subject) at h)
    | inr (set, there) ↦ elim (Result-cases (canonical_subject_key_from_identifier j req.subject)) [
      | inl (e, bad) ↦
          unfold add_subject in cc (rw (bad, add_subject) at (rw (there, add_subject) at h))
      | inr (key, good) ↦
          let s1 : InMemoryStore = record s { subjects = put s.subjects id (put set key tt) } in
          rw (added_at j s id req there good) (
            added_at j s1 id req {set = put set key tt} (simp (get-put, eq_refl)) good
            ∙ simp put_twice)
    ]
  ]

  removed_again :
      (s : InMemoryStore) (id : String) (req : RemoveSubjectRequest j.Identifier)
      → (remove_subject j s id (some req)).1 ≡ ok tt
      → let s' = (remove_subject j s id (some req)).0 in
        remove_subject j s' id (some req) ≡ (s', ok tt)
  removed_again s id req h = elim (Option-cases (get s.subjects id)) [
    | inl absent ↦ unfold remove_subject in cc (rw (absent, remove_subject) at h)
    | inr (set, there) ↦ elim (Result-cases (canonical_subject_key_from_identifier j req.subject)) [
      | inl (e, bad) ↦
          unfold remove_subject in
          cc (rw (bad, remove_subject) at (rw (there, remove_subject) at h))
      | inr (key, good) ↦
          let s1 : InMemoryStore = record s { subjects = put s.subjects id (remove set key) } in
          rw (removed_at j s id req there good) (
            removed_at j s1 id req {set = remove set key} (simp (get-put, eq_refl)) good
            ∙ simp (put_twice, remove_twice))
    ]
  ]

  status_read :
      (s : InMemoryStore) (id : String) (req : StatusUpdateRequest) {resp : StatusResponse}
      → (set_stream_status j s id (some req)).1 ≡ ok resp
      → get_stream_status j (set_stream_status j s id (some req)).0 id req.subject ≡ ok resp
  status_read s id req h = elim (Option-cases (get s.statuses id)) [
    | inl absent ↦ unfold set_stream_status in cc (rw (absent, set_stream_status) at h)
    | inr (bucket, there) ↦ elim (Result-cases (canonical_subject_key j req.subject)) [
      | inl (e, bad) ↦
          unfold set_stream_status in
          cc (rw (bad, set_stream_status) at (rw (there, set_stream_status) at h))
      | inr (key, good) ↦ (status_read_back j s id req req.subject there good good).0 ∙ h
    ]
  ]

  consistent-MeetsContract :
      (s : InMemoryStore) → IsConsistent s → MeetsContract (in_memory_store j) s
  consistent-MeetsContract s h = record {
    created = λ cfg e. let c = create-CreatedAs j s cfg e in (c.config, c.others);
    updated = λ cfg e. updated_read s cfg e;
    deleted = λ id. let (gone, others) = deleted_read s id in (refl, gone, others, refl);
    missing = λ id gone. missing-RefusesMissing s id (h id) gone;
    added_again = added_again s;
    removed_again = removed_again s;
    status_read = λ id req e. status_read s id req e;
  }

  -- The in-memory store keeps the rules of the StreamStore interface in every state that calls of its methods,
  -- failed ones among them, make of a new store: what a create or an update returns is what is then stored, and
  -- the other configurations are as before; a delete never fails, and afterwards the stream is missing; every
  -- other method named after a stream that is missing fails with `stream not found` and changes nothing; to add
  -- or to remove a subject again changes nothing and is no error; a status that was set is read back.
  pub calls-MeetsContract :
      (seed : String) (cs : List (Call j))
      → MeetsContract (in_memory_store j) (calls j (new_in_memory_store seed) cs)
  calls-MeetsContract seed cs = consistent-MeetsContract _ (calls-IsConsistent j seed cs)
