-- ===== src/Store/Lifecycle.antt =====
-- memstore/memstore.go: what create and update of a stream do to later reads.
use go_ssf.Prelude.{
  ◌+◌, true, false, Option, some, none, [], String, ◌≡◌, ◌≢◌, refl, sym, ap, subst, ◌∙◌, ◌⊎◌, ◌==◌,
  Bool-cases, inl, inr,
}
use text.Mathlib.TextPositions.{eq_refl}
use go_ssf.Prelude.Map.{get, put, has, get-put}
use go_ssf.Errors.{Result, ok, err, is, fails_with, stream_not_found, invalid_config, Error}
use go_ssf.Wire.{StreamConfig}
use go_ssf.Store.{InMemoryStore, clone_stream_config}
use go_ssf.Store.Keys.{Json, canonical_subject_key}
use go_ssf.Store.Streams.{create_stream, install, enabled_response, get_stream, update_stream}
use go_ssf.Store.Status.{get_stream_status}
use go_ssf.Store.Queue.{queued_sets}
use go_ssf.Store.Reads.{clone_idem, clone-with_id, reads_stream, same_stream, same_queue, ne-false}

-- What the reads of a stream say just after it was created, and what those of others say.
pub record CreatedAs (j : Json) (s s' : InMemoryStore) (stored : StreamConfig) : Type 0 where
  pub config : get_stream s' stored.stream_id ≡ ok stored
  pub status : get_stream_status j s' stored.stream_id none ≡ ok enabled_response
  pub queue : queued_sets s' stored.stream_id ≡ ok []
  pub others : (k : String) → k ≢ stored.stream_id → get_stream s' k ≡ get_stream s k
  pub other_queues : (k : String) → k ≢ stored.stream_id → queued_sets s' k ≡ queued_sets s k

install-CreatedAs :
    (j : Json) (s : InMemoryStore) (id : String) (cfg : StreamConfig)
    → CreatedAs j s (install s id cfg).0 (record (clone_stream_config cfg) { stream_id = id })
unfolding install
install-CreatedAs j s id cfg = record {
  config =
      rw
        (reads_stream (install s id cfg).0 id
          {cfg = record (clone_stream_config cfg) { stream_id = id }} (simp (get-put, eq_refl)))
        (rw (clone-with_id cfg id));
  status =
      unfold get_stream_status in
      simp (get-put, eq_refl) (unfold get canonical_subject_key in refl);
  queue = unfold queued_sets in simp (get-put, eq_refl);
  others = λ k ne. same_stream s (install s id cfg).0 k (simp (get-put, ne-false ne));
  other_queues = λ k ne.
      same_queue s (install s id cfg).0 k (simp (get-put, ne-false ne))
        (simp (get-put, ne-false ne));
}

same_result :
    (s : InMemoryStore) (id : String) (cfg : StreamConfig) {stored : StreamConfig}
    → (install s id cfg).1 ≡ ok stored
    → record (clone_stream_config cfg) { stream_id = id } ≡ stored
unfolding install
same_result s id cfg e = cc (clone-with_id cfg id)

created_by_install :
    (j : Json) (s : InMemoryStore) (id : String) (cfg : StreamConfig) {stored : StreamConfig}
    → (install s id cfg).1 ≡ ok stored
    → CreatedAs j s (install s id cfg).0 stored
created_by_install j s id cfg {stored} e =
    subst (λ c. CreatedAs j s (install s id cfg).0 c) (same_result s id cfg e)
      (install-CreatedAs j s id cfg)

-- The counter is no part of what a read sees.
forget_counter :
    (j : Json) (s s' : InMemoryStore) {stored : StreamConfig}
    → CreatedAs j (record s { next_id = s.next_id + 1 }) s' stored
    → CreatedAs j s s' stored
unfolding get_stream queued_sets
forget_counter j s s' h = record {
  config = h.config;
  status = h.status;
  queue = h.queue;
  others = h.others;
  other_queues = h.other_queues;
}

-- A stream that CreateStream returns is what a read of its id returns, enabled, with an empty
-- queue; the configurations and queues of other ids are as before.
pub create-CreatedAs :
    (j : Json) (s : InMemoryStore) (cfg : StreamConfig) {stored : StreamConfig}
    → (create_stream s (some cfg)).1 ≡ ok stored
    → CreatedAs j s (create_stream s (some cfg)).0 stored
unfolding create_stream
create-CreatedAs j s cfg {stored} e = elim (Bool-cases (cfg.stream_id == "")) [
  | inl fresh ↦ rw fresh (
      forget_counter j s _
        (created_by_install j (record s { next_id = s.next_id + 1 }) _ cfg (rw fresh at e)))
  | inr named ↦ rw named (elim (Bool-cases (has s.streams cfg.stream_id)) [
    | inl taken ↦ cc (rw (named, taken) at e)
    | inr free ↦ rw free (created_by_install j s cfg.stream_id cfg (rw (named, free) at e))
  ])
]

-- A refused create changes nothing and is an invalid configuration: there was no configuration, or
-- its id names a stream.
create-refused :
    (s : InMemoryStore) (input : Option StreamConfig) {e : Error}
    → (create_stream s input).1 ≡ err e
    → ((create_stream s input).0 ≡ s)
      × (is e invalid_config ≡ true)
      × ((input ≡ none)
          ⊎ ((cfg : StreamConfig) × (input ≡ some cfg) × (has s.streams cfg.stream_id ≡ true)))
unfolding create_stream install is
create-refused s none h = (refl, cc, inl refl)
create-refused s (some cfg) h = elim (Bool-cases (cfg.stream_id == "")) [
  | inl fresh ↦ cc (rw fresh at h)
  | inr named ↦ elim (Bool-cases (has s.streams cfg.stream_id)) [
    | inl taken ↦ rw (named, taken) (refl, cc (rw (named, taken) at h), inr (cfg, refl, taken))
    | inr free ↦ cc (rw (named, free) at h)
  ]
]

-- What UpdateStream writes and returns where the stream is there.
pub record UpdatedTo (s s' : InMemoryStore) (cfg : StreamConfig) (r : Result StreamConfig)
    : Type 0 where
  pub returned : r ≡ get_stream s' cfg.stream_id
  pub read_back : get_stream s' cfg.stream_id ≡ ok (clone_stream_config cfg)
  pub others : (k : String) → k ≢ cfg.stream_id → get_stream s' k ≡ get_stream s k
  pub rest : s' ≡ record s { streams = s'.streams }

read_updated :
    (s : InMemoryStore) (cfg : StreamConfig)
    → get_stream
        (record s { streams = put s.streams cfg.stream_id (clone_stream_config cfg) })
        cfg.stream_id
      ≡ ok (clone_stream_config cfg)
read_updated s cfg =
    reads_stream _ cfg.stream_id {cfg = clone_stream_config cfg} (simp (get-put, eq_refl))
    ∙ ap ok (clone_idem cfg)

updated :
    (s : InMemoryStore) (cfg : StreamConfig)
    → UpdatedTo s
        (record s { streams = put s.streams cfg.stream_id (clone_stream_config cfg) })
        cfg
        (ok (clone_stream_config (clone_stream_config cfg)))
updated s cfg = record {
  returned = ap ok (clone_idem cfg) ∙ sym (read_updated s cfg);
  read_back = read_updated s cfg;
  others = λ k ne. same_stream s _ k (simp (get-put, ne-false ne));
  rest = refl;
}

-- UpdateStream of a stream that there is replaces its configuration by the given one, which it
-- returns and a read then returns, and writes nothing else; of another it fails with `stream not
-- found` and changes nothing.
pub update_lem :
    (s : InMemoryStore) (cfg : StreamConfig)
    → let (s', r) = update_stream s (some cfg) in
      (has s.streams cfg.stream_id ≡ true) × UpdatedTo s s' cfg r
      ⊎ (has s.streams cfg.stream_id ≡ false) × (s' ≡ s) × (fails_with r stream_not_found ≡ true)
unfolding update_stream is
update_lem s cfg = elim (Bool-cases (has s.streams cfg.stream_id)) [
  | inl there ↦ inl (there, rw there (updated s cfg))
  | inr missing ↦ inr (missing, rw missing, rw missing)
]
