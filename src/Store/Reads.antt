-- ===== src/Store/Reads.antt =====
-- memstore/memstore.go: copies of a copy, and reads that depend on one entry of a map.
use go_ssf.Prelude.{
  false, some, none, String, ◌≡◌, ◌≢◌, refl, sym, arith, eq_iff, ◌==◌, Bool-cases, inl, inr,
}
use go_ssf.Prelude.Map.{get}
use go_ssf.Errors.{ok}
use go_ssf.Wire.{RawMessage, StreamConfig}
use go_ssf.Store.{InMemoryStore, clone_raw, clone_stream_config}
use go_ssf.Store.Keys.{Json}
use go_ssf.Store.Streams.{get_stream}
use go_ssf.Store.Status.{get_stream_status}
use go_ssf.Store.Queue.{queued_sets}

pub clone_raw_idem : (r : RawMessage) → clone_raw (clone_raw r) ≡ clone_raw r
unfolding clone_raw
clone_raw_idem none = refl
clone_raw_idem (some b) = ground arith

pub clone_idem :
    (cfg : StreamConfig) → clone_stream_config (clone_stream_config cfg) ≡ clone_stream_config cfg
unfolding clone_stream_config
clone_idem cfg = ground (arith, clone_raw_idem cfg.aud)

pub clone-with_id :
    (cfg : StreamConfig) (id : String)
    → let stored : StreamConfig = record (clone_stream_config cfg) { stream_id = id } in
      clone_stream_config stored ≡ stored
unfolding clone_stream_config
clone-with_id cfg id = ground (arith, clone_raw_idem cfg.aud)

pub reads_stream :
    (s : InMemoryStore) (id : String) {cfg : StreamConfig}
    → get s.streams id ≡ some cfg
    → get_stream s id ≡ ok (clone_stream_config cfg)
unfolding get_stream
reads_stream s id e = rw (e, get_stream)

pub same_stream :
    (s s' : InMemoryStore) (id : String)
    → get s'.streams id ≡ get s.streams id
    → get_stream s' id ≡ get_stream s id
unfolding get_stream
same_stream s s' id e = rw (e, get_stream)

pub same_queue :
    (s s' : InMemoryStore) (id : String)
    → get s'.streams id ≡ get s.streams id
    → get s'.queues id ≡ get s.queues id
    → queued_sets s' id ≡ queued_sets s id
unfolding queued_sets
same_queue s s' id e f = rw (e, f)

pub ne-false : {a b : String} → b ≢ a → (a == b) ≡ false
ne-false {a} {b} ne = elim (Bool-cases (a == b)) [
  | inl same ↦ absurd (ne (sym ((eq_iff a b).0 same)))
  | inr other ↦ other
]

pub same_status :
    (j : Json) (s s' : InMemoryStore) (id : String) (subject : RawMessage)
    → get s'.statuses id ≡ get s.statuses id
    → get_stream_status j s' id subject ≡ get_stream_status j s id subject
unfolding get_stream_status
same_status j s s' id subject e = rw (e, get_stream_status)
