-- ===== src/Store/Deletion.antt =====
-- memstore/memstore.go: what the deletion of a stream does to later reads.
use go_ssf.Prelude.{
  true, false, Option, none, String, ◌≡◌, refl, ◌∙◌, arith, Bool, if◌then◌else◌, ◌==◌, Bool-cases,
  inl, inr,
}
use go_ssf.Prelude.Map.{get, get-remove}
use go_ssf.Errors.{wrap, sentinel, err, stream_not_found}
use go_ssf.Wire.{RawMessage}
use go_ssf.Store.{InMemoryStore}
use go_ssf.Store.Keys.{Json}
use go_ssf.Store.Streams.{get_stream, delete_stream}
use go_ssf.Store.Status.{get_stream_status}
use go_ssf.Store.Queue.{queued_sets}
use go_ssf.Store.Reads.{same_stream, same_queue, same_status}

-- A test that came out, in an equation on it.
gone :
    {V : Type 0} {b : Bool} {o : Option V} (p : Option V)
    → b ≡ true
    → o ≡ (if b then none else p)
    → o ≡ none
gone p same e = e ∙ rw same refl

kept : {V : Type 0} {b : Bool} {o p : Option V} → b ≡ false → o ≡ (if b then none else p) → o ≡ p
kept other e = e ∙ rw other refl

missing_config :
    (s : InMemoryStore) (id : String)
    → get s.streams id ≡ none
    → get_stream s id ≡ err (wrap "memstore: GetStream" (sentinel stream_not_found))
unfolding get_stream
missing_config s id e = rw (e, get_stream)

missing_queue :
    (s : InMemoryStore) (id : String)
    → get s.streams id ≡ none
    → queued_sets s id ≡ err (wrap "memstore: QueuedSETs" (sentinel stream_not_found))
unfolding queued_sets
missing_queue s id e = rw e

missing_status :
    (j : Json) (s : InMemoryStore) (id : String) (subject : RawMessage)
    → get s.statuses id ≡ none
    → get_stream_status j s id subject
      ≡ err (wrap "memstore: GetStreamStatus" (sentinel stream_not_found))
unfolding get_stream_status
missing_status j s id subject e = rw (e, get_stream_status)

-- After DeleteStream, every read of that id fails with `stream not found`, the reads of other ids are
-- as before, and a second delete changes no configuration that a read returns.
pub delete_lem :
    (j : Json) (s : InMemoryStore) (id : String)
    → let s' = delete_stream s id in
      ((k : String)
        → get_stream s' k ≡ (
            if id == k
            then err (wrap "memstore: GetStream" (sentinel stream_not_found))
            else get_stream s k))
      × ((k : String)
          → queued_sets s' k ≡ (
              if id == k
              then err (wrap "memstore: QueuedSETs" (sentinel stream_not_found))
              else queued_sets s k))
      × ((k : String) (subject : RawMessage)
          → get_stream_status j s' k subject ≡ (
              if id == k
              then err (wrap "memstore: GetStreamStatus" (sentinel stream_not_found))
              else get_stream_status j s k subject))
      × ((k : String) → get_stream (delete_stream s' id) k ≡ get_stream s' k)
unfolding delete_stream
delete_lem j s id = (
  λ k. elim (Bool-cases (id == k)) [
    | inl same ↦ rw same (
        missing_config (delete_stream s id) k
          (gone (get s.streams k) same (get-remove s.streams id k)))
    | inr other ↦
        rw other (same_stream s (delete_stream s id) k (kept other (get-remove s.streams id k)))
  ],
  λ k. elim (Bool-cases (id == k)) [
    | inl same ↦ rw same (
        missing_queue (delete_stream s id) k
          (gone (get s.streams k) same (get-remove s.streams id k)))
    | inr other ↦ rw other (
        same_queue s (delete_stream s id) k (kept other (get-remove s.streams id k))
          (kept other (get-remove s.queues id k)))
  ],
  λ k subject. elim (Bool-cases (id == k)) [
    | inl same ↦ rw same (
        missing_status j (delete_stream s id) k subject
          (gone (get s.statuses k) same (get-remove s.statuses id k)))
    | inr other ↦
        rw other
          (same_status j s (delete_stream s id) k subject (kept other (get-remove s.statuses id k)))
  ],
  λ k.
      same_stream (delete_stream s id) (delete_stream (delete_stream s id) id) k
        (simp get-remove (ground arith)),
)
