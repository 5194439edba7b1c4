-- ===== src/Interop/Fifo.antt =====
-- internal/interop/interop.go: sequences of EnqueueForPoll and PollEvents on one stream.
use mathlib.Core.List.{append_assoc, append-nil}
use go_ssf.Prelude.{
  ℕ, true, some, List, [], ◌∷◌, ◌++◌, String, ◌≡◌, refl, sym, ap, subst, ◌∙◌, arith, eq_refl,
  Option-cases, inl, inr,
}
use go_ssf.Prelude.Lists.{length, take, drop, take-drop}
use go_ssf.Prelude.Map.{get, has, get-put, IsUnique}
use go_ssf.Errors.{ok}
use go_ssf.Wire.{StreamConfig, PollRequest}
use go_ssf.Store.{InMemoryStore, clone_stream_config}
use go_ssf.Store.Streams.{get_stream, found_stream}
use go_ssf.Store.Queue.{enqueue_set}
use go_ssf.Interop.{
  MemstoreTransmitter, QueueEntry, enqueue_for_poll, append_entry, poll_events, poll_batch,
  batch_cap, batch_size,
}
use go_ssf.Interop.Batch.{put_all-nil, append-IsUnique_front, append-IsUnique_back}
use go_ssf.Interop.Delivery.{waiting, batch_of, poll_existing, waiting-poll, sets_of}

pub data Step : Type 0 where
  enqueue : String → String → Step
  poll : PollRequest → Step

-- The SETs of the responses, one response after the other, and the state after the steps.
abbrev pub steps : List Step → MemstoreTransmitter → String → List QueueEntry × MemstoreTransmitter
steps [] s id = ([], s)
steps (enqueue jti jws ∷ rest) s id = steps rest (enqueue_for_poll s id jti jws).1 id
steps (poll req ∷ rest) s id =
    let r = poll_events s id (some req) in
    let later = steps rest r.1 id in (sets_of r.0 ++ later.0, later.1)

abbrev pub enqueued : List Step → List QueueEntry
enqueued [] = []
enqueued (enqueue jti jws ∷ rest) = (jti, jws) ∷ enqueued rest
enqueued (poll req ∷ rest) = enqueued rest

exists_after :
    (s : MemstoreTransmitter) (id jti jws : String)
    → has s.store.streams id ≡ true
    → (has (enqueue_for_poll s id jti jws).1.store.streams id ≡ true)
      × (waiting (enqueue_for_poll s id jti jws).1 id ≡ waiting s id ++ (jti, jws) ∷ [])
unfolding enqueue_for_poll append_entry enqueue_set
exists_after s id jti jws there = rw there (there, simp (get-put, eq_refl))

pub stream_there :
    (s : InMemoryStore) (id : String)
    → has s.streams id ≡ true
    → (cfg : StreamConfig) × (get_stream s id ≡ ok cfg)
unfolding get_stream found_stream
stream_there s id there = elim (Option-cases (get s.streams id)) [
  | inl missing ↦ let refused = rw missing at there in ground (arith, refused)
  | inr found ↦ (clone_stream_config found.0, rw found.1 refl)
]

-- A poll of an existing stream, from the state that it leaves.
pub poll_there :
    (s : MemstoreTransmitter) (id : String) (req : PollRequest)
    → has s.store.streams id ≡ true
    → poll_events s id (some req) ≡ poll_batch s id req (waiting s id)
poll_there s id req there =
    let found = stream_there s.store id there in poll_existing s id req found.0 found.1

pub store_kept :
    (s : MemstoreTransmitter) (id : String) (req : PollRequest)
    → (poll_batch s id req (waiting s id)).1.store ≡ s.store
unfolding poll_batch
store_kept s id req = refl

-- The SETs of a batch without repeated jtis are its entries.
pub batch_sent :
    (s : MemstoreTransmitter) (id : String) (req : PollRequest)
    → IsUnique (batch_of s id req)
    → sets_of (poll_batch s id req (waiting s id)).0 ≡ batch_of s id req
unfolding poll_batch
batch_sent s id req h = put_all-nil (batch_of s id req) h

split-IsUnique :
    (n : ℕ) (w more : List QueueEntry)
    → IsUnique (w ++ more)
    → IsUnique (take n w) × IsUnique (drop n w ++ more)
split-IsUnique n w more h =
    let parted =
      subst IsUnique
        (ap (λ l. l ++ more) (sym (take-drop n w)) ∙ append_assoc (take n w) (drop n w) more) h in
    (
      append-IsUnique_front (take n w) (drop n w ++ more) parted,
      append-IsUnique_back (take n w) (drop n w ++ more) parted,
    )

-- On an existing stream, over any sequence of enqueued SETs and polls in which no jti is repeated, the SETs
-- that the responses carry, one response after the other, and then those that still wait are exactly the
-- SETs that waited at first and then those enqueued, in this order. (The order within one response is that
-- of the model's map, which Go's map does not keep.)
pub steps_fifo :
    (ss : List Step) (s : MemstoreTransmitter) (id : String)
    → has s.store.streams id ≡ true
    → IsUnique (waiting s id ++ enqueued ss)
    → (steps ss s id).0 ++ waiting (steps ss s id).1 id ≡ waiting s id ++ enqueued ss
steps_fifo [] s id there unique = sym (append-nil (waiting s id))
steps_fifo (enqueue jti jws ∷ rest) s id there unique =
    let after = exists_after s id jti jws there in
    let order =
      ap (λ l. l ++ enqueued rest) after.1
      ∙ append_assoc (waiting s id) ((jti, jws) ∷ []) (enqueued rest) in
    steps_fifo rest (enqueue_for_poll s id jti jws).1 id after.0 (subst IsUnique (sym order) unique)
    ∙ order
steps_fifo (poll req ∷ rest) s id there unique =
    let n = batch_size (batch_cap req.max_events) (length (waiting s id)) in
    let next = (poll_batch s id req (waiting s id)).1 in
    let parts = split-IsUnique n (waiting s id) (enqueued rest) unique in
    let order = ap (λ l. l ++ enqueued rest) (waiting-poll s id req) in
    rw (poll_there s id req there) (
      rw (batch_sent s id req parts.0) (
        append_assoc (take n (waiting s id)) (steps rest next id).0
          (waiting (steps rest next id).1 id)
        ∙ (ap (λ l. take n (waiting s id) ++ l)
              (steps_fifo rest next id (rw (store_kept s id req) there)
                  (subst IsUnique (sym order) parts.1)
                ∙ order)
            ∙ (sym (append_assoc (take n (waiting s id)) (drop n (waiting s id)) (enqueued rest))
                ∙ ap (λ l. l ++ enqueued rest) (take-drop n (waiting s id))))))
