-- ===== src/Store/Naming.antt =====
-- memstore/memstore.go: the ids that CreateStream gives where the caller gives none.
use text.Mathlib.TextLemmas.{append_cancel_left}
use go_ssf.Prelude.{
  ℕ, ◌+◌, ◌<◌, some, none, true, false, List, [], String, ◌≡◌, arith, eq_iff, ◌==◌, eq_refl,
}
use go_ssf.Prelude.Decimal.{decimal-injective}
use go_ssf.Prelude.Map.{get, get-put}
use go_ssf.Errors.{ok}
use go_ssf.Wire.{StreamConfig}
use go_ssf.Store.{InMemoryStore, clone_stream_config}
use go_ssf.Store.Streams.{create_stream, install, stream_id_text}
use go_ssf.Store.Reads.{clone-with_id, ne-false}

stream_id_text-injective :
    (seed : String) (n m : ℕ) → stream_id_text seed n ≡ stream_id_text seed m → n ≡ m
unfolding stream_id_text
stream_id_text-injective seed n m e =
    decimal-injective n m (
      append_cancel_left "-" _ _ (append_cancel_left seed _ _ (append_cancel_left "stream-" _ _ e)))

-- No stream has an id that the counter has yet to give.
pub record IsUnspent (s : InMemoryStore) : Type 0 where
  pub free : (n : ℕ) → s.next_id < n → get s.streams (stream_id_text s.id_seed n) ≡ none

-- Where no stream has an id that the counter has yet to give, a create without an id takes an id
-- that no stream had, returns it, and leaves that so.
create-IsUnspent :
    (s : InMemoryStore) (cfg : StreamConfig)
    → IsUnspent s
    → cfg.stream_id ≡ ""
    → (stored : StreamConfig) × ((create_stream s (some cfg)).1 ≡ ok stored)
      × (get s.streams stored.stream_id ≡ none)
      × IsUnspent (create_stream s (some cfg)).0
unfolding create_stream install
create-IsUnspent s cfg u e = (
  record (clone_stream_config cfg) { stream_id = stream_id_text s.id_seed (s.next_id + 1) },
  rw (is_empty e) (rw (clone-with_id cfg _)),
  u.free (s.next_id + 1) (omega arith),
  rw (is_empty e)
      (record { free = λ n late. simp get-put (rw (other n late) (u.free n (omega arith))) }),
)
  where
    is_empty : cfg.stream_id ≡ "" → (cfg.stream_id == "") ≡ true
    is_empty p = (eq_iff cfg.stream_id "").1 p

    other :
        (n : ℕ)
        → s.next_id + 1 < n
        → (stream_id_text s.id_seed (s.next_id + 1) == stream_id_text s.id_seed n) ≡ false
    other n late =
        ne-false (λ same.
          absurd (omega (arith, stream_id_text-injective s.id_seed n (s.next_id + 1) same)))

-- A create without an id does not look whether its generated id is taken: if a caller has named a
-- stream so, the create succeeds with that id, and the configuration and the queued SETs of that stream
-- are gone.
pub create_overwrites :
    (s : InMemoryStore) (cfg old : StreamConfig) (waiting : List String)
    → cfg.stream_id ≡ ""
    → get s.streams (stream_id_text s.id_seed (s.next_id + 1)) ≡ some old
    → get s.queues (stream_id_text s.id_seed (s.next_id + 1)) ≡ some waiting
    → let id = stream_id_text s.id_seed (s.next_id + 1) in
      ((create_stream s (some cfg)).1 ≡ ok (record (clone_stream_config cfg) { stream_id = id }))
      × (get (create_stream s (some cfg)).0.streams id
          ≡ some (record (clone_stream_config cfg) { stream_id = id }))
      × (get (create_stream s (some cfg)).0.queues id ≡ some [])
unfolding create_stream install
create_overwrites s cfg old waiting e p q =
    rw ((eq_iff cfg.stream_id "").1 e)
      (rw (clone-with_id cfg _), simp (get-put, eq_refl), simp (get-put, eq_refl))
