-- ===== src/Interop.antt =====
-- internal/interop/interop.go: the harness's Transmitter, a store and the bookkeeping of poll delivery. Its
-- mutex makes each method one step on the state; PollEvents reads the store before it takes the mutex, and
-- no call of the store stands between. A nil request of PollEvents panics, which is an error here.
pub mod Batch
pub mod Delivery
pub mod Fifo
pub mod Drain
pub mod Polling
pub mod Remaining
pub mod Settled
mod Examples
use go_ssf.Prelude.{
  ℕ, ◌+◌, ◌-◌, ◌%◌, Bool, true, false, Option, none, some, List, [], ◌∷◌, ◌++◌, String, ltb, eqb,
  if◌then◌else◌,
}
use go_ssf.Prelude.Lists.{length, take, drop}
use go_ssf.Prelude.Int64.{Int64, slt}
use go_ssf.Prelude.Map.{Map, get, put, remove}
use go_ssf.Errors.{Error, Result, ok, err, wrap, message}
use go_ssf.Wire.{SetErr, StreamConfig, PollRequest, PollResponse}
use go_ssf.Store.{InMemoryStore}
use go_ssf.Store.Keys.{Json}
use go_ssf.Store.Streams.{get_stream, list_streams, create_stream, update_stream, delete_stream}
use go_ssf.Store.Status.{get_stream_status, set_stream_status}
use go_ssf.Store.Subjects.{add_subject, remove_subject}
use go_ssf.Store.Queue.{enqueue_set}
use go_ssf.Transmitter.Interface.{Transmitter, Page, Done, not_implemented_transmitter}

-- `queueEntry`, the jti with the JWS
abbrev pub QueueEntry : Type 0
QueueEntry = String × String

pub record MemstoreTransmitter : Type 0 where
  pub store : InMemoryStore
  pub pending : Map (List QueueEntry)
  pub outstanding : Map (Map String)
  pub observed_set_errs : Map (Map SetErr)

-- `NewMemstoreTransmitter`
abbrev pub new_memstore_transmitter : InMemoryStore → MemstoreTransmitter
new_memstore_transmitter store = record {
  store = store;
  pending = [];
  outstanding = [];
  observed_set_errs = [];
}

-- A missing slice or map reads as an empty one.
abbrev pub or_nothing : {A : Type 0} → Option (List A) → List A
or_nothing none = []
or_nothing (some xs) = xs

-- The entry is appended only when the store takes the SET.
unfoldable pub append_entry :
    MemstoreTransmitter
    → String
    → QueueEntry
    → InMemoryStore × Result Done
    → Result Done × MemstoreTransmitter
append_entry s id e (store, err x) =
    (err (wrap "interop: enqueue via store" x), record s { store = store })
append_entry s id e (store, ok d) = (
  ok tt,
  record s { store = store; pending = put s.pending id (or_nothing (get s.pending id) ++ e ∷ []) },
)

unfoldable pub enqueue_for_poll :
    MemstoreTransmitter → String → String → String → Result Done × MemstoreTransmitter
enqueue_for_poll s id jti jws = append_entry s id (jti, jws) (enqueue_set s.store id jws)

unfoldable pub outstanding_count : MemstoreTransmitter → String → ℕ
outstanding_count s id = length (or_nothing (get s.outstanding id))

-- `ObservedSetErrs`; a copy of the map is the map.
unfoldable pub observed_errs : MemstoreTransmitter → Map (Map SetErr)
observed_errs s = s.observed_set_errs

-- The acknowledged entries are dropped from the outstanding ones of the stream.
unfoldable pub drop_acked : Map String → List String → Map String
drop_acked m [] = m
drop_acked m (jti ∷ acks) = drop_acked (remove m jti) acks

unfoldable pub apply_acks :
    Map (Map String) → String → List String → Option (Map String) → Map (Map String)
apply_acks all id acks none = all
apply_acks all id acks (some m) = put all id (drop_acked m acks)

unfoldable pub put_all : {V : Type 0} → Map V → Map V → Map V
put_all m [] = m
put_all m ((k, v) ∷ entries) = put_all (put m k v) entries

unfoldable pub record_errs : Map (Map SetErr) → String → Map SetErr → Map (Map SetErr)
record_errs all id [] = all
record_errs all id (e ∷ errs) = put all id (put_all (or_nothing (get all id)) (e ∷ errs))

abbrev pub default_poll_batch_cap : Int64
default_poll_batch_cap = 64

abbrev pub requested_cap : Option Int64 → Int64
requested_cap none = default_poll_batch_cap
requested_cap (some n) = n

unfoldable pub batch_cap : Option Int64 → ℕ
batch_cap max = if slt (requested_cap max) 0 then 0 else requested_cap max

-- The number of entries that a poll takes.
abbrev pub batch_size : ℕ → ℕ → ℕ
batch_size cap waiting = if ltb waiting cap then waiting else cap

abbrev pub more_flag : Bool → Option Bool
more_flag true = some true
more_flag false = none

-- The entries of a batch become outstanding; a batch of none leaves even the map of the stream out.
abbrev pub now_outstanding : Map (Map String) → String → List QueueEntry → Map (Map String)
now_outstanding all id [] = all
now_outstanding all id (e ∷ batch) = put all id (put_all (or_nothing (get all id)) (e ∷ batch))

unfoldable pub poll_batch :
    MemstoreTransmitter
    → String
    → PollRequest
    → List QueueEntry
    → Result PollResponse × MemstoreTransmitter
unfolding apply_acks record_errs batch_cap put_all
poll_batch s id req waiting =
    let n = batch_size (batch_cap req.max_events) (length waiting) in
    let batch = take n waiting in
    (
      ok (record { sets = put_all [] batch; more_available = more_flag (ltb n (length waiting)) }),
      record s {
        pending = put s.pending id (drop n waiting);
        outstanding =
            now_outstanding (apply_acks s.outstanding id req.ack (get s.outstanding id)) id batch;
        observed_set_errs = record_errs s.observed_set_errs id req.set_errs;
      },
    )

by_stream :
    MemstoreTransmitter
    → String
    → Option PollRequest
    → Result StreamConfig
    → Result PollResponse × MemstoreTransmitter
unfolding poll_batch
by_stream s id req (err e) = (err e, s)
by_stream s id none (ok cfg) = (err (message "nil pointer dereference"), s)
by_stream s id (some req) (ok cfg) = poll_batch s id req (or_nothing (get s.pending id))

unfoldable pub poll_events :
    MemstoreTransmitter → String → Option PollRequest → Result PollResponse × MemstoreTransmitter
unfolding by_stream
poll_events s id req = by_stream s id req (get_stream s.store id)

-- What a method of the store gives, with the store put back.
abbrev pub delegated :
    {A : Type 0} → MemstoreTransmitter → InMemoryStore × Result A → Result A × MemstoreTransmitter
delegated s (store, r) = (r, record s { store = store })

abbrev pub listed : List StreamConfig × String → Result Page
listed (configs, next) = ok (some configs, next)

unfoldable pub delete_config : MemstoreTransmitter → String → Result Done × MemstoreTransmitter
delete_config s id = (
  ok tt,
  record s {
    pending = remove s.pending id;
    outstanding = remove s.outstanding id;
    observed_set_errs = remove s.observed_set_errs id;
    store = delete_stream s.store id;
  },
)

-- `MemstoreTransmitter` as a `transmitter.Transmitter`
abbrev pub memstore_transmitter : (j : Json) → Transmitter j.Identifier MemstoreTransmitter
memstore_transmitter j = record not_implemented_transmitter {
  get_config = λ s id. (get_stream s.store id, s);
  list_config = λ s token. (listed (list_streams s.store token), s);
  create_config = λ s cfg. delegated s (create_stream s.store cfg);
  update_config = λ s cfg. delegated s (update_stream s.store cfg);
  delete_config = delete_config;
  get_status = λ s id subject. (get_stream_status j s.store id subject, s);
  update_status = λ s id req. delegated s (set_stream_status j s.store id req);
  add_subject = λ s id req. delegated s (add_subject j s.store id req);
  remove_subject = λ s id req. delegated s (remove_subject j s.store id req);
  poll_events = poll_events;
}
