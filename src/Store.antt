-- ===== src/Store.antt =====
-- memstore/memstore.go: the in-memory StreamStore. Every method holds the store's mutex for its
-- whole call, so a method is one step on the state. The state and the copies are here, the methods
-- in the modules below by the state that they touch, then what is proved of them.
pub mod Keys
pub mod Streams
pub mod Status
pub mod Subjects
pub mod Queue
pub mod Bijection
pub mod Listing
pub mod History
pub mod Reads
pub mod Lifecycle
pub mod Deletion
pub mod Naming
pub mod Scopes
pub mod Membership
pub mod Fifo
pub mod Contract
mod Examples
use go_ssf.Prelude.{ℕ, ◌+◌, Option, none, some, List, [], ◌∷◌, String, ◌==◌, if◌then◌else◌}
use go_ssf.Prelude.Map.{Map}
use go_ssf.Wire.{RawMessage, Strings, StreamConfig, StatusResponse}

pub record InMemoryStore : Type 0 where
  pub streams : Map StreamConfig
  pub statuses : Map (Map StatusResponse)
  pub subjects : Map (Map (Unit {0}))
  pub queues : Map (List String)
  pub next_id : ℕ
  pub id_seed : String

-- `NewInMemoryStore`; the seed is the text of four random bytes
unfoldable pub new_in_memory_store : String → InMemoryStore
new_in_memory_store seed = record {
  streams = [];
  statuses = [];
  subjects = [];
  queues = [];
  next_id = 0;
  id_seed = seed;
}

-- A nil or empty input gives nil. The copy has the input's bytes; that it shares no memory with
-- the input is not visible in values.
unfoldable pub clone_raw : RawMessage → RawMessage
clone_raw none = none
clone_raw (some bytes) = if bytes == "" then none else some bytes

unfoldable pub clone_strings : Strings → Strings
clone_strings none = none
clone_strings (some xs) = some xs

unfoldable pub clone_stream_config : StreamConfig → StreamConfig
unfolding clone_raw clone_strings
clone_stream_config cfg = record cfg {
  aud = clone_raw cfg.aud;
  events_supported = clone_strings cfg.events_supported;
  events_requested = clone_strings cfg.events_requested;
  events_delivered = clone_strings cfg.events_delivered;
}

unfoldable pub clone_status_response : StatusResponse → StatusResponse
unfolding clone_raw
clone_status_response resp = record resp { subject = clone_raw resp.subject }
