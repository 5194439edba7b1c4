-- ===== src/Store/Streams.antt =====
-- memstore/memstore.go: create, read, list, update and delete of streams.
use Prim.Native.String.{◌++◌}
use go_ssf.Prelude.{ℕ, ◌+◌, Option, none, some, List, [], ◌∷◌, String, ◌==◌, if◌then◌else◌}
use go_ssf.Prelude.Decimal.{decimal}
use go_ssf.Prelude.Map.{Map, get, put, remove, has}
use go_ssf.Prelude.TextOrder.{sort}
use go_ssf.Errors.{Result, ok, err, invalid_config, stream_not_found, sentinel, wrap}
use go_ssf.Wire.{StreamConfig, StatusResponse, status_enabled}
use go_ssf.Store.{InMemoryStore, clone_stream_config}

-- `fmt.Sprintf("stream-%s-%d", s.idSeed, s.nextID)`
unfoldable pub stream_id_text : String → ℕ → String
stream_id_text seed n = "stream-" ++ (seed ++ ("-" ++ decimal n))

abbrev pub enabled_response : StatusResponse
enabled_response = record { status = status_enabled; reason = ""; subject = none }

-- The writes that end `CreateStream`.
unfoldable pub install : InMemoryStore → String → StreamConfig → InMemoryStore × Result StreamConfig
unfolding clone_stream_config
install s id cfg =
    let stored : StreamConfig = record (clone_stream_config cfg) { stream_id = id } in
    (
      record s {
        streams = put s.streams id stored;
        statuses = put s.statuses id (("", enabled_response) ∷ []);
        subjects = put s.subjects id [];
        queues = put s.queues id [];
      },
      ok (clone_stream_config stored),
    )

unfoldable pub create_stream :
    InMemoryStore → Option StreamConfig → InMemoryStore × Result StreamConfig
unfolding install
create_stream s none =
    (s, err (wrap "memstore: CreateStream: nil config" (sentinel invalid_config)))
create_stream s (some cfg) =
    if cfg.stream_id == ""
    then install (record s { next_id = s.next_id + 1 }) (stream_id_text s.id_seed (s.next_id + 1))
        cfg
    else if has s.streams cfg.stream_id
    then (
      s,
      err (wrap "memstore: CreateStream: stream_id already in use" (sentinel invalid_config)),
    )
    else install s cfg.stream_id cfg

unfoldable pub found_stream : Option StreamConfig → Result StreamConfig
unfolding clone_stream_config
found_stream none = err (wrap "memstore: GetStream" (sentinel stream_not_found))
found_stream (some cfg) = ok (clone_stream_config cfg)

unfoldable pub get_stream : InMemoryStore → String → Result StreamConfig
unfolding found_stream
get_stream s id = found_stream (get s.streams id)

unfoldable pub keys {ℓ} : {V : Type ℓ} → Map V → List String
keys [] = []
keys ((k, v) ∷ m) = k ∷ keys m

clone_into : Option StreamConfig → List StreamConfig → List StreamConfig
unfolding clone_stream_config
clone_into none rest = rest
clone_into (some cfg) rest = clone_stream_config cfg ∷ rest

-- The copies of the streams of some ids, in the order of the ids. Every id is a key.
unfoldable pub clones_at : Map StreamConfig → List String → List StreamConfig
unfolding clone_into
clones_at m [] = []
clones_at m (id ∷ ids) = clone_into (get m id) (clones_at m ids)

-- One page, with no continuation token; the page token given is ignored. Go's iteration order of a
-- map is unspecified; the order of `keys` is one such order, and the sort forgets it.
unfoldable pub list_streams : InMemoryStore → String → List StreamConfig × String
unfolding keys clones_at
list_streams s page_token = (clones_at s.streams (sort (keys s.streams)), "")

unfoldable pub update_stream :
    InMemoryStore → Option StreamConfig → InMemoryStore × Result StreamConfig
unfolding clone_stream_config
update_stream s none =
    (s, err (wrap "memstore: UpdateStream: nil config" (sentinel invalid_config)))
update_stream s (some cfg) =
    let stored = clone_stream_config cfg in
    if has s.streams cfg.stream_id
    then (
      record s { streams = put s.streams cfg.stream_id stored },
      ok (clone_stream_config stored),
    )
    else (s, err (wrap "memstore: UpdateStream" (sentinel stream_not_found)))

-- It never fails.
unfoldable pub delete_stream : InMemoryStore → String → InMemoryStore
delete_stream s id = record s {
  streams = remove s.streams id;
  statuses = remove s.statuses id;
  subjects = remove s.subjects id;
  queues = remove s.queues id;
}
