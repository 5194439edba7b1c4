-- ===== src/Store/Status.antt =====
-- memstore/memstore.go: lifecycle status of a stream and of a subject within it.
use go_ssf.Prelude.{Option, none, some, String}
use go_ssf.Prelude.Map.{Map, get, put}
use go_ssf.Errors.{Result, ok, err, invalid_config, stream_not_found, sentinel, wrap}
use go_ssf.Wire.{RawMessage, StatusResponse, StatusUpdateRequest, status_enabled}
use go_ssf.Store.{InMemoryStore, clone_raw, clone_status_response}
use go_ssf.Store.Keys.{Json, canonical_subject_key}

-- The recorded status, else the whole stream's for this subject, else enabled.
unfoldable pub choose_status :
    RawMessage → Option StatusResponse → Option StatusResponse → StatusResponse
unfolding clone_status_response
choose_status subject (some resp) whole = clone_status_response resp
choose_status subject none (some whole) = record (clone_status_response whole) {
  subject = clone_raw subject;
}
choose_status subject none none = record {
  status = status_enabled;
  reason = "";
  subject = clone_raw subject;
}

read_bucket : Map StatusResponse → RawMessage → Result String → Result StatusResponse
unfolding choose_status
read_bucket bucket subject (err e) = err (wrap "memstore: GetStreamStatus" e)
read_bucket bucket subject (ok key) = ok (choose_status subject (get bucket key) (get bucket ""))

record_status :
    InMemoryStore
    → String
    → Map StatusResponse
    → StatusUpdateRequest
    → Result String
    → InMemoryStore × Result StatusResponse
unfolding clone_status_response
record_status s id bucket req (err e) = (s, err (wrap "memstore: SetStreamStatus" e))
record_status s id bucket req (ok key) =
    let resp : StatusResponse = record {
      status = req.status;
      reason = req.reason;
      subject = clone_raw req.subject;
    } in
    (
      record s { statuses = put s.statuses id (put bucket key resp) },
      ok (clone_status_response resp),
    )

module _ (j : Json) where
  read_status : RawMessage → Option (Map StatusResponse) → Result StatusResponse
  unfolding read_bucket
  read_status subject none = err (wrap "memstore: GetStreamStatus" (sentinel stream_not_found))
  read_status subject (some bucket) = read_bucket bucket subject (canonical_subject_key j subject)

  unfoldable pub get_stream_status : InMemoryStore → String → RawMessage → Result StatusResponse
  unfolding read_status
  get_stream_status s id subject = read_status subject (get s.statuses id)

  write_status :
      InMemoryStore
      → String
      → StatusUpdateRequest
      → Option (Map StatusResponse)
      → InMemoryStore × Result StatusResponse
  unfolding record_status
  write_status s id req none =
      (s, err (wrap "memstore: SetStreamStatus" (sentinel stream_not_found)))
  write_status s id req (some bucket) =
      record_status s id bucket req (canonical_subject_key j req.subject)

  -- `bucket` is a Go map, so the write to it is a write to the store's nested map.
  unfoldable pub set_stream_status :
      InMemoryStore → String → Option StatusUpdateRequest → InMemoryStore × Result StatusResponse
  unfolding write_status
  set_stream_status s id none =
      (s, err (wrap "memstore: SetStreamStatus: nil request" (sentinel invalid_config)))
  set_stream_status s id (some req) = write_status s id req (get s.statuses id)
