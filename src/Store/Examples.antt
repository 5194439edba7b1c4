-- ===== src/Store/Examples.antt =====
-- memstore/memstore.go: a store of two streams, and the theorems on it.
use go_ssf.Prelude.{
  Option, none, some, List, [], ◌∷◌, String, ◌≡◌, ◌≢◌, refl, arith, ◌==◌, eq_iff, if◌then◌else◌,
}
use go_ssf.Prelude.Map.{get}
use go_ssf.Errors.{ok}
use go_ssf.Prelude.Decimal.{decimal}
use go_ssf.Wire.{RawMessage, StreamConfig, StatusUpdateRequest, status_paused}
use go_ssf.Store.{InMemoryStore, new_in_memory_store, clone_stream_config}
use go_ssf.Store.Keys.{Json, JsonLaws, canonical_subject_key}
use go_ssf.Store.Streams.{enabled_response, create_stream, list_streams, stream_id_text}
use go_ssf.Store.Status.{get_stream_status, set_stream_status}
use go_ssf.Store.Queue.{queued_sets}
use go_ssf.Store.Bijection.{IsConsistent}
use go_ssf.Store.Listing.{ListsAll}
use go_ssf.Store.History.{
  Call, create, set_status, enqueue, calls, calls-IsConsistent, calls-ListsAll,
}
use go_ssf.Store.Naming.{IsUnspent, create_overwrites}
use go_ssf.Store.Scopes.{canonical_idem, subject_status_isolated}
use go_ssf.StreamStore.{MeetsContract}
use go_ssf.Store.Contract.{in_memory_store, calls-MeetsContract}
use go_ssf.Store.Fifo.{enqueue_all, queued-enqueue_all_ne}

-- Texts as JSON values, where the empty text is not valid.
abbrev text_marshal : String → Option String
text_marshal v = if v == "" then none else some v

abbrev texts : Json
texts = record {
  Value = String;
  unmarshal = λ t. some t;
  marshal = text_marshal;
  Identifier = String;
  marshal_identifier = λ t. some t;
}

texts-JsonLaws : JsonLaws texts
texts-JsonLaws = record {
  marshal_ne = λ v {t} e. ground (arith, e, eq_iff v "", eq_iff t "");
  decodes = λ v {t} e. ground (arith, e);
}

abbrev config : String → StreamConfig
config id = record {
  stream_id = id;
  iss = "https://tr.example";
  aud = some "[\"rx\"]";
  events_supported = none;
  events_requested = some ("session-revoked" ∷ []);
  events_delivered = none;
  delivery = record {
    method = "urn:ietf:rfc:8936";
    endpoint_url = "";
    authorization_header = "";
    unknown = none;
  };
  min_verification_interval = 0;
  format = "";
}

abbrev pause : Option String → StatusUpdateRequest
pause subject = record { status = status_paused; reason = "maintenance"; subject = subject }

-- A stream `a` with a member `alice` and a SET that waits.
abbrev one_stream : InMemoryStore
one_stream = record {
  streams = ("a", config "a") ∷ [];
  statuses = ("a", ("", enabled_response) ∷ []) ∷ [];
  subjects = ("a", ("alice", tt) ∷ []) ∷ [];
  queues = ("a", "jws-1" ∷ []) ∷ [];
  next_id = 0;
  id_seed = "0badcafe";
}

-- A store where a caller has named a stream as the counter will name the next one.
abbrev squatted : InMemoryStore
squatted = record one_stream {
  streams = ("stream-0badcafe-1", config "stream-0badcafe-1") ∷ [];
  queues = ("stream-0badcafe-1", "jws-1" ∷ []) ∷ [];
}

alice-ne : ◌≢◌ {A = String} "alice" ""
alice-ne e = ground (arith, e, (eq_iff "alice" "").1 e)

bob-ne_alice : ◌≢◌ {A = String} "bob" "alice"
bob-ne_alice e = ground (arith, e, (eq_iff "bob" "alice").1 e)

b-ne_a : ◌≢◌ {A = String} "b" "a"
b-ne_a e = ground (arith, e, (eq_iff "b" "a").1 e)

abbrev two_calls : List (Call texts)
two_calls =
    create (some (config "a")) ∷ set_status "b" (some (pause none)) ∷ enqueue "a" "jws-1" ∷ []

calls-IsConsistent_example : IsConsistent (calls texts (new_in_memory_store "0badcafe") two_calls)
calls-IsConsistent_example = calls-IsConsistent texts "0badcafe" two_calls

calls-ListsAll_example :
    ListsAll
      (calls texts (new_in_memory_store "0badcafe") two_calls)
      (list_streams (calls texts (new_in_memory_store "0badcafe") two_calls) "page-2").0
    × ((list_streams (calls texts (new_in_memory_store "0badcafe") two_calls) "page-2").1 ≡ "")
calls-ListsAll_example = calls-ListsAll texts "0badcafe" "page-2" two_calls

new-IsUnspent : IsUnspent (new_in_memory_store "0badcafe")
unfolding new_in_memory_store get
new-IsUnspent = record { free = λ n late. refl }

create_overwrites_example :
    let id = stream_id_text "0badcafe" 1 in
    ((create_stream squatted (some (config ""))).1
      ≡ ok (record (clone_stream_config (config "")) { stream_id = id }))
    × (get (create_stream squatted (some (config ""))).0.streams id
        ≡ some (record (clone_stream_config (config "")) { stream_id = id }))
    × (get (create_stream squatted (some (config ""))).0.queues id ≡ some [])
unfolding stream_id_text decimal get
create_overwrites_example =
    create_overwrites squatted (config "") (config "stream-0badcafe-1") ("jws-1" ∷ []) refl refl
      refl

canonical_idem_example : canonical_subject_key texts (some "alice") ≡ ok "alice"
unfolding canonical_subject_key
canonical_idem_example = canonical_idem texts "alice" {key = "alice"} texts-JsonLaws alice-ne refl

subject_status_isolated_example :
    let s' = (set_stream_status texts one_stream "a" (some (pause (some "alice")))).0 in
    (get_stream_status texts s' "a" none ≡ get_stream_status texts one_stream "a" none)
    × (get_stream_status texts s' "a" (some "bob")
        ≡ get_stream_status texts one_stream "a" (some "bob"))
    × ((any : RawMessage)
        → get_stream_status texts s' "b" any ≡ get_stream_status texts one_stream "b" any)
unfolding canonical_subject_key get
subject_status_isolated_example =
    subject_status_isolated texts one_stream "a" "b" (pause (some "alice")) "alice" (some "bob")
      {bucket = ("", enabled_response) ∷ []} {key = "alice"} {at = "bob"} texts-JsonLaws refl refl
      alice-ne refl refl bob-ne_alice b-ne_a

queued-enqueue_all_ne_example :
    queued_sets (enqueue_all one_stream "a" ("jws-2" ∷ [])) "b" ≡ queued_sets one_stream "b"
queued-enqueue_all_ne_example = queued-enqueue_all_ne one_stream "a" "b" ("jws-2" ∷ []) b-ne_a

calls-MeetsContract_example : MeetsContract (in_memory_store texts) (
    calls texts
      (new_in_memory_store "0badcafe")
      (create (some (config "")) ∷ enqueue "stream-0badcafe-1" "jws-1" ∷ []))
calls-MeetsContract_example =
    calls-MeetsContract texts "0badcafe"
      (create (some (config "")) ∷ enqueue "stream-0badcafe-1" "jws-1" ∷ [])
