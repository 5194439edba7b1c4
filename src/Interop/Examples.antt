-- ===== src/Interop/Examples.antt =====
-- internal/interop/interop.go: a stream with two SETs that wait.
use go_ssf.Errors.{Error, Result, ok, message, is}
use go_ssf.Transmitter.Problem.{Texts}
use go_ssf.Receiver.Backoff.{Backoff}
use go_ssf.Receiver.Rounds.{PollerConfig}
use go_ssf.Receiver.Poller.{deliver_one, by_verify, by_sink}
use go_ssf.Receiver.Poller.Parallel.Serial.{sink_after}
use go_ssf.Interop.Polling.{System, turn, turns}
use go_ssf.Interop.Remaining.{remaining}
use go_ssf.Interop.Settled.{turns_settle}
use go_ssf.Prelude.{
  ◌==◌, if◌then◌else◌, Option, none, false, List, String, some, [], ◌∷◌, ◌++◌, ◌≡◌, refl, arith,
}
use go_ssf.Prelude.Map.{get, put}
use go_ssf.Wire.{PollRequest}
use go_ssf.Store.{InMemoryStore, clone_stream_config, clone_raw, clone_strings}
use go_ssf.Store.Streams.{get_stream, found_stream}
use go_ssf.Client.Methods.{zero_config}
use go_ssf.Interop.{MemstoreTransmitter, poll_events, poll_batch, batch_cap, put_all}
use go_ssf.Interop.Delivery.{waiting, unacked, poll-Conserves}
use go_ssf.Interop.Fifo.{enqueue, poll, steps, steps_fifo}
use go_ssf.Interop.Drain.{capped, drain, drain_stops}

abbrev store : InMemoryStore
store = record {
  streams = ("stream-1", zero_config) ∷ [];
  statuses = [];
  subjects = [];
  queues = [];
  next_id = 0;
  id_seed = "00";
}

abbrev two_waiting : MemstoreTransmitter
two_waiting = record {
  store = store;
  pending = ("stream-1", ("jti-1", "jws-1") ∷ ("jti-2", "jws-2") ∷ []) ∷ [];
  outstanding = [];
  observed_set_errs = [];
}

abbrev one_asked : PollRequest
one_asked = capped 1 ("jti-0" ∷ [])

poll-Conserves_example :
    get (unacked (poll_events two_waiting "stream-1" (some one_asked)).1 "stream-1") "jti-1"
    ≡ some "jws-1"
unfolding get get_stream found_stream clone_stream_config clone_raw clone_strings poll_events
    poll_batch put put_all batch_cap
poll-Conserves_example =
    (poll-Conserves two_waiting "stream-1" one_asked zero_config "jti-1" refl).3

steps_fifo_example :
    (steps
        (poll one_asked ∷ enqueue "jti-3" "jws-3" ∷ poll one_asked ∷ [])
        two_waiting
        "stream-1").0
      ++ waiting
          (steps
            (poll one_asked ∷ enqueue "jti-3" "jws-3" ∷ poll one_asked ∷ [])
            two_waiting
            "stream-1").1
          "stream-1"
    ≡ ("jti-1", "jws-1") ∷ ("jti-2", "jws-2") ∷ ("jti-3", "jws-3") ∷ []
unfolding get
steps_fifo_example =
    steps_fifo (poll one_asked ∷ enqueue "jti-3" "jws-3" ∷ poll one_asked ∷ []) two_waiting
      "stream-1" refl (refl, (refl, (refl, tt)))

drain_stops_example :
    (t : MemstoreTransmitter) × (drain 3 two_waiting "stream-1" 1 []
      ≡ some (("jti-1", "jws-1") ∷ ("jti-2", "jws-2") ∷ [], t))
    × (waiting t "stream-1" ≡ [])
unfolding get
drain_stops_example =
    drain_stops 3 two_waiting "stream-1" 1 [] refl (refl, (refl, tt)) (omega arith) (omega arith)
      (omega arith)

-- A Poller with batches of one, whose Sink keeps what it is given but has no room for one of the SETs.
abbrev verify : String → Result String
verify jws = ok jws

abbrev keep : List String → String → Option Error × List String
keep seen payload =
    if payload == "jws-2" then (some (message "busy"), seen) else (none, payload ∷ seen)

abbrev config : PollerConfig
config = record {
  max_events = 1;
  std = record { trim = λ t. t; atoi = λ t. none; until = λ t. none };
  error_text = λ e. "failed";
}

abbrev texts : Texts
texts = record { error_text = λ e. "failed"; trim = λ t. t; quote = λ t. t }

abbrev calm : Backoff
calm = record {
  initial = 1000000000;
  maximum = 60000000000;
  current = 1000000000;
  jittered = false;
}

abbrev harness : System (List String)
harness = record {
  transmitter = two_waiting;
  poller = record {
    next_ack = [];
    next_set_errs = [];
    no_events_backoff = calm;
    error_backoff = calm;
    sink_state = [];
  };
}

turns_settle_example :
    (y1 : System (List String)) × (y2 : System (List String)) × (turns verify keep config texts
        (λ d. d)
        2
        "stream-1"
        harness
      ≡ some y1)
    × (turn verify keep config texts (λ d. d) "stream-1" y1 ≡ some y2)
    × (waiting y2.transmitter "stream-1" ≡ [])
    × (y2.poller.sink_state ≡ "jws-1" ∷ [])
    × ((jti : String)
        → get (unacked y2.transmitter "stream-1") jti
          ≡ (if "jti-2" == jti then some "jws-2" else if "jti-1" == jti then none else none))
unfolding get sink_after remaining deliver_one by_verify by_sink is
turns_settle_example =
    turns_settle verify keep config texts (λ d. d) 2 "stream-1" harness refl (refl, (refl, tt))
      (omega arith) (omega arith)
