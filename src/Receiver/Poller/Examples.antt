-- ===== src/Receiver/Poller/Examples.antt =====
-- receiver/poller.go: the theorems on a run that polls a batch of three SETs, meets a failure, and
-- polls on. The Sink keeps what it was given.
use go_ssf.Prelude.{
  ◌≤◌, false, ◌||◌, Option, none, some, List, [], ◌∷◌, map, String, ◌≡◌, arith, ◌==◌, if◌then◌else◌,
}
use go_ssf.Prelude.Lists.{length, take}
use go_ssf.Prelude.Map.{has}
use go_ssf.Errors.{Error, message, sentinel, permanent_sink, wrap, canceled, Result, ok, err}
use go_ssf.Wire.{PollResponse}
use go_ssf.Receiver.Backoff.{Backoff, next, reset, IsBounded, backoff-IsBounded}
use go_ssf.Receiver.Rounds.{PollerConfig, PollRound, response, request_error, RunState}
use go_ssf.Receiver.Poller.{process, run}
use go_ssf.Receiver.Poller.Batch.{member, process-IsAccounted}
use go_ssf.Receiver.Poller.Carry.{requests, ledger_of, run-Posts}

-- A verifier that rejects one token, and a Sink that refuses one payload for good.
abbrev verify : String → Result String
verify jws = if jws == "forged" then err (message "bad signature") else ok jws

abbrev sink : List String → String → Option Error × List String
sink seen payload = (
  (if payload == "malformed" then some (wrap "event" (sentinel permanent_sink)) else none),
  payload ∷ seen,
)

abbrev config : PollerConfig
config = record {
  max_events = 100;
  std = record { trim = λ t. t; atoi = λ t. none; until = λ t. none };
  error_text = λ e. "failed";
}

abbrev batch : PollResponse
batch = record {
  sets = ("1", "fine") ∷ ("2", "forged") ∷ ("3", "malformed") ∷ [];
  more_available = none;
}

abbrev calm : Backoff
calm = record {
  initial = 1000000000;
  maximum = 60000000000;
  current = 1000000000;
  jittered = false;
}

calm-IsBounded : IsBounded calm
calm-IsBounded = ground arith

abbrev start : RunState (List String)
start = record {
  next_ack = [];
  next_set_errs = [];
  no_events_backoff = calm;
  error_backoff = calm;
  sink_state = [];
}

abbrev good_round : PollRound
good_round = record {
  ctx_err = none;
  build_err = none;
  reply = response 200 "" (ok batch);
  ctx_after = none;
  jitter = λ d. d;
  sleep = λ d. none;
}

abbrev broken_round : PollRound
broken_round = record good_round { reply = request_error (message "connection refused") }

abbrev done_round : PollRound
done_round = record good_round { ctx_err = some (sentinel canceled) }

abbrev rounds : List PollRound
rounds = good_round ∷ broken_round ∷ good_round ∷ done_round ∷ []

backoff-IsBounded_example :
    IsBounded (next (λ d. d) calm).1
    × (1000000000 ≤ (next (λ d. d) calm).1.current)
    × IsBounded (reset calm)
    × ((reset calm).current ≡ 1000000000)
backoff-IsBounded_example = backoff-IsBounded (λ d. d) calm calm-IsBounded

process-IsAccounted_example :
    let o = (process verify sink config batch []).0 in
    (member "2" o.ack || has o.set_errs "2") ≡ has batch.sets "2"
process-IsAccounted_example = process-IsAccounted verify sink config batch [] "2"

run-Posts_example :
    map (λ t. t.posted) (run verify sink config start rounds)
    ≡ take
        (length (run verify sink config start rounds))
        (requests verify sink config (ledger_of verify sink config start) rounds)
run-Posts_example = run-Posts verify sink config start rounds
