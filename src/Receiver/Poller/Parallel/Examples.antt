-- ===== src/Receiver/Poller/Parallel/Examples.antt =====
-- receiver/poller.go: a batch of three SETs at two workers, which deliver and record out of order.
use mathlib.Core.List.{Permᴰ}
use go_ssf.Prelude.{
  ◌≤◌, Option, none, some, List, [], ◌∷◌, String, ◌≡◌, refl, arith, ◌==◌, if◌then◌else◌,
}
use go_ssf.Prelude.Lists.{length}
use go_ssf.Prelude.Map.{get}
use go_ssf.Errors.{Error, message, sentinel, permanent_sink, wrap, Result, ok, err, is}
use go_ssf.Wire.{PollResponse}
use go_ssf.Receiver.Rounds.{PollerConfig}
use go_ssf.Receiver.Poller.{process, deliver_one}
use go_ssf.Receiver.Poller.Parallel.{
  Entry, Move, take_next, deliver, record_answer, run_pool, start_pool, IsDone, pool_outcome, step,
}
use go_ssf.Receiver.Poller.Parallel.Refines.{parallel_refines_serial}
use go_ssf.Receiver.Poller.Parallel.Finish.{parallel_finishes, moves_left}

-- A verifier that rejects one token, and a Sink that keeps what it was given and refuses one payload for
-- good.
abbrev verify : String → Result String
verify jws = if jws == "forged" then err (message "bad signature") else ok jws

abbrev sink : List String → String → Option Error × List String
sink seen payload = (
  (if payload == "malformed" then some (wrap "event" (sentinel permanent_sink)) else none),
  payload ∷ seen,
)

abbrev config : PollerConfig
config = record {
  max_events = 100;
  std = record { trim = λ t. t; atoi = λ t. none; until = λ t. none };
  error_text = λ e. "failed";
}

abbrev batch : PollResponse
batch = record {
  sets = ("1", "fine") ∷ ("2", "forged") ∷ ("3", "malformed") ∷ [];
  more_available = none;
}

-- The second entry is delivered before the first, and the third is recorded before it.
abbrev moves : List Move
moves =
    take_next
    ∷ take_next
    ∷ take_next
    ∷ deliver 1
    ∷ record_answer 0
    ∷ take_next
    ∷ deliver 1
    ∷ record_answer 0
    ∷ deliver 0
    ∷ record_answer 0
    ∷ []

seen_out_of_order :
    (run_pool verify sink config 2 (start_pool verify sink config batch.sets []) moves).sink_state
    ≡ "fine" ∷ "malformed" ∷ []
unfolding run_pool step deliver_one is
seen_out_of_order = refl

parallel_refines_serial_example :
    let p = run_pool verify sink config 2 (start_pool verify sink config batch.sets []) moves in
    (order : List Entry) × Permᴰ order batch.sets
    × (let (o, s) =
          process verify sink config
            (record { sets = order; more_available = batch.more_available })
            [] in
        let pooled = pool_outcome verify sink config batch p in
        Permᴰ pooled.ack o.ack
        × ((j : String) → get pooled.set_errs j ≡ get o.set_errs j)
        × (pooled.delivered_count ≡ o.delivered_count)
        × (p.sink_state ≡ s))
unfolding run_pool step deliver_one is get
parallel_refines_serial_example =
    parallel_refines_serial verify sink config [] batch 2 moves (refl, (refl, (refl, tt)))
      (refl, refl, refl)

parallel_finishes_example :
    let p =
      run_pool verify sink config 2
        (start_pool verify sink config batch.sets [])
        (take_next ∷ []) in
    (more : List Move) × IsDone verify sink config (run_pool verify sink config 2 p more)
    × (length more ≤ moves_left verify sink config 2 p)
parallel_finishes_example =
    parallel_finishes verify sink config 2 batch.sets [] (take_next ∷ []) (omega arith)
