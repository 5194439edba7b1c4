-- ===== src/Receiver/Poller/Parallel/Refines.antt =====
-- receiver/poller.go: parallel delivery refines serial delivery, and comes to an end.
use go_ssf.Receiver.Sink.{Sink}
use mathlib.Core.List.Permᴰ
use mathlib.Core.List.{Permᴰ, append-nil}
use go_ssf.Prelude.{ℕ, none, List, String, ◌≡◌, sym, ◌∙◌}
use go_ssf.Prelude.Map.{get, IsUnique}
use go_ssf.Errors.{Result}
use go_ssf.Wire.{PollResponse}
use go_ssf.Receiver.Rounds.{PollerConfig}
use go_ssf.Receiver.Poller.{process}
use go_ssf.Receiver.Poller.Batch.{answers, process-answers}
use go_ssf.Receiver.Poller.Parallel.{Entry, Pool, Move, run_pool, start_pool, IsDone, pool_outcome}
use go_ssf.Receiver.Poller.Parallel.Keyed.{Perm-SameEntries, reported-Perm, acked-Perm, length-Perm}
use go_ssf.Receiver.Poller.Parallel.Serial.{
  Course, start-Course, run-Course, answers-IsUnique, process_sink,
}

module _ {S : Type 0} (verify : String → Result String) (deliver_set : Sink S)
    (config : PollerConfig) (start : S) (pr : PollResponse) where
  abbrev in_order : List Entry → PollResponse
  in_order es = record { sets = es; more_available = pr.more_available }

  refined :
      (p : Pool S)
      → IsUnique pr.sets
      → IsDone verify deliver_set config p
      → Course verify deliver_set config start pr.sets p
      → (order : List Entry) × Permᴰ order pr.sets
        × (let (o, s) = process verify deliver_set config (in_order order) start in
            let pooled = pool_outcome verify deliver_set config pr p in
            Permᴰ pooled.ack o.ack
            × ((j : String) → get pooled.set_errs j ≡ get o.set_errs j)
            × (pooled.delivered_count ≡ o.delivered_count)
            × (p.sink_state ≡ s))
  unfolding pool_outcome
  refined p unique (no_queue, no_held, no_answers) c =
      let order = c.order in
      let batch : Permᴰ order pr.sets = rw (no_held, no_queue, append-nil) at c.batch in
      let given : Permᴰ c.records (answers verify deliver_set config start order) =
        rw (no_answers, append-nil) at c.given in
      let serial = process-answers verify deliver_set config (in_order order) start in
      let unique_order = (Perm-SameEntries (Permᴰ.symm batch) unique).0 in
      let unique_answers = answers-IsUnique verify deliver_set config start order unique_order in
      let unique_records = (Perm-SameEntries (Permᴰ.symm given) unique_answers).0 in
      let acks : Permᴰ p.ack (process verify deliver_set config (in_order order) start).0.ack =
        rw (c.acks, serial.0) (acked-Perm given) in
      (
        order,
        batch,
        (
          acks,
          (λ j.
              c.reports j
              ∙ reported-Perm j c.records _ none given unique_records
              ∙ sym (serial.1 j)),
          length-Perm acks ∙ sym serial.2,
          c.sink ∙ sym (process_sink verify deliver_set config order pr.more_available start),
        ),
      )

  -- Parallel delivery is serial delivery of the batch in some order: whatever the number of workers and the
  -- moves of the scheduler, when the pool of a batch without a repeated id is done, there is an order of the
  -- batch for which serial delivery leaves the Sink in the same state, reports the same error for each id and
  -- acknowledges the same ids, as many, if perhaps in another order.
  pub parallel_refines_serial :
      (workers : ℕ) (ms : List Move)
      → IsUnique pr.sets
      → let p =
          run_pool verify deliver_set config workers
            (start_pool verify deliver_set config pr.sets start)
            ms in
        IsDone verify deliver_set config p
        → (order : List Entry) × Permᴰ order pr.sets
          × (let (o, s) = process verify deliver_set config (in_order order) start in
              let pooled = pool_outcome verify deliver_set config pr p in
              Permᴰ pooled.ack o.ack
              × ((j : String) → get pooled.set_errs j ≡ get o.set_errs j)
              × (pooled.delivered_count ≡ o.delivered_count)
              × (p.sink_state ≡ s))
  parallel_refines_serial workers ms unique done = refined _ unique done (
      run-Course verify deliver_set config start pr.sets workers _ ms
        (start-Course verify deliver_set config start pr.sets))
