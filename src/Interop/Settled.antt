-- ===== src/Interop/Settled.antt =====
-- internal/interop/interop.go with receiver/poller.go: what the Poller's turns leave of the SETs that wait.
use go_ssf.Receiver.Sink.{Sink}
use go_ssf.Prelude.{
  ℕ, zero, suc, ◌*◌, ◌-◌, ◌≤◌, ◌<◌, true, some, List, [], ◌∷◌, ◌++◌, String, ◌≡◌, refl, sym, ap,
  subst, ◌∙◌, arith,
}
use go_ssf.Prelude.Int64.{Int64, sign_bit}
use go_ssf.Prelude.Lists.{length, take, drop, take-drop, length-drop}
use go_ssf.Prelude.Map.{get, has, IsUnique}
use go_ssf.Errors.{Result, or_else}
use go_ssf.Transmitter.Problem.{Texts}
use go_ssf.Receiver.Rounds.{PollerConfig}
use go_ssf.Receiver.Poller.{deliver_one}
use go_ssf.Receiver.Poller.Batch.{acked, answers}
use go_ssf.Receiver.Poller.Parallel.Serial.{sink_after}
use go_ssf.Interop.{QueueEntry, batch_size}
use go_ssf.Interop.Batch.{append-IsUnique_front, append-IsUnique_back}
use go_ssf.Interop.Delivery.{waiting, unacked}
use go_ssf.Interop.Drain.{cap_kept}
use go_ssf.Interop.Remaining.{remaining, remaining-append, batch_remaining}
use go_ssf.Interop.Polling.{System, turn, turns, taken, owed, turn_takes}

no_length : {A : Type 0} (xs : List A) → length xs ≤ 0 → xs ≡ []
no_length [] h = refl
no_length (x ∷ xs) h = absurd (omega arith)

none_taken : {A : Type 0} (n : ℕ) (xs : List A) → xs ≡ [] → take n xs ≡ []
none_taken zero xs h = refl
none_taken (suc n) [] h = refl
none_taken (suc n) (x ∷ xs) h = absurd (ground (arith, h))

none_dropped : {A : Type 0} (n : ℕ) (xs : List A) → xs ≡ [] → drop n xs ≡ []
none_dropped zero xs h = h
none_dropped (suc n) [] h = refl
none_dropped (suc n) (x ∷ xs) h = absurd (ground (arith, h))

module _ {S : Type 0} (verify : String → Result String) (deliver_set : Sink S)
    (config : PollerConfig) (texts : Texts) (jitter : Int64 → Int64) where
  owed_after :
      (id : String) (y y' : System S) (es : List QueueEntry) (jti : String)
      → IsUnique es
      → y'.poller.next_ack ≡ acked (answers verify deliver_set config y.poller.sink_state es)
      → get (unacked y'.transmitter id) jti
        ≡ or_else (get es jti) (owed verify deliver_set config texts jitter y id jti)
      → owed verify deliver_set config texts jitter y' id jti
        ≡ remaining verify deliver_set config y.poller.sink_state es jti
            (owed verify deliver_set config texts jitter y id jti)
  owed_after id y y' es jti unique acks out =
      rw (acks, out) (batch_remaining verify deliver_set config y.poller.sink_state es jti _ unique)

  fewer : (cap waits k : ℕ) → waits ≤ suc k * cap → waits - batch_size cap waits ≤ k * cap
  fewer cap waits k h = grind arith

  sink_after-append :
      (es more : List QueueEntry) (s : S)
      → sink_after verify deliver_set config (sink_after verify deliver_set config s es) more
        ≡ sink_after verify deliver_set config s (es ++ more)
  unfolding sink_after
  sink_after-append [] more s = refl
  sink_after-append (e ∷ es) more s =
      sink_after-append es more (deliver_one verify deliver_set config s e.1).1

  -- Enough turns leave nothing waiting, each SET delivered, and owed what the answers leave.
  turns_deliver :
      (k : ℕ) (id : String) (y : System S)
      → has y.transmitter.store.streams id ≡ true
      → IsUnique (waiting y.transmitter id)
      → config.max_events < sign_bit
      → length (waiting y.transmitter id) ≤ k * config.max_events
      → (y' : System S) × (turns verify deliver_set config texts jitter k id y ≡ some y')
        × (has y'.transmitter.store.streams id ≡ true)
        × (waiting y'.transmitter id ≡ [])
        × (y'.poller.sink_state
            ≡ sink_after verify deliver_set config y.poller.sink_state (waiting y.transmitter id))
        × ((jti : String)
            → owed verify deliver_set config texts jitter y' id jti
              ≡ remaining verify deliver_set config y.poller.sink_state
                  (waiting y.transmitter id)
                  jti
                  (owed verify deliver_set config texts jitter y id jti))
  unfolding turns
  turns_deliver zero id y there unique small enough =
      let none_waits = no_length (waiting y.transmitter id) (ground (arith, enough)) in
      (
        y,
        refl,
        there,
        none_waits,
        rw none_waits (unfold sink_after in refl),
        λ jti. rw none_waits (unfold remaining in refl),
      )
  turns_deliver (suc k) id y there unique small enough =
      let w = waiting y.transmitter id in
      let n = taken verify deliver_set config texts jitter y id in
      let s = y.poller.sink_state in
      let (y1, went, left, there1, sink, acks, out) =
        turn_takes verify deliver_set config texts jitter id y there unique in
      let whole = subst IsUnique (sym (take-drop n w)) unique in
      let front = append-IsUnique_front (take n w) (drop n w) whole in
      let (y', went', there', none_waits, sink', owed') =
        turns_deliver k id y1 there1 (rw left (append-IsUnique_back (take n w) (drop n w) whole))
          small
          (rw (left, length-drop n w, cap_kept config.max_events small)
            (fewer config.max_events (length w) k enough)) in
      (
        y',
        rw went went',
        there',
        none_waits,
        sink'
            ∙ rw (sink, left) (sink_after-append (take n w) (drop n w) s)
            ∙ ap (sink_after verify deliver_set config s) (take-drop n w),
        λ jti.
            owed' jti
            ∙ rw (sink, left, owed_after id y y1 (take n w) jti front acks (out jti))
                (remaining-append verify deliver_set config s (take n w) (drop n w) jti _)
            ∙ ap
                (λ es.
                  remaining verify deliver_set config s es jti
                    (owed verify deliver_set config texts jitter y id jti))
                (take-drop n w),
      )

  -- The Poller drains the harness, in turns that nothing cancels and whose JSON is faithful: after enough turns
  -- for the number of SETs that wait and one more, on an existing stream without repeated jtis, no round has
  -- failed (turns with a failed round would give no state), nothing waits any more, and the Sink is in the
  -- state that the delivery of each of those SETs, once and in their order, leaves. Outstanding are
  -- then those of them that the Poller did not acknowledge, and, of the jtis that did not wait, what was
  -- outstanding before and the Poller was not about to acknowledge. (The order within one response is that of
  -- the model's map, which Go's map does not keep.)
  pub turns_settle :
      (k : ℕ) (id : String) (y : System S)
      → has y.transmitter.store.streams id ≡ true
      → IsUnique (waiting y.transmitter id)
      → config.max_events < sign_bit
      → length (waiting y.transmitter id) ≤ k * config.max_events
      → (y1 : System S) × (y2 : System S) × (turns verify deliver_set config texts jitter k id y
          ≡ some y1)
        × (turn verify deliver_set config texts jitter id y1 ≡ some y2)
        × (waiting y2.transmitter id ≡ [])
        × (y2.poller.sink_state
            ≡ sink_after verify deliver_set config y.poller.sink_state (waiting y.transmitter id))
        × ((jti : String)
            → get (unacked y2.transmitter id) jti
              ≡ remaining verify deliver_set config y.poller.sink_state
                  (waiting y.transmitter id)
                  jti
                  (owed verify deliver_set config texts jitter y id jti))
  turns_settle k id y there unique small enough =
      let (y1, went, there1, none_waits, sink, owed1) =
        turns_deliver k id y there unique small enough in
      let (y2, went2, left, there2, sink2, acks, out) =
        turn_takes verify deliver_set config texts jitter id y1 there1 (rw none_waits tt) in
      let w = waiting y1.transmitter id in
      let n = taken verify deliver_set config texts jitter y1 id in
      let no_batch = none_taken n w none_waits in
      (
        y1,
        y2,
        went,
        went2,
        left ∙ none_dropped n w none_waits,
        sink2 ∙ rw no_batch (unfold sink_after in sink),
        λ jti. out jti ∙ rw no_batch (unfold get in owed1 jti),
      )
