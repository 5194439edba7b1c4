-- ===== src/Interop/Polling.antt =====
-- internal/interop/interop.go with receiver/poller.go: the Poller against the harness. A turn is one round of
-- the Poller whose request PollHandler hands to the harness's PollEvents; the JSON of both ways is taken as
-- faithful, and no round is cancelled. An error is a response with its status.
use go_ssf.Receiver.Sink.{Sink}
use go_ssf.Prelude.{
  ℕ, zero, suc, ltb, Bool, true, false, Option, none, some, List, [], ◌∷◌, String, ◌≡◌, refl, sym,
  subst, ◌∙◌, if◌then◌else◌,
}
use go_ssf.Prelude.Int64.{Int64}
use go_ssf.Prelude.Lists.{length, take, drop, take-drop}
use go_ssf.Prelude.Map.{Map, get, has, IsUnique}
use go_ssf.Errors.{Error, Result, ok, err, or_else}
use go_ssf.Wire.{PollResponse}
use go_ssf.Transmitter.Problem.{Texts, write_problem}
use go_ssf.Receiver.Rounds.{
  PollerConfig, PollReply, response, PollRound, RunState, Next, return, continue,
}
use go_ssf.Receiver.Poller.{request, round, process, poll_once}
use go_ssf.Interop.{
  MemstoreTransmitter, QueueEntry, poll_events, poll_batch, batch_cap, batch_size, more_flag,
}
use go_ssf.Interop.Batch.{put_all-nil, append-IsUnique_front}
use go_ssf.Interop.Delivery.{waiting, unacked, waiting-poll, poll-Conserves}
use go_ssf.Receiver.Poller.Batch.{acked, answers, process-answers}
use go_ssf.Interop.Batch.{acked as listed}
use go_ssf.Interop.Fifo.{stream_there, poll_there, store_kept}
use go_ssf.Receiver.Poller.Parallel.Serial.{sink_after, process_sink}

pub record System (S : Type 0) : Type 0 where
  pub transmitter : MemstoreTransmitter
  pub poller : RunState S

module _ {S : Type 0} (verify : String → Result String) (deliver_set : Sink S)
    (config : PollerConfig) (texts : Texts) (jitter : Int64 → Int64) where
  abbrev pub reply_to : Result PollResponse → PollReply
  reply_to (ok pr) = response 200 "" (ok pr)
  reply_to (err e) = response (write_problem texts e).status "" (err e)

  abbrev pub calm_round : PollReply → PollRound
  calm_round reply = record {
    ctx_err = none;
    build_err = none;
    reply = reply;
    ctx_after = none;
    jitter = jitter;
    sleep = λ d. none;
  }

  abbrev pub resumed : MemstoreTransmitter → Next S → Option (System S)
  resumed t (return e) = none
  resumed t (continue st) = some (record { transmitter = t; poller = st })

  -- After a round that fails, by the error of pollOnce, there is no state.
  abbrev pub unless_failed : Option Error → Option (System S) → Option (System S)
  unless_failed none y = y
  unless_failed (some e) y = none

  unfoldable pub turn : String → System S → Option (System S)
  turn id y =
      let (answer, t) =
        poll_events y.transmitter id (some (request verify deliver_set config y.poller)) in
      let r = calm_round (reply_to answer) in
      unless_failed (poll_once verify deliver_set config y.poller r).1
        (resumed t (round verify deliver_set config y.poller r).after)

  abbrev pub and_then : Option (System S) → (System S → Option (System S)) → Option (System S)
  and_then none f = none
  and_then (some y) f = f y

  unfoldable pub turns : ℕ → String → System S → Option (System S)
  turns zero id y = some y
  turns (suc k) id y = and_then (turn id y) (λ y'. turns k id y')

  -- A response with SETs, or with none, goes through the batch and the Poller goes on.
  round_takes :
      (st : RunState S) (sets : Map String) (hint : Option Bool)
      → let pr : PollResponse = record { sets = sets; more_available = hint } in
        (st' : RunState S) × ((round verify deliver_set config st
            (calm_round (reply_to (ok pr)))).after
          ≡ continue st')
        × ((poll_once verify deliver_set config st (calm_round (reply_to (ok pr)))).1 ≡ none)
        × (st'.sink_state ≡ (process verify deliver_set config pr st.sink_state).1)
        × (st'.next_ack ≡ (process verify deliver_set config pr st.sink_state).0.ack)
  unfolding round process poll_once
  round_takes st [] none = (_, refl, refl, refl, refl)
  round_takes st [] (some true) = (_, refl, refl, refl, refl)
  round_takes st [] (some false) = (_, refl, refl, refl, refl)
  round_takes st (e ∷ sets) none = (_, refl, refl, refl, refl)
  round_takes st (e ∷ sets) (some true) = (_, refl, refl, refl, refl)
  round_takes st (e ∷ sets) (some false) = (_, refl, refl, refl, refl)

  -- How many SETs a turn takes, and which.
  abbrev pub taken : System S → String → ℕ
  taken y id = batch_size (batch_cap (some config.max_events)) (length (waiting y.transmitter id))

  abbrev pub batch : System S → String → List QueueEntry
  batch y id = take (taken y id) (waiting y.transmitter id)

  -- The response to a poll of an existing stream without repeated jtis.
  answer :
      (id : String) (y : System S)
      → has y.transmitter.store.streams id ≡ true
      → IsUnique (batch y id)
      → let req = request verify deliver_set config y.poller in
        poll_events y.transmitter id (some req) ≡ (
          ok (record {
            sets = batch y id;
            more_available = more_flag (ltb (taken y id) (length (waiting y.transmitter id)));
          }),
          (poll_batch y.transmitter id req (waiting y.transmitter id)).1,
        )
  unfolding poll_batch
  answer id y there unique =
      let req = request verify deliver_set config y.poller in
      rw (poll_there y.transmitter id req there) (rw (put_all-nil (batch y id) unique) refl)

  -- The SET of a jti that is outstanding and that the Poller is not about to acknowledge.
  abbrev pub owed : System S → String → String → Option String
  owed y id jti = if listed y.poller.next_ack jti then none else get (unacked y.transmitter id) jti

  outstanding_after :
      (id : String) (y : System S) (jti : String)
      → has y.transmitter.store.streams id ≡ true
      → IsUnique (batch y id)
      → let req = request verify deliver_set config y.poller in
        get (unacked (poll_batch y.transmitter id req (waiting y.transmitter id)).1 id) jti
        ≡ or_else (get (batch y id) jti) (owed y id jti)
  outstanding_after id y jti there unique =
      let (cfg, found) = stream_there y.transmitter.store id there in
      let req = request verify deliver_set config y.poller in
      let kept = (poll-Conserves y.transmitter id req cfg jti found).3 in
      rw (answer id y there unique) at kept

  -- A turn on an existing stream without repeated jtis takes the first SETs that wait through the Poller.
  pub turn_takes :
      (id : String) (y : System S)
      → has y.transmitter.store.streams id ≡ true
      → IsUnique (waiting y.transmitter id)
      → (y' : System S) × (turn id y ≡ some y')
        × (waiting y'.transmitter id ≡ drop (taken y id) (waiting y.transmitter id))
        × (has y'.transmitter.store.streams id ≡ true)
        × (y'.poller.sink_state
            ≡ sink_after verify deliver_set config y.poller.sink_state (batch y id))
        × (y'.poller.next_ack
            ≡ acked (answers verify deliver_set config y.poller.sink_state (batch y id)))
        × ((jti : String)
            → get (unacked y'.transmitter id) jti ≡ or_else (get (batch y id) jti) (owed y id jti))
  unfolding turn
  turn_takes id y there unique =
      let req = request verify deliver_set config y.poller in
      let w = waiting y.transmitter id in
      let whole = subst IsUnique (sym (take-drop (taken y id) w)) unique in
      let sent =
        answer id y there (append-IsUnique_front (batch y id) (drop (taken y id) w) whole) in
      let hint = more_flag (ltb (taken y id) (length w)) in
      let (st', went, fine, sink, acks) = round_takes y.poller (batch y id) hint in
      (
        record { transmitter = (poll_batch y.transmitter id req w).1; poller = st' },
        rw sent (rw (went, fine) refl),
        waiting-poll y.transmitter id req,
        rw (store_kept y.transmitter id req) there,
        sink ∙ process_sink verify deliver_set config (batch y id) hint y.poller.sink_state,
        acks
            ∙ (process-answers verify deliver_set config
                (record { sets = batch y id; more_available = hint }) y.poller.sink_state).0,
        λ jti.
            outstanding_after id y jti there
              (append-IsUnique_front (batch y id) (drop (taken y id) w) whole),
      )
