-- ===== src/Receiver/Poller/Cadence.antt =====
-- receiver/poller.go: when `Run` sleeps, how long, and when it returns.
use go_ssf.Receiver.Sink.{Sink}
use go_ssf.Prelude.{
  not, subst, ℕ, ◌/◌, Bool, true, false, ◌||◌, Option, none, some, List, [], ◌∷◌, String, ◌≡◌, refl,
  ap, ◌∙◌, ◌⊎◌, inl, inr, arith, eqb, if◌then◌else◌, Bool-cases,
}
use go_ssf.Prelude.Int64.{Int64, slt, sle}
use go_ssf.Prelude.Lists.{All}
use go_ssf.Prelude.Map.{Map}
use go_ssf.Errors.{Error, Result, ok, err}
use go_ssf.Wire.{PollResponse}
use go_ssf.Receiver.Backoff.{IsBounded, backoff-IsBounded, next}
use go_ssf.Receiver.Poller.Ends.{Holds, failed-Holds, succeeded-Holds}
use go_ssf.Receiver.Poller.Carry.{accepted, accepted_by}
use go_ssf.Receiver.Rounds.{
  PollOutcome, PollReply, request_error, response, PollRound, PollerConfig, RunState, Next, return,
  continue,
}
use go_ssf.Receiver.Poller.{
  process, poll_once, round, run, after_sleep, failed, succeeded, decide, by_context, by_reply,
  by_build, by_body, follow, hint_of, no_sets,
}

abbrev given : PollResponse → Option PollResponse → PollResponse
given q none = q
given q (some p) = p

module _ {S : Type 0} (verify : String → Result String) (deliver_set : Sink S)
    (config : PollerConfig) where
  -- Both backoffs are between their first values and their ceilings.
  abbrev pub IsSteady : RunState S → Type 0
  IsSteady st = IsBounded st.no_events_backoff × IsBounded st.error_backoff

  decide-Holds :
      (st : RunState S) (r : PollRound) (result : PollOutcome × Option Error × S)
      → IsSteady st
      → Holds verify deliver_set config IsSteady (decide verify deliver_set config st r result).1
  unfolding decide
  decide-Holds st r (o, some e, s) (idle, failing) =
      let grown = backoff-IsBounded r.jitter st.error_backoff failing in
      failed-Holds verify deliver_set config IsSteady st r o s r.ctx_after (idle, failing)
        (idle, grown.0)
  decide-Holds st r (o, none, s) (idle, failing) =
      let calm = (backoff-IsBounded r.jitter st.error_backoff failing).2 in
      let grown = backoff-IsBounded r.jitter st.no_events_backoff idle in
      succeeded-Holds verify deliver_set config IsSteady st r o s (idle, calm) (grown.0, calm)
        (grown.2, calm)

  context-Holds :
      (st : RunState S) (r : PollRound) (c : Option Error)
      → IsSteady st
      → Holds verify deliver_set config IsSteady (by_context verify deliver_set config st r c).after
  unfolding by_context Holds
  context-Holds st r (some e) h = tt
  context-Holds st r none h = decide-Holds st r (poll_once verify deliver_set config st r) h

  follow-IsSteady :
      (rs : List PollRound) (next : Next S)
      → Holds verify deliver_set config IsSteady next
      → ((st : RunState S)
          → IsSteady st
          → All
              (λ t. Holds verify deliver_set config IsSteady t.after)
              (run verify deliver_set config st rs))
      → All
          (λ t. Holds verify deliver_set config IsSteady t.after)
          (follow verify deliver_set config (λ st. run verify deliver_set config st rs) next)
  unfolding follow Holds
  follow-IsSteady rs (return e) h ih = tt
  follow-IsSteady rs (continue st) h ih = ih st h

  -- Whatever the rounds of a run bring, both backoffs stay between their first values and their
  -- ceilings from each round to the next, when they start so.
  run-IsSteady :
      (st : RunState S) (rs : List PollRound)
      → IsSteady st
      → All
          (λ t. Holds verify deliver_set config IsSteady t.after)
          (run verify deliver_set config st rs)
  unfolding run round
  run-IsSteady st [] h = tt
  run-IsSteady st (r ∷ rs) h =
      let first = context-Holds st r r.ctx_err h in
      (
        first,
        follow-IsSteady rs (round verify deliver_set config st r).after first
            (λ st'. run-IsSteady st' rs),
      )

  -- Where an error that `Run` returns comes from.
  Cause : PollRound → Next S → Type 0
  Cause r (continue st) = Unit
  Cause r (return e) =
      (r.ctx_err ≡ some e) ⊎ (r.ctx_after ≡ some e) ⊎ ((d : Int64) × (r.sleep d ≡ some e))

  after_sleep-Cause :
      (r : PollRound) (st : RunState S) (d : Int64) (woken : Option Error)
      → r.sleep d ≡ woken
      → Cause r (after_sleep verify deliver_set config st woken)
  unfolding after_sleep Cause
  after_sleep-Cause r st d none h = tt
  after_sleep-Cause r st d (some e) h = inr (inr (d, h))

  failed-Cause :
      (st : RunState S) (r : PollRound) (o : PollOutcome) (s : S) (c : Option Error)
      → r.ctx_after ≡ c
      → Cause r (failed verify deliver_set config st r o s c).1
  unfolding failed Cause
  failed-Cause st r o s (some e) h = inr (inl h)
  failed-Cause st r o s none h = elim (Bool-cases (sle o.retry_after 0)) [
    | inl brief ↦ rw brief (after_sleep-Cause r _ _ _ refl)
    | inr asked ↦ rw asked (after_sleep-Cause r _ _ _ refl)
  ]

  succeeded-Cause :
      (st : RunState S) (r : PollRound) (o : PollOutcome) (s : S)
      → Cause r (succeeded verify deliver_set config st r o s).1
  unfolding succeeded Cause
  succeeded-Cause st r o s = elim (Bool-cases (slt 0 o.retry_after)) [
    | inl asked ↦ rw asked (after_sleep-Cause r _ _ _ refl)
    | inr not_asked ↦ rw not_asked (elim (Bool-cases o.more_available) [
      | inl more ↦ rw more tt
      | inr no_more ↦ rw no_more (elim (Bool-cases o.empty) [
        | inl idle ↦ rw idle (after_sleep-Cause r _ _ _ refl)
        | inr busy ↦ rw busy tt
      ])
    ])
  ]

  decide-Cause :
      (st : RunState S) (r : PollRound) (result : PollOutcome × Option Error × S)
      → Cause r (decide verify deliver_set config st r result).1
  unfolding decide
  decide-Cause st r (o, some e, s) = failed-Cause st r o s r.ctx_after refl
  decide-Cause st r (o, none, s) = succeeded-Cause st r o s

  context-Cause :
      (st : RunState S) (r : PollRound) (c : Option Error)
      → r.ctx_err ≡ c
      → Cause r (by_context verify deliver_set config st r c).after
  unfolding by_context Cause
  context-Cause st r (some e) h = inl h
  context-Cause st r none h = decide-Cause st r (poll_once verify deliver_set config st r)

  -- `Run` returns only the error of a context that is done or of a sleep that was cut short: a poll
  -- that fails, however it fails, never ends the loop.
  round_returns :
      (st : RunState S) (r : PollRound) (e : Error)
      → (round verify deliver_set config st r).after ≡ return e
      → (r.ctx_err ≡ some e) ⊎ (r.ctx_after ≡ some e) ⊎ ((d : Int64) × (r.sleep d ≡ some e))
  unfolding round Cause
  round_returns st r e h = subst (Cause r) h (context-Cause st r r.ctx_err refl)

  good_body :
      (st : RunState S) (status : ℕ) (retry_after : String) (q : PollResponse)
      → eqb (status / 100) 2 ≡ true
      → by_reply verify deliver_set config st (response status retry_after (ok q))
        ≡ (let (o, s) = process verify deliver_set config q st.sink_state in (o, none, s))
  unfolding by_reply by_body
  good_body st status retry_after q good =
      let plain : (eqb status 429 || eqb status 503) ≡ false = ground (arith, good) in
      rw (plain, good) refl

  body_done :
      (st : RunState S) (status : ℕ) (retry_after : String) (body : Result PollResponse)
      (pr : PollResponse)
      → accepted_by none (response status retry_after body) ≡ some pr
      → by_reply verify deliver_set config st (response status retry_after body)
        ≡ (let (o, s) = process verify deliver_set config pr st.sink_state in (o, none, s))
  body_done st status retry_after (err e) pr h = ground (arith, h)
  body_done st status retry_after (ok q) pr h = elim (Bool-cases (eqb (status / 100) 2)) [
    | inl good ↦
        let same : some q ≡ some pr = ground (arith, h, good) in
        subst
          (λ p.
            by_reply verify deliver_set config st (response status retry_after (ok q))
            ≡ (let (o, s) = process verify deliver_set config p st.sink_state in (o, none, s)))
          (ap (given q) same) (good_body st status retry_after q good)
    | inr bad ↦ ground (arith, h, bad)
  ]

  reply_done :
      (st : RunState S) (b : Option Error) (reply : PollReply) (r : PollRound) (pr : PollResponse)
      → r.reply ≡ reply
      → accepted_by b reply ≡ some pr
      → by_build verify deliver_set config st r b
        ≡ (let (o, s) = process verify deliver_set config pr st.sink_state in (o, none, s))
  unfolding by_build
  reply_done st (some e) reply r pr h k = ground (arith, k)
  reply_done st none (request_error e) r pr h k = ground (arith, k)
  reply_done st none (response status retry_after body) r pr h k =
      rw h (body_done st status retry_after body pr k)

  -- A batch that arrives is processed.
  poll_done :
      (st : RunState S) (r : PollRound) (pr : PollResponse)
      → accepted r ≡ some pr
      → poll_once verify deliver_set config st r
        ≡ (let (o, s) = process verify deliver_set config pr st.sink_state in (o, none, s))
  unfolding poll_once
  poll_done st r pr h = reply_done st r.build_err r.reply r pr refl h

  processed :
      (sets : Map String) (hint : Option Bool) (s : S)
      → let o =
          (process verify deliver_set config (record { sets = sets; more_available = hint }) s).0 in
        (o.retry_after ≡ 0)
        × (o.more_available ≡ hint_of verify deliver_set config hint)
        × (o.empty ≡ no_sets verify deliver_set config sets)
  unfolding process
  processed [] hint s = (refl, refl, refl)
  processed (e ∷ sets) hint s = (refl, refl, refl)

  succeeded_rests :
      (st : RunState S) (r : PollRound) (o : PollOutcome) (s : S)
      → o.retry_after ≡ 0
      → (succeeded verify deliver_set config st r o s).0 ≡ (
          if o.more_available || not o.empty
          then none
          else some (next r.jitter st.no_events_backoff).0)
  unfolding succeeded
  succeeded_rests st r o s h = rw h (elim (Bool-cases o.more_available) [
    | inl more ↦ rw more refl
    | inr no_more ↦
        rw no_more (elim (Bool-cases o.empty) [ inl idle ↦ rw idle refl | inr busy ↦ rw busy refl ])
  ])

  -- The clause of a context that is not done, with its batch.
  context_rests :
      (st : RunState S) (r : PollRound) (pr : PollResponse)
      → accepted r ≡ some pr
      → (by_context verify deliver_set config st r none).slept ≡ (
          let (o, s) = process verify deliver_set config pr st.sink_state in
          (succeeded verify deliver_set config st r o s).0)
  unfolding by_context decide
  context_rests st r pr k =
      ap (λ x. (decide verify deliver_set config st r x).0) (poll_done st r pr k)

  -- After a batch arrives, the next poll follows at once when the batch has SETs or the Transmitter
  -- has more, and else after the pause that the backoff for empty batches gives.
  round_rests :
      (st : RunState S) (r : PollRound) (pr : PollResponse)
      → r.ctx_err ≡ none
      → accepted r ≡ some pr
      → (round verify deliver_set config st r).slept ≡ (
          if hint_of verify deliver_set config pr.more_available
            || not (no_sets verify deliver_set config pr.sets)
          then none
          else some (next r.jitter st.no_events_backoff).0)
  unfolding round
  round_rests st r pr h k =
      let (asked, more, idle) = processed pr.sets pr.more_available st.sink_state in
      ap (λ c. (by_context verify deliver_set config st r c).slept) h
      ∙ context_rests st r pr k
      ∙ succeeded_rests st r (process verify deliver_set config pr st.sink_state).0
          (process verify deliver_set config pr st.sink_state).1 asked
      ∙ rw (more, idle) refl
