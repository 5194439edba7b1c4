-- ===== src/Receiver/Poller/Ends.antt =====
-- receiver/poller.go: what holds of the state that a round of `Run` hands to the next one, by the
-- ways in which a round ends.
use go_ssf.Receiver.Sink.{Sink}
use go_ssf.Prelude.{Option, none, some, String, inl, inr, Bool-cases}
use go_ssf.Prelude.Int64.{slt, sle}
use go_ssf.Errors.{Error, Result}
use go_ssf.Receiver.Backoff.{Backoff, next, reset}
use go_ssf.Receiver.Rounds.{PollOutcome, PollRound, PollerConfig, RunState, Next, return, continue}
use go_ssf.Receiver.Poller.{after_sleep, failed, succeeded}

module _ {S : Type 0} (verify : String → Result String) (deliver_set : Sink S)
    (config : PollerConfig) where
  -- A property of the state that a round hands to the next one.
  unfoldable pub Holds : (RunState S → Type 0) → Next S → Type 0
  Holds P (return e) = Unit
  Holds P (continue st) = P st

  after_sleep-Holds :
      (P : RunState S → Type 0) (st : RunState S) (woken : Option Error)
      → P st
      → Holds P (after_sleep verify deliver_set config st woken)
  unfolding after_sleep Holds
  after_sleep-Holds P st none h = h
  after_sleep-Holds P st (some e) h = tt

  -- A failed poll replaces at most the backoff for errors.
  pub failed-Holds :
      (P : RunState S → Type 0) (st : RunState S) (r : PollRound) (o : PollOutcome) (s : S)
      (c : Option Error)
      → P (record st { sink_state = s })
      → P (record st { sink_state = s; error_backoff = (next r.jitter st.error_backoff).1 })
      → Holds P (failed verify deliver_set config st r o s c).1
  unfolding failed Holds
  failed-Holds P st r o s (some e) kept grown = tt
  failed-Holds P st r o s none kept grown = elim (Bool-cases (sle o.retry_after 0)) [
    | inl brief ↦ rw brief (after_sleep-Holds P _ _ grown)
    | inr asked ↦ rw asked (after_sleep-Holds P _ _ kept)
  ]

  -- What a round whose poll succeeded hands on, with the backoff for empty batches that it leaves.
  abbrev pub taken : RunState S → PollOutcome → S → Backoff → RunState S
  taken st o s b = record {
    next_ack = o.ack;
    next_set_errs = o.set_errs;
    no_events_backoff = b;
    error_backoff = reset st.error_backoff;
    sink_state = s;
  }

  pub succeeded-Holds :
      (P : RunState S → Type 0) (st : RunState S) (r : PollRound) (o : PollOutcome) (s : S)
      → P (taken st o s st.no_events_backoff)
      → P (taken st o s (next r.jitter st.no_events_backoff).1)
      → P (taken st o s (reset st.no_events_backoff))
      → Holds P (succeeded verify deliver_set config st r o s).1
  unfolding succeeded Holds
  succeeded-Holds P st r o s same grown rested = elim (Bool-cases (slt 0 o.retry_after)) [
    | inl asked ↦ rw asked (after_sleep-Holds P _ _ same)
    | inr not_asked ↦ rw not_asked (elim (Bool-cases o.more_available) [
      | inl more ↦ rw more rested
      | inr no_more ↦ rw no_more (elim (Bool-cases o.empty) [
        | inl idle ↦ rw idle (after_sleep-Holds P _ _ grown)
        | inr busy ↦ rw busy rested
      ])
    ])
  ]
