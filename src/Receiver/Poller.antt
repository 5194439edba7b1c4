-- ===== src/Receiver/Poller.antt =====
-- receiver/poller.go: the poll loop with serial delivery, which is the default.
pub mod Batch
pub mod Config
pub mod Ends
pub mod Carry
pub mod Cadence
pub mod Parallel
mod Examples
use go_ssf.Receiver.Sink.{Sink}
use go_ssf.Prelude.{
  ℕ, ◌/◌, Bool, true, false, ◌&&◌, ◌||◌, Option, none, some, List, [], ◌∷◌, ◌++◌, String, eqb, ltb,
  ◌==◌, if◌then◌else◌,
}
use go_ssf.Prelude.Int64.{Int64, slt, sle}
use go_ssf.Prelude.Lists.{length}
use go_ssf.Prelude.Map.{Map, put}
use go_ssf.Errors.{Error, Result, ok, err, is, message, wrap, permanent_sink}
use go_ssf.Wire.{SetErr, PollRequest, PollResponse}
use go_ssf.RetryAfter.{HeaderReading, poll_retry_after}
use go_ssf.Receiver.Backoff.{Backoff, next, reset}
use go_ssf.Receiver.Rounds.{
  set_err_invalid_set, set_err_delivery_failure, Outcome, PollOutcome, PollReply, PollRound,
  PollerConfig, RunState, Next, RoundTrace, request_error, response, return, continue,
}

module _ {S : Type 0} (verify : String → Result String) (deliver_set : Sink S)
    (config : PollerConfig) where
  unfoldable pub by_sink : Option Error → Outcome
  by_sink none = record { ack_jti = true; err_code = ""; err_desc = "" }
  by_sink (some e) =
      if is e permanent_sink
      then record {
        ack_jti = true;
        err_code = set_err_delivery_failure;
        err_desc = config.error_text e;
      }
      else record {
        ack_jti = false;
        err_code = set_err_delivery_failure;
        err_desc = config.error_text e;
      }

  unfoldable pub by_verify : S → Result String → Outcome × S
  unfolding by_sink
  by_verify s (err e) = (
    record { ack_jti = false; err_code = set_err_invalid_set; err_desc = config.error_text e },
    s,
  )
  by_verify s (ok payload) = let (answer, s') = deliver_set s payload in (by_sink answer, s')

  -- `deliverOne`
  unfoldable pub deliver_one : S → String → Outcome × S
  unfolding by_verify
  deliver_one s jws = by_verify s (verify jws)

  -- The loop over the entries of a batch, in the order that the map's iteration gives.
  unfoldable pub process_entries :
      List (String × String) → List String → Map SetErr → S → List String × Map SetErr × S
  process_entries [] ack errs s = (ack, errs, s)
  process_entries ((jti, jws) ∷ entries) ack errs s =
      let (o, s') = deliver_one s jws in
      process_entries entries (if o.ack_jti then ack ++ (jti ∷ []) else ack)
        (if o.err_code == ""
          then errs
          else put errs jti (record { code = o.err_code; description = o.err_desc }))
        s'

  -- `pr.MoreAvailable != nil && *pr.MoreAvailable`
  abbrev pub hint_of : Option Bool → Bool
  hint_of none = false
  hint_of (some b) = b

  abbrev pub no_sets : Map String → Bool
  no_sets [] = true
  no_sets (e ∷ es) = false

  -- `process`, with parallelism 1
  unfoldable pub process : PollResponse → S → PollOutcome × S
  process pr s =
      let (ack, errs, s') = process_entries pr.sets [] [] s in
      if no_sets pr.sets
      then (
        record {
          ack = [];
          set_errs = [];
          delivered_count = 0;
          empty = true;
          more_available = hint_of pr.more_available;
          retry_after = 0;
        },
        s,
      )
      else (
        record {
          ack = ack;
          set_errs = errs;
          delivered_count = length ack;
          empty = false;
          more_available = hint_of pr.more_available;
          retry_after = 0;
        },
        s',
      )

  -- The outcome that goes with an error, where it carries nothing.
  abbrev no_outcome : PollOutcome
  no_outcome = record {
    ack = [];
    set_errs = [];
    delivered_count = 0;
    empty = false;
    more_available = false;
    retry_after = 0;
  }

  unfoldable pub by_body : Result PollResponse → S → PollOutcome × Option Error × S
  by_body (err e) s = (no_outcome, some (wrap "decode poll response" e), s)
  by_body (ok pr) s = let (o, s') = process pr s in (o, none, s')

  unfoldable pub by_reply : RunState S → PollReply → PollOutcome × Option Error × S
  unfolding by_body
  by_reply st (request_error e) = (no_outcome, some (wrap "poll request" e), st.sink_state)
  by_reply st (response status retry_after body) =
      if eqb status 429 || eqb status 503
      then (
        record {
          ack = st.next_ack;
          set_errs = st.next_set_errs;
          delivered_count = 0;
          empty = true;
          more_available = false;
          retry_after = poll_retry_after config.std retry_after;
        },
        some (message "poll endpoint returned an error status"),
        st.sink_state,
      )
      else if eqb (status / 100) 2
      then by_body body st.sink_state
      else (no_outcome, some (message "poll endpoint returned an error status"), st.sink_state)

  unfoldable pub by_build : RunState S → PollRound → Option Error → PollOutcome × Option Error × S
  unfolding by_reply
  by_build st r (some e) = (no_outcome, some (wrap "build poll request" e), st.sink_state)
  by_build st r none = by_reply st r.reply

  -- `pollOnce`
  unfoldable pub poll_once : RunState S → PollRound → PollOutcome × Option Error × S
  unfolding by_build
  poll_once st r = by_build st r r.build_err

  -- The body of the request that `buildRequest` makes.
  abbrev pub request : RunState S → PollRequest
  request st = record {
    ack = st.next_ack;
    set_errs = st.next_set_errs;
    max_events = some config.max_events;
    return_immediately = none;
  }

  abbrev pub posted_in : RunState S → Option Error → Option PollRequest
  posted_in st none = some (request st)
  posted_in st (some e) = none

  unfoldable pub after_sleep : RunState S → Option Error → Next S
  after_sleep st (some e) = return e
  after_sleep st none = continue st

  -- A failed poll: what was to be acknowledged stays to be acknowledged.
  unfoldable pub failed :
      RunState S → PollRound → PollOutcome → S → Option Error → Option Int64 × Next S
  unfolding after_sleep
  failed st r o s (some cancelled) = (none, return cancelled)
  failed st r o s none =
      let (pause, grown) = next r.jitter st.error_backoff in
      let kept : RunState S = record st { sink_state = s } in
      if sle o.retry_after 0
      then (some pause, after_sleep (record kept { error_backoff = grown }) (r.sleep pause))
      else (some o.retry_after, after_sleep kept (r.sleep o.retry_after))

  -- A poll that succeeded: the `switch` on the cadence.
  unfoldable pub succeeded : RunState S → PollRound → PollOutcome → S → Option Int64 × Next S
  unfolding after_sleep
  succeeded st r o s =
      let (pause, grown) = next r.jitter st.no_events_backoff in
      let taken : RunState S = record st {
        next_ack = o.ack;
        next_set_errs = o.set_errs;
        error_backoff = reset st.error_backoff;
        sink_state = s;
      } in
      let rested : RunState S = record taken { no_events_backoff = reset st.no_events_backoff } in
      if slt 0 o.retry_after
      then (some o.retry_after, after_sleep taken (r.sleep o.retry_after))
      else if o.more_available
      then (none, continue rested)
      else if o.empty
      then (some pause, after_sleep (record taken { no_events_backoff = grown }) (r.sleep pause))
      else (none, continue rested)

  unfoldable pub decide :
      RunState S → PollRound → PollOutcome × Option Error × S → Option Int64 × Next S
  unfolding failed succeeded
  decide st r (o, some e, s) = failed st r o s r.ctx_after
  decide st r (o, none, s) = succeeded st r o s

  unfoldable pub by_context : RunState S → PollRound → Option Error → RoundTrace S
  unfolding decide
  by_context st r (some e) = record { posted = none; slept = none; after = return e }
  by_context st r none =
      let (slept, after) = decide st r (poll_once st r) in
      record { posted = posted_in st r.build_err; slept = slept; after = after }

  -- One turn of the loop of `Run`
  unfoldable pub round : RunState S → PollRound → RoundTrace S
  unfolding by_context
  round st r = by_context st r r.ctx_err

  unfoldable pub follow : (RunState S → List (RoundTrace S)) → Next S → List (RoundTrace S)
  follow rest (return e) = []
  follow rest (continue st) = rest st

  -- `Run`, as far as the given rounds go: what each round did, up to the one that returned.
  unfoldable pub run : RunState S → List PollRound → List (RoundTrace S)
  unfolding follow
  run st [] = []
  run st (r ∷ rs) = let t = round st r in t ∷ follow (λ st'. run st' rs) t.after
