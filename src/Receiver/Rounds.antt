-- ===== src/Receiver/Rounds.antt =====
-- receiver/poller.go: the data of the poll loop. A round's answers from outside (the context, the HTTP client,
-- the decoded body, the jitter, the sleep) are a `PollRound`.
use go_ssf.Prelude.{ℕ, Bool, Option, List, String}
use go_ssf.Prelude.Int64.{Int64}
use go_ssf.Prelude.Map.{Map}
use go_ssf.Errors.{Error, Result}
use go_ssf.Wire.{SetErr, PollRequest, PollResponse}
use go_ssf.RetryAfter.{HeaderReading}
use go_ssf.Receiver.Backoff.{Backoff}

abbrev pub set_err_invalid_set : String
set_err_invalid_set = "invalid_set"

abbrev pub set_err_delivery_failure : String
set_err_delivery_failure = "delivery_failed"

-- What `deliverOne` returns.
pub record Outcome : Type 0 where
  pub ack_jti : Bool
  pub err_code : String
  pub err_desc : String

pub record PollOutcome : Type 0 where
  pub ack : List String
  pub set_errs : Map SetErr
  pub delivered_count : ℕ
  pub empty : Bool
  pub more_available : Bool
  pub retry_after : Int64

-- `httpClient.Do`: an error, or a response by its status, its Retry-After header and what decoding
-- its body gives.
pub data PollReply : Type 0 where
  request_error : Error → PollReply
  response : ℕ → String → Result PollResponse → PollReply

pub record PollRound : Type 0 where
  pub ctx_err : Option Error  -- `ctx.Err()` at the top of the loop
  pub build_err : Option Error  -- the error of `buildRequest`
  pub reply : PollReply
  pub ctx_after : Option Error  -- `ctx.Err()` after a failed poll
  pub jitter : Int64 → Int64
  pub sleep : Int64 → Option Error  -- `p.sleep`

-- The fields of a `Poller` that `Run` reads and never writes.
pub record PollerConfig : Type 0 where
  pub max_events : Int64
  pub std : HeaderReading
  pub error_text : Error → String  -- `err.Error()`

-- What `Run` keeps between rounds: its two variables, the two backoffs, and the Sink's own state.
pub record RunState (S : Type 0) : Type 0 where
  pub next_ack : List String
  pub next_set_errs : Map SetErr
  pub no_events_backoff : Backoff
  pub error_backoff : Backoff
  pub sink_state : S

-- How a round of the loop ends: `Run` returns, or goes on.
pub data Next (S : Type 0) : Type 0 where
  return : Error → Next S
  continue : RunState S → Next S

-- What a round did: the request that it posted, if any, the sleep that it asked for, if any.
pub record RoundTrace (S : Type 0) : Type 0 where
  pub posted : Option PollRequest
  pub slept : Option Int64
  pub after : Next S
