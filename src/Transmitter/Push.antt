-- ===== src/Transmitter/Push.antt =====
-- transmitter/pushdriver.go: the retry-and-classify loop around one POST of a signed SET.
-- What the environment answers in a round (the context, the HTTP client, the random jitter, the
-- sleep) is a `Round`; a run is a function of the rounds, and returns what it did.
pub mod Config
pub mod Budget
pub mod Letters
pub mod Exhaustion
pub mod Pauses
mod Examples
use go_ssf.Prelude.{
  ℕ, zero, suc, ◌+◌, Bool, true, false, ◌&&◌, ◌||◌, Option, none, some, List, [], ◌∷◌, String, ltb,
  leb, eqb, ◌==◌, if◌then◌else◌,
}
use go_ssf.Prelude.Int64.{Int64, to_int64, slt, sle, smul}
use go_ssf.Errors.{Error, Result, ok, err, message, wrap, push_http, permanent, as_permanent}
use go_ssf.RetryAfter.{HeaderReading, push_retry_after}

pub record Target : Type 0 where
  pub endpoint_url : String
  pub authorization_header : String

-- The knobs of a `PushDriver`. The signer is an argument of `deliver`; the client, the clock and
-- the sleep are in the rounds; of the dead-letter callback only its being there.
pub record PushDriver : Type 0 where
  pub max_retries : ℕ
  pub initial_backoff : Int64
  pub max_backoff : Int64
  pub on_dead_letter : Bool

-- What `httpClient.Do` gives: an error, with `ctx.Err()` just after it, or a response.
pub data Reply : Type 0 where
  transport_error : Error → Option Error → Reply
  response : ℕ → String → String → Reply

pub record Round : Type 0 where
  pub ctx_err : Option Error  -- `ctx.Err()` at the top of the round
  pub build_err : Option Error  -- the error of `http.NewRequestWithContext`
  pub reply : Reply
  pub jitter : Int64 → Int64  -- what `applyJitter` makes of a positive duration
  pub sleep : Int64 → Option Error  -- `d.sleep`

-- A POST, its body the token. An empty Authorization header is not sent.
pub record Post : Type 0 where
  pub url : String
  pub authorization : Option String
  pub body : String

pub record DeadLetter : Type 0 where
  pub target : Target
  pub payload : String
  pub last_err : Error

-- What a call of `Deliver` did and returned; no error is nil.
pub record Delivery : Type 0 where
  pub result : Option Error
  pub attempts : List Post
  pub sleeps : List Int64
  pub dead_letters : List DeadLetter

-- The `switch` on the status code
unfoldable pub classify_status : HeaderReading → ℕ → String → String → Int64 × Option Error
classify_status std status retry_after body =
    if leb 200 status && ltb status 300
    then (0, none)
    else if eqb status 408 || (eqb status 429 || leb 500 status)
    then (push_retry_after std retry_after, some (push_http status body))
    else if leb 400 status && ltb status 500
    then (0, some (permanent (push_http status body)))
    else (0, some (permanent (push_http status body)))

read_reply : HeaderReading → Reply → Int64 × Option Error
unfolding classify_status
read_reply std (transport_error e (some canceled)) = (0, some canceled)
read_reply std (transport_error e none) = (0, some (wrap "post security event token" e))
read_reply std (response status retry_after body) = classify_status std status retry_after body

build_then : HeaderReading → Option Error → Reply → Int64 × Option Error
unfolding read_reply
build_then std (some e) reply = (0, some (permanent (wrap "build push request" e)))
build_then std none reply = read_reply std reply

-- `PushDriver.attempt`: the Retry-After hint, and an error or nil
unfoldable pub attempt : HeaderReading → Round → Int64 × Option Error
unfolding build_then
attempt std r = build_then std r.build_err r.reply

-- How a round ends, by the tests of the loop's body up to the sleep.
pub data Verdict : Type 0 where
  cancelled : Error → Verdict
  delivered : Verdict
  rejected : Error → Verdict
  transient : Int64 → Error → Verdict

-- `errors.As(attemptErr, &perm)`
by_mark : Int64 → Error → Option Error → Verdict
by_mark hint e (some underlying) = rejected underlying
by_mark hint e none = transient hint e

by_error : Int64 → Option Error → Verdict
unfolding by_mark
by_error hint none = delivered
by_error hint (some e) = by_mark hint e (as_permanent e)

by_context : HeaderReading → Round → Option Error → Verdict
unfolding by_error attempt
by_context std r (some e) = cancelled e
by_context std r none = let (hint, e) = attempt std r in by_error hint e

unfoldable pub verdict : HeaderReading → Round → Verdict
unfolding by_context
verdict std r = by_context std r r.ctx_err

-- `applyJitter`
unfoldable pub apply_jitter : Round → Int64 → Int64
apply_jitter r d = if sle d 0 then d else to_int64 (r.jitter d)

-- `capDuration`
unfoldable pub cap_duration : Int64 → Int64 → Int64
cap_duration d maximum = if slt d 0 then 0 else if slt maximum d then maximum else d

-- The sleep after a transient failure
unfoldable pub sleep_for : PushDriver → Round → Int64 → Int64 → Int64
unfolding apply_jitter cap_duration
sleep_for d r backoff hint =
    cap_duration (apply_jitter r (if slt 0 hint then hint else backoff)) d.max_backoff

-- `backoff *= 2`, capped
unfoldable pub grow : PushDriver → Int64 → Int64
grow d backoff =
    let twice = smul backoff 2 in if slt d.max_backoff twice then d.max_backoff else twice

abbrev pub letter : PushDriver → Target → String → Error → List DeadLetter
letter d target payload e =
    if d.on_dead_letter
    then record { target = target; payload = payload; last_err = e } ∷ []
    else []

-- The parts of a call that its rounds share.
module _ (d : PushDriver) (std : HeaderReading) (target : Target) (payload jws : String) where
  abbrev pub post : Post
  post = record {
    url = target.endpoint_url;
    authorization =
        if target.authorization_header == "" then none else some target.authorization_header;
    body = jws;
  }

  -- A POST is attempted in each round that the context lets begin.
  end_with : Option Error → List DeadLetter → Delivery
  end_with e letters = record {
    result = e;
    attempts = post ∷ [];
    sleeps = [];
    dead_letters = letters;
  }

  before_post : Error → Delivery
  before_post e = record { result = some e; attempts = []; sleeps = []; dead_letters = [] }

  after_sleep : Int64 → Option Error → Delivery → Delivery
  after_sleep pause (some e) rest = record {
    result = some e;
    attempts = post ∷ [];
    sleeps = pause ∷ [];
    dead_letters = [];
  }
  after_sleep pause none rest = record rest {
    attempts = post ∷ rest.attempts;
    sleeps = pause ∷ rest.sleeps;
  }

  last_round : Verdict → Delivery
  unfolding before_post end_with
  last_round (cancelled e) = before_post e
  last_round delivered = end_with none []
  last_round (rejected e) = end_with (some e) (letter d target payload e)
  last_round (transient hint e) = end_with (some e) (letter d target payload e)

  next_round : Round → Int64 → Verdict → Delivery → Delivery
  unfolding before_post end_with after_sleep
  next_round r backoff (cancelled e) rest = before_post e
  next_round r backoff delivered rest = end_with none []
  next_round r backoff (rejected e) rest = end_with (some e) (letter d target payload e)
  next_round r backoff (transient hint e) rest =
      let pause = sleep_for d r backoff hint in after_sleep pause (r.sleep pause) rest

  -- The loop, with `left` retries to go at round `n`: `attempt == d.maxRetries` when none is left.
  unfoldable pub deliver_loop : (ℕ → Round) → ℕ → ℕ → Int64 → Delivery
  unfolding last_round next_round
  deliver_loop rounds zero n backoff = last_round (verdict std (rounds n))
  deliver_loop rounds (suc left) n backoff =
      let rest = deliver_loop rounds left (suc n) (grow d backoff) in
      next_round (rounds n) backoff (verdict std (rounds n)) rest

no_post : Error → Delivery
no_post e = record { result = some e; attempts = []; sleeps = []; dead_letters = [] }

after_sign : PushDriver → HeaderReading → (ℕ → Round) → Target → String → Result String → Delivery
unfolding no_post
after_sign d std rounds target payload (err e) = no_post (wrap "sign security event token" e)
after_sign d std rounds target payload (ok jws) =
    deliver_loop d std target payload jws rounds d.max_retries 0 d.initial_backoff

-- `PushDriver.Deliver`; `sign` is the `SETSigner`
unfoldable pub deliver :
    PushDriver
    → (sign : String → Result String) → HeaderReading
    → (ℕ → Round)
    → Target
    → String
    → Delivery
unfolding no_post after_sign
deliver d sign std rounds target payload =
    if target.endpoint_url == ""
    then no_post (message "PushDriver.Deliver requires a non-empty Target.EndpointURL")
    else after_sign d std rounds target payload (sign payload)
