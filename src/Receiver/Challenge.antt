-- ===== src/Receiver/Challenge.antt =====
-- receiver/verification.go: the table of verification challenges in flight, the Sink decorator that
-- completes them, and the wait. A method's critical section is one step on the state. A channel is
-- a number, and `inbox` is what its buffer of one holds; the send of `intercept` comes after the
-- unlock, but no other step reads or writes that buffer before the waiter receives from it.
pub mod Table
pub mod Answer
pub mod Call
pub mod Matched
pub mod Timeout
pub mod Reuse
mod Examples
use go_ssf.Receiver.Sink.{Sink}
use go_ssf.Prelude.{
  ℕ, ◌+◌, Bool, true, false, Option, none, some, List, [], ◌∷◌, String, eqb, if◌then◌else◌, ◌==◌,
}
use go_ssf.Prelude.Int64.{Int64, to_int64, slt, sle}
use go_ssf.Prelude.Map.{Map, get, put, remove, has}
use go_ssf.Errors.{Error, Result, ok, err, message}

pub record VerificationChallenger : Type 0 where
  pub pending : Map ℕ
  pub fresh : ℕ
  pub inbox : ℕ → Option String

-- `NewVerificationChallenger`
unfoldable pub new_verification_challenger : VerificationChallenger
new_verification_challenger = record { pending = []; fresh = 0; inbox = λ w. none }

-- `register`
unfoldable pub register : VerificationChallenger → String → VerificationChallenger × Result ℕ
register c state =
    if has c.pending state
    then (c, err (message "verification state already in flight"))
    else (record c { pending = put c.pending state c.fresh; fresh = c.fresh + 1 }, ok c.fresh)

-- `unregister`
unfoldable pub unregister : VerificationChallenger → String → VerificationChallenger
unregister c state = record c { pending = remove c.pending state }

-- What `encoding/json` reads: the `events` member of a payload, with the raw text of each entry, and
-- the `state` of a verification event; `none` for an error.
pub record ClaimsReading : Type 0 where
  pub events : String → Option (Map String)
  pub event_state : String → Option String

abbrev pub event_type_verification : String
event_type_verification = "https://schemas.openid.net/secevent/ssf/event-type/verification"

filled : Option String → Option String
filled none = none
filled (some state) = if state == "" then none else some state

state_of : ClaimsReading → Option String → Option String
unfolding filled
state_of json none = none
state_of json (some raw) = filled (json.event_state raw)

state_in : ClaimsReading → Option (Map String) → Option String
unfolding state_of
state_in json none = none
state_in json (some events) = state_of json (get events event_type_verification)

-- `extractVerificationState`
unfoldable pub extract_verification_state : ClaimsReading → String → Option String
unfolding state_in
extract_verification_state json payload = state_in json (json.events payload)

-- `waiter <- payload`
abbrev pub send : VerificationChallenger → ℕ → String → VerificationChallenger
send c w payload = record c { inbox = λ v. if eqb v w then some payload else c.inbox v }

unfoldable pub hand_over :
    VerificationChallenger → String → String → Option ℕ → VerificationChallenger × Bool
hand_over c state payload none = (c, false)
hand_over c state payload (some w) =
    (send (record c { pending = remove c.pending state }) w payload, true)

unfoldable pub match_state :
    VerificationChallenger → String → Option String → VerificationChallenger × Bool
unfolding hand_over
match_state c payload none = (c, false)
match_state c payload (some state) = hand_over c state payload (get c.pending state)

-- `intercept`
unfoldable pub intercept :
    ClaimsReading → VerificationChallenger → String → VerificationChallenger × Bool
unfolding match_state
intercept json c payload = match_state c payload (extract_verification_state json payload)

-- The steps that the calls of `Challenge` and of the wrapped Sink interleave.
pub data Event : Type 0 where
  begin : String → Event
  cleanup : String → Event
  arrive : String → Event

unfoldable pub step : ClaimsReading → VerificationChallenger → Event → VerificationChallenger
step json c (begin state) = (register c state).0
step json c (cleanup state) = unregister c state
step json c (arrive payload) = (intercept json c payload).0

unfoldable pub steps : ClaimsReading → VerificationChallenger → List Event → VerificationChallenger
steps json c [] = c
steps json c (e ∷ es) = steps json (step json c e) es

module _ {S : Type 0} (json : ClaimsReading) where
  unfoldable pub pass_on : Option (Sink S) → Sink S
  pass_on none s payload = (none, s)
  pass_on (some deliver_set) s payload = deliver_set s payload

  -- The Sink of `WrapSink`, on the state of the challenger and of the Sink below it.
  unfoldable pub wrap_sink :
      Option (Sink S)
      → VerificationChallenger × S
      → String
      → Option Error × VerificationChallenger × S
  unfolding pass_on
  wrap_sink downstream (c, s) payload =
      let (c', taken) = intercept json c payload in
      let (answer, s') = pass_on downstream s payload in
      if taken then (none, c', s) else (answer, c', s')

-- `defaultChallengeTimeout`, in nanoseconds
abbrev pub default_challenge_timeout : Int64
default_challenge_timeout = 30000000000

unfoldable pub choose_timeout : Int64 → Int64 → Int64
choose_timeout opt ctx =
    if slt 0 opt
    then if slt 0 ctx then if slt opt ctx then opt else ctx else opt
    else if slt 0 ctx
    then ctx
    else default_challenge_timeout

unfoldable pub by_deadline : Int64 → Option Int64 → Int64
unfolding choose_timeout
by_deadline opt none = choose_timeout opt 0
by_deadline opt (some left) = if sle left 0 then 1 else choose_timeout opt left

-- `resolveTimeout`: the second argument is the time until the context's deadline, if it has one.
unfoldable pub resolve_timeout : Int64 → Option Int64 → Int64
unfolding by_deadline
resolve_timeout opt deadline = by_deadline opt deadline
