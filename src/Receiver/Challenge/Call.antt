-- ===== src/Receiver/Challenge/Call.antt =====
-- receiver/verification.go: Challenge, from its options to the end of its wait. `events` is what other calls
-- do to the table between the registration and the end of the wait, and `Wake` the branch that the select
-- takes. The random state, net/url, the request and the response are parameters.
use go_ssf.Prelude.{
  ℕ, ◌&&◌, Option, none, some, List, [], ◌∷◌, String, ltb, leb, ◌==◌, if◌then◌else◌,
}
use go_ssf.Prelude.Int64.{Int64}
use go_ssf.Errors.{Error, Result, ok, err, wrap, message, sentinel, verification_timeout, ◌>>=◌}
use go_ssf.Receiver.Challenge.{
  VerificationChallenger, register, unregister, ClaimsReading, Event, steps,
}

pub record ChallengeOptions : Type 0 where
  pub endpoint : String
  pub stream_id : String
  pub auth_header : String
  pub state : String
  pub timeout : Int64

pub data ChallengeOption : Type 0 where
  with_endpoint : String → ChallengeOption
  with_stream_id : String → ChallengeOption
  with_challenge_authorization_header : String → ChallengeOption
  with_state : String → ChallengeOption
  with_challenge_http_client : ChallengeOption
  with_timeout : Int64 → ChallengeOption

unfoldable pub apply_challenge_option : ChallengeOptions → ChallengeOption → ChallengeOptions
apply_challenge_option c (with_endpoint e) = record c { endpoint = e }
apply_challenge_option c (with_stream_id s) = record c { stream_id = s }
apply_challenge_option c (with_challenge_authorization_header h) = record c { auth_header = h }
apply_challenge_option c (with_state s) = record c { state = s }
apply_challenge_option c with_challenge_http_client = c
apply_challenge_option c (with_timeout t) = record c { timeout = t }

unfoldable pub resolve_options : ChallengeOptions → List ChallengeOption → ChallengeOptions
resolve_options c [] = c
resolve_options c (o ∷ os) = resolve_options (apply_challenge_option c o) os

abbrev pub no_options : ChallengeOptions
no_options = record { endpoint = ""; stream_id = ""; auth_header = ""; state = ""; timeout = 0 }

-- The request of a challenge: its target, the state in its body, and its Authorization, if any.
pub record ChallengeRequest : Type 0 where
  pub target : String
  pub state : String
  pub authorization : Option String

pub data Wake : Type 0 where
  on_answer on_timer : Wake
  on_context : Error → Wake

-- What a call finds: random bytes as text, a URL with a query set, the body's encoding, the error of building
-- a request, the status of the response, the steps of other calls, and the branch of the select.
pub record ChallengeWorld : Type 0 where
  pub generate : Result String
  pub with_query : String → String → Result String
  pub encode_err : String → Option Error
  pub build_err : String → Option Error
  pub reply : ChallengeRequest → Result ℕ
  pub events : List Event
  pub wake : Wake

-- `buildVerificationURL`
unfoldable pub build_verification_url : ChallengeWorld → String → String → Result String
build_verification_url x endpoint id = if id == "" then ok endpoint else x.with_query endpoint id

abbrev pub unless : Option Error → String → Result (Unit {0})
unless none m = ok tt
unless (some e) m = err (wrap m e)

unfoldable pub by_reply : Result ℕ → Result (Unit {0})
by_reply (err e) = err (wrap "ssf/receiver: post verification request" e)
by_reply (ok status) =
    if leb 200 status && ltb status 300
    then ok tt
    else err (message "ssf/receiver: verification endpoint returned")

-- `postChallenge`
unfoldable pub post_challenge : ChallengeWorld → ChallengeOptions → String → Result (Unit {0})
post_challenge x cfg state = build_verification_url x cfg.endpoint cfg.stream_id >>= (λ target.
    unless (x.encode_err state) "ssf/receiver: encode verification request" >>= (λ encoded.
      unless (x.build_err target) "ssf/receiver: build verification request" >>= (λ request.
        by_reply (
          x.reply (record {
            target = target;
            state = state;
            authorization = if cfg.auth_header == "" then none else some cfg.auth_header;
          })))))

abbrev pub received : Option String → Option (Result String)
received none = none
received (some payload) = some (ok payload)

-- The `select` of `wait` on a channel; `none` where its branch is not ready.
unfoldable pub wait : VerificationChallenger → ℕ → Wake → Option (Result String)
wait c w (on_context e) = some (err e)
wait c w on_timer =
    some (err (wrap "ssf/receiver: waiting for verification SET" (sentinel verification_timeout)))
wait c w on_answer = received (c.inbox w)

-- The result of a call, `none` while it waits, and the table after it.
abbrev pub Ended : Type 0
Ended = Option (Result String) × VerificationChallenger

unfoldable pub after_post :
    ChallengeWorld → VerificationChallenger → String → ℕ → Result (Unit {0}) → Ended
after_post x c state w (err e) = (some (err e), unregister c state)
after_post x c state w (ok d) = (wait c w x.wake, unregister c state)

unfoldable pub after_register :
    ClaimsReading
    → ChallengeWorld
    → ChallengeOptions
    → String
    → VerificationChallenger × Result ℕ
    → Ended
after_register json x cfg state (c, err e) = (some (err e), c)
after_register json x cfg state (c, ok w) =
    after_post x (steps json c x.events) state w (post_challenge x cfg state)

abbrev pub wrapped_state : Result String → Result String
wrapped_state (err e) = err (wrap "ssf/receiver: generate verification state" e)
wrapped_state (ok s) = ok s

-- The state that a call goes by.
unfoldable pub chosen_state : ChallengeWorld → ChallengeOptions → Result String
chosen_state x cfg = if cfg.state == "" then wrapped_state x.generate else ok cfg.state

unfoldable pub with_chosen :
    ClaimsReading
    → ChallengeWorld
    → ChallengeOptions
    → VerificationChallenger
    → Result String
    → Ended
with_chosen json x cfg c (err e) = (some (err e), c)
with_chosen json x cfg c (ok state) = after_register json x cfg state (register c state)

unfoldable pub challenge_with :
    ClaimsReading → ChallengeWorld → VerificationChallenger → ChallengeOptions → Ended
challenge_with json x c cfg =
    if cfg.endpoint == ""
    then (some (err (message "ssf/receiver: verification endpoint required")), c)
    else with_chosen json x cfg c (chosen_state x cfg)

-- `Challenge`
unfoldable pub challenge :
    ClaimsReading → ChallengeWorld → VerificationChallenger → List ChallengeOption → Ended
challenge json x c os = challenge_with json x c (resolve_options no_options os)
