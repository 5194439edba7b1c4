-- ===== src/Transmitter/Push/Examples.antt =====
-- transmitter/pushdriver.go: the theorems on a driver with two retries against Receivers that take a
-- SET at once, refuse it, are busy, or go away.
use go_ssf.Prelude.{ℕ, zero, suc, ◌<◌, true, none, some, [], ◌∷◌, String, ◌≡◌, refl, arith, inr}
use go_ssf.Errors.{message, canceled, sentinel, push_http, as_permanent, Result, ok}
use go_ssf.RetryAfter.{HeaderReading, push_retry_after}
use go_ssf.Transmitter.Push.{
  Target, PushDriver, Round, Reply, transport_error, response, post, sleep_for, grow, verdict,
  attempt, classify_status, deliver,
}
use go_ssf.Transmitter.Push.Config.{IsTuned}
use go_ssf.Transmitter.Push.Budget.{IsWithin, deliver-IsWithin}
use go_ssf.Transmitter.Push.Letters.{IsSettled, deliver-IsSettled}
use go_ssf.Transmitter.Push.Exhaustion.{IsBusy, busy, IsTaken, EndsAfter, deliver_succeeds}
use go_ssf.Transmitter.Push.Pauses.{
  IsPlain, deliver_sleeps, overflow_skips_sleep, cancelled_post_reported,
}

abbrev driver : PushDriver
driver = record {
  max_retries = 2;
  initial_backoff = 1000000000;
  max_backoff = 3000000000;
  on_dead_letter = true;
}

driver-IsTuned : IsTuned driver
driver-IsTuned = ground arith

abbrev receiver : Target
receiver = record { endpoint_url = "https://rx.example/events"; authorization_header = "Bearer t" }

-- A signer that names the payload, and a header reader for which no text is a number or a date.
abbrev sign : String → Result String
sign payload = ok payload

abbrev std : HeaderReading
std = record { trim = λ t. t; atoi = λ t. none; until = λ t. none }

abbrev answering : Reply → Round
answering reply = record {
  ctx_err = none;
  build_err = none;
  reply = reply;
  jitter = λ d. d;
  sleep = λ d. none;
}

-- Busy until the second retry, which gets the given answer.
abbrev busy_then : Reply → ℕ → Round
busy_then last zero = answering (response 503 "" "busy")
busy_then last (suc zero) = answering (response 503 "" "busy")
busy_then last (suc (suc n)) = answering last

unavailable-IsBusy : IsBusy (answering (response 503 "" "busy"))
unavailable-IsBusy = record {
  begins = refl;
  built = refl;
  fails = busy 503 "" "busy" (inr (inr (omega arith))) refl;
  sleeps = λ pause. refl;
}

before : (last : Reply) (i : ℕ) → i < 2 → IsBusy (busy_then last i)
before last zero lt = unavailable-IsBusy
before last (suc zero) lt = unavailable-IsBusy
before last (suc (suc i)) lt = ground arith

deliver-IsWithin_example :
    IsWithin driver
      (post driver std receiver "{}" "{}")
      2
      (deliver driver sign std (busy_then (response 202 "" "")) receiver "{}")
deliver-IsWithin_example =
    deliver-IsWithin driver sign std (busy_then (response 202 "" "")) receiver "{}" {jws = "{}"}
      driver-IsTuned refl

deliver-IsSettled_example :
    IsSettled driver
      (busy_then (response 400 "" ""))
      receiver
      "{}"
      (deliver driver sign std (busy_then (response 400 "" "")) receiver "{}")
deliver-IsSettled_example =
    deliver-IsSettled driver sign std (busy_then (response 400 "" "")) receiver "{}" {jws = "{}"}
      refl refl

ok-IsTaken : IsTaken (answering (response 200 "" ""))
ok-IsTaken = record {
  begins = refl;
  built = refl;
  status = 200;
  retry_after = "";
  body = "";
  at_least = omega arith;
  below = omega arith;
  answered = refl;
}

deliver_succeeds_example :
    EndsAfter 2 none [] (deliver driver sign std (busy_then (response 200 "" "")) receiver "{}")
deliver_succeeds_example =
    deliver_succeeds driver sign std (busy_then (response 200 "" "")) receiver "{}" 2 {jws = "{}"}
      (ground arith) refl refl (before (response 200 "" "")) ok-IsTaken

busy-IsPlain : IsPlain std (answering (response 503 "" "busy"))
unfolding verdict attempt classify_status push_retry_after as_permanent
busy-IsPlain = record {
  error = push_http 503 "busy";
  fails = refl;
  exact = λ x. refl;
  sleeps = λ pause. refl;
}

deliver_sleeps_example :
    (deliver driver sign std (λ n. answering (response 503 "" "busy")) receiver "{}").sleeps
    ≡ 1000000000 ∷ 2000000000 ∷ []
deliver_sleeps_example =
    deliver_sleeps driver sign std (λ n. answering (response 503 "" "busy")) receiver "{}"
      {jws = "{}"} driver-IsTuned (ground arith) refl refl (λ n. busy-IsPlain)

abbrev slow_driver : PushDriver
slow_driver = record driver { max_backoff = 9223372036854775807 }

overflow_skips_sleep_example :
    sleep_for slow_driver (answering (response 503 "" "")) (grow slow_driver 4611686018427387904) 0
    ≡ 0
overflow_skips_sleep_example =
    overflow_skips_sleep slow_driver (answering (response 503 "" "")) 4611686018427387904
      (ground arith) (ground arith) (ground arith)

abbrev gone : Reply
gone = transport_error (message "context canceled") (some (sentinel canceled))

cancelled_post_reported_example :
    EndsAfter 2
      (some (sentinel canceled))
      (record { target = receiver; payload = "{}"; last_err = sentinel canceled } ∷ [])
      (deliver driver sign std (busy_then gone) receiver "{}")
unfolding as_permanent
cancelled_post_reported_example =
    cancelled_post_reported driver sign std (busy_then gone) receiver "{}" {jws = "{}"}
      {transport = message "context canceled"} {ctx = sentinel canceled} refl refl (before gone)
      refl refl refl refl
