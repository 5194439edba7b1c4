-- ===== src/Transmitter/Push/Config.antt =====
-- transmitter/pushdriver.go: NewPushDriver and its options.
use go_ssf.Prelude.{◌≤◌, ◌<◌, Bool, false, List, [], ◌∷◌, arith, if◌then◌else◌}
use go_ssf.Prelude.Int64.{Int64, sign_bit, slt}
use go_ssf.Transmitter.Push.{PushDriver}

-- An option by what it does to the modelled fields. The client is part of the rounds, so
-- `WithHTTPClient` sets nothing here; the callback of `WithOnDeadLetter` is nil or not.
pub data PushDriverOption : Type 0 where
  with_http_client : PushDriverOption
  with_max_retries : Int64 → PushDriverOption
  with_backoff : Int64 → Int64 → PushDriverOption
  with_on_dead_letter : Bool → PushDriverOption

abbrev pub default_push_driver : PushDriver
default_push_driver = record {
  max_retries = 5;
  initial_backoff = 1000000000;
  max_backoff = 60000000000;
  on_dead_letter = false;
}

unfoldable pub apply_option : PushDriver → PushDriverOption → PushDriver
apply_option d with_http_client = d
apply_option d (with_max_retries n) = record d { max_retries = if slt n 0 then 0 else n }
apply_option d (with_backoff initial maximum) =
    let first = if slt 0 initial then initial else d.initial_backoff in
    record d { initial_backoff = first; max_backoff = if slt maximum first then first else maximum }
apply_option d (with_on_dead_letter installed) = record d { on_dead_letter = installed }

apply_options : PushDriver → List PushDriverOption → PushDriver
apply_options d [] = d
apply_options d (o ∷ os) = apply_options (apply_option d o) os

-- A nil signer panics, and is no case here.
unfoldable pub new_push_driver : List PushDriverOption → PushDriver
unfolding apply_options
new_push_driver os = apply_options default_push_driver os

-- The arguments of an option are int64 patterns.
abbrev pub IsInt64Option : PushDriverOption → Type 0
IsInt64Option with_http_client = Unit {0}
IsInt64Option (with_max_retries n) = n < 18446744073709551616
IsInt64Option (with_backoff a b) = (a < 18446744073709551616) × (b < 18446744073709551616)
IsInt64Option (with_on_dead_letter b) = Unit {0}

abbrev pub AllInt64 : List PushDriverOption → Type 0
AllInt64 [] = Unit {0}
AllInt64 (o ∷ os) = IsInt64Option o × AllInt64 os

-- A positive first backoff, at most the ceiling, and a retry count that an int holds.
pub record IsTuned (d : PushDriver) : Type 0 where
  pub positive : 0 < d.initial_backoff
  pub ordered : d.initial_backoff ≤ d.max_backoff
  pub ceiling : d.max_backoff < sign_bit
  pub retries : d.max_retries < sign_bit

option-IsTuned :
    (d : PushDriver) (o : PushDriverOption)
    → IsInt64Option o
    → IsTuned d
    → IsTuned (apply_option d o)
unfolding apply_option
option-IsTuned d with_http_client w h = h
option-IsTuned d (with_max_retries n) w h = ground arith
option-IsTuned d (with_backoff a b) w h = ground arith
option-IsTuned d (with_on_dead_letter c) w h = ground arith

options-IsTuned :
    (d : PushDriver) (os : List PushDriverOption)
    → AllInt64 os
    → IsTuned d
    → IsTuned (apply_options d os)
unfolding apply_options
options-IsTuned d [] w h = h
options-IsTuned d (o ∷ os) w h =
    options-IsTuned (apply_option d o) os w.1 (option-IsTuned d o w.0 h)

-- Whatever the options and their order, the driver has a positive first backoff that is at most
-- its ceiling, and a retry budget that is not negative.
new_push_driver-IsTuned : (os : List PushDriverOption) → AllInt64 os → IsTuned (new_push_driver os)
unfolding new_push_driver
new_push_driver-IsTuned os w = options-IsTuned default_push_driver os w (ground arith)
