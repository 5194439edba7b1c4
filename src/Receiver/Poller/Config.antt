-- ===== src/Receiver/Poller/Config.antt =====
-- receiver/poller.go: NewPoller and its options. The arguments of an option are int64 words. The
-- HTTP client, the verifier, the Sink and the clock are not values here.
use go_ssf.Prelude.{◌<◌, Bool, true, false, ◌&&◌, List, [], ◌∷◌, String, ◌≡◌, arith, if◌then◌else◌}
use go_ssf.Prelude.Int64.{Int64, to_int64, sign_bit, slt, sle}
use go_ssf.Receiver.Backoff.{Backoff, IsBounded}

pub data PollerOption : Type 0 where
  with_http_client : PollerOption
  with_authorization_header : String → PollerOption
  with_max_events : Int64 → PollerOption
  with_no_events_backoff : Int64 → Int64 → PollerOption
  with_error_backoff : Int64 → Int64 → PollerOption
  with_parallel_delivery : Int64 → PollerOption

-- The fields of a new `Poller` that the options set.
pub record PollerSettings : Type 0 where
  pub authz_header : String
  pub max_events : Int64
  pub no_events_backoff : Backoff
  pub error_backoff : Backoff
  pub parallelism : Int64

abbrev pub default_poller : PollerSettings
default_poller = record {
  authz_header = "";
  max_events = 100;
  no_events_backoff = record {
    initial = 1000000000;
    maximum = 300000000000;
    current = 1000000000;
    jittered = false;
  };
  error_backoff = record {
    initial = 1000000000;
    maximum = 3600000000000;
    current = 1000000000;
    jittered = true;
  };
  parallelism = 1;
}

-- `backoff{…}` of an option, or the one before where the arguments are ignored
abbrev backoff_or : Backoff → Int64 → Int64 → Bool → Backoff
backoff_or b initial maximum jittered =
    if slt 0 initial && sle initial maximum
    then record { initial = initial; maximum = maximum; current = initial; jittered = jittered }
    else b

unfoldable pub apply_poller_option : PollerSettings → PollerOption → PollerSettings
apply_poller_option p with_http_client = p
apply_poller_option p (with_authorization_header h) = record p { authz_header = h }
apply_poller_option p (with_max_events raw) =
    let n = to_int64 raw in record p { max_events = if slt 0 n then n else p.max_events }
apply_poller_option p (with_no_events_backoff a b) = record p {
  no_events_backoff = backoff_or p.no_events_backoff (to_int64 a) (to_int64 b) false;
}
apply_poller_option p (with_error_backoff a b) = record p {
  error_backoff = backoff_or p.error_backoff (to_int64 a) (to_int64 b) true;
}
apply_poller_option p (with_parallel_delivery raw) =
    let n = to_int64 raw in record p { parallelism = if slt 1 n then n else p.parallelism }

apply_poller_options : PollerSettings → List PollerOption → PollerSettings
apply_poller_options p [] = p
apply_poller_options p (o ∷ os) = apply_poller_options (apply_poller_option p o) os

-- `NewPoller`
unfoldable pub new_poller : List PollerOption → PollerSettings
unfolding apply_poller_options
new_poller os = apply_poller_options default_poller os

-- Backoffs between their first values and their ceilings, each at its first value, and positive
-- counts.
pub record IsReady (p : PollerSettings) : Type 0 where
  pub idle : IsBounded p.no_events_backoff
  pub failing : IsBounded p.error_backoff
  pub idle_first : p.no_events_backoff.current ≡ p.no_events_backoff.initial
  pub failing_first : p.error_backoff.current ≡ p.error_backoff.initial
  pub events : 0 < p.max_events
  pub events_word : p.max_events < sign_bit
  pub workers : 0 < p.parallelism
  pub workers_word : p.parallelism < sign_bit

option-IsReady :
    (p : PollerSettings) (o : PollerOption) → IsReady p → IsReady (apply_poller_option p o)
unfolding apply_poller_option
option-IsReady p with_http_client h = h
option-IsReady p (with_authorization_header t) h = ground (arith, h)
option-IsReady p (with_max_events n) h = ground arith
option-IsReady p (with_no_events_backoff a b) h = ground arith
option-IsReady p (with_error_backoff a b) h = ground arith
option-IsReady p (with_parallel_delivery n) h = ground arith

options-IsReady :
    (p : PollerSettings) (os : List PollerOption) → IsReady p → IsReady (apply_poller_options p os)
unfolding apply_poller_options
options-IsReady p [] h = h
options-IsReady p (o ∷ os) h = options-IsReady (apply_poller_option p o) os (option-IsReady p o h)

-- Whatever the options and their order, a new Poller has both backoffs at their first values, which
-- are positive and at most the ceilings, asks for a positive number of events, and has a worker.
new_poller-IsReady : (os : List PollerOption) → IsReady (new_poller os)
unfolding new_poller
new_poller-IsReady os = options-IsReady default_poller os (ground arith)
