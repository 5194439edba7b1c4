-- ===== src/Client/Discovery/Examples.antt =====
-- client/discovery.go: a Transmitter whose metadata may be kept for a minute, at a cache that keeps for an hour.
use go_ssf.Prelude.{List, ◌++◌, true, ◌<◌, ◌+◌}
use go_ssf.Client.Discovery.Callers.{
  Arrival, CallEvent, begins, ends, no_calls, run_calls, call_step, looked, fetched, arrivals,
}
use go_ssf.Client.Discovery.Served.{may_store, stored_for, limit, served_fresh}
use go_ssf.Prelude.{ℕ, suc, false, none, some, [], ◌∷◌, ◌≡◌, refl, arith}
use go_ssf.Errors.{Result, ok}
use go_ssf.Wire.{TransmitterConfig}
use go_ssf.Client.Errors.{Decoding, parse_http_error}
use go_ssf.Prelude.Map.{get, put, remove}
use go_ssf.Client.Discovery.{
  DiscoveryReading, Fetcher, FetchResult, fetch_once, built, by_fetch, by_status, by_decoding,
  settle_doer, parse_cache_control, scan_directives, with_directive, with_name, with_value,
  with_number,
}
use go_ssf.Client.Discovery.Cache.{
  freshness, ConfigCache, new_config_cache, cached_fetch, lookup, store, unexpired,
}
use go_ssf.Client.Discovery.Freshness.{fetched_again}

abbrev metadata : TransmitterConfig
metadata = record {
  issuer = "https://tr.example";
  jwks_uri = "";
  delivery_methods_supported = none;
  configuration_endpoint = "";
  status_endpoint = "";
  add_subject_endpoint = "";
  remove_subject_endpoint = "";
  verification_endpoint = "";
  critical_subject_members = none;
  spec_version = "";
  authorization_schemes = none;
}

abbrev reading : DiscoveryReading
reading = record {
  split = λ t. t ∷ [];
  trim = λ t. t;
  trim_slashes = λ t. t;
  cut = λ t. ("max-age", some "60");
  to_lower = λ t. t;
  parse_int = λ t. some 60;
  build_err = λ t. none;
  decode = λ b. ok metadata;
}

abbrev decoding : Decoding
decoding = record { media_type = λ t. some t; problem = λ t. none }

abbrev counting : Fetcher ℕ
counting w url = (
  ok (record {
    response = record { status_code = 200; content_type = "application/json"; body = ok "{}" };
    stream = ok "{}";
    cache_control = "max-age=60";
  }),
  suc w,
)

abbrev minute : FetchResult
minute = record { config = metadata; max_age = 60; no_store = false }

abbrev hour : ConfigCache
hour = new_config_cache 3600000000000

abbrev first : Result TransmitterConfig × ConfigCache × ℕ
first = cached_fetch reading decoding counting [] hour 5 6 0 "https://tr.example"

-- A second call after half a minute makes no request: the count of requests stays what it is.
fetched_again_example :
    (first.0 ≡ ok metadata)
    × (cached_fetch reading decoding counting [] first.1 30000000000 30000000001 1
          "https://tr.example"
        ≡ (ok metadata, first.1, 1))
unfolding lookup get unexpired fetch_once built by_fetch by_status by_decoding settle_doer
    parse_http_error parse_cache_control scan_directives with_directive with_name with_value
    with_number
fetched_again_example =
    fetched_again reading decoding counting [] hour "https://tr.example" minute (some 60) 5 6
      30000000000 30000000001 0 1 refl (omega arith) (omega arith) refl (omega arith) (omega arith)
      refl refl

abbrev centuries : FetchResult
centuries = record { config = metadata; max_age = 9223372037; no_store = false }

-- Two calls fetch at the same time; the response of the one that ends later may not be stored.
abbrev interleaved : List CallEvent
interleaved =
    begins "first" "https://tr.example" 5
    ∷ begins "second" "https://tr.example" 6
    ∷ ends "first" 8 (ok minute)
    ∷ ends "second" 9 (ok (record minute { no_store = true }))
    ∷ []

served_fresh_example :
    (front : List Arrival) × (a : Arrival) × (back : List Arrival) × (arrivals
        (no_calls 3600000000000)
        interleaved
      ≡ front ++ a ∷ back)
    × (a.base_url ≡ "https://tr.example")
    × (a.result.config ≡ metadata)
    × (may_store a.result ≡ true)
    × (stored_for "https://tr.example" back ≡ false)
    × (30 < a.at + limit 3600000000000 a.result.max_age)
unfolding get run_calls call_step looked fetched lookup store unexpired put remove freshness
served_fresh_example =
    served_fresh 3600000000000 interleaved "https://tr.example" 30 metadata refl (omega arith) refl
