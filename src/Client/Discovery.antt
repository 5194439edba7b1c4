-- ===== src/Client/Discovery.antt =====
-- client/discovery.go: the fetch of a Transmitter's metadata. The splitting and trimming of texts, ParseInt,
-- the building of a request and the decoding are parameters, and the transport is a function on a
-- state of its own.
pub mod Cache
pub mod Freshness
pub mod Callers
pub mod Served
mod Examples
use Prim.Native.String.{◌++◌}
use go_ssf.Prelude.{
  ℕ, ◌+◌, ◌-◌, Bool, true, false, not, ◌||◌, Option, none, some, List, [], ◌∷◌, String, ltb, eqb,
  ◌==◌, if◌then◌else◌,
}
use go_ssf.Prelude.Int64.{Int64, modulus, slt, sle}
use go_ssf.Prelude.Map.{Map, get, put}
use go_ssf.RetryAfter.{seconds}
use go_ssf.Errors.{Error, Result, ok, err, wrap}
use go_ssf.Wire.{TransmitterConfig}
use go_ssf.Client.Errors.{Decoding, Response, parse_http_error}

-- `strings.Split` at commas, `TrimSpace`, `TrimRight` of slashes, `Cut` at "=" with what follows it if it is
-- there, `ToLower`, `strconv.ParseInt`, the error of `http.NewRequestWithContext`, and `Decode`.
pub record DiscoveryReading : Type 0 where
  pub split : String → List String
  pub trim : String → String
  pub trim_slashes : String → String
  pub cut : String → String × Option String
  pub to_lower : String → String
  pub parse_int : String → Option Int64
  pub build_err : String → Option Error
  pub decode : Result String → Result TransmitterConfig

-- A response, its body as the decoder reads it, and its Cache-Control header.
pub record DiscoveryResponse : Type 0 where
  pub response : Response
  pub stream : Result String
  pub cache_control : String

abbrev pub Fetcher : Type 0 → Type 0
Fetcher W = W → String → Result DiscoveryResponse × W

pub record FetchResult : Type 0 where
  pub config : TransmitterConfig
  pub max_age : Int64
  pub no_store : Bool

abbrev pub well_known_path : String
well_known_path = "/.well-known/ssf-configuration"

-- The `-1` of a missing max-age.
abbrev pub no_max_age : Int64
no_max_age = modulus - 1

-- The max-age and whether the response must not be stored.
abbrev pub Directives : Type 0
Directives = Int64 × Bool

unfoldable pub with_number : Directives → Option Int64 → Directives
with_number (age, no_store) none = (age, no_store)
with_number (age, no_store) (some n) = if slt n 0 then (age, no_store) else (n, no_store)

unfoldable pub with_value : DiscoveryReading → Directives → Option String → Directives
with_value std found none = found
with_value std found (some value) = with_number found (std.parse_int (std.trim value))

unfoldable pub with_name : DiscoveryReading → Directives → String → Option String → Directives
with_name std (age, no_store) name value =
    if name == "no-store" || name == "no-cache"
    then (age, true)
    else if name == "max-age"
    then with_value std (age, no_store) value
    else (age, no_store)

unfoldable pub with_directive : DiscoveryReading → Directives → String → Directives
with_directive std found directive =
    if directive == ""
    then found
    else with_name std found (std.to_lower (std.trim (std.cut directive).0)) (std.cut directive).1

unfoldable pub scan_directives : DiscoveryReading → Directives → List String → Directives
scan_directives std found [] = found
scan_directives std found (raw ∷ rest) =
    scan_directives std (with_directive std found (std.trim raw)) rest

-- `parseCacheControl`
unfoldable pub parse_cache_control : DiscoveryReading → String → Directives
parse_cache_control std header =
    if header == ""
    then (no_max_age, false)
    else scan_directives std (no_max_age, false) (std.split header)

unfoldable pub by_decoding :
    DiscoveryReading → Directives → Result TransmitterConfig → Result FetchResult
by_decoding std found (err e) = err (wrap "ssf: decode transmitter config" e)
by_decoding std (age, no_store) (ok cfg) =
    ok (record { config = cfg; max_age = age; no_store = no_store })

unfoldable pub by_status : DiscoveryReading → DiscoveryResponse → Option Error → Result FetchResult
by_status std r (some e) = err e
by_status std r none =
    by_decoding std (parse_cache_control std r.cache_control) (std.decode r.stream)

unfoldable pub by_fetch :
    DiscoveryReading → Decoding → Result DiscoveryResponse → Result FetchResult
by_fetch std d (err e) = err (wrap "ssf: fetch transmitter config" e)
by_fetch std d (ok r) = by_status std r (parse_http_error d r.response)

module _ {W : Type 0} (std : DiscoveryReading) (d : Decoding) where
  unfoldable pub built : Fetcher W → W → String → Option Error → Result FetchResult × W
  built doer w url (some e) = (err (wrap "ssf: build discovery request" e), w)
  built doer w url none = let a = doer w url in (by_fetch std d a.0, a.1)

  -- `fetchOnce`
  unfoldable pub fetch_once : Fetcher W → W → String → Result FetchResult × W
  unfolding built
  fetch_once doer w base_url =
      let url = std.trim_slashes base_url ++ well_known_path in built doer w url (std.build_err url)

  -- `WithDiscoveryHTTPDoer` keeps the doer so far when it is nil.
  unfoldable pub settle_doer : Fetcher W → List (Option (Fetcher W)) → Fetcher W
  settle_doer doer [] = doer
  settle_doer doer (none ∷ os) = settle_doer doer os
  settle_doer doer (some other ∷ os) = settle_doer other os

  abbrev pub config_of : Result FetchResult × W → Result TransmitterConfig × W
  config_of (err e, w) = (err e, w)
  config_of (ok r, w) = (ok r.config, w)

  -- `FetchTransmitterConfig`, with `http.DefaultClient`
  unfoldable pub fetch_transmitter_config :
      Fetcher W → List (Option (Fetcher W)) → W → String → Result TransmitterConfig × W
  fetch_transmitter_config client os w base_url =
      config_of (fetch_once (settle_doer client os) w base_url)
