-- ===== src/Client/Discovery/Cache.antt =====
-- client/discovery.go: the cache of fetched metadata. An instant is a number of nanoseconds from a distant
-- origin, where a subtraction stops. `cached_fetch` is a call that no other call interrupts.
use go_ssf.Prelude.{ℕ, ◌+◌, ◌-◌, Option, none, some, List, [], String, ltb, eqb, if◌then◌else◌}
use go_ssf.Prelude.Int64.{Int64, modulus, slt, sle}
use go_ssf.Prelude.Map.{Map, get, put}
use go_ssf.RetryAfter.{seconds}
use go_ssf.Errors.{Result, ok, err}
use go_ssf.Wire.{TransmitterConfig}
use go_ssf.Client.Errors.{Decoding}
use go_ssf.Client.Discovery.{
  DiscoveryReading, Fetcher, FetchResult, fetch_once, settle_doer, fetch_transmitter_config,
}

abbrev pub Instant : Type 0
Instant = ℕ

-- `t.Add(d)`
abbrev pub add_duration : Instant → Int64 → Instant
add_duration t d = if slt d 0 then t - (modulus - d) else t + d

pub record CacheEntry : Type 0 where
  pub config : TransmitterConfig
  pub expires_at : Instant

pub record ConfigCache : Type 0 where
  pub ttl : Int64
  pub entries : Map CacheEntry

-- `NewConfigCache`
abbrev pub new_config_cache : Int64 → ConfigCache
new_config_cache ttl = record { ttl = ttl; entries = [] }

unfoldable pub unexpired : Instant → Option CacheEntry → Option TransmitterConfig
unexpired now none = none
unexpired now (some entry) = if ltb now entry.expires_at then some entry.config else none

-- `lookup`
unfoldable pub lookup : ConfigCache → Instant → String → Option TransmitterConfig
lookup c now base_url = unexpired now (get c.entries base_url)

unfoldable pub freshness : Int64 → Int64 → Int64
freshness ttl max_age =
    if slt 0 max_age then if slt (seconds max_age) ttl then seconds max_age else ttl else ttl

-- `store`
unfoldable pub store : ConfigCache → Instant → String → FetchResult → ConfigCache
store c now base_url r = if r.no_store then c else if eqb r.max_age 0 then c else record c {
  entries =
      put c.entries base_url
        (record { config = r.config; expires_at = add_duration now (freshness c.ttl r.max_age) });
}

-- The result, the cache and the state of the transport after a call.
abbrev pub Cached : Type 0 → Type 0
Cached W = Result TransmitterConfig × ConfigCache × W

unfoldable pub stored :
    {W : Type 0} → ConfigCache → Instant → String → Result FetchResult × W → Cached W
stored c now base_url (err e, w) = (err e, c, w)
stored c now base_url (ok r, w) = (ok r.config, store c now base_url r, w)

unfoldable pub by_lookup :
    {W : Type 0} → Option TransmitterConfig → ConfigCache → W → Cached W → Cached W
by_lookup (some cfg) c w anew = (ok cfg, c, w)
by_lookup none c w anew = anew

abbrev pub uncached : {W : Type 0} → ConfigCache → Result TransmitterConfig × W → Cached W
uncached c (r, w) = (r, c, w)

-- `ConfigCache.FetchTransmitterConfig`, with the instants at which it looks and stores
unfoldable pub cached_fetch :
    {W : Type 0}
    → DiscoveryReading
    → Decoding
    → Fetcher W
    → List (Option (Fetcher W))
    → ConfigCache
    → Instant
    → Instant
    → W
    → String
    → Cached W
cached_fetch std d client os c looks stores w base_url =
    if sle c.ttl 0
    then uncached c (fetch_transmitter_config std d client os w base_url)
    else by_lookup (lookup c looks base_url) c w
        (stored c stores base_url (fetch_once std d (settle_doer std d client os) w base_url))
