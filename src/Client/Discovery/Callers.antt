-- ===== src/Client/Discovery/Callers.antt =====
-- client/discovery.go: the calls that share a ConfigCache. A call looks into the cache when it begins; when
-- nothing fresh is there it fetches, while other calls begin and end, and its end stores the response.
use go_ssf.Prelude.{Option, none, some, List, [], ◌∷◌, ◌++◌, String}
use go_ssf.Prelude.Int64.{Int64}
use go_ssf.Prelude.Map.{Map, put, remove, get}
use go_ssf.Errors.{Result, ok, err}
use go_ssf.Wire.{TransmitterConfig}
use go_ssf.Client.Discovery.{FetchResult}
use go_ssf.Client.Discovery.Cache.{Instant, ConfigCache, new_config_cache, lookup, store}

-- The end of a call that has fetched: its response is stored.
pub record Arrival : Type 0 where
  pub at : Instant
  pub base_url : String
  pub result : FetchResult

abbrev pub arrive : ConfigCache → List Arrival → ConfigCache
arrive c [] = c
arrive c (a ∷ rest) = arrive (store c a.at a.base_url a.result) rest

-- The cache, and the base URL of each call that is fetching.
pub record Calls : Type 0 where
  pub cache : ConfigCache
  pub fetching : Map String

abbrev pub no_calls : Int64 → Calls
no_calls ttl = record { cache = new_config_cache ttl; fetching = [] }

-- The calls have names.
pub data CallEvent : Type 0 where
  begins : String → String → Instant → CallEvent
  ends : String → Instant → Result FetchResult → CallEvent

unfoldable pub looked : Calls → String → String → Option TransmitterConfig → Calls
looked s call url (some cfg) = s
looked s call url none = record s { fetching = put s.fetching call url }

unfoldable pub fetched : Calls → String → Option String → Instant → Result FetchResult → Calls
fetched s call none at r = s
fetched s call (some url) at (err e) = record s { fetching = remove s.fetching call }
fetched s call (some url) at (ok r) = record s {
  cache = store s.cache at url r;
  fetching = remove s.fetching call;
}

unfoldable pub call_step : Calls → CallEvent → Calls
unfolding looked fetched
call_step s (begins call url at) = looked s call url (lookup s.cache at url)
call_step s (ends call at r) = fetched s call (get s.fetching call) at r

unfoldable pub run_calls : Calls → List CallEvent → Calls
run_calls s [] = s
run_calls s (e ∷ es) = run_calls (call_step s e) es

-- The response that an event hands to the cache.
abbrev pub handed : Option String → Instant → Result FetchResult → List Arrival
handed none at r = []
handed (some url) at (err e) = []
handed (some url) at (ok r) = record { at = at; base_url = url; result = r } ∷ []

abbrev pub handed_by : Calls → CallEvent → List Arrival
handed_by s (begins call url at) = []
handed_by s (ends call at r) = handed (get s.fetching call) at r

-- The responses handed to the cache in the course of events.
unfoldable pub arrivals : Calls → List CallEvent → List Arrival
arrivals s [] = []
arrivals s (e ∷ es) = handed_by s e ++ arrivals (call_step s e) es
