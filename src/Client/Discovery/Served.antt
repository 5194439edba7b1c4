-- ===== src/Client/Discovery/Served.antt =====
-- client/discovery.go: what the calls that share a ConfigCache are served.
use go_ssf.Prelude.{
  ℕ, ◌+◌, ◌*◌, ◌%◌, ◌≤◌, ◌<◌, min, Bool, true, false, not, ◌&&◌, ◌||◌, Option, none, some, List, [],
  ◌∷◌, ◌++◌, String, ◌==◌, eqb, ltb, if◌then◌else◌, ◌≡◌, refl, sym, ap, ◌∙◌, ◌⊎◌, inl, inr, arith,
  eq_iff, Bool-cases, Option-cases,
}
use native.Mathlib.Nat.{mod-le}
use go_ssf.Prelude.Int64.{Int64, modulus, sign_bit, slt, sle}
use go_ssf.Prelude.Map.{get, get-put, get-nil}
use go_ssf.Wire.{TransmitterConfig}
use go_ssf.Client.Discovery.{FetchResult}
use go_ssf.Errors.{Result, ok, err}
use go_ssf.Client.Discovery.Callers.{
  Arrival, arrive, Calls, no_calls, CallEvent, begins, ends, looked, fetched, call_step, run_calls,
  handed, handed_by, arrivals,
}
use go_ssf.Client.Discovery.Cache.{
  Instant, add_duration, CacheEntry, ConfigCache, new_config_cache, unexpired, lookup, freshness,
  store,
}

abbrev pub may_store : FetchResult → Bool
may_store r = not r.no_store && not (eqb r.max_age 0)

-- Whether some of the responses is stored for a base URL.
abbrev pub stored_for : String → List Arrival → Bool
stored_for url [] = false
stored_for url (a ∷ rest) = (a.base_url == url && may_store a.result) || stored_for url rest

-- The nanoseconds for which a response may be served, in numbers without a bound.
abbrev pub limit : Int64 → Int64 → ℕ
limit ttl max_age = if slt 0 max_age then min ttl (max_age * 1000000000) else ttl

abbrev entry_of : Int64 → Arrival → CacheEntry
entry_of ttl a = record {
  config = a.result.config;
  expires_at = add_duration a.at (freshness ttl a.result.max_age);
}

store_lem :
    (c : ConfigCache) (a : Arrival) (url : String)
    → ((store c a.at a.base_url a.result).ttl ≡ c.ttl)
      × (get (store c a.at a.base_url a.result).entries url ≡ (
          if a.base_url == url && may_store a.result
          then some (entry_of c.ttl a)
          else get c.entries url))
unfolding store
store_lem c a url = elim (Bool-cases a.result.no_store) [
  | inl never ↦ rw never (refl, ground arith)
  | inr may ↦ elim (Bool-cases (eqb a.result.max_age 0)) [
    | inl stale ↦ rw (may, stale) (refl, ground arith)
    | inr some_age ↦
        rw (may, some_age)
          (refl, get-put c.entries a.base_url url (entry_of c.ttl a) ∙ ground arith)
  ]
]

-- The response of the arrivals that the entry of a base URL comes from.
record Origin (ttl : Int64) (es : List Arrival) (url : String) (entry : CacheEntry) : Type 0 where
  front : List Arrival
  source : Arrival
  back : List Arrival
  place : es ≡ front ++ source ∷ back
  there : (source.base_url == url && may_store source.result) ≡ true
  last : stored_for url back ≡ false
  made : entry ≡ entry_of ttl source

origin :
    (c : ConfigCache) (es : List Arrival) (url : String) (entry : CacheEntry)
    → get (arrive c es).entries url ≡ some entry
    → Origin c.ttl es url entry ⊎ (get c.entries url ≡ some entry) × (stored_for url es ≡ false)
origin c [] url entry h = inr (h, refl)
origin c (a ∷ es) url entry h =
    let (ttl, found) = store_lem c a url in
    elim (origin (store c a.at a.base_url a.result) es url entry h) [
      | inl o ↦ inl (record {
        front = a ∷ o.front;
        source = o.source;
        back = o.back;
        place = ap (λ l. a ∷ l) o.place;
        there = o.there;
        last = o.last;
        made = o.made ∙ ap (λ t. entry_of t o.source) ttl;
      })
      | inr before ↦ elim (Bool-cases (a.base_url == url && may_store a.result)) [
        | inl here ↦ inl (record {
          front = [];
          source = a;
          back = es;
          place = refl;
          there = here;
          last = before.1;
          made = let put_there = rw here at found in let read = before.0 in cc;
        })
        | inr other ↦ inr (sym (rw other at found) ∙ before.0, rw other before.1)
      ]
    ]

within_age :
    (ttl nanos whole : ℕ) (at now : Instant)
    → sle ttl 0 ≡ false
    → ttl < sign_bit
    → nanos < modulus
    → nanos ≤ whole
    → now < add_duration at (if slt nanos ttl then nanos else ttl)
    → now < at + min ttl whole
within_age ttl nanos whole at now live small word less early = elim (Bool-cases (slt nanos ttl)) [
  | inl shorter ↦ elim (Bool-cases (slt nanos 0)) [
    | inl wrapped ↦ let past = rw (shorter, wrapped) at early in omega (arith, past)
    | inr exact ↦
        ground (arith, rw (shorter, exact) at early, shorter, exact, live, small, word, less)
  ]
  | inr longer ↦ ground (arith, rw longer at early, longer, live, small, word, less)
]

within_limit :
    (ttl max_age : Int64) (at now : Instant)
    → sle ttl 0 ≡ false
    → ttl < sign_bit
    → now < add_duration at (freshness ttl max_age)
    → now < at + limit ttl max_age
unfolding freshness
within_limit ttl max_age at now live small early = elim (Bool-cases (slt 0 max_age)) [
  | inl aged ↦
      let nanos = max_age * 1000000000 in
      rw aged (
        within_age ttl (nanos % modulus) nanos at now live small (omega arith)
          (mod-le nanos modulus) (rw aged at early))
  | inr ageless ↦ rw ageless (ground (arith, rw ageless at early, live, small))
]

still_fresh :
    (now : Instant) (entry : CacheEntry) (cfg : TransmitterConfig)
    → unexpired now (some entry) ≡ some cfg
    → (now < entry.expires_at) × (entry.config ≡ cfg)
unfolding unexpired
still_fresh now entry cfg h = elim (Bool-cases (ltb now entry.expires_at)) [
  | inl early ↦ let got = rw early at h in (ground (arith, early), cc)
  | inr late ↦ absurd (let got = rw late at h in cc)
]

both : (a b : Bool) → (a && b) ≡ true → (a ≡ true) × (b ≡ true)
both true b h = (refl, h)
both false b h = absurd (ground (arith, h))

arrive-append :
    (c : ConfigCache) (es more : List Arrival) → arrive c (es ++ more) ≡ arrive (arrive c es) more
arrive-append c [] more = refl
arrive-append c (a ∷ es) more = arrive-append (store c a.at a.base_url a.result) es more

looked_cache :
    (s : Calls) (call url : String) (o : Option TransmitterConfig)
    → (looked s call url o).cache ≡ s.cache
unfolding looked
looked_cache s call url none = refl
looked_cache s call url (some cfg) = refl

fetched_cache :
    (s : Calls) (call : String) (o : Option String) (at : Instant) (r : Result FetchResult)
    → (fetched s call o at r).cache ≡ arrive s.cache (handed o at r)
unfolding fetched
fetched_cache s call none at r = refl
fetched_cache s call (some url) at (err e) = refl
fetched_cache s call (some url) at (ok r) = refl

step_cache : (s : Calls) (e : CallEvent) → (call_step s e).cache ≡ arrive s.cache (handed_by s e)
unfolding call_step
step_cache s (begins call url at) = looked_cache s call url _
step_cache s (ends call at r) = fetched_cache s call _ at r

-- The cache holds what the arrivals leave, whatever stood between them.
run_cache :
    (s : Calls) (es : List CallEvent) → (run_calls s es).cache ≡ arrive s.cache (arrivals s es)
unfolding run_calls arrivals
run_cache s [] = refl
run_cache s (e ∷ es) =
    run_cache (call_step s e) es
    ∙ ap (λ c. arrive c (arrivals (call_step s e) es)) (step_cache s e)
    ∙ sym (arrive-append s.cache (handed_by s e) (arrivals (call_step s e) es))

-- What a shared cache serves: however calls on a new cache with a limit above zero interleave, a configuration
-- that the cache has for a base URL came with the last response handed to it for that URL which could be
-- stored; and since then less time has gone by than the cache's limit and, if the response has a
-- max-age above zero, than that age, even where its nanoseconds are no int64.
pub served_fresh :
    (ttl : Int64) (es : List CallEvent) (url : String) (now : Instant) (cfg : TransmitterConfig)
    → sle ttl 0 ≡ false
    → ttl < sign_bit
    → lookup (run_calls (no_calls ttl) es).cache now url ≡ some cfg
    → (front : List Arrival) × (a : Arrival) × (back : List Arrival) × (arrivals (no_calls ttl) es
        ≡ front ++ a ∷ back)
      × (a.base_url ≡ url)
      × (a.result.config ≡ cfg)
      × (may_store a.result ≡ true)
      × (stored_for url back ≡ false)
      × (now < a.at + limit ttl a.result.max_age)
unfolding lookup
served_fresh ttl events url now cfg live small served =
    let es = arrivals (no_calls ttl) events in
    elim (Option-cases (get (arrive (new_config_cache ttl) es).entries url)) [
      | inl missing ↦ absurd (
          let got = rw (run_cache (no_calls ttl) events, missing) at served in
          unfold unexpired in cc)
      | inr (entry, found) ↦ elim (origin (new_config_cache ttl) es url entry found) [
        | inr before ↦ absurd (let got = before.0 in let miss = get-nil {V = CacheEntry} url in cc)
        | inl o ↦
            let a = o.source in
            let (early, same) =
              still_fresh now entry cfg (rw (run_cache (no_calls ttl) events, found) at served) in
            let here = both (a.base_url == url) (may_store a.result) o.there in
            (
              o.front,
              a,
              o.back,
              o.place,
              (eq_iff a.base_url url).0 here.0,
              sym (ap (λ e. e.config) o.made) ∙ same,
              here.1,
              o.last,
              within_limit ttl a.result.max_age a.at now live small (rw o.made at early),
            )
      ]
    ]
