-- ===== src/Client/Discovery/Freshness.antt =====
-- client/discovery.go: how long a fetched configuration is served without a request.
use go_ssf.Prelude.{
  ℕ, ◌+◌, ◌*◌, ◌<◌, ◌≤◌, min, Bool, true, false, not, ◌&&◌, Option, none, some, List, String, ltb,
  eqb, if◌then◌else◌, ◌≡◌, refl, ◌∙◌, arith, eq_refl, Bool-cases, inl, inr,
}
use go_ssf.Prelude.Int64.{Int64, sign_bit, slt, sle}
use go_ssf.Prelude.Map.{get, get-put}
use go_ssf.RetryAfter.{seconds}
use go_ssf.Errors.{Result, ok, err}
use go_ssf.Wire.{TransmitterConfig}
use go_ssf.Client.Errors.{Decoding}
use go_ssf.Client.Discovery.{
  DiscoveryReading, Fetcher, FetchResult, no_max_age, fetch_once, settle_doer,
}
use go_ssf.Client.Discovery.Cache.{
  Instant, add_duration, CacheEntry, ConfigCache, unexpired, lookup, freshness, store, stored,
  by_lookup, cached_fetch,
}

-- A max-age in seconds, if the response has one, as the word that the parser gives.
abbrev pub age_word : Option ℕ → Int64
age_word none = no_max_age
age_word (some age) = age

-- An age whose nanoseconds are an int64.
abbrev pub IsShort : Option ℕ → Type 0
IsShort none = Unit
IsShort (some age) = age < 9223372037

-- The nanoseconds for which a response may be served: the cache's own limit, or the max-age if it is less.
abbrev pub lifetime : ℕ → Option ℕ → ℕ
lifetime ttl none = ttl
lifetime ttl (some age) = min ttl (age * 1000000000)

fresh_for :
    (ttl : Int64) (age : Option ℕ)
    → sle ttl 0 ≡ false
    → ttl < sign_bit
    → IsShort age
    → eqb (age_word age) 0 ≡ false
    → freshness ttl (age_word age) ≡ lifetime ttl age
unfolding freshness
fresh_for ttl none h k short some_age = refl
fresh_for ttl (some age) h k short some_age =
    let whole : seconds age ≡ age * 1000000000 = omega (arith, short) in
    rw whole (ground (arith, h, k, short, some_age))

still_expired :
    (entry : Option CacheEntry) (before now : Instant)
    → before ≤ now
    → unexpired before entry ≡ none
    → unexpired now entry ≡ none
unfolding unexpired
still_expired none before now h e = refl
still_expired (some entry) before now h e = ground (arith, h, e)

no_life : (ttl : ℕ) (age : Option ℕ) → eqb (age_word age) 0 ≡ true → lifetime ttl age ≡ 0
no_life ttl none e = ground (arith, e)
no_life ttl (some age) e = ground (arith, e)

lifetime_le : (ttl : ℕ) (age : Option ℕ) → lifetime ttl age ≤ ttl
lifetime_le ttl none = omega arith
lifetime_le ttl (some age) = ground arith

expiry :
    (ttl : Int64) (age : Option ℕ) (at : Instant)
    → sle ttl 0 ≡ false
    → ttl < sign_bit
    → IsShort age
    → eqb (age_word age) 0 ≡ false
    → add_duration at (freshness ttl (age_word age)) ≡ at + lifetime ttl age
expiry ttl age at h k short some_age =
    let within = lifetime_le ttl age in
    rw (fresh_for ttl age h k short some_age) (ground (arith, within, k))

-- What the cache gives for a response that it was just told to store.
look_again :
    (c : ConfigCache) (url : String) (r : FetchResult) (age : Option ℕ)
    (looked stores now : Instant)
    → sle c.ttl 0 ≡ false
    → c.ttl < sign_bit
    → IsShort age
    → r.max_age ≡ age_word age
    → looked ≤ now
    → stores ≤ now
    → lookup c looked url ≡ none
    → lookup (store c stores url r) now url
      ≡ (if not r.no_store && ltb now (stores + lifetime c.ttl age) then some r.config else none)
unfolding lookup store unexpired
look_again c url r age looked stores now h k short aged later after missed =
    elim (Bool-cases r.no_store) [
      | inl never ↦ rw never (still_expired (get c.entries url) looked now later missed)
      | inr may ↦ rw may (elim (Bool-cases (eqb r.max_age 0)) [
        | inl at_once ↦ rw at_once (
            still_expired (get c.entries url) looked now later missed
            ∙ rw (no_life c.ttl age (rw aged at at_once)) (ground (arith, after)))
        | inr kept ↦ rw kept (
            rw (get-put c.entries url url _) (
              rw (eq_refl url)
                (rw aged (rw (expiry c.ttl age stores h k short (rw aged at kept)) refl))))
      ])
    ]

stored_ok :
    {W : Type 0} (c : ConfigCache) (stores : Instant) (url : String) (x : Result FetchResult × W)
    (r : FetchResult)
    → x.0 ≡ ok r
    → stored c stores url x ≡ (ok r.config, store c stores url r, x.1)
unfolding stored
stored_ok c stores url (ok q, w) r e = let same : q ≡ r = ground (arith, e) in rw same refl
stored_ok c stores url (err x, w) r e = ground (arith, e)

ttl_kept :
    (c : ConfigCache) (stores : Instant) (url : String) (r : FetchResult)
    → (store c stores url r).ttl ≡ c.ttl
unfolding store
ttl_kept c stores url r = ground arith

served :
    {W : Type 0} (b : Bool) (cfg : TransmitterConfig) (c : ConfigCache) (v : W)
    (anew : Result TransmitterConfig × ConfigCache × W)
    → by_lookup (if b then some cfg else none) c v anew ≡ (if b then (ok cfg, c, v) else anew)
unfolding by_lookup
served true cfg c v anew = refl
served false cfg c v anew = refl

-- A cache with a limit above zero that holds no fresh configuration for a base URL fetches it, and a
-- later call for the same base URL gives that configuration again, without a request and with the cache as it
-- is, exactly when the response allowed it to be stored and less time has passed since it was stored than the
-- cache's limit and the response's max-age, if it has one; else it fetches anew. (The clock does not go
-- back, and the nanoseconds of the max-age are an int64.)
pub fetched_again :
    {W : Type 0} (std : DiscoveryReading) (d : Decoding) (client : Fetcher W)
    (os : List (Option (Fetcher W))) (c : ConfigCache) (url : String) (r : FetchResult)
    (age : Option ℕ) (looked stores now later : Instant) (w v : W)
    → sle c.ttl 0 ≡ false
    → c.ttl < sign_bit
    → IsShort age
    → r.max_age ≡ age_word age
    → looked ≤ now
    → stores ≤ now
    → lookup c looked url ≡ none
    → (fetch_once std d (settle_doer std d client os) w url).0 ≡ ok r
    → let first = cached_fetch std d client os c looked stores w url in
      (first.0 ≡ ok r.config)
      × (cached_fetch std d client os first.1 now later v url ≡ (
          if not r.no_store && ltb now (stores + lifetime c.ttl age)
          then (ok r.config, first.1, v)
          else stored first.1 later url (fetch_once std d (settle_doer std d client os) v url)))
unfolding cached_fetch by_lookup
fetched_again std d client os c url r age looked stores now later w v h k short aged since after
      missed fetched =
    let doer = settle_doer std d client os in
    let kept = stored_ok c stores url (fetch_once std d doer w url) r fetched in
    let live : sle (store c stores url r).ttl 0 ≡ false = rw (ttl_kept c stores url r) h in
    rw h (
      rw missed (
        rw kept (
          refl,
          rw live (
              rw (look_again c url r age looked stores now h k short aged since after missed) (
                served (not r.no_store && ltb now (stores + lifetime c.ttl age)) r.config
                  (store c stores url r) v
                  (stored (store c stores url r) later url (fetch_once std d doer v url)))),
        )))

below_ttl : (n ttl : Int64) → slt n 0 ≡ true → sle ttl 0 ≡ false → slt n ttl ≡ true
below_ttl n ttl h k = ground (arith, h, k)

wrapped_age :
    (ttl : Int64) (age : Int64) (at : Instant)
    → slt 0 age ≡ true
    → slt (seconds age) 0 ≡ true
    → sle ttl 0 ≡ false
    → add_duration at (freshness ttl age) ≤ at
unfolding freshness
wrapped_age ttl age at some_age negative live =
    let less = below_ttl (seconds age) ttl negative live in
    rw some_age (rw less (rw negative (omega arith)))

-- A response that may be stored, with a max-age above zero whose nanoseconds wrap to a negative int64, is
-- stored as already expired: no later call is served from it, however long the cache's own limit.
wrapped_age_unserved :
    (c : ConfigCache) (url : String) (r : FetchResult) (stores now : Instant)
    → sle c.ttl 0 ≡ false
    → r.no_store ≡ false
    → slt 0 r.max_age ≡ true
    → slt (seconds r.max_age) 0 ≡ true
    → stores ≤ now
    → lookup (store c stores url r) now url ≡ none
unfolding lookup store unexpired
wrapped_age_unserved c url r stores now live may some_age negative after =
    let expired = wrapped_age c.ttl r.max_age stores some_age negative live in
    let there : eqb r.max_age 0 ≡ false = ground (arith, some_age) in
    rw may (
      rw there
        (rw (get-put c.entries url url _) (rw (eq_refl url) (ground (arith, expired, after)))))
