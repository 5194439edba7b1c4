-- ===== src/Receiver/Backoff.antt =====
-- receiver/poller.go: the `backoff` helper. Its jitter is what the random factor makes of a
-- duration, a parameter; a `jitterPct` of zero is no jitter.
use go_ssf.Prelude.{
  ℕ, zero, suc, ◌*◌, ◌^◌, ◌≤◌, ◌<◌, min, Bool, true, false, ◌||◌, List, [], ◌∷◌, ◌≡◌, refl, ap₂,
  ◌∙◌, arith, if◌then◌else◌,
}
use go_ssf.Prelude.Doubling.{doublings, twice_pow, scaled_pos}
use go_ssf.Prelude.Int64.{Int64, to_int64, sign_bit, slt, smul}

pub record Backoff : Type 0 where
  pub initial : Int64
  pub maximum : Int64
  pub current : Int64
  pub jittered : Bool

-- What `Next` returns before the jitter, and the state that it leaves.
unfoldable pub next_raw : Backoff → Int64 × Backoff
next_raw b =
    let doubled = smul b.current 2 in
    let next = if slt b.maximum doubled || slt doubled b.current then b.maximum else doubled in
    (b.current, record b { current = next })

-- `d = time.Duration(float64(d) * factor)`, not below zero
unfoldable pub perturb : (Int64 → Int64) → Bool → Int64 → Int64
perturb jitter false d = d
perturb jitter true d = let e = to_int64 (jitter d) in if slt e 0 then 0 else e

-- `backoff.Next`
unfoldable pub next : (Int64 → Int64) → Backoff → Int64 × Backoff
unfolding next_raw perturb
next jitter b = let (d, b') = next_raw b in (perturb jitter b.jittered d, b')

-- `backoff.Reset`
unfoldable pub reset : Backoff → Backoff
reset b = record b { current = b.initial }

-- The invariant of a backoff, for a ceiling anywhere in the positive int64 range.
pub record IsBounded (b : Backoff) : Type 0 where
  pub positive : 0 < b.initial
  pub above : b.initial ≤ b.current
  pub below : b.current ≤ b.maximum
  pub word : b.maximum < sign_bit

next-IsBounded : (jitter : Int64 → Int64) (b : Backoff) → IsBounded b → IsBounded (next jitter b).1
unfolding next
next-IsBounded jitter b h = ground arith

reset-IsBounded : (b : Backoff) → IsBounded b → IsBounded (reset b)
unfolding reset
reset-IsBounded b h = ground arith

-- Every call, the doubling that wraps round included, leaves the backoff between its first value
-- and its ceiling, and moves it up or keeps it; a reset takes it back to the first value.
pub backoff-IsBounded :
    (jitter : Int64 → Int64) (b : Backoff)
    → IsBounded b
    → IsBounded (next jitter b).1
      × (b.current ≤ (next jitter b).1.current)
      × IsBounded (reset b)
      × ((reset b).current ≡ b.initial)
unfolding next reset
backoff-IsBounded jitter b h = (next-IsBounded jitter b h, ground arith, reset-IsBounded b h, refl)

-- The values of `k` calls in a row.
unfoldable pub run : (Int64 → Int64) → Backoff → ℕ → List Int64
run jitter b zero = []
run jitter b (suc k) = let (d, b') = next jitter b in d ∷ run jitter b' k

next-min :
    (jitter : Int64 → Int64) (b : Backoff) (x : ℕ)
    → b.maximum < sign_bit
    → 0 < x
    → b.current ≡ min x b.maximum
    → (next jitter b).1.current ≡ min (x * 2) b.maximum
unfolding next
next-min jitter b x w p e = ground arith

-- A `Next` changes nothing but the current value.
next_keeps :
    (jitter : Int64 → Int64) (b : Backoff)
    → ((next jitter b).1.maximum ≡ b.maximum) × ((next jitter b).1.jittered ≡ b.jittered)
unfolding next
next_keeps jitter b = (refl, refl)

next_plain :
    (jitter : Int64 → Int64) (b : Backoff) → b.jittered ≡ false → (next jitter b).0 ≡ b.current
unfolding next
next_plain jitter b j = rw (j, perturb)

run_from :
    (jitter : Int64 → Int64) (initial maximum : Int64) (b : Backoff) (k n : ℕ)
    → maximum < sign_bit
    → 0 < initial
    → b.maximum ≡ maximum
    → b.jittered ≡ false
    → b.current ≡ min (initial * 2 ^ n) maximum
    → run jitter b k ≡ doublings initial maximum n k
unfolding run
run_from jitter initial maximum b zero n w p m j e = refl
run_from jitter initial maximum b (suc k) n w p m j e =
    let kept = next_keeps jitter b in
    let step = next-min jitter b (initial * 2 ^ n) (rw m w) (scaled_pos initial n p) (rw m e) in
    let ih =
      run_from jitter initial maximum (next jitter b).1 k (suc n) w p (kept.0 ∙ m) (kept.1 ∙ j)
        (step ∙ rw (m, twice_pow initial n)) in
    ap₂ ◌∷◌ (next_plain jitter b j ∙ e) ih

-- With no jitter, `k` calls in a row after a reset give the first value, doubled each time and cut
-- at the ceiling, for every ceiling of the int64 range: no doubling overflows unnoticed.
run-doublings :
    (jitter : Int64 → Int64) (b : Backoff) (k : ℕ)
    → IsBounded b
    → b.jittered ≡ false
    → run jitter (reset b) k ≡ doublings b.initial b.maximum 0 k
unfolding reset
run-doublings jitter b k h j =
    run_from jitter b.initial b.maximum (record b { current = b.initial }) k 0 h.word h.positive
      refl j (omega (arith, h.above, h.below))
