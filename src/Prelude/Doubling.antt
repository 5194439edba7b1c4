-- ===== src/Prelude/Doubling.antt =====
-- A value doubled again and again and cut at a ceiling: what the package means by exponential
-- backoff.
use Prim.Native.Nat.{ℕ, zero, suc, ◌*◌, ◌^◌, ◌<◌, min}
use mathlib.Core.Path.{◌≡◌, sym}
use mathlib.Core.List.{List, [], ◌∷◌}
use native.Mathlib.Nat.{pow-suc, mul_assoc}
use native.Mathlib.Omega.{arith}

-- The first value doubled from the `n`-th time on and cut at the ceiling, `k` of them.
abbrev pub doublings : ℕ → ℕ → ℕ → ℕ → List ℕ
doublings initial maximum n zero = []
doublings initial maximum n (suc k) =
    min (initial * 2 ^ n) maximum ∷ doublings initial maximum (suc n) k

pub twice_pow : (x n : ℕ) → x * 2 ^ suc n ≡ x * 2 ^ n * 2
twice_pow x n = rw pow-suc (sym (mul_assoc x (2 ^ n) 2))

pow_pos : (n : ℕ) → 0 < 2 ^ n
pow_pos zero = omega arith
pow_pos (suc n) = rw pow-suc (ground (arith, pow_pos n))

pub scaled_pos : (x n : ℕ) → 0 < x → 0 < x * 2 ^ n
scaled_pos x n h = grind (arith, pow_pos n)
