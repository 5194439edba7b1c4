-- ===== src/Prelude/Int64.antt =====
-- Go's int64, and so `time.Duration`, as a bit pattern below 2 ^ 64. The patterns below 2 ^ 63 are
-- the non-negative values. Arithmetic wraps, and orders compare the signed values.
use Prim.Native.Nat.{ℕ, ◌+◌, ◌*◌, ◌%◌, ◌<◌}
use mathlib.Core.Path.{◌≡◌}
use mathlib.Core.Bool.{Bool, true}
use native.Mathlib.Omega.{arith}
use go_ssf.Prelude.Tests.{ltb, leb}

abbrev pub Int64 : Type 0
Int64 = ℕ

abbrev pub modulus : ℕ
modulus = 18446744073709551616

abbrev pub sign_bit : ℕ
sign_bit = 9223372036854775808

-- The position of a pattern in the signed order.
abbrev pub rank : Int64 → ℕ
rank a = (a + sign_bit) % modulus

-- `a < b` and `a <= b` of int64
abbrev pub slt : Int64 → Int64 → Bool
slt a b = ltb (rank a) (rank b)

abbrev pub sle : Int64 → Int64 → Bool
sle a b = leb (rank a) (rank b)

-- Any number as an int64 pattern.
abbrev pub to_int64 : ℕ → Int64
to_int64 n = n % modulus

-- `a * b` of int64
abbrev pub smul : Int64 → Int64 → Int64
smul a b = (a * b) % modulus

pub double-exact : (a : Int64) → a < sign_bit → smul a 2 ≡ a * 2
double-exact a h = omega arith

pub slt-of_lt : (a b : Int64) → a < b → b < sign_bit → slt a b ≡ true
slt-of_lt a b h k = ground arith
