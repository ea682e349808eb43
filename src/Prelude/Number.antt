-- ===== src/Prelude/Number.antt =====
-- JavaScript's `number`. Every finite double is a dyadic rational, so a number is `nan`, an
-- infinity, or an integer over a power of two.
use ari_os.Prelude.Tests.{leb, ◌==◌, if◌then◌else◌}
use Prim.Native.Nat.{ℕ, ◌+◌, ◌*◌, ◌/◌, ◌%◌, ◌^◌}
use mathlib.Core.Bool.{Bool, true, false}
use ari_os.Prelude.Int.{ℤ, pos, negsuc, sub_ℕ, times, ltb_ℤ, ◌-ℤ◌}
use mathlib.Core.Option.{Option, none, some}

-- `dyadic n k` is n / 2^k.
pub data Number : Type 0 where
  nan : Number
  infinity : Number
  minus_infinity : Number
  dyadic : ℤ → ℕ → Number

abbrev pub of_ℕ : ℕ → Number
of_ℕ n = dyadic (pos n) 0

-- `Number.isFinite(x)`.
unfoldable pub is_finite : Number → Bool
is_finite (dyadic n k) = true
is_finite _ = false

-- `x < 0`.
unfoldable pub is_negative : Number → Bool
is_negative minus_infinity = true
is_negative (dyadic (negsuc n) k) = true
is_negative _ = false

-- `Math.floor(n / d)` for a positive divisor.
unfoldable pub floor_div : ℤ → ℕ → ℤ
floor_div (pos n) d = pos (n / d)
floor_div (negsuc n) d = negsuc (n / d)

-- `Math.round(x)` is the floor of x + 1/2. It is asked only of finite numbers.
unfoldable pub round : Number → ℤ
unfolding floor_div
round (dyadic (pos n) k) = pos ((2 * n + 2 ^ k) / (2 * 2 ^ k))
round (dyadic (negsuc n) k) = floor_div (sub_ℕ (2 ^ k) (2 * (n + 1))) (2 * 2 ^ k)
round _ = pos 0

-- `x >= m` for a whole number m.
unfoldable pub at_least : Number → ℕ → Bool
at_least infinity m = true
at_least (dyadic (pos n) k) m = leb (m * 2 ^ k) n
at_least _ m = false

-- `x > m` for a whole number m.
unfoldable pub exceeds : Number → ℤ → Bool
unfolding times
exceeds infinity m = true
exceeds (dyadic n k) m = ltb_ℤ (times m (2 ^ k)) n
exceeds _ m = false

-- `Math.floor(x)`. It is asked only of finite numbers.
unfoldable pub floor : Number → ℤ
unfolding floor_div
floor (dyadic n k) = floor_div n (2 ^ k)
floor _ = pos 0

-- The integer that a number is, when it is one.
unfoldable pub integer_of : Number → Option ℤ
integer_of (dyadic (pos n) k) = if n % (2 ^ k) == 0 then some (pos (n / 2 ^ k)) else none
integer_of (dyadic (negsuc n) k) =
    if (n + 1) % (2 ^ k) == 0 then some (pos 0 -ℤ pos ((n + 1) / 2 ^ k)) else none
integer_of _ = none
