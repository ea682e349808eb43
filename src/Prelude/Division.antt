-- ===== src/Prelude/Division.antt =====
-- Division that rounds down: its two bounds, and how to bound it.
use Prim.Native.Nat.{ℕ, zero, suc, ◌+◌, ◌*◌, ◌/◌, ◌≤◌, ◌<◌}
use native.Mathlib.Omega.{arith}

pub div_mul-le : (n d : ℕ) → n / d * d ≤ n
div_mul-le n d = grind arith

pub lt-suc_div_mul : (n d : ℕ) → 0 < d → n < (n / d + 1) * d
lt-suc_div_mul n d h = grind arith

pub mul_lt_cancel : (a b d : ℕ) → a * d < b * d → a < b
mul_lt_cancel a b d h = grind arith

-- A quotient is below what the divisor multiplies past the dividend.
pub div-lt : (n d q : ℕ) → 0 < d → n < q * d → n / d < q
div-lt n d q p h = mul_lt_cancel (n / d) q d (omega (arith, div_mul-le n d))

pub div-le : (n d q : ℕ) → 0 < d → n ≤ q * d → n / d ≤ q
div-le n d q p h = omega (arith, div-lt n d (q + 1) p (omega arith))

pub le-div : (n d q : ℕ) → 0 < d → q * d ≤ n → q ≤ n / d
le-div n d q p h =
    omega (arith, mul_lt_cancel q (n / d + 1) d (omega (arith, lt-suc_div_mul n d p)))

pub div_mono : (m n d : ℕ) → m ≤ n → m / d ≤ n / d
div_mono m n zero h = omega arith
div_mono m n (suc d) h =
    le-div n (suc d) (m / suc d) (omega arith) (omega (arith, div_mul-le m (suc d)))

pub le_of_mul : (a b d : ℕ) → 0 < d → a * d ≤ b * d → a ≤ b
le_of_mul a b d p h = omega (arith, mul_lt_cancel a (b + 1) d (omega arith))

pub mul-le_left : (n a b : ℕ) → a ≤ b → n * a ≤ n * b
mul-le_left n a b h = grind arith
