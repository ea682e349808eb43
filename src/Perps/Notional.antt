-- ===== src/Perps/Notional.antt =====
-- The notional of a collateral at a leverage (`leverageToBps`, `notionalFromCollateral` of
-- src/perps/policy.ts).
use ari_os.Prelude.{
  ℕ, zero, suc, ◌+◌, ◌-◌, ◌*◌, ◌/◌, ◌^◌, ◌≤◌, ◌<◌, Option, none, some, ◌≡◌, refl, arith,
}
use ari_os.Prelude.Division.{div_mul-le, lt-suc_div_mul, le-div}
use ari_os.Prelude.Int.{ℤ, pos, negsuc}
use ari_os.Prelude.Number.{Number, dyadic, round}
use ari_os.Perps.Doubles.{two_53, to_double, to_double_near, pow_pos}

-- A count of basis points, when it is positive.
unfoldable pub positive_bps : ℤ → Option ℕ
positive_bps (pos zero) = none
positive_bps (pos (suc n)) = some (suc n)
positive_bps (negsuc n) = none

-- A leverage past the range of doubles when it is multiplied, 10^304, is not modelled.
unfoldable pub leverage_to_bps : Number → Option ℕ
unfolding positive_bps round to_double
leverage_to_bps (dyadic (pos zero) k) = none
leverage_to_bps (dyadic (pos (suc n)) k) =
    positive_bps (round (dyadic (pos (to_double (suc n * 10_000))) k))
leverage_to_bps _ = none

unfoldable pub notional_at : ℤ → Option ℕ → Option ℤ
notional_at collateral none = none
notional_at (pos c) (some bps) = some (pos (c * bps / 10_000))
notional_at (negsuc c) (some bps) = none

unfoldable pub notional_from_collateral : ℤ → Number → Option ℤ
unfolding notional_at leverage_to_bps
notional_from_collateral collateral leverage = notional_at collateral (leverage_to_bps leverage)

-- The notional in `units` of a collateral `c` at the leverage n / 2^k: it is `c` times a leverage in basis
-- points, rounded down, and those are 10 000 n / 2^k to within a half and one part in 2^53.
pub record Near (c n k units : ℕ) : Type 0 where
  pub bps : ℕ
  pub bps_at_most : two_53 * (2 * bps * 2 ^ k) ≤ 2 * (two_53 + 1) * (10_000 * n) + two_53 * 2 ^ k
  pub bps_at_least : 2 * (two_53 - 1) * (10_000 * n) ≤ two_53 * (2 * bps * 2 ^ k + 2 ^ k)
  pub at_most : units * 10_000 ≤ c * bps
  pub at_least : c * bps < (units + 1) * 10_000

-- A whole number of basis points that a double is rounded to.
rounds_between :
    (t p : ℕ)
    → 0 < p
    → (2 * ((2 * t + p) / (2 * p)) * p ≤ 2 * t + p) × (2 * t < 2 * ((2 * t + p) / (2 * p)) * p + p)
rounds_between t p h =
    let a = div_mul-le (2 * t + p) (2 * p) in
    let b = lt-suc_div_mul (2 * t + p) (2 * p) (omega arith) in (grind (arith, a), grind (arith, b))

some_positive : (n : ℕ) → 0 < n → positive_bps (pos n) ≡ some n
unfolding positive_bps
some_positive zero h = absurd (omega (arith, h))
some_positive (suc n) h = refl

-- The basis points of a leverage of at least one basis point.
bps_of :
    (n k : ℕ)
    → 2 ^ k ≤ 10_000 * n
    → leverage_to_bps (dyadic (pos n) k) ≡ some ((2 * to_double (n * 10_000) + 2 ^ k) / (2 * 2 ^ k))
unfolding leverage_to_bps round
bps_of zero k h = absurd (omega (arith, pow_pos k, h))
bps_of (suc n) k h = some_positive _ (
    le-div (2 * to_double (suc n * 10_000) + 2 ^ k) (2 * 2 ^ k) 1 (omega (arith, pow_pos k))
      (omega (arith, (to_double_near (suc n * 10_000)).1, h)))

-- A collateral that is not negative has a notional at every leverage n / 2^k of at least one basis point
-- and below 10^15: it is the collateral times the leverage in basis points, rounded down to a unit, and
-- those are the leverage times 10 000 to within a half and one part in 2^53.
pub notional_from_collateral-Near :
    (c n k : ℕ)
    → 2 ^ k ≤ 10_000 * n
    → n < 1_000_000_000_000_000 * 2 ^ k
    → (units : ℕ) × (notional_from_collateral (pos c) (dyadic (pos n) k) ≡ some (pos units))
      × Near c n k units
unfolding notional_from_collateral notional_at
notional_from_collateral-Near c n k h small =
    let t = to_double (n * 10_000) in
    let bps = (2 * t + 2 ^ k) / (2 * 2 ^ k) in
    let (low, high) = rounds_between t (2 ^ k) (pow_pos k) in
    let (most, least) = to_double_near (n * 10_000) in
    (
      c * bps / 10_000,
      rw (bps_of n k h) refl,
      record {
        bps = bps;
        bps_at_most = omega (arith, low, most);
        bps_at_least = omega (arith, high, least);
        at_most = div_mul-le (c * bps) 10_000;
        at_least = lt-suc_div_mul (c * bps) 10_000 (omega arith);
      },
    )
