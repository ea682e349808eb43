-- ===== src/Perps.antt =====
-- The exposure of perpetual positions (src/perps/exposure.ts), from the fields of a position that it
-- reads (src/perps/types.ts).
pub mod Exposure
pub mod Doubles
pub mod Notional
mod Examples
use ari_os.Prelude.{
  ℕ, ◌+◌, String, Bool, true, false, List, [], ◌∷◌, length, Option, none, some, ltb, if◌then◌else◌,
}
use ari_os.Prelude.Int.{ℤ, pos, ltb_ℤ, ◌+ℤ◌, ◌-ℤ◌}
use ari_os.Kernel.Money.{QuoteBucket, sol, usdc, quote_bucket_for}

pub record Amount : Type 0 where
  pub mint : String
  pub amount : ℤ

pub record PerpPosition : Type 0 where
  pub symbol : String
  pub notional : Amount
  pub collateral : Amount

-- `Record<QuoteBucket, bigint>`.
pub record ByBucket : Type 0 where
  pub of_sol : ℤ
  pub of_usdc : ℤ

abbrev pub at : QuoteBucket → ByBucket → ℤ
at sol m = m.of_sol
at usdc m = m.of_usdc

-- `m[bucket] += n`.
abbrev pub add_at : QuoteBucket → ℤ → ByBucket → ByBucket
add_at sol n m = record m { of_sol = m.of_sol +ℤ n }
add_at usdc n m = record m { of_usdc = m.of_usdc +ℤ n }

pub record PortfolioExposure : Type 0 where
  pub open_positions : ℕ
  pub notional_by_bucket : ByBucket
  pub collateral_by_bucket : ByBucket
  pub stale : Bool
  pub unbucketed : ℕ

abbrev zeros : ByBucket
zeros = record { of_sol = pos 0; of_usdc = pos 0 }

unfoldable pub stale_exposure : PortfolioExposure
stale_exposure = record {
  open_positions = 0;
  notional_by_bucket = zeros;
  collateral_by_bucket = zeros;
  stale = true;
  unbucketed = 0;
}

unfoldable pub empty_exposure : PortfolioExposure
empty_exposure = record {
  open_positions = 0;
  notional_by_bucket = zeros;
  collateral_by_bucket = zeros;
  stale = false;
  unbucketed = 0;
}

-- The amount without its sign.
unfoldable pub magnitude : ℤ → ℤ
magnitude n = if ltb_ℤ n (pos 0) then pos 0 -ℤ n else n

-- The variables of the loop.
pub record Totals : Type 0 where
  pub notional : ByBucket
  pub collateral : ByBucket
  pub unbucketed : ℕ

-- One turn, for the buckets of the notional and of the collateral.
unfoldable pub count_position : Option QuoteBucket → Option QuoteBucket → ℤ → ℤ → Totals → Totals
unfolding magnitude
count_position (some b) (some c) notional collateral t = record t {
  notional = add_at b (magnitude notional) t.notional;
  collateral = add_at c (magnitude collateral) t.collateral;
}
count_position none c notional collateral t = record t { unbucketed = t.unbucketed + 1 }
count_position (some b) none notional collateral t = record t { unbucketed = t.unbucketed + 1 }

unfoldable pub totals : List PerpPosition → Totals → Totals
unfolding count_position quote_bucket_for
totals [] t = t
totals (p ∷ ps) t = totals ps (
    count_position (quote_bucket_for p.notional.mint) (quote_bucket_for p.collateral.mint)
      p.notional.amount p.collateral.amount t)

unfoldable pub exposure_of : ℕ → Totals → PortfolioExposure
exposure_of count t = record {
  open_positions = count;
  notional_by_bucket = t.notional;
  collateral_by_bucket = t.collateral;
  stale = ltb 0 t.unbucketed;
  unbucketed = t.unbucketed;
}

unfoldable pub exposure_from : List PerpPosition → PortfolioExposure
unfolding totals exposure_of
exposure_from ps =
    exposure_of (length ps)
      (totals ps (record { notional = zeros; collateral = zeros; unbucketed = 0 }))
