-- ===== src/Curve/Tiers.antt =====
-- Which fee tier a market cap falls into (`calculateFeeTier` of src/pools/pumpfun/math.ts).
use mathlib.Core.List.{reverse, reverse-cons}
use ari_os.Prelude.{ℕ, ◌≤◌, ◌<◌, ◌≡◌, refl, List, [], ◌∷◌, ◌++◌, ok, leb, if◌then◌else◌, arith}
use ari_os.Curve.{FeeTier, scan_tiers, calculate_fee_tier}

abbrev pub threshold : FeeTier → ℕ
threshold tier = tier.market_cap_lamports_threshold

-- The thresholds of a list rise from its head, and stay at or above a floor.
abbrev pub Rising : ℕ → List FeeTier → Type 0
Rising low [] = Unit {0}
Rising low (tier ∷ tiers) = (low ≤ threshold tier) × Rising (threshold tier) tiers

-- The tier that the table assigns: the last one of the rising run at or below the market cap.
abbrev pub tier_of : FeeTier → List FeeTier → ℕ → FeeTier
tier_of best [] cap = best
tier_of best (tier ∷ tiers) cap = if leb (threshold tier) cap then tier_of tier tiers cap else best

-- The last tier that is scanned stands in for the default.
scan_tiers-snoc :
    (first tier : FeeTier) (xs : List FeeTier) (cap : ℕ)
    → scan_tiers first (xs ++ tier ∷ []) cap
      ≡ scan_tiers (if leb (threshold tier) cap then tier else first) xs cap
unfolding scan_tiers
scan_tiers-snoc first tier [] cap = ground arith
scan_tiers-snoc first tier (x ∷ xs) cap = ground (arith, scan_tiers-snoc first tier xs cap)

scan_tiers-reverse_cons :
    (first tier : FeeTier) (tiers : List FeeTier) (cap : ℕ)
    → scan_tiers first (reverse (tier ∷ tiers)) cap
      ≡ scan_tiers (if leb (threshold tier) cap then tier else first) (reverse tiers) cap
scan_tiers-reverse_cons first tier tiers cap =
    rw (reverse-cons tier tiers) (scan_tiers-snoc first tier (reverse tiers) cap)

scan_tiers_above :
    (first : FeeTier) (low : ℕ) (tiers : List FeeTier) (cap : ℕ)
    → Rising low tiers
    → cap < low
    → scan_tiers first (reverse tiers) cap ≡ first.fees
unfolding scan_tiers
scan_tiers_above first low [] cap h p = refl
scan_tiers_above first low (tier ∷ tiers) cap h p = ground (
  arith,
  scan_tiers-reverse_cons first tier tiers cap,
  scan_tiers_above first (threshold tier) tiers cap h.1,
)

scan_tiers-Rising :
    (best : FeeTier) (tiers : List FeeTier) (cap : ℕ)
    → Rising (threshold best) tiers
    → scan_tiers best (reverse tiers) cap ≡ (tier_of best tiers cap).fees
unfolding scan_tiers
scan_tiers-Rising best [] cap h = refl
scan_tiers-Rising best (tier ∷ tiers) cap h = ground (
  arith,
  scan_tiers-reverse_cons best tier tiers cap,
  scan_tiers_above best (threshold tier) tiers cap h.1,
  scan_tiers-Rising tier tiers cap h.1,
)

tier_of_below :
    (best : FeeTier) (low : ℕ) (tiers : List FeeTier) (cap : ℕ)
    → Rising low tiers
    → cap < low
    → tier_of best tiers cap ≡ best
tier_of_below best low [] cap h p = refl
tier_of_below best low (tier ∷ tiers) cap h p = ground arith

-- In a table whose thresholds rise, the scan from the end finds the tier that a walk from the start
-- assigns: the first tier below or within the first step, else the last one that is reached.
pub fee_tier_of_Rising :
    (first : FeeTier) (tiers : List FeeTier) (cap : ℕ)
    → Rising (threshold first) tiers
    → calculate_fee_tier (first ∷ tiers) cap ≡ ok (tier_of first tiers cap).fees
unfolding calculate_fee_tier
fee_tier_of_Rising first tiers cap h = ground (
  arith,
  scan_tiers-reverse_cons first first tiers cap,
  scan_tiers-Rising first tiers cap h,
  tier_of_below first (threshold first) tiers cap h,
)
