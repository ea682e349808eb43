-- ===== src/Bins/Examples.antt =====
-- Ranges and splits at concrete bins, and the theorems there (src/pools/meteora/bins.ts).
use ari_os.Prelude.{ℕ, ◌+◌, ◌≤◌, List, [], ◌∷◌, length, ok, ◌≡◌, ◌↔◌, refl, arith, true}
use ari_os.Prelude.Int.{pos, negsuc}
use ari_os.Prelude.Number.{of_ℕ, dyadic, nan, floor, floor_div, integer_of}
use ari_os.Bins.{
  BinRange, range_around_active, span_cap, is_active_in_range, bin_drift, sum, shares,
  distribute_amount, assert_bin_id, checked_bin_id, checked_count, shrink, narrowed, clamped,
  apportion, remainders, sorted, insert, goes_before, add_one, hand_out,
}
use ari_os.Prelude.Int.{◌+ℤ◌, ◌-ℤ◌}
use ari_os.Bins.Range.{Fits, range_around_active-Fits, bin_drift_iff}
use ari_os.Bins.Shares.{AtLeast, distribute_exact}

abbrev range : BinRange
range = record { lower_bin_id = negsuc 8; upper_bin_id = pos 4 }

ranges :
    range_around_active (dyadic (negsuc 3) 1) (of_ℕ 7) (of_ℕ 6) (of_ℕ 70)
    ≡ ok (record { lower_bin_id = negsuc 8; upper_bin_id = pos 4 })
unfolding range_around_active assert_bin_id integer_of checked_bin_id checked_count span_cap
    narrowed shrink floor floor_div clamped ◌+ℤ◌ ◌-ℤ◌
ranges = refl

-- A maximal span that is NaN narrows nothing.
not_narrowed :
    range_around_active (of_ℕ 0) (of_ℕ 100) (of_ℕ 100) nan
    ≡ ok (record { lower_bin_id = negsuc 99; upper_bin_id = pos 100 })
unfolding range_around_active assert_bin_id integer_of checked_bin_id checked_count span_cap
    narrowed clamped ◌+ℤ◌ ◌-ℤ◌
not_narrowed = refl

range_around_active-Fits_example :
    (made : BinRange) × (range_around_active (of_ℕ 5) (of_ℕ 50) (of_ℕ 40) (of_ℕ 70) ≡ ok made)
    × Fits 70 (pos 5) made
    × (70 ≤ 70)
    × (bin_drift made (pos 5) ≡ pos 0)
unfolding integer_of span_cap floor floor_div
range_around_active-Fits_example =
    range_around_active-Fits (of_ℕ 5) (of_ℕ 50) (of_ℕ 40) (of_ℕ 70) (pos 5) 50 40 70 refl refl refl
      refl (omega arith) (omega arith) (omega arith)

bin_drift_iff_example :
    (bin_drift range (pos 6) ≡ pos 0) ↔ (is_active_in_range range (pos 6) ≡ true)
bin_drift_iff_example = bin_drift_iff range (pos 6)

abbrev weights : List ℕ
weights = 3 ∷ 3 ∷ 1 ∷ []

splits : distribute_amount (pos 100) weights ≡ ok (43 ∷ 43 ∷ 14 ∷ [])
unfolding distribute_amount apportion sum shares remainders sorted insert goes_before add_one
    hand_out
splits = refl

distribute_exact_example :
    (out : List ℕ) × (distribute_amount (pos 100) weights ≡ ok out)
    × (sum out ≡ 100)
    × AtLeast (shares 100 (sum weights) weights) out
    × (100 ≤ sum (shares 100 (sum weights) weights) + length weights)
distribute_exact_example = distribute_exact 100 weights (unfold sum in omega arith)
