-- ===== src/Perps/Examples.antt =====
-- Two positions, one without a bucket, and their exposure (src/perps/exposure.ts).
use ari_os.Prelude.{ℕ, arith, some, [], ◌∷◌, ◌≡◌, refl, includes}
use ari_os.Prelude.Int.{pos, negsuc, ◌+ℤ◌, ◌-ℤ◌}
use ari_os.Kernel.Money.{usdc_mint}
use ari_os.Perps.{PerpPosition, exposure_from}
use ari_os.Prelude.Number.{dyadic}
use ari_os.Perps.Notional.{
  leverage_to_bps, notional_from_collateral, Near, notional_from_collateral-Near,
}
use ari_os.Perps.Exposure.{Adds, exposure_from-Adds}

abbrev short : PerpPosition
short = record {
  symbol = "SOL-PERP";
  notional = record { mint = usdc_mint; amount = negsuc 299 };
  collateral = record { mint = usdc_mint; amount = pos 100 };
}

abbrev odd : PerpPosition
odd = record short { collateral = record { mint = "other"; amount = pos 5 } }

exposure_from-Adds_example : Adds (short ∷ odd ∷ []) (exposure_from (short ∷ odd ∷ []))
exposure_from-Adds_example = exposure_from-Adds (short ∷ odd ∷ [])

counts_short : (exposure_from (short ∷ odd ∷ [])).notional_by_bucket.of_usdc ≡ pos 300
unfolding exposure_from ◌+ℤ◌ ◌-ℤ◌ includes
counts_short = refl

-- Three and a half times 1000 units.
levered : notional_from_collateral (pos 1_000) (dyadic (pos 7) 1) ≡ some (pos 3_500)
unfolding notional_from_collateral
levered = refl

-- The double nearest to 3.3, of which ten thousand are not a double.
rounded : leverage_to_bps (dyadic (pos 7_430_939_385_161_318) 51) ≡ some 33_000
unfolding leverage_to_bps
rounded = refl

notional_from_collateral-Near_example :
    (units : ℕ) × (notional_from_collateral (pos 1_000) (dyadic (pos 7) 1) ≡ some (pos units))
    × Near 1_000 7 1 units
notional_from_collateral-Near_example =
    notional_from_collateral-Near 1_000 7 1 (omega arith) (omega arith)
