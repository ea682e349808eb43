-- ===== src/Perps/Exposure.antt =====
-- What the loop over the positions adds up (`exposureFrom` of src/perps/exposure.ts).
use ari_os.Prelude.{
  ℕ, ◌+◌, Bool, true, false, List, [], ◌∷◌, length, Option, none, some, ◌≡◌, refl, sym, ap, ◌∙◌,
  arith, ltb, if◌then◌else◌,
}
use ari_os.Prelude.Int.{ℤ, pos, ◌+ℤ◌, zero-+ℤ, +ℤ-zero, +ℤ_assoc}
use ari_os.Kernel.Money.{QuoteBucket, sol, usdc, quote_bucket_for}
use ari_os.Perps.{
  PerpPosition, ByBucket, at, add_at, magnitude, Totals, count_position, totals, PortfolioExposure,
  exposure_of, exposure_from,
}

abbrev in_bucket : QuoteBucket → QuoteBucket → Bool
in_bucket sol sol = true
in_bucket usdc usdc = true
in_bucket _ _ = false

-- What a position adds to a bucket, by an amount and its bucket, when the other amount has one too.
abbrev pub share : QuoteBucket → Option QuoteBucket → Option QuoteBucket → ℤ → ℤ
share b (some c) (some other) n = if in_bucket b c then magnitude n else pos 0
share b none other n = pos 0
share b (some c) none n = pos 0

-- The notional of one position in a bucket, and its collateral.
abbrev pub notional_in : QuoteBucket → PerpPosition → ℤ
notional_in b p =
    share b (quote_bucket_for p.notional.mint) (quote_bucket_for p.collateral.mint)
      p.notional.amount

abbrev pub collateral_in : QuoteBucket → PerpPosition → ℤ
collateral_in b p =
    share b (quote_bucket_for p.collateral.mint) (quote_bucket_for p.notional.mint)
      p.collateral.amount

unfoldable pub sum_of : (PerpPosition → ℤ) → List PerpPosition → ℤ
sum_of f [] = pos 0
sum_of f (p ∷ ps) = f p +ℤ sum_of f ps

abbrev has_no_bucket : Option QuoteBucket → Option QuoteBucket → ℕ
has_no_bucket (some b) (some c) = 0
has_no_bucket none c = 1
has_no_bucket (some b) none = 1

-- The positions whose notional or collateral is in no quote asset.
unfoldable pub count_unbucketed : List PerpPosition → ℕ
count_unbucketed [] = 0
count_unbucketed (p ∷ ps) =
    has_no_bucket (quote_bucket_for p.notional.mint) (quote_bucket_for p.collateral.mint)
    + count_unbucketed ps

at-add_at :
    (b c : QuoteBucket) (n : ℤ) (m : ByBucket)
    → at b (add_at c n m) ≡ at b m +ℤ (if in_bucket b c then n else pos 0)
at-add_at sol sol n m = refl
at-add_at sol usdc n m = sym (+ℤ-zero m.of_sol)
at-add_at usdc sol n m = sym (+ℤ-zero m.of_usdc)
at-add_at usdc usdc n m = refl

notional-count_position :
    (b : QuoteBucket) (c d : Option QuoteBucket) (n k : ℤ) (t : Totals)
    → at b (count_position c d n k t).notional ≡ at b t.notional +ℤ share b c d n
unfolding count_position
notional-count_position b (some c) (some d) n k t = at-add_at b c (magnitude n) t.notional
notional-count_position b none d n k t = sym (+ℤ-zero (at b t.notional))
notional-count_position b (some c) none n k t = sym (+ℤ-zero (at b t.notional))

collateral-count_position :
    (b : QuoteBucket) (c d : Option QuoteBucket) (n k : ℤ) (t : Totals)
    → at b (count_position c d n k t).collateral ≡ at b t.collateral +ℤ share b d c k
unfolding count_position
collateral-count_position b (some c) (some d) n k t = at-add_at b d (magnitude k) t.collateral
collateral-count_position b none none n k t = sym (+ℤ-zero (at b t.collateral))
collateral-count_position b none (some d) n k t = sym (+ℤ-zero (at b t.collateral))
collateral-count_position b (some c) none n k t = sym (+ℤ-zero (at b t.collateral))

unbucketed-count_position :
    (c d : Option QuoteBucket) (n k : ℤ) (t : Totals)
    → (count_position c d n k t).unbucketed ≡ t.unbucketed + has_no_bucket c d
unfolding count_position
unbucketed-count_position (some c) (some d) n k t = omega arith
unbucketed-count_position none d n k t = omega arith
unbucketed-count_position (some c) none n k t = omega arith

notional-totals :
    (b : QuoteBucket) (ps : List PerpPosition) (t : Totals)
    → at b (totals ps t).notional ≡ at b t.notional +ℤ sum_of (notional_in b) ps
unfolding totals sum_of
notional-totals b [] t = sym (+ℤ-zero (at b t.notional))
notional-totals b (p ∷ ps) t =
    notional-totals b ps _
    ∙ ap (λ n. n +ℤ sum_of (notional_in b) ps) (notional-count_position b _ _ _ _ t)
    ∙ +ℤ_assoc (at b t.notional) (notional_in b p) (sum_of (notional_in b) ps)

collateral-totals :
    (b : QuoteBucket) (ps : List PerpPosition) (t : Totals)
    → at b (totals ps t).collateral ≡ at b t.collateral +ℤ sum_of (collateral_in b) ps
unfolding totals sum_of
collateral-totals b [] t = sym (+ℤ-zero (at b t.collateral))
collateral-totals b (p ∷ ps) t =
    collateral-totals b ps _
    ∙ ap (λ n. n +ℤ sum_of (collateral_in b) ps) (collateral-count_position b _ _ _ _ t)
    ∙ +ℤ_assoc (at b t.collateral) (collateral_in b p) (sum_of (collateral_in b) ps)

unbucketed-totals :
    (ps : List PerpPosition) (t : Totals)
    → (totals ps t).unbucketed ≡ t.unbucketed + count_unbucketed ps
unfolding totals count_unbucketed
unbucketed-totals [] t = omega arith
unbucketed-totals (p ∷ ps) t =
    unbucketed-totals ps _
    ∙ ap (λ n. n + count_unbucketed ps) (unbucketed-count_position _ _ _ _ t)
    ∙ omega arith

-- The exposure of a list of positions: in each bucket the sum of the magnitudes of the notionals, and of
-- the collaterals, of the positions whose two amounts have a bucket; the number of the others, and the
-- snapshot is stale exactly when there is one.
pub record Adds (ps : List PerpPosition) (e : PortfolioExposure) : Type 0 where
  pub notional : (b : QuoteBucket) → at b e.notional_by_bucket ≡ sum_of (notional_in b) ps
  pub collateral : (b : QuoteBucket) → at b e.collateral_by_bucket ≡ sum_of (collateral_in b) ps
  pub left_out : e.unbucketed ≡ count_unbucketed ps
  pub stale : e.stale ≡ ltb 0 (count_unbucketed ps)
  pub opened : e.open_positions ≡ length ps

abbrev pub start_totals : Totals
start_totals = record {
  notional = record { of_sol = pos 0; of_usdc = pos 0 };
  collateral = record { of_sol = pos 0; of_usdc = pos 0 };
  unbucketed = 0;
}

start_zero : (b : QuoteBucket) (n : ℤ) → at b start_totals.notional +ℤ n ≡ n
start_zero sol n = zero-+ℤ n
start_zero usdc n = zero-+ℤ n

-- The exposure that the loop leaves is, in each bucket, the sum of the magnitudes of the positions with
-- two buckets; the others are counted, and make the snapshot stale.
pub exposure_from-Adds : (ps : List PerpPosition) → Adds ps (exposure_from ps)
unfolding exposure_from exposure_of
exposure_from-Adds ps = record {
  notional = λ b. notional-totals b ps start_totals ∙ start_zero b (sum_of (notional_in b) ps);
  collateral =
      λ b. collateral-totals b ps start_totals ∙ start_zero b (sum_of (collateral_in b) ps);
  left_out = unbucketed-totals ps start_totals ∙ omega arith;
  stale = ap (λ n. ltb 0 n) (unbucketed-totals ps start_totals ∙ omega arith);
  opened = refl;
}
