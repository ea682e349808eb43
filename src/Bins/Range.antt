-- ===== src/Bins/Range.antt =====
-- Ranges around the active bin (`rangeAroundActive` and `binDrift` of src/pools/meteora/bins.ts).
use ari_os.Prelude.{
  ℕ, zero, suc, ◌+◌, ◌-◌, ◌≤◌, ◌<◌, min, max, true, Option, none, some, ok, ◌≡◌, ◌↔◌, refl, inl,
  inr, arith, ltb, leb, ltb→lt, Bool-cases,
}
use ari_os.Prelude.Int.{ℤ, pos, pos_part, ◌≤ℤ◌, ◌+ℤ◌, ◌-ℤ◌, +ℤ_parts, -ℤ_parts}
use ari_os.Prelude.Number.{Number, nan, infinity, minus_infinity, dyadic, floor, integer_of}
use mathlib.Core.Option.{some-injective}
use ari_os.Bins.{
  max_bin_per_position, max_bin_id, min_bin_id, checked_bin_id, assert_bin_id, checked_count,
  BinRange, max_ℤ, min_ℤ, span_cap, shrink, narrowed, clamped, range_around_active,
  is_active_in_range, bin_drift,
}

-- The loop stops with as many bins as the cap allows, and none is added on either side.
abbrev Shrunk : ℕ → ℕ → ℕ → Option (ℕ × ℕ) → Type 0
Shrunk cap lo hi none = ⊥
Shrunk cap lo hi (some (a, b)) = (a ≤ lo) × (b ≤ hi) × (a + b + 1 ≡ min cap (lo + hi + 1))

Shrunk-lower :
    (cap lo hi : ℕ) (r : Option (ℕ × ℕ))
    → cap ≤ lo + hi
    → 0 < lo
    → Shrunk cap (lo - 1) hi r
    → Shrunk cap lo hi r
Shrunk-lower cap lo hi none c p h = h
Shrunk-lower cap lo hi (some (a, b)) c p h = (omega (arith, h.0), h.1, omega (arith, h.2))

Shrunk-upper :
    (cap lo hi : ℕ) (r : Option (ℕ × ℕ))
    → cap ≤ lo + hi
    → 0 < hi
    → Shrunk cap lo (hi - 1) r
    → Shrunk cap lo hi r
Shrunk-upper cap lo hi none c p h = h
Shrunk-upper cap lo hi (some (a, b)) c p h = (h.0, omega (arith, h.1), omega (arith, h.2))

shrink-Shrunk :
    (fuel cap lo hi : ℕ) → 0 < cap → lo + hi ≤ fuel → Shrunk cap lo hi (shrink fuel cap lo hi)
unfolding shrink
shrink-Shrunk zero cap lo hi p h = elim (Bool-cases (ltb cap (lo + hi + 1))) [
  | inl e ↦ absurd (omega (arith, ltb→lt cap (lo + hi + 1) e, p, h))
  | inr e ↦ rw e (omega arith, omega arith, ground arith)
]
shrink-Shrunk (suc fuel) cap lo hi p h = elim (Bool-cases (ltb cap (lo + hi + 1))) [
  | inl e ↦
      let c = ltb→lt cap (lo + hi + 1) e in
      rw e (elim (Bool-cases (leb hi lo)) [
        | inl k ↦ rw k (
            Shrunk-lower cap lo hi (shrink fuel cap (lo - 1) hi) (omega (arith, c)) (ground arith)
              (shrink-Shrunk fuel cap (lo - 1) hi p (ground arith)))
        | inr k ↦ rw k (
            Shrunk-upper cap lo hi (shrink fuel cap lo (hi - 1)) (omega (arith, c)) (ground arith)
              (shrink-Shrunk fuel cap lo (hi - 1) p (ground arith)))
      ])
  | inr e ↦ rw e (omega arith, omega arith, ground arith)
]

-- The range holds the active bin, lies within the bounds, and holds no more bins than fit.
pub record Fits (cap : ℕ) (active : ℤ) (range : BinRange) : Type 0 where
  pub starts : min_bin_id ≤ℤ range.lower_bin_id
  pub ends : range.upper_bin_id ≤ℤ max_bin_id
  pub above_lower : range.lower_bin_id ≤ℤ active
  pub below_upper : active ≤ℤ range.upper_bin_id
  pub narrow : (range.upper_bin_id -ℤ range.lower_bin_id) +ℤ pos 1 ≤ℤ pos cap

sub_pos-le : (a : ℤ) (n : ℕ) → (a -ℤ pos n) ≤ℤ a
sub_pos-le a n = omega (arith, -ℤ_parts a (pos n))

le-add_pos : (a : ℤ) (n : ℕ) → a ≤ℤ (a +ℤ pos n)
le-add_pos a n = omega (arith, +ℤ_parts a (pos n))

min_ℤ-le : (a b : ℤ) → min_ℤ a b ≤ℤ b
min_ℤ-le a b = ground arith

le-max_ℤ : (a b : ℤ) → b ≤ℤ max_ℤ a b
le-max_ℤ a b = ground arith

width-le :
    (u l active : ℤ) (x y cap : ℕ)
    → u ≤ℤ (active +ℤ pos y)
    → (active -ℤ pos x) ≤ℤ l
    → x + y + 1 ≤ cap
    → ((u -ℤ l) +ℤ pos 1) ≤ℤ pos cap
width-le u l active x y cap hu hl h = omega (
  arith,
  hu,
  hl,
  +ℤ_parts active (pos y),
  -ℤ_parts active (pos x),
  -ℤ_parts u l,
  +ℤ_parts (u -ℤ l) (pos 1),
)

clamped-Fits :
    (cap lo hi : ℕ) (active : ℤ) (r : Option (ℕ × ℕ))
    → min_bin_id ≤ℤ active
    → active ≤ℤ max_bin_id
    → Shrunk cap lo hi r
    → (range : BinRange) × (clamped active r ≡ ok range) × Fits cap active range
unfolding clamped
clamped-Fits cap lo hi active none a b h = absurd h
clamped-Fits cap lo hi active (some (x, y)) a b h = (
  _,
  refl,
  record {
    starts = ground arith;
    ends = ground arith;
    above_lower = ground (arith, sub_pos-le active x);
    below_upper = ground (arith, le-add_pos active y);
    narrow =
        width-le _ _ active x y cap (min_ℤ-le max_bin_id (active +ℤ pos y))
          (le-max_ℤ min_bin_id (active -ℤ pos x)) (omega (arith, h.2));
  },
)

assert_bin_id-ok :
    (x : Number) (active : ℤ)
    → integer_of x ≡ some active
    → min_bin_id ≤ℤ active
    → active ≤ℤ max_bin_id
    → assert_bin_id x ≡ ok active
unfolding assert_bin_id checked_bin_id
assert_bin_id-ok x active e a b = rw e (ground arith)

in_range :
    (range : BinRange) (active : ℤ)
    → range.lower_bin_id ≤ℤ active
    → active ≤ℤ range.upper_bin_id
    → is_active_in_range range active ≡ true
unfolding is_active_in_range
in_range range active a b = ground arith

-- The drift is zero exactly when the active bin is in the range.
pub bin_drift_iff :
    (range : BinRange) (active : ℤ)
    → (bin_drift range active ≡ pos 0) ↔ (is_active_in_range range active ≡ true)
unfolding bin_drift is_active_in_range
bin_drift_iff range active = (
  λ h. ground (arith, -ℤ_parts active range.upper_bin_id, -ℤ_parts active range.lower_bin_id),
  λ h. ground arith,
)

span_cap_bounds :
    (max_span : Number) (cap : ℕ) → span_cap max_span ≡ some cap → (0 < cap) × (cap ≤ 70)
unfolding span_cap
span_cap_bounds nan cap h = absurd (cc)
span_cap_bounds infinity cap h = omega (arith, some-injective 70 cap h)
span_cap_bounds minus_infinity cap h = omega (arith, some-injective 1 cap h)
span_cap_bounds (dyadic n k) cap h =
    omega (
      arith,
      some-injective (max 1 (min (pos_part (floor (dyadic n k))) max_bin_per_position)) cap h,
    )

-- For an active bin within the bounds, a maximal span that is not NaN, and whole counts that are not
-- negative and add up to less than 2^53, a range is made: it holds the active bin, lies within the
-- bounds, and holds no more bins than the span allows, which is at most 70. The active bin has not
-- drifted from it.
pub range_around_active-Fits :
    (x y z max_span : Number) (active : ℤ) (lo hi cap : ℕ)
    → integer_of x ≡ some active
    → integer_of y ≡ some (pos lo)
    → integer_of z ≡ some (pos hi)
    → span_cap max_span ≡ some cap
    → min_bin_id ≤ℤ active
    → active ≤ℤ max_bin_id
    → lo + hi < 9_007_199_254_740_992
    → (range : BinRange) × (range_around_active x y z max_span ≡ ok range)
      × Fits cap active range
      × (cap ≤ 70)
      × (bin_drift range active ≡ pos 0)
unfolding range_around_active checked_count narrowed
range_around_active-Fits x y z max_span active lo hi cap ex ey ez es a b safe =
    let (positive, most) = span_cap_bounds max_span cap es in
    let s = shrink-Shrunk (lo + hi) cap lo hi positive (omega arith) in
    let c = clamped-Fits cap lo hi active (shrink (lo + hi) cap lo hi) a b s in
    (
      c.0,
      rw (assert_bin_id-ok x active ex a b, ey, ez, es) c.1,
      c.2,
      most,
      (bin_drift_iff c.0 active).1 (in_range c.0 active c.2.above_lower c.2.below_upper),
    )
