-- ===== src/Perps/Doubles.antt =====
-- The rounding of a product to a double, which `leverage * 10_000` has (src/perps/policy.ts): to 53
-- significant bits, ties to even. Numbers past the range of doubles are not modelled.
use native.Mathlib.Nat.{pow-suc, one-le-pow}
use ari_os.Prelude.{
  ℕ, zero, suc, ◌+◌, ◌-◌, ◌*◌, ◌/◌, ◌%◌, ◌^◌, ◌≤◌, ◌<◌, ◌||◌, ◌&&◌, ◌≡◌, refl, ◌⊎◌, inl, inr, arith,
  ltb, ◌==◌, Bool-cases, if◌then◌else◌,
}
use ari_os.Prelude.Division.{div_mul-le, lt-suc_div_mul}

abbrev pub two_53 : ℕ
two_53 = 9_007_199_254_740_992

-- The bits of a number past the first 53.
unfoldable pub excess : ℕ → ℕ → ℕ
excess zero n = 0
excess (suc fuel) n = let rest = excess fuel (n / 2) in if ltb n two_53 then 0 else suc rest

-- A quotient by `d` with its remainder, rounded to the nearest, ties to even.
unfoldable pub half_even : ℕ → ℕ → ℕ → ℕ
half_even q r d = if ltb d (2 * r) || (d == 2 * r && q % 2 == 1) then q + 1 else q

unfoldable pub rounded_at : ℕ → ℕ → ℕ
unfolding half_even
rounded_at n d = half_even (n / d) (n - n / d * d) d * d

-- A double has at most 1024 bits before the point, and the factor adds 14.
unfoldable pub to_double : ℕ → ℕ
unfolding excess rounded_at
to_double n = rounded_at n (2 ^ excess 1_040 n)

half_even-near :
    (q r d : ℕ)
    → r < d
    → (2 * (half_even q r d * d) ≤ 2 * (q * d + r) + d)
      × (2 * (q * d + r) ≤ 2 * (half_even q r d * d) + d)
unfolding half_even
half_even-near q r d h = elim (Bool-cases (ltb d (2 * r) || (d == 2 * r && q % 2 == 1))) [
  | inl e ↦ rw e (ground arith, ground arith)
  | inr e ↦ rw e (ground arith, ground arith)
]

excess-positive :
    (fuel n : ℕ) → (excess fuel n ≡ 0) ⊎ (2 ^ excess fuel n * 4_503_599_627_370_496 ≤ n)
unfolding excess
excess-positive zero n = inl refl
excess-positive (suc fuel) n = elim (Bool-cases (ltb n two_53)) [
  | inl e ↦ inl (rw e refl)
  | inr e ↦ inr (
      rw e (elim (excess-positive fuel (n / 2)) [
        | inl z ↦ rw z (ground arith)
        | inr h ↦ rw (pow-suc 2 (excess fuel (n / 2))) (omega (arith, h))
      ]))
]

rounded_at_one : (n : ℕ) → rounded_at n 1 ≡ n
unfolding rounded_at half_even
rounded_at_one n = ground arith

rounded_at-near :
    (n d : ℕ) → 0 < d → (2 * rounded_at n d ≤ 2 * n + d) × (2 * n ≤ 2 * rounded_at n d + d)
unfolding rounded_at
rounded_at-near n d p =
    let low = div_mul-le n d in
    let high = lt-suc_div_mul n d p in
    let (a, b) = half_even-near (n / d) (n - n / d * d) d (omega (arith, low, high)) in
    (omega (arith, low, a), omega (arith, low, b))

pub pow_pos : (k : ℕ) → 0 < 2 ^ k
pow_pos k = one-le-pow k 2 (omega arith)

-- A double is within one part in 2^53 of the number.
pub to_double_near :
    (n : ℕ) → (two_53 * to_double n ≤ (two_53 + 1) * n) × ((two_53 - 1) * n ≤ two_53 * to_double n)
unfolding to_double
to_double_near n = elim (excess-positive 1_040 n) [
  | inl z ↦ rw z (rw (rounded_at_one n) (omega arith, omega arith))
  | inr h ↦
      let (a, b) = rounded_at-near n (2 ^ excess 1_040 n) (pow_pos (excess 1_040 n)) in
      (omega (arith, a, h), omega (arith, b, h))
]
