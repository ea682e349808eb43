-- ===== src/Bins.antt =====
-- The bins of a liquidity position (src/pools/meteora/bins.ts): ranges around the active bin, and the
-- split of an amount over bins. A bin identifier is checked to be an integer where a range is made.
pub mod Range
pub mod Shares
mod Examples
use ari_os.Prelude.{
  ℕ, zero, suc, ◌+◌, ◌-◌, ◌*◌, ◌/◌, ◌%◌, ◌^◌, min, max, Bool, true, false, ◌||◌, ◌&&◌, ◌>>=◌, List,
  [], ◌∷◌, map, Option, none, some, Result, ok, err, length, ltb, leb, ◌==◌, if◌then◌else◌,
}
use ari_os.Prelude.Int.{ℤ, pos, negsuc, pos_part, ltb_ℤ, leb_ℤ, ◌+ℤ◌, ◌-ℤ◌}
use ari_os.Prelude.Number.{Number, nan, infinity, minus_infinity, dyadic, floor, integer_of}

abbrev pub max_bin_per_position : ℕ
max_bin_per_position = 70

abbrev pub max_bin_id : ℤ
max_bin_id = pos 351_639

abbrev pub min_bin_id : ℤ
min_bin_id = negsuc 351_638

pub data BinMathError : Type 0 where
  bad_bin_id bad_counts endless no_bins negative_total zero_weights : BinMathError

unfoldable pub checked_bin_id : Option ℤ → Result BinMathError ℤ
checked_bin_id none = err bad_bin_id
checked_bin_id (some n) = if ltb_ℤ n min_bin_id || ltb_ℤ max_bin_id n then err bad_bin_id else ok n

unfoldable pub assert_bin_id : Number → Result BinMathError ℤ
unfolding integer_of checked_bin_id
assert_bin_id x = checked_bin_id (integer_of x)

unfoldable pub checked_count : Option ℤ → Result BinMathError ℕ
checked_count (some (pos n)) = ok n
checked_count _ = err bad_counts

pub record BinRange : Type 0 where
  pub lower_bin_id : ℤ
  pub upper_bin_id : ℤ

abbrev pub max_ℤ : ℤ → ℤ → ℤ
max_ℤ a b = if ltb_ℤ a b then b else a

abbrev pub min_ℤ : ℤ → ℤ → ℤ
min_ℤ a b = if ltb_ℤ a b then a else b

-- The most bins of a range, which are whole: `none` for NaN, which no number of bins exceeds.
unfoldable pub span_cap : Number → Option ℕ
unfolding floor
span_cap nan = none
span_cap infinity = some max_bin_per_position
span_cap minus_infinity = some 1
span_cap (dyadic n k) = some (max 1 (min (pos_part (floor (dyadic n k))) max_bin_per_position))

-- The loop that takes one bin off the wider side. `none` when the fuel runs out.
unfoldable pub shrink : ℕ → ℕ → ℕ → ℕ → Option (ℕ × ℕ)
shrink zero cap lo hi = if ltb cap (lo + hi + 1) then none else some (lo, hi)
shrink (suc fuel) cap lo hi =
    let rest = if leb hi lo then shrink fuel cap (lo - 1) hi else shrink fuel cap lo (hi - 1) in
    if ltb cap (lo + hi + 1) then rest else some (lo, hi)

-- Each turn takes a bin off, so lo + hi turns are enough.
unfoldable pub narrowed : Option ℕ → ℕ → ℕ → Option (ℕ × ℕ)
unfolding shrink
narrowed none lo hi = some (lo, hi)
narrowed (some cap) lo hi = shrink (lo + hi) cap lo hi

unfoldable pub clamped : ℤ → Option (ℕ × ℕ) → Result BinMathError BinRange
clamped active none = err endless
clamped active (some (lo, hi)) = ok (record {
  lower_bin_id = max_ℤ min_bin_id (active -ℤ pos lo);
  upper_bin_id = min_ℤ max_bin_id (active +ℤ pos hi);
})

-- The arithmetic is that of whole numbers, which the source's doubles follow when the counts add up to
-- less than 2^53. A count of 10^16 is not modelled: taking one off leaves it as it is.
unfoldable pub range_around_active :
    Number → Number → Number → Number → Result BinMathError BinRange
unfolding assert_bin_id integer_of checked_count span_cap narrowed clamped
range_around_active active_bin_id below above max_span = do
  active ← assert_bin_id active_bin_id
  lo ← checked_count (integer_of below)
  hi ← checked_count (integer_of above)
  clamped active (narrowed (span_cap max_span) lo hi)

unfoldable pub is_active_in_range : BinRange → ℤ → Bool
is_active_in_range range active = leb_ℤ range.lower_bin_id active && leb_ℤ active range.upper_bin_id

unfoldable pub bin_drift : BinRange → ℤ → ℤ
bin_drift range active =
    if ltb_ℤ range.upper_bin_id active
    then active -ℤ range.upper_bin_id
    else if ltb_ℤ active range.lower_bin_id
    then active -ℤ range.lower_bin_id
    else pos 0

unfoldable pub sum : List ℕ → ℕ
sum [] = 0
sum (x ∷ xs) = x + sum xs

-- The remainder of a bin's share, and its place.
pub record Remainder : Type 0 where
  pub rem : ℕ
  pub place : ℕ

unfoldable pub shares : ℕ → ℕ → List ℕ → List ℕ
shares total weight_sum [] = []
shares total weight_sum (w ∷ ws) = total * w / weight_sum ∷ shares total weight_sum ws

unfoldable pub remainders : ℕ → ℕ → ℕ → List ℕ → List Remainder
remainders total weight_sum i [] = []
remainders total weight_sum i (w ∷ ws) =
    record { rem = total * w % weight_sum; place = i } ∷ remainders total weight_sum (i + 1) ws

-- The larger remainder goes first, and of two equal ones the one in front.
unfoldable pub goes_before : Remainder → Remainder → Bool
goes_before a b = if a.rem == b.rem then leb a.place b.place else ltb b.rem a.rem

unfoldable pub insert : Remainder → List Remainder → List Remainder
unfolding goes_before
insert x [] = x ∷ []
insert x (y ∷ ys) = if goes_before x y then x ∷ y ∷ ys else y ∷ insert x ys

unfoldable pub sorted : List Remainder → List Remainder
unfolding insert
sorted [] = []
sorted (x ∷ xs) = insert x (sorted xs)

unfoldable pub add_one : ℕ → List ℕ → List ℕ
add_one i [] = []
add_one zero (x ∷ xs) = (x + 1) ∷ xs
add_one (suc i) (x ∷ xs) = x ∷ add_one i xs

-- One unit to each of the bins in the list, while the total is not reached.
unfoldable pub hand_out : ℕ → ℕ → List Remainder → List ℕ → List ℕ
unfolding add_one
hand_out total assigned [] out = out
hand_out total assigned (r ∷ rs) out =
    let rest = hand_out total (assigned + 1) rs (add_one r.place out) in
    if ltb assigned total then rest else out

unfoldable pub apportion : ℕ → List ℕ → List ℕ
unfolding sum shares remainders sorted hand_out
apportion total scaled =
    let out = shares total (sum scaled) scaled in
    hand_out total (sum out) (sorted (remainders total (sum scaled) 0 scaled)) out

-- `distributeAmount`, from the weights scaled to integers on: the scaling is on floating numbers.
unfoldable pub distribute_amount : ℤ → List ℕ → Result BinMathError (List ℕ)
unfolding apportion sum
distribute_amount total [] = err no_bins
distribute_amount (negsuc n) (w ∷ ws) = err negative_total
distribute_amount (pos n) (w ∷ ws) =
    if n == 0
    then ok (map (λ v. 0) (w ∷ ws))
    else if sum (w ∷ ws) == 0
    then err zero_weights
    else ok (apportion n (w ∷ ws))
