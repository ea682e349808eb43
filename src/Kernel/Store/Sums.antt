-- ===== src/Kernel/Store/Sums.antt =====
-- What a reservation adds to the spend windows, and what its release and its consumption leave.
use mathlib.Core.List.{map-append}
use text.Mathlib.TextPositions.{eq_refl}
use ari_os.Prelude.{ℕ, ◌+◌, String, true, false, List, [], ◌∷◌, ◌++◌, map, ◌≡◌, refl, le→leb, arith}
use ari_os.Prelude.Int.{pos, ◌+ℤ◌, zero-+ℤ, +ℤ-zero, +ℤ_assoc}
use ari_os.Kernel.Money.{QuoteBucket, sol, usdc}
use ari_os.Kernel.Store.Rows.{SpendRow}
use ari_os.Kernel.Store.Spends.{
  is_active, in_window, sum_active, same_bucket, has_spend, is_reserved, release_row, consume_row,
  reserved_row, ReserveArgs,
}

pub sum_active-append :
    (b : QuoteBucket) (now w : ℕ) (xs ys : List SpendRow)
    → sum_active b now w (xs ++ ys) ≡ sum_active b now w xs +ℤ sum_active b now w ys
unfolding sum_active
sum_active-append b now w [] ys = rw (zero-+ℤ (sum_active b now w ys))
sum_active-append b now w (x ∷ xs) ys = simp (sum_active-append b now w xs ys, +ℤ_assoc)

pub map-release_fresh :
    (id : String) (xs : List SpendRow) → has_spend id xs ≡ false → map (release_row id) xs ≡ xs
unfolding has_spend release_row
map-release_fresh id [] h = refl
map-release_fresh id (x ∷ xs) h = ground (arith, map-release_fresh id xs)

pub map-consume_fresh :
    (id : String) (xs : List SpendRow) → has_spend id xs ≡ false → map (consume_row id) xs ≡ xs
unfolding has_spend consume_row
map-consume_fresh id [] h = refl
map-consume_fresh id (x ∷ xs) h = ground (arith, map-consume_fresh id xs)

released_sum :
    (id : String) (args : ReserveArgs) (b : QuoteBucket) (now w : ℕ)
    → sum_active b now w (release_row id (reserved_row id args) ∷ []) ≡ pos 0
unfolding sum_active in_window is_active is_reserved release_row reserved_row ◌+ℤ◌
released_sum id args b now w = ground (arith, eq_refl id)

consumed_sum :
    (id : String) (args : ReserveArgs) (b : QuoteBucket) (now w : ℕ)
    → sum_active b now w (consume_row id (reserved_row id args) ∷ [])
      ≡ sum_active b now w (reserved_row id args ∷ [])
unfolding sum_active in_window is_active consume_row reserved_row
consumed_sum id args b now w = ground (arith, eq_refl id)

-- A reservation that is released leaves every window as it was.
pub sum_active-release :
    (id : String) (args : ReserveArgs) (b : QuoteBucket) (now w : ℕ) (xs : List SpendRow)
    → has_spend id xs ≡ false
    → sum_active b now w (map (release_row id) (xs ++ reserved_row id args ∷ []))
      ≡ sum_active b now w xs
sum_active-release id args b now w xs h =
    rw (map-append (release_row id) xs, map-release_fresh id xs h, sum_active-append b now w xs)
      (rw (released_sum id args b now w) (+ℤ-zero (sum_active b now w xs)))

-- A reservation that is consumed counts as it did when it was reserved.
pub sum_active-consume :
    (id : String) (args : ReserveArgs) (b : QuoteBucket) (now w : ℕ) (xs : List SpendRow)
    → has_spend id xs ≡ false
    → sum_active b now w (map (consume_row id) (xs ++ reserved_row id args ∷ []))
      ≡ sum_active b now w (xs ++ reserved_row id args ∷ [])
sum_active-consume id args b now w xs h =
    rw
      (
        map-append (consume_row id) xs,
        map-consume_fresh id xs h,
        sum_active-append b now w xs,
        sum_active-append b now w xs,
      )
      (rw (consumed_sum id args b now w))

same_bucket_self : (b : QuoteBucket) → same_bucket b b ≡ true
unfolding same_bucket
same_bucket_self sol = refl
same_bucket_self usdc = refl

reserved_sum :
    (id : String) (args : ReserveArgs) (w : ℕ)
    → sum_active args.bucket args.now w (reserved_row id args ∷ []) ≡ args.amount
unfolding sum_active in_window is_active reserved_row
reserved_sum id args w =
    rw (same_bucket_self args.bucket, le→leb args.now (args.now + w) (omega arith))
      (+ℤ-zero args.amount)

-- A new reservation adds its amount to each window of its bucket.
pub sum_active-reserve :
    (id : String) (args : ReserveArgs) (w : ℕ) (xs : List SpendRow)
    → sum_active args.bucket args.now w (xs ++ reserved_row id args ∷ [])
      ≡ sum_active args.bucket args.now w xs +ℤ args.amount
sum_active-reserve id args w xs =
    rw (sum_active-append args.bucket args.now w xs, reserved_sum id args w)
