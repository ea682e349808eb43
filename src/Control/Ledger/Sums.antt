-- ===== src/Control/Ledger/Sums.antt =====
-- What an expiry and a new row do to the sums of a ledger (src/execution/control/index.ts).
use text.Mathlib.TextPositions.{eq_refl}
use ari_os.Prelude.{
  Bool, true, List, [], ◌∷◌, ◌++◌, ◌≡◌, refl, ap, ◌∙◌, arith, inl, inr, Bool-cases,
}
use ari_os.Prelude.Int.{ℤ, pos, ◌+ℤ◌, ◌<ℤ◌, zero-+ℤ, +ℤ-zero, +ℤ_assoc, +ℤ_parts}
use ari_os.Control.Ledger.Rows.{
  LedgerEntry, Reservation, Ledger, has_expired, unexpired, expire, sum_where, in_window, usage,
  is_asset,
}

pub unexpired_idem :
    (now : ℤ) (rs : List Reservation) → unexpired now (unexpired now rs) ≡ unexpired now rs
unfolding unexpired
unexpired_idem now [] = refl
unexpired_idem now (r ∷ rs) = elim (Bool-cases (has_expired now r)) [
  | inl e ↦ rw e (unexpired_idem now rs)
  | inr e ↦ rw e (rw e (ap (λ xs. r ∷ xs) (unexpired_idem now rs)))
]

-- In a ledger that is expired already, a window sums its rows.
pub usage-expire :
    (now w : ℤ) (p : LedgerEntry → Bool) (l : Ledger)
    → usage now w p (expire now l) ≡ sum_where (in_window now w p) (expire now l).rows
unfolding usage expire
usage-expire now w p l = rw (unexpired_idem now l.rows)

sum_where-append :
    (p : LedgerEntry → Bool) (xs ys : List Reservation)
    → sum_where p (xs ++ ys) ≡ sum_where p xs +ℤ sum_where p ys
unfolding sum_where
sum_where-append p [] ys = rw (zero-+ℤ (sum_where p ys))
sum_where-append p (x ∷ xs) ys = simp (sum_where-append p xs ys, +ℤ_assoc)

pub sum_where-push :
    (p : LedgerEntry → Bool) (xs : List Reservation) (r : Reservation)
    → p r.entry ≡ true
    → sum_where p (xs ++ r ∷ []) ≡ sum_where p xs +ℤ r.entry.amount
sum_where-push p xs r h =
    sum_where-append p xs (r ∷ [])
    ∙ ap (λ n. sum_where p xs +ℤ n) (unfold sum_where in rw h (+ℤ-zero r.entry.amount))

pub is_asset_self : (e : LedgerEntry) → is_asset e.asset e ≡ true
unfolding is_asset
is_asset_self e = eq_refl e.asset

-- An entry of this moment is in every window that is not empty.
pub in_window_now :
    (w : ℤ) (p : LedgerEntry → Bool) (e : LedgerEntry)
    → pos 0 <ℤ w
    → p e ≡ true
    → in_window e.at w p e ≡ true
unfolding in_window
in_window_now w p e h k = ground (arith, +ℤ_parts e.at w)
