-- ===== src/Control/Ledger/Balanced.antt =====
-- When a snapshot and the committed rows are in balance (`reconcile` of
-- src/execution/control/index.ts): as amounts of identifiers, whatever their order is.
use mathlib.Core.Path.{subst}
use text.Mathlib.TextPositions.{eq_refl}
use ari_os.Prelude.Texts.{str_eq-true}
use ari_os.Prelude.{
  String, Bool, true, false, not, ◌&&◌, ◌||◌, List, [], ◌∷◌, Option, none, some, ◌≡◌, ◌↔◌, refl,
  sym, ap, ◌∙◌, arith, Bool-cases, Option-cases, inl, inr, str_eq, or_false, and_true,
  if◌then◌else◌,
}
use ari_os.Prelude.Int.{ℤ}
use ari_os.Control.Ledger.Rows.{
  LedgerEntry, LedgerStatus, ok, discrepancy, Ledger, Reservation, is_reserved, unexpired,
}
use ari_os.Control.Ledger.Within.{is_known}
use ari_os.Control.Ledger.Snapshot.{
  entry_has_id, any_invalid, any_unbindable, has_repeats, agrees, all_agree, all_in,
  snapshot_status, reconcile,
}
use ari_os.Control.Ledger.Agreement.{accepted}
use ari_os.Control.Ledger.Amounts.{
  snapshot_amount, committed_amount, Unique, unexpired-Unique, agrees-amount, amount-agrees,
  is_known-snapshot,
}

-- The snapshot and the committed rows give each identifier the same amount, or both give it none.
abbrev pub Balanced : List LedgerEntry → List Reservation → Type 0
Balanced es rs = (id : String) → snapshot_amount id es ≡ committed_amount id rs

-- With every committed row in the snapshot, an identifier with a committed amount is in it.
listed :
    (es : List LedgerEntry) (id : String) (rs : List Reservation)
    → all_in es rs ≡ true
    → is_known (committed_amount id rs) ≡ true
    → entry_has_id id es ≡ true
unfolding all_in committed_amount is_known
listed es id [] h k = absurd (cc)
listed es id (r ∷ rs) h k =
    let (a, b) = and_true (is_reserved r.state || entry_has_id r.entry.id es) (all_in es rs) h in
    elim (Bool-cases (str_eq r.entry.id id && not (is_reserved r.state))) [
      | inl e ↦
          let (same, held) = and_true (str_eq r.entry.id id) (not (is_reserved r.state)) e in
          subst (λ x. entry_has_id x es ≡ true) (str_eq-true r.entry.id id same)
            (ground (arith, a, held))
      | inr e ↦ listed es id rs b (ground (arith, e, k))
    ]

known_rest :
    (b : Bool) (a : ℤ) (rest : Option ℤ)
    → is_known rest ≡ true
    → is_known (if b then some a else rest) ≡ true
unfolding is_known
known_rest true a rest h = refl
known_rest false a rest h = h

all_listed :
    (es : List LedgerEntry) (rs : List Reservation)
    → ((id : String) → is_known (committed_amount id rs) ≡ true → entry_has_id id es ≡ true)
    → all_in es rs ≡ true
unfolding all_in committed_amount is_known
all_listed es [] h = refl
all_listed es (r ∷ rs) h =
    let rest = all_listed es rs (λ id k. h id (
      known_rest (str_eq r.entry.id id && not (is_reserved r.state)) r.entry.amount
        (committed_amount id rs) k)) in
    elim (Bool-cases (is_reserved r.state)) [
      | inl e ↦ rw e rest
      | inr e ↦ rw (e, h r.entry.id (rw (eq_refl r.entry.id, e) refl)) rest
    ]

-- When every entry agrees with a row, the amounts of the snapshot are those of the committed rows.
snapshot-committed :
    (id : String) (a : ℤ) (es : List LedgerEntry) (rs : List Reservation)
    → Unique rs
    → all_agree rs es ≡ true
    → snapshot_amount id es ≡ some a
    → committed_amount id rs ≡ some a
unfolding all_agree snapshot_amount
snapshot-committed id a [] rs u h k = absurd (cc)
snapshot-committed id a (e ∷ es) rs u h k =
    let (p, q) = and_true (agrees e rs) (all_agree rs es) h in
    elim (Bool-cases (str_eq e.id id)) [
      | inl s ↦
          subst (λ x. committed_amount x rs ≡ some a) (str_eq-true e.id id s)
            (agrees-amount e rs u p ∙ ground (arith, s, k))
      | inr s ↦ snapshot-committed id a es rs u q (ground (arith, s, k))
    ]

-- Conversely, in a snapshot that lists no identifier twice.
all_agree-of_amounts :
    (es : List LedgerEntry) (rs : List Reservation)
    → has_repeats es ≡ false
    → ((id : String) (a : ℤ) → snapshot_amount id es ≡ some a → committed_amount id rs ≡ some a)
    → all_agree rs es ≡ true
unfolding all_agree has_repeats snapshot_amount
all_agree-of_amounts [] rs n h = refl
all_agree-of_amounts (e ∷ es) rs n h =
    let (m, n_rest) = or_false (entry_has_id e.id es) (has_repeats es) n in
    rw (amount-agrees e rs (h e.id e.amount (rw (eq_refl e.id) refl)))
      (all_agree-of_amounts es rs n_rest (λ id a k. h id a (rw (other id a m k) k)))
  where
    other :
        (id : String) (a : ℤ)
        → entry_has_id e.id es ≡ false
        → snapshot_amount id es ≡ some a
        → str_eq e.id id ≡ false
    other id a m k = elim (Bool-cases (str_eq e.id id)) [
      | inl s ↦ absurd (
          unfold is_known in
          ground (
            arith,
            is_known-snapshot id es,
            k,
            subst (λ x. entry_has_id x es ≡ false) (str_eq-true e.id id s) m,
          ))
      | inr s ↦ s
    ]

module _ (es : List LedgerEntry) (rs : List Reservation) (u : Unique rs) where
  ok_Balanced : all_in es rs ≡ true → all_agree rs es ≡ true → Balanced es rs
  unfolding is_known
  ok_Balanced h k id = elim (Option-cases (snapshot_amount id es)) [
    | inl e ↦ elim (Option-cases (committed_amount id rs)) [
      | inl f ↦ e ∙ sym f
      | inr (a, f) ↦
          absurd (ground (arith, listed es id rs h (rw f refl), is_known-snapshot id es, e))
    ]
    | inr (a, e) ↦ e ∙ sym (snapshot-committed id a es rs u k e)
  ]

  checks_pass :
      has_repeats es ≡ false → Balanced es rs → (all_in es rs ≡ true) × (all_agree rs es ≡ true)
  checks_pass n b = (
    all_listed es rs (λ id k. sym (is_known-snapshot id es) ∙ ap is_known (b id) ∙ k),
    all_agree-of_amounts es rs n (λ id a k. sym (b id) ∙ k),
  )

  status_iff : has_repeats es ≡ false → (snapshot_status es rs ≡ ok) ↔ Balanced es rs
  unfolding snapshot_status
  status_iff n = (
    λ h. ok_Balanced (both h).0 (both h).1,
    λ b. rw ((checks_pass n b).0, (checks_pass n b).1) refl,
  )
    where
      both :
          (if all_in es rs && all_agree rs es then ok else discrepancy) ≡ ok
          → (all_in es rs ≡ true) × (all_agree rs es ≡ true)
      both h = ground (arith, h)

refused : {A : Type 0} (b : Bool) (x y : A) → (if b then none else some x) ≡ some y → b ≡ false
refused true x y h = absurd (cc)
refused false x y h = refl

no_repeats :
    (es : List LedgerEntry) (now : ℤ) (l : Ledger) (r : LedgerStatus × Ledger)
    → reconcile es now l ≡ some r
    → has_repeats es ≡ false
unfolding reconcile
no_repeats es now l r h =
    (or_false (any_invalid now es) _ (or_false _ (any_unbindable es) (refused _ _ r h)).0).1

-- In a ledger with distinct identifiers a snapshot that is not refused is answered, and recorded, as `ok`
-- exactly when it and the committed rows give each identifier the same amount, or both give it none.
pub reconcile_iff :
    (es : List LedgerEntry) (now : ℤ) (l : Ledger) (r : LedgerStatus × Ledger)
    → Unique l.rows
    → reconcile es now l ≡ some r
    → (r.1.status ≡ r.0) × ((r.0 ≡ ok) ↔ Balanced es (unexpired now l.rows))
reconcile_iff es now l r u h =
    let e = accepted es now l r h in
    let status = ap (λ x. x.0) e in
    let (to, from) =
      status_iff es (unexpired now l.rows) (unexpired-Unique now l.rows u)
        (no_repeats es now l r h) in
    (ap (λ x. x.1.status) e ∙ sym status, (λ k. to (sym status ∙ k), λ b. status ∙ from b))
