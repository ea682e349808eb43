-- ===== src/Control/Ledger/Agreement.antt =====
-- What the status of a reconciliation says (`reconcile` of src/execution/control/index.ts).
use mathlib.Core.Path.{subst}
use mathlib.Core.Option.{some-injective}
use text.Mathlib.TextPositions.{eq_refl}
use ari_os.Prelude.{
  String, Bool, true, false, ◌||◌, List, [], ◌∷◌, ◌++◌, All, none, some, ◌≡◌, refl, sym, arith,
  Bool-cases, inl, inr, and_true, if◌then◌else◌,
}
use ari_os.Prelude.Int.{ℤ}
use ari_os.Control.Ledger.Rows.{
  LedgerEntry, LedgerStatus, Ledger, Reservation, expire, unexpired, has_id,
}
use ari_os.Control.Ledger.Snapshot.{
  any_invalid, has_repeats, any_unbindable, agrees, all_agree, committed_row, add_missing,
  snapshot_status, reconcile,
}

pub agrees-has_id :
    (e : LedgerEntry) (rs : List Reservation) → agrees e rs ≡ true → has_id e.id rs ≡ true
unfolding agrees has_id
agrees-has_id e [] h = cc
agrees-has_id e (r ∷ rs) h = ground (arith, agrees-has_id e rs)

-- Nothing is added for entries that all agree with a row.
add_missing-agree :
    (es : List LedgerEntry) (rs : List Reservation)
    → all_agree rs es ≡ true
    → add_missing es rs ≡ rs
unfolding all_agree add_missing
add_missing-agree [] rs h = refl
add_missing-agree (e ∷ es) rs h =
    let (a, b) = and_true (agrees e rs) (all_agree rs es) h in
    rw (agrees-has_id e rs a) (add_missing-agree es rs b)

has_id-append :
    (id : String) (rs ss : List Reservation) → has_id id rs ≡ true → has_id id (rs ++ ss) ≡ true
unfolding has_id
has_id-append id [] ss h = absurd (cc)
has_id-append id (r ∷ rs) ss h = ground (arith, has_id-append id rs ss)

-- A row that is there stays when the missing ones are added.
add_missing-has_id :
    (id : String) (es : List LedgerEntry) (rs : List Reservation)
    → has_id id rs ≡ true
    → has_id id (add_missing es rs) ≡ true
unfolding add_missing
add_missing-has_id id [] rs h = h
add_missing-has_id id (e ∷ es) rs h = elim (Bool-cases (has_id e.id rs)) [
  | inl k ↦ rw k (add_missing-has_id id es rs h)
  | inr k ↦ rw k (add_missing-has_id id es (rs ++ committed_row e ∷ []) (has_id-append id rs _ h))
]

has_id-last : (rs : List Reservation) (r : Reservation) → has_id r.entry.id (rs ++ r ∷ []) ≡ true
unfolding has_id
has_id-last [] r = rw (eq_refl r.entry.id) refl
has_id-last (x ∷ rs) r = ground (arith, has_id-last rs r)

-- Every entry of a snapshot has a row.
abbrev pub Covered : List LedgerEntry → List Reservation → Type 0
Covered es rows = All (λ e. has_id e.id rows ≡ true) es

-- Adding the entries from the second on covers the first too, when it has a row by then.
Covered-step :
    (e : LedgerEntry) (es : List LedgerEntry) (rs ss : List Reservation)
    → add_missing (e ∷ es) rs ≡ add_missing es ss
    → has_id e.id ss ≡ true
    → Covered es (add_missing es ss)
    → Covered (e ∷ es) (add_missing (e ∷ es) rs)
Covered-step e es rs ss k h c =
    subst (Covered (e ∷ es)) (sym k) (add_missing-has_id e.id es ss h, c)

add_missing-Covered :
    (es : List LedgerEntry) (rs : List Reservation) → Covered es (add_missing es rs)
unfolding add_missing committed_row
add_missing-Covered [] rs = tt
add_missing-Covered (e ∷ es) rs = elim (Bool-cases (has_id e.id rs)) [
  | inl k ↦ Covered-step e es rs rs (rw k refl) k (add_missing-Covered es rs)
  | inr k ↦
      let ss = rs ++ committed_row e ∷ [] in
      Covered-step e es rs ss (rw k refl) (has_id-last rs (committed_row e))
        (add_missing-Covered es ss)
]

if_some : {A : Type 0} (b : Bool) (x y : A) → (if b then none else some x) ≡ some y → y ≡ x
if_some true x y h = absurd (cc)
if_some false x y h = sym (some-injective x y h)

-- The answer of a snapshot that is not refused.
pub accepted :
    (es : List LedgerEntry) (now : ℤ) (l : Ledger) (r : LedgerStatus × Ledger)
    → reconcile es now l ≡ some r
    → r ≡ (
      snapshot_status es (unexpired now l.rows),
      record {
        rows = add_missing es (unexpired now l.rows);
        status = snapshot_status es (unexpired now l.rows);
      },
    )
unfolding reconcile expire
accepted es now l r h = if_some (any_invalid now es || has_repeats es || any_unbindable es) _ r h

-- After a snapshot that is not refused, whatever its answer is, each of its entries has a row of its
-- identifier in the ledger.
pub reconcile-Covered :
    (es : List LedgerEntry) (now : ℤ) (l : Ledger) (r : LedgerStatus × Ledger)
    → reconcile es now l ≡ some r
    → Covered es r.1.rows
reconcile-Covered es now l r h =
    subst (λ s. Covered es s.1.rows) (sym (accepted es now l r h))
      (add_missing-Covered es (unexpired now l.rows))
