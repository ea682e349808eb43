-- ===== src/Control/Ledger/Amounts.antt =====
-- The amounts of the identifiers in a snapshot and in the committed rows (`reconcile` of
-- src/execution/control/index.ts).
use mathlib.Core.Path.{subst}
use mathlib.Core.Option.{some-injective}
use ari_os.Prelude.Texts.{str_eq-true}
use ari_os.Prelude.{
  String, Bool, true, false, not, ◌&&◌, ◌||◌, List, [], ◌∷◌, Option, none, some, ◌≡◌, refl, arith,
  Bool-cases, inl, inr, str_eq, if◌then◌else◌,
}
use ari_os.Prelude.Int.{ℤ, eq_ℤ, eq_of_eq_ℤ}
use ari_os.Control.Ledger.Rows.{
  LedgerEntry, Reservation, is_reserved, has_id, has_expired, unexpired,
}
use ari_os.Control.Ledger.Within.{is_known}
use ari_os.Control.Ledger.Snapshot.{entry_has_id, agrees}
use ari_os.Control.Ledger.Agreement.{agrees-has_id}

-- The amount of an identifier in a snapshot.
unfoldable pub snapshot_amount : String → List LedgerEntry → Option ℤ
snapshot_amount id [] = none
snapshot_amount id (e ∷ es) =
    let rest = snapshot_amount id es in if str_eq e.id id then some e.amount else rest

-- The committed amount of an identifier in the ledger.
unfoldable pub committed_amount : String → List Reservation → Option ℤ
committed_amount id [] = none
committed_amount id (r ∷ rs) =
    let rest = committed_amount id rs in
    if str_eq r.entry.id id && not (is_reserved r.state) then some r.entry.amount else rest

-- No two rows have one identifier: the primary key of the table.
unfoldable pub Unique : List Reservation → Type 0
Unique [] = Unit
Unique (r ∷ rs) = (has_id r.entry.id rs ≡ false) × Unique rs

unexpired-has_id :
    (now : ℤ) (id : String) (rs : List Reservation)
    → has_id id rs ≡ false
    → has_id id (unexpired now rs) ≡ false
unfolding has_id unexpired
unexpired-has_id now id [] h = refl
unexpired-has_id now id (r ∷ rs) h = ground (arith, unexpired-has_id now id rs)

pub unexpired-Unique : (now : ℤ) (rs : List Reservation) → Unique rs → Unique (unexpired now rs)
unfolding Unique unexpired
unexpired-Unique now [] h = tt
unexpired-Unique now (r ∷ rs) h = elim (Bool-cases (has_expired now r)) [
  | inl e ↦ rw e (unexpired-Unique now rs h.1)
  | inr e ↦ rw e (unexpired-has_id now r.entry.id rs h.0, unexpired-Unique now rs h.1)
]

-- One row of the search for an entry: the tests are those of the state, the identifier, the amount.
first_amount :
    (held same equal found : Bool) (a b : ℤ) (rest : Option ℤ)
    → (equal ≡ true → a ≡ b)
    → (same ≡ true → found ≡ false)
    → (found ≡ true → rest ≡ some b)
    → ((not held && same && equal) || found) ≡ true
    → (if same && not held then some a else rest) ≡ some b
first_amount true same equal found a b rest e u k h = ground (arith, k)
first_amount false true true found a b rest e u k h = rw (e refl) refl
first_amount false true false found a b rest e u k h = absurd (ground (arith, u refl, h))
first_amount false false equal found a b rest e u k h = k h

-- A row that agrees with an entry is the committed amount of it, when identifiers are distinct.
pub agrees-amount :
    (e : LedgerEntry) (rs : List Reservation)
    → Unique rs
    → agrees e rs ≡ true
    → committed_amount e.id rs ≡ some e.amount
unfolding agrees committed_amount Unique
agrees-amount e [] u h = absurd (cc)
agrees-amount e (r ∷ rs) u h =
    first_amount (is_reserved r.state) (str_eq r.entry.id e.id) (eq_ℤ r.entry.amount e.amount)
      (agrees e rs) r.entry.amount e.amount (committed_amount e.id rs)
      (eq_of_eq_ℤ r.entry.amount e.amount)
      (λ k. absent e rs (subst (λ x. has_id x rs ≡ false) (str_eq-true r.entry.id e.id k) u.0))
      (agrees-amount e rs u.1) h
  where
    absent :
        (x : LedgerEntry) (qs : List Reservation) → has_id x.id qs ≡ false → agrees x qs ≡ false
    absent x qs k = elim (Bool-cases (agrees x qs)) [
      | inl a ↦ absurd (ground (arith, agrees-has_id x qs a, k))
      | inr a ↦ a
    ]

eq_ℤ-refl : (a : ℤ) → eq_ℤ a a ≡ true
eq_ℤ-refl a = ground arith

found_amount :
    (held same found : Bool) (a b : ℤ) (rest : Option ℤ)
    → (rest ≡ some b → found ≡ true)
    → (if same && not held then some a else rest) ≡ some b
    → ((not held && same && eq_ℤ a b) || found) ≡ true
found_amount true same found a b rest k h = k (ground (arith, h))
found_amount false true found a b rest k h =
    subst (λ x. (eq_ℤ a x || found) ≡ true) (some-injective a b h) (rw (eq_ℤ-refl a) refl)
found_amount false false found a b rest k h = k h

pub amount-agrees :
    (e : LedgerEntry) (rs : List Reservation)
    → committed_amount e.id rs ≡ some e.amount
    → agrees e rs ≡ true
unfolding agrees committed_amount
amount-agrees e [] h = absurd (cc)
amount-agrees e (r ∷ rs) h =
    found_amount (is_reserved r.state) (str_eq r.entry.id e.id) (agrees e rs) r.entry.amount
      e.amount (committed_amount e.id rs) (amount-agrees e rs) h

pub is_known-snapshot :
    (id : String) (es : List LedgerEntry) → is_known (snapshot_amount id es) ≡ entry_has_id id es
unfolding is_known snapshot_amount entry_has_id
is_known-snapshot id [] = refl
is_known-snapshot id (e ∷ es) = ground (arith, is_known-snapshot id es)
