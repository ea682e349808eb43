-- ===== src/Control/Ledger/Snapshot.antt =====
-- The reconciliation with a snapshot (`reconcile` of src/execution/control/index.ts).
use ari_os.Prelude.{
  String, Bool, true, false, not, ◌&&◌, ◌||◌, List, [], ◌∷◌, ◌++◌, Option, none, some, str_eq,
  if◌then◌else◌,
}
use ari_os.Prelude.Int.{ℤ, ltb_ℤ, eq_ℤ}
use ari_os.Control.Ledger.Rows.{
  LedgerEntry, committed, Reservation, LedgerStatus, ok, discrepancy, Ledger, is_reserved, has_id,
  is_row_bindable, expire, is_malformed,
}

unfoldable pub entry_has_id : String → List LedgerEntry → Bool
entry_has_id id [] = false
entry_has_id id (e ∷ es) = str_eq e.id id || entry_has_id id es

unfoldable pub has_repeats : List LedgerEntry → Bool
unfolding entry_has_id
has_repeats [] = false
has_repeats (e ∷ es) = entry_has_id e.id es || has_repeats es

unfoldable pub any_invalid : ℤ → List LedgerEntry → Bool
unfolding is_malformed
any_invalid now [] = false
any_invalid now (e ∷ es) = is_malformed e || ltb_ℤ now e.at || any_invalid now es

-- A committed row of the entry's identifier and amount.
unfoldable pub agrees : LedgerEntry → List Reservation → Bool
unfolding is_reserved
agrees e [] = false
agrees e (r ∷ rs) =
    (not (is_reserved r.state) && str_eq r.entry.id e.id && eq_ℤ r.entry.amount e.amount)
    || agrees e rs

unfoldable pub all_agree : List Reservation → List LedgerEntry → Bool
unfolding agrees
all_agree rs [] = true
all_agree rs (e ∷ es) = agrees e rs && all_agree rs es

-- Every committed row is in the snapshot.
unfoldable pub all_in : List LedgerEntry → List Reservation → Bool
unfolding is_reserved entry_has_id
all_in es [] = true
all_in es (r ∷ rs) = (is_reserved r.state || entry_has_id r.entry.id es) && all_in es rs

unfoldable pub committed_row : LedgerEntry → Reservation
committed_row e = record {
  entry = e;
  state = committed;
  expires_at = e.at;
  quote_denomination = none;
  quote_decimals = none;
  quote_value = none;
  valuation_evidence = none;
}

-- INSERT … ON CONFLICT DO NOTHING, for each entry.
unfoldable pub add_missing : List LedgerEntry → List Reservation → List Reservation
unfolding committed_row has_id
add_missing [] rs = rs
add_missing (e ∷ es) rs = add_missing es (if has_id e.id rs then rs else rs ++ committed_row e ∷ [])

unfoldable pub snapshot_status : List LedgerEntry → List Reservation → LedgerStatus
unfolding all_in all_agree
snapshot_status es rs = if all_in es rs && all_agree rs es then ok else discrepancy

-- Whether the driver fails to bind an entry.
unfoldable pub any_unbindable : List LedgerEntry → Bool
unfolding committed_row is_row_bindable
any_unbindable [] = false
any_unbindable (e ∷ es) = not (is_row_bindable (committed_row e)) || any_unbindable es

-- `none`: the call throws, and nothing of the snapshot is written. When it throws at an insert, the
-- reservations of the past stay removed, as after a read.
unfoldable pub reconcile : List LedgerEntry → ℤ → Ledger → Option (LedgerStatus × Ledger)
unfolding any_invalid has_repeats any_unbindable expire snapshot_status add_missing
reconcile es now l =
    if any_invalid now es || has_repeats es || any_unbindable es
    then none
    else some (
      snapshot_status es (expire now l).rows,
      record {
        rows = add_missing es (expire now l).rows;
        status = snapshot_status es (expire now l).rows;
      },
    )
