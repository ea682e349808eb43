-- ===== src/Control/Ledger/Steps.antt =====
-- The operations of the ledger as steps (`ReservationLedger` of src/execution/control/index.ts).
use ari_os.Prelude.{ℕ, String, List, some, ◌≡◌}
use ari_os.Prelude.Int.{ℤ}
use ari_os.Control.Ledger.Rows.{
  LedgerEntry, LedgerStatus, Changes, Ledger, LedgerOptions, expire, reserve, release, commit,
}
use ari_os.Control.Ledger.Within.{WithinLimits, reserve_within}
use ari_os.Control.Ledger.Snapshot.{reconcile}

pub data LedgerStep (o : LedgerOptions) : Ledger → Ledger → Type 0 where
  reads : (now : ℤ) (l : Ledger) → LedgerStep o l (expire now l)
  reserves : (e : LedgerEntry) (l : Ledger) → LedgerStep o l (reserve o e l).1
  reserves_within :
      (e : LedgerEntry) (limits : WithinLimits) (l : Ledger)
      → LedgerStep o l (reserve_within o e limits l).1
  releases :
      (changes : ℕ → Changes) (id : String) (l : Ledger) → LedgerStep o l (release changes id l).1
  commits :
      (changes : ℕ → Changes) (id : String) (at : ℤ) (l : Ledger)
      → LedgerStep o l (commit changes id at l).1
  reconciles :
      (es : List LedgerEntry) (now : ℤ) (l : Ledger) (r : LedgerStatus × Ledger)
      → reconcile es now l ≡ some r
      → LedgerStep o l r.1

-- Any number of operations.
pub data LedgerSteps (o : LedgerOptions) : Ledger → Ledger → Type 0 where
  stop : (l : Ledger) → LedgerSteps o l l
  step : (l m n : Ledger) → LedgerStep o l m → LedgerSteps o m n → LedgerSteps o l n
