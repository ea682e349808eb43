-- ===== src/Control/Ledger.antt =====
-- `ReservationLedger` of src/execution/control/index.ts.
pub mod Rows
pub mod Within
pub mod Snapshot
pub mod Sums
pub mod Granted
pub mod Steps
pub mod Committed
pub mod Agreement
pub mod Amounts
pub mod Balanced
