-- ===== src/Kernel/Store.antt =====
-- The kernel's single-writer store (src/kernel/store.ts): its four tables, and one function for each
-- statement. A transaction is a function that returns the tables as they were when it throws. New
-- identifiers are random and are arguments.
pub mod Rows
pub mod Spends
pub mod Trades
pub mod Sums
pub mod Caps
pub mod TradeRows
