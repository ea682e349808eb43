-- ===== src/Control.antt =====
-- Execution control (src/execution/control/index.ts): a policy, a ledger of reserved exposure, and the
-- two evaluators that a trade passes. A `bigint` is an integer; a `Record<string, bigint>` is an
-- association list.
pub mod Ledger
pub mod Evaluator
pub mod Policy
pub mod Trading
mod Examples
