-- ===== src/Kernel/Gateway.antt =====
-- The trade gateway (src/kernel/trade-gateway.ts): what it runs against, its checks, the settlement,
-- `#preview` and the two halves of `#live`; then what holds of a call.
pub mod Run
pub mod Checks
pub mod Settle
pub mod Prepare
pub mod Live
pub mod Triple
pub mod Idempotency
pub mod Reservations
pub mod Trace
pub mod Claims
pub mod Once
pub mod Fills
pub mod Confirmed
