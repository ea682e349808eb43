-- ===== src/Kernel.antt =====
-- The trading kernel of src/kernel: the one path by which value leaves the wallet.
pub mod Contracts
pub mod Money
pub mod Policy
pub mod Store
pub mod Gateway
pub mod Reconciler
mod Examples
