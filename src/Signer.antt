-- ===== src/Signer.antt =====
-- The custody boundary: the one-time fence of authorizations (src/signer/replay.ts and
-- authorization.ts) and the check of an envelope.
pub mod State
pub mod Replay
pub mod Fence
pub mod Keys
pub mod Stores
pub mod Once
pub mod Claimed
pub mod Written
pub mod Authorization
mod Examples
