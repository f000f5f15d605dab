-- ===== src/Transfer.antt =====
-- The transfer contract: contracts/transfer/src/state.rs with its tree and its transitory data, and
-- the data it exchanges with callers (core/src/transfer).
pub mod Withdrawal
pub mod Types
pub mod State
pub mod Settlement
pub mod Contracts
pub mod Spending
pub mod Supply
pub mod Balances
pub mod Circulation
pub mod Receipt
pub mod Pickup
pub mod Gas
pub mod Refund
pub mod Later
pub mod Replay
pub mod Guarantees
pub mod ForStake
mod Examples
