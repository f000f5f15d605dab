-- ===== src/Stake.antt =====
-- The stake contract: contracts/stake/src/state.rs over the data of core/src/stake.rs, with the
-- entry points of contracts/stake/src/lib.rs. Proofs are in the modules named for what they prove.
pub mod Types
pub mod State
pub mod Funding
pub mod Payout
pub mod Penalty
pub mod Calls
pub mod Effects
pub mod Funds
pub mod Accounting
pub mod Invariant
pub mod BlockStart
pub mod Interface
pub mod Solvency
pub mod History
pub mod OnTransfer
pub mod Ledger
pub mod Permission
pub mod Guarantees
pub mod Opening
mod Examples
mod TransferExamples
