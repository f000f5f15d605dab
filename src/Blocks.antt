-- ===== src/Blocks.antt =====
-- The execution of blocks: vm/src/execute.rs, rusk/src/lib/{node,bloom}.rs and rusk/src/lib/node/rusk.rs.
pub mod Machine
pub mod Execute
pub mod Charges
pub mod Deployments
pub mod Emission
pub mod Rewards
pub mod Payment
pub mod Production
pub mod Generation
pub mod Steps
pub mod Replay
pub mod Agreement
pub mod Verification
pub mod Limits
mod Examples
