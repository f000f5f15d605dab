-- ===== src/NodeData.antt =====
-- node-data/src: the blocks, votes and messages that nodes exchange and their encodings.
pub mod Votes
pub mod Attestations
pub mod Headers
pub mod Steps
pub mod Faults
pub mod FaultChecks
pub mod Ledger
pub mod Slashes
pub mod Inventory
pub mod Messages
pub mod Truncation
pub mod Guarantees
pub mod Examples
pub mod RoundTrip
