-- ===== src/NodeData/RoundTrip.antt =====
-- The round trips of node-data, by the rules of `Reader.RoundTrip`.
pub mod Votes
pub mod Headers
pub mod Steps
pub mod Faults
pub mod Ledger
pub mod Inventory
pub mod Messages
