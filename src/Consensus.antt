-- ===== src/Consensus.antt =====
-- The consensus: consensus/src/user/{committee,cluster,sortition,stake,provisioners}.rs, config.rs and
-- aggregator.rs.
pub mod Committee
pub mod Sortition
pub mod Extraction
pub mod Committees
pub mod Aggregator
pub mod OneVote
pub mod OneQuorum
pub mod Counted
pub mod VoterBits
mod Examples
