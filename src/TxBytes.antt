-- ===== src/TxBytes.antt =====
-- core/src/transfer.rs, core/src/transfer/{data,moonlight,phoenix}.rs: the bytes of transactions, as
-- they are stored and sent. A key, a signature and an array are the list of their bytes.
pub mod Slices
pub mod Payloads
pub mod Transactions
pub mod HashInput
pub mod Unsigned
pub mod WellFormed
pub mod RoundTrip
pub mod Parsing
pub mod Malformed
pub mod Examples
