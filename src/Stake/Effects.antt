-- ===== src/Stake/Effects.antt =====
-- What a call that returns has done, one record for each kind of write. The later proofs use these
-- and leave the calls shut.
pub mod Records
pub mod Inversion
pub mod Penalties
pub use Records.*
pub use Inversion.*
pub use Penalties.*
