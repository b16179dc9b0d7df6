-- ===== src/Whir.antt =====
-- leanvm-pow/ledger/verifier/src/whir.rs: the WHIR opening, its Merkle openings streamed.
pub mod Config
pub mod Merkle
pub mod Positions
pub mod Queries
pub mod Sampled
pub mod Binding
pub mod Opening
pub mod Tree
pub mod Verify
mod Tests
