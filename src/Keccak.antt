-- ===== src/Keccak.antt =====
-- leanvm-pow/ledger/verifier/src/keccak.rs: the permutation's claim, by GKR over its rounds.
pub mod Shape
pub mod Correlations
pub mod Weights
pub mod Layer
pub mod Open
pub mod Rmfe
pub mod Iota
mod Tests
