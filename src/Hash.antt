-- ===== src/Hash.antt =====
-- leanvm-pow/ledger/verifier/src/hash.rs: Keccak-f[1600], Keccak-256 fed in pieces, digests, and
-- the device's bit-interleaved lanes.
pub mod Permutation
pub mod State
pub mod Hasher
pub mod Digest
pub mod Interleaved
mod Tests
