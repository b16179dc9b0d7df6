-- ===== src/Transcript.antt =====
-- leanvm-pow/ledger/verifier/src/transcript.rs: the proof as a stream, the duplex sponge of the
-- Fiat-Shamir transform, sumcheck messages, and the multilinear helpers.
pub mod Source
pub mod Sponge
pub mod Monad
pub mod Ops
pub mod Rounds
pub mod Elements
pub mod Sumcheck
pub mod Equality
pub mod Blocks
pub mod Doubled
pub mod Kernel
pub mod Split
pub mod Multilinear
pub mod Placement
mod Tests
