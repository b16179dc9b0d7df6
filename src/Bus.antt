-- ===== src/Bus.antt =====
-- leanvm-pow/ledger/verifier/src/bus.rs: the layout of the committed columns, the bus balance by a
-- batched GKR over three grand products, and the table sumcheck.
pub mod Slot
pub mod Layout
pub mod Gkr
pub mod Depth
pub mod Schedule
pub mod Blocks
pub mod Balance
pub mod TableSumcheck
mod Tests
