-- ===== src/Tables.antt =====
-- leanvm-pow/ledger/verifier/src/tables.rs: the six instruction tables.
pub mod Columns
pub mod Flush
pub mod Product
pub mod Slots
mod Tests
