-- ===== src/Host.antt =====
-- leanvm-pow/pow/src/ledger.rs and leanvm-pow/ledger/ffi/src/lib.rs: the sources of a proof.
pub mod Recorder
pub mod Bytes
pub mod Device
pub mod Status
pub mod Replay
pub mod Recorded
pub mod Tamper
pub mod Prefix
pub mod ProgramData
pub mod Served
mod Tests
