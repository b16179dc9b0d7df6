-- ===== src/Lib.antt =====
-- The verifier of leanVM proofs that runs on a hardware wallet: leanvm-pow/ledger/verifier, a Rust
-- library without allocation, built for the device and for the host. A proof is read as a stream,
-- piece by piece; challenges are drawn from a Keccak sponge over what was read.
--
-- The parts and their files (paths from the repository's root):
-- - Field: leanvm-pow/ledger/verifier/src/field.rs. Carry-less products of words (Field/Clmul),
--   `K = GF(2^64)` (Field/K) and its cubic extension `E` (Field/E): `clmul32`, `clmul`, `reduce`,
--   `Mul for E` (`a ⊠ b`), `Add for E` (`a ⊞ b`), `frobenius`, `inv`.
-- - Hash: leanvm-pow/ledger/verifier/src/hash.rs. `keccak_f_const` (Hash/Permutation), `Hasher`
--   (Hash/Hasher), `Digest` (Hash/Digest); the lanes of `State` in portable form (Hash/State) and
--   bit-interleaved, as the device holds them (Hash/Interleaved).
-- - Transcript: leanvm-pow/ledger/verifier/src/transcript.rs. `trait Source` is a record of two
--   functions, a parameter of every step that reads; `Sponge`; `Transcript` with its methods as
--   functions that take and return it; the multilinear helpers; `stack_offsets`.
-- - Tables: leanvm-pow/ledger/verifier/src/tables.rs, the columns and bus tuples of the six tables.
-- - Whir: leanvm-pow/ledger/verifier/src/whir.rs, the opening of the commitment: `derive_config`,
--   `sample_queries`, `open_rows`, `verify_whir`. Whir/Tree is the Merkle tree as its committer builds
--   it, which an opening is held against.
-- - Bus: leanvm-pow/ledger/verifier/src/bus.rs. `build_layout` (Bus/Layout), `verify_gkr` (Bus/Gkr),
--   `SideLayout` and the blocks (Bus/Blocks), `verify_bus_balance` (Bus/Balance), `table_sumcheck`
--   (Bus/TableSumcheck).
-- - Keccak: leanvm-pow/ledger/verifier/src/keccak.rs. The constants and `KeccakShape` (Keccak/Shape),
--   `correlations`, `Weights`, `verify_layer` (Keccak/Layer), `verify_keccak` (Keccak/Open).
-- - RingSwitch, Bytecode: leanvm-pow/ledger/verifier/src/ring_switch.rs and bytecode.rs. The files
--   under Bytecode hold `evaluate` against the sum over the entries, and Host/ProgramData/Extension that
--   sum against the table that the entries come from.
-- - Stacked: the claims on committed columns and their weight at the terminal point, `each_claim` and
--   `Stacked` of leanvm-pow/ledger/verifier/src/lib.rs.
-- - Verify: `walk` and `verify` of leanvm-pow/ledger/verifier/src/lib.rs, for any source. They call
--   every part above in order and hand the batched claims to `verify_whir`.
-- - Simulation: each step of the verifier on two sources that are in relation.
-- - Error: `Error` and `require` of leanvm-pow/ledger/verifier/src/lib.rs.
-- - Host: leanvm-pow/pow/src/ledger.rs, the sources `Recorder` and `Bytes`, `device_stream`
--   (Host/Device), `tamper_check` (Host/Tamper) and the data that `program_data` prints
--   (Host/ProgramData); leanvm-pow/ledger/ffi/src/lib.rs, the device's `Stream` and `leanvm_verify`.
-- - Pow: leanvm-pow/pow/src/main.rs, the search for the smallest hit and the prover's advice.
-- - Prelude and Bits are shared: lists and tests on native numbers, loops, bitwise operations,
--   linear maps over GF(2), and the carry-less product `a ⊗ b` that the field code is held against.
--
-- Words are natural numbers with their wrap-around written out. Arrays are lists that hold what
-- the code reads of them: `Sponge.pending` is `pending[..n_pending]`, the slices of
-- `verify_whir` are lists of their own; `order` of `stack_offsets` has its 256 places. A read
-- out of range gives a default, a write changes nothing; the Rust code would panic there. A
-- method that changes its receiver returns it; a failed read ends the chain with its error.
--
-- Fuel: `pow` has 65 rounds and the logarithms 64, one for each bit of a word; `update` and `zeros`
-- have a round for each byte, and a round takes one at least; `ladder` has seven, one more than the
-- levels there may be; `sample_queries` has one for each query, and a round gives one at least when
-- the depth is between 1 and 192; the GKR's layers have the depth, and a turn takes one layer at least;
-- `lane0_sum` has 64, one for each bit of a word, and a turn takes one bit off.
--
-- Parameters: the proof's source on the device (`Device`, the two C functions), the compiled program
-- (`Bytecode.Program`), its table and Keccak-256 in `program_data`, Keccak-256 and `g_pow` of the
-- proof of work. Capacities that differ between the device and the host are the record `Limits`.
--
-- Not modelled: the assembly of `clmul32` and of the permutation; the generated program and its
-- printing by `program_data`; the command line of leanvm-pow/pow; the vendored leanVM; the C,
-- assembly and Python parts of the repository.
pub mod Prelude
pub mod Bits
pub mod Error
pub mod Field
pub mod Hash
pub mod Transcript
pub mod Tables
pub mod Whir
pub mod RingSwitch
pub mod Bytecode
pub mod Bus
pub mod Keccak
pub mod Stacked
pub mod Verify
pub mod Simulation
pub mod Host
pub mod Pow
