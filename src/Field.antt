-- ===== src/Field.antt =====
-- leanvm-pow/ledger/verifier/src/field.rs: `K = GF(2)[x]/(x^64 + x^4 + x^3 + x + 1)`, as its words,
-- and `E = K[y]/(y^3 + y + 1)`. `clmul32` is the portable one: the device's is assembly.
pub mod Clmul
pub mod K
pub mod E
mod Tests
