-- ===== src/Bits.antt =====
-- Bit facts for the fixed-width integers of the program: `^`, `&`, `|` and the shifts.
pub mod Step
pub mod Pow
pub mod Digits
pub mod Xor
pub mod And
pub mod Linear
pub mod Or
pub mod Poly
pub mod PolyLaws
