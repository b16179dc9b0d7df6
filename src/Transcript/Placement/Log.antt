-- ===== src/Transcript/Placement/Log.antt =====
-- `log2_ceil` is the ceiling of the logarithm.
use native.Mathlib.Nat.{pow-suc}
use hardware_wallet_benchmar.Prelude.{
  ℕ, zero, suc, ◌↔◌, sym, ◌+◌, ◌-◌, ◌/◌, ◌^◌, ◌<◌, ◌≤◌, arith, ◌==◌, ==_iff, ==_false, Bool-cases,
  inl, inr, subst, if◌then◌else◌, ◌≢◌,
}
use hardware_wallet_benchmar.Transcript.Placement.{bit_length_loop, log2_ceil}
use hardware_wallet_benchmar.Bits.Pow.{pow_pos}

one_more :
    (value bits : ℕ)
    → ((j : ℕ) → (value / 2 < 2 ^ j) ↔ (bits ≤ j))
    → value ≢ 0
    → (k : ℕ) → (value < 2 ^ k) ↔ (bits + 1 ≤ k)
one_more value bits halved n zero = ((λ lt. absurd (n (omega arith))), λ le. absurd (omega arith))
one_more value bits halved n (suc j) = (
  (λ lt. let le = (halved j).0 (omega (arith, pow-suc 2 j)) in omega arith),
  λ le. let lt = (halved j).1 (omega arith) in omega (arith, pow-suc 2 j),
)

-- Halving until nothing is left counts the bits: the least power of two above the value.
bit_length_loop_iff :
    (fuel value k : ℕ) → value < 2 ^ fuel → (value < 2 ^ k) ↔ (bit_length_loop fuel value ≤ k)
unfolding bit_length_loop
bit_length_loop_iff zero value k h = ((λ _. omega arith), λ _. omega (arith, pow_pos k))
bit_length_loop_iff (suc fuel) value k h =
    let halved =
      λ (j : ℕ). bit_length_loop_iff fuel (value / 2) j (omega (arith, h, pow-suc 2 fuel)) in
    elim (Bool-cases (value == 0)) [
      | inl p ↦
          subst
            (λ b. (value < 2 ^ k) ↔ ((if b then 0 else bit_length_loop fuel (value / 2) + 1) ≤ k))
            (sym p) ((λ _. omega arith), λ _. omega (arith, pow_pos k, (==_iff value 0).0 p))
      | inr p ↦
          subst
            (λ b. (value < 2 ^ k) ↔ ((if b then 0 else bit_length_loop fuel (value / 2) + 1) ≤ k))
            (sym p)
            (one_more value (bit_length_loop fuel (value / 2)) halved (==_false value 0 p) k)
    ]

-- A 64-bit value, from 1 up, is at most 2^k exactly for k from log2_ceil on.
pub log2_ceil_iff :
    (value k : ℕ) → 1 ≤ value → value < 2 ^ 64 → (value ≤ 2 ^ k) ↔ (log2_ceil value ≤ k)
unfolding log2_ceil
log2_ceil_iff value k h1 h =
    let i = bit_length_loop_iff 64 (value - 1) k (omega arith) in
    ((λ le. i.0 (omega arith)), λ le. let lt = i.1 le in omega arith)
