-- ===== src/Bits/Or.antt =====
-- `a | b` where the one has no digits, or lies above the other.
use native.Mathlib.Nat.{pow-suc}
use hardware_wallet_benchmar.Prelude.{
  ℕ, zero, suc, ◌≡◌, ap, ap₂, ◌∙◌, arith, ◌+◌, ◌*◌, ◌/◌, ◌^◌, ◌<◌, bit_or,
}
use hardware_wallet_benchmar.Bits.Digits.{bit-or, bit_ext, zero-bit}
use hardware_wallet_benchmar.Bits.Step.{bit_or_step}
use hardware_wallet_benchmar.Bits.Pow.{shl_suc}

pub or-zero : (a : ℕ) → bit_or a 0 ≡ a
or-zero a = bit_ext (bit_or a 0) a (λ i. omega (arith, bit-or i a 0, zero-bit i))

zero-or : (a : ℕ) → bit_or 0 a ≡ a
zero-or a = bit_ext (bit_or 0 a) a (λ i. omega (arith, bit-or i 0 a, zero-bit i))

-- a number below `2^k` under one shifted above it
pub or_add : (k a r : ℕ) → r < 2 ^ k → bit_or r (a * 2 ^ k) ≡ r + a * 2 ^ k
or_add zero a r h =
    let nothing : r ≡ 0 = omega arith in
    let same : a * 2 ^ 0 ≡ a = omega arith in
    ap₂ bit_or nothing same ∙ zero-or a ∙ omega (arith, nothing)
or_add (suc k) a r h =
    let low : r / 2 < 2 ^ k = omega (arith, pow-suc 2 k) in
    let half : a * 2 ^ suc k / 2 ≡ a * 2 ^ k = omega (arith, shl_suc k a) in
    omega (
      arith,
      bit_or_step r (a * 2 ^ suc k),
      ap (λ t. bit_or (r / 2) t) half,
      or_add k a (r / 2) low,
      shl_suc k a,
    )

pub or_comm : (a b : ℕ) → bit_or a b ≡ bit_or b a
or_comm a b = bit_ext _ _ (λ i. omega (arith, bit-or i a b, bit-or i b a))
