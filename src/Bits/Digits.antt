-- ===== src/Bits/Digits.antt =====
-- A number by its binary digits: what `^`, `&`, `|` and the shifts do to each digit, and that
-- equal digits make equal numbers.
use hardware_wallet_benchmar.Prelude.{
  ℕ, zero, suc, ◌+◌, ◌/◌, ◌%◌, ◌≤◌, ◌<◌, min, max, bit_and, bit_or, bit_xor, ◌≡◌, refl, ◌∙◌, ap,
  arith,
}
use hardware_wallet_benchmar.Bits.Step.{bit_or_step, bit_and_step, bit_xor_step}

-- Digit `i` of `n`, 0 or 1.
unfoldable pub bit : ℕ → ℕ → ℕ
bit n zero = n % 2
bit n (suc i) = bit (n / 2) i

pub bit-lt : (n i : ℕ) → bit n i < 2
unfolding bit
bit-lt n zero = omega arith
bit-lt n (suc i) = bit-lt (n / 2) i

bit-zero : (n : ℕ) → bit n 0 ≡ n % 2
unfolding bit
bit-zero n = refl

bit-suc : (n i : ℕ) → bit n (suc i) ≡ bit (n / 2) i
unfolding bit
bit-suc n i = refl

pub zero-bit : (i : ℕ) → bit 0 i ≡ 0
unfolding bit
zero-bit zero = refl
zero-bit (suc i) = zero-bit i

pub bit-xor : (i a b : ℕ) → bit (bit_xor a b) i ≡ (bit a i + bit b i) % 2
unfolding bit
bit-xor zero a b = omega (arith, bit_xor_step a b)
bit-xor (suc i) a b =
    let e : bit_xor a b / 2 ≡ bit_xor (a / 2) (b / 2) = omega (arith, bit_xor_step a b) in
    ap (λ t. bit t i) e ∙ bit-xor i (a / 2) (b / 2)

pub bit-and : (i a b : ℕ) → bit (bit_and a b) i ≡ min (bit a i) (bit b i)
unfolding bit
bit-and zero a b = omega (arith, bit_and_step a b)
bit-and (suc i) a b =
    let e : bit_and a b / 2 ≡ bit_and (a / 2) (b / 2) = omega (arith, bit_and_step a b) in
    ap (λ t. bit t i) e ∙ bit-and i (a / 2) (b / 2)

pub bit-or : (i a b : ℕ) → bit (bit_or a b) i ≡ max (bit a i) (bit b i)
unfolding bit
bit-or zero a b = omega (arith, bit_or_step a b)
bit-or (suc i) a b =
    let e : bit_or a b / 2 ≡ bit_or (a / 2) (b / 2) = omega (arith, bit_or_step a b) in
    ap (λ t. bit t i) e ∙ bit-or i (a / 2) (b / 2)

ext_below : (k a b : ℕ) → a ≤ k → b ≤ k → ((i : ℕ) → bit a i ≡ bit b i) → a ≡ b
unfolding bit
ext_below zero a b p q h = omega arith
ext_below (suc k) zero zero p q h = refl
ext_below (suc k) (suc a) zero p q h =
    omega (arith, h 0, ext_below k (suc a / 2) 0 (omega arith) (omega arith) (λ i. h (suc i)))
ext_below (suc k) zero (suc b) p q h =
    omega (arith, h 0, ext_below k 0 (suc b / 2) (omega arith) (omega arith) (λ i. h (suc i)))
ext_below (suc k) (suc a) (suc b) p q h =
    omega
      (arith, h 0, ext_below k (suc a / 2) (suc b / 2) (omega arith) (omega arith) (λ i. h (suc i)))

-- Two numbers with the same digits are the same.
pub bit_ext : (a b : ℕ) → ((i : ℕ) → bit a i ≡ bit b i) → a ≡ b
bit_ext a b h = ext_below (max a b) a b (omega arith) (omega arith) h
