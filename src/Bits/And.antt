-- ===== src/Bits/And.antt =====
-- The laws of `&` and `|`: masks spread over `^`, a low mask is a remainder, and `|` of numbers
-- with no common digit is `^`.
use native.Mathlib.Nat.{pow-suc, mul-one}
use hardware_wallet_benchmar.Prelude.{
  ℕ, zero, suc, ◌+◌, ◌-◌, ◌*◌, ◌/◌, ◌%◌, ◌^◌, ◌≤◌, ◌<◌, bit_and, bit_or, bit_xor, ◌≡◌, ap, ap₂,
  arith,
}
use hardware_wallet_benchmar.Bits.Step.{bit_and_step, bit_xor_step}
use hardware_wallet_benchmar.Bits.Pow.{shl_suc, mod_suc, pow_pos}
use hardware_wallet_benchmar.Bits.Digits.{bit, bit-lt, bit-xor, bit-and, bit-or, bit_ext, zero-bit}
use hardware_wallet_benchmar.Bits.Xor.{◌⊕◌, xor-zero}

pub and_comm : (a b : ℕ) → bit_and a b ≡ bit_and b a
and_comm a b = bit_ext _ _ λ i. omega (arith, bit-and i a b, bit-and i b a)

pub and_assoc : (a b c : ℕ) → bit_and (bit_and a b) c ≡ bit_and a (bit_and b c)
and_assoc a b c = bit_ext _ _ λ i.
    omega
      (arith, bit-and i (bit_and a b) c, bit-and i a b, bit-and i a (bit_and b c), bit-and i b c)

pub and-zero : (a : ℕ) → bit_and a 0 ≡ 0
and-zero a = bit_ext _ _ λ i. omega (arith, bit-and i a 0, zero-bit i)

pub and_self : (a : ℕ) → bit_and a a ≡ a
and_self a = bit_ext _ _ λ i. omega (arith, bit-and i a a)

-- `(a ^ b) & m`
pub xor-and : (m a b : ℕ) → bit_and (a ⊕ b) m ≡ bit_and a m ⊕ bit_and b m
xor-and m a b = bit_ext _ _ λ i. omega (
  arith,
  bit-and i (a ⊕ b) m,
  bit-xor i a b,
  bit-xor i (bit_and a m) (bit_and b m),
  bit-and i a m,
  bit-and i b m,
  bit-lt a i,
  bit-lt b i,
  bit-lt m i,
)

-- Numbers with no common digit: `a | b` is `a ^ b`.
pub or-eq-xor : (a b : ℕ) → bit_and a b ≡ 0 → bit_or a b ≡ a ⊕ b
or-eq-xor a b h = bit_ext _ _ λ i. omega (
  arith,
  bit-or i a b,
  bit-xor i a b,
  bit-and i a b,
  ap (λ t. bit t i) h,
  zero-bit i,
  bit-lt a i,
  bit-lt b i,
)

-- and `a ^ b` is `a + b`.
pub xor-eq-add : (k a r : ℕ) → r < 2 ^ k → a * 2 ^ k ⊕ r ≡ a * 2 ^ k + r
xor-eq-add zero a r h =
    let e : r ≡ 0 = omega arith in omega (arith, ap₂ bit_xor (mul-one a) e, xor-zero a)
xor-eq-add (suc k) a r h =
    let ea : a * 2 ^ suc k / 2 ≡ a * 2 ^ k = omega (arith, shl_suc k a) in
    let er : r / 2 < 2 ^ k = omega (arith, pow-suc 2 k) in
    omega (
      arith,
      bit_xor_step (a * 2 ^ suc k) r,
      ap (λ t. bit_xor t (r / 2)) ea,
      xor-eq-add k a (r / 2) er,
      shl_suc k a,
    )

-- A mask of `k` low ones keeps the low `k` digits.
pub and-low_mask : (k a : ℕ) → bit_and a (2 ^ k - 1) ≡ a % 2 ^ k
and-low_mask zero a = omega (arith, and-zero a)
and-low_mask (suc k) a =
    let e : (2 ^ suc k - 1) / 2 ≡ 2 ^ k - 1 = omega (arith, pow-suc 2 k, pow_pos k) in
    omega (
      arith,
      bit_and_step a (2 ^ suc k - 1),
      ap (bit_and (a / 2)) e,
      and-low_mask k (a / 2),
      mod_suc k a,
      pow-suc 2 k,
      pow_pos k,
    )

-- Both operands shifted left.
pub and-shl : (k a b : ℕ) → bit_and (a * 2 ^ k) (b * 2 ^ k) ≡ bit_and a b * 2 ^ k
and-shl zero a b = omega (arith, ap₂ bit_and (mul-one a) (mul-one b))
and-shl (suc k) a b =
    let ea : a * 2 ^ suc k / 2 ≡ a * 2 ^ k = omega (arith, shl_suc k a) in
    let eb : b * 2 ^ suc k / 2 ≡ b * 2 ^ k = omega (arith, shl_suc k b) in
    omega (
      arith,
      bit_and_step (a * 2 ^ suc k) (b * 2 ^ suc k),
      ap₂ bit_and ea eb,
      and-shl k a b,
      shl_suc k a,
      shl_suc k b,
      shl_suc k (bit_and a b),
    )

-- A mask only clears digits.
pub and-le : (a m : ℕ) → bit_and a m ≤ m
and-le a m = below m a m (omega arith)
  where
    below : (k x y : ℕ) → y ≤ k → bit_and x y ≤ y
    below k x zero h = omega (arith, and-zero x)
    below zero x (suc y) h = absurd (omega arith)
    below (suc k) x (suc y) h =
        omega (arith, bit_and_step x (suc y), below k (x / 2) (suc y / 2) (omega arith))
