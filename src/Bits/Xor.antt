-- ===== src/Bits/Xor.antt =====
-- The laws of exclusive or: an abelian group where each number is its own inverse, which shifts
-- and low masks respect.
use native.Mathlib.Nat.{div-one, mod-one, mul-one, mod-eq_of_lt, mod-lt}
use hardware_wallet_benchmar.Prelude.{
  ℕ, zero, suc, ◌*◌, ◌/◌, ◌%◌, ◌^◌, ◌<◌, bit_xor, ◌≡◌, sym, ◌∙◌, ap, ap₂, arith,
}
use hardware_wallet_benchmar.Bits.Step.{bit_xor_step}
use hardware_wallet_benchmar.Bits.Pow.{shl_suc, shr_suc, mod_suc, pow_pos}
use hardware_wallet_benchmar.Bits.Digits.{bit-lt, bit-xor, bit_ext, zero-bit}

infixl 65 ◌⊕◌
abbrev pub ◌⊕◌ : ℕ → ℕ → ℕ
a ⊕ b = bit_xor a b

pub xor_comm : (a b : ℕ) → a ⊕ b ≡ b ⊕ a
xor_comm a b = bit_ext _ _ λ i. omega (arith, bit-xor i a b, bit-xor i b a)

pub xor_assoc : (a b c : ℕ) → (a ⊕ b) ⊕ c ≡ a ⊕ (b ⊕ c)
xor_assoc a b c =
    bit_ext _ _
      λ i. omega (arith, bit-xor i (a ⊕ b) c, bit-xor i a b, bit-xor i a (b ⊕ c), bit-xor i b c)

pub xor_left_comm : (a b c : ℕ) → a ⊕ (b ⊕ c) ≡ b ⊕ (a ⊕ c)
xor_left_comm a b c = sym (xor_assoc a b c) ∙ ap (λ t. t ⊕ c) (xor_comm a b) ∙ xor_assoc b a c

pub xor_self : (a : ℕ) → a ⊕ a ≡ 0
xor_self a = bit_ext _ _ λ i. omega (arith, bit-xor i a a, zero-bit i, bit-lt a i)

pub xor-zero : (a : ℕ) → a ⊕ 0 ≡ a
xor-zero a = bit_ext _ _ λ i. omega (arith, bit-xor i a 0, zero-bit i, bit-lt a i)

pub zero-xor : (a : ℕ) → 0 ⊕ a ≡ a
zero-xor a = xor_comm 0 a ∙ xor-zero a

pub xor_cancel : (a b : ℕ) → a ⊕ (a ⊕ b) ≡ b
xor_cancel a b = sym (xor_assoc a a b) ∙ ap (λ t. t ⊕ b) (xor_self a) ∙ zero-xor b

pub xor_swap : (a b c d : ℕ) → (a ⊕ b) ⊕ (c ⊕ d) ≡ (a ⊕ c) ⊕ (b ⊕ d)
xor_swap a b c d =
    xor_assoc a b (c ⊕ d) ∙ ap (λ t. a ⊕ t) (xor_left_comm b c d) ∙ sym (xor_assoc a c (b ⊕ d))

pub xor-double : (a b : ℕ) → 2 * a ⊕ 2 * b ≡ 2 * (a ⊕ b)
xor-double a b =
    let ea : 2 * a / 2 ≡ a = omega arith in
    let eb : 2 * b / 2 ≡ b = omega arith in
    omega (arith, bit_xor_step (2 * a) (2 * b), ap₂ bit_xor ea eb)

pub xor-half : (a b : ℕ) → (a ⊕ b) / 2 ≡ a / 2 ⊕ b / 2
xor-half a b = omega (arith, bit_xor_step a b)

-- `(a ^ b) >> k`
pub xor-shr : (k a b : ℕ) → (a ⊕ b) / 2 ^ k ≡ a / 2 ^ k ⊕ b / 2 ^ k
xor-shr zero a b = omega (arith, ap₂ bit_xor (div-one a) (div-one b), div-one (a ⊕ b))
xor-shr (suc k) a b =
    shr_suc k (a ⊕ b)
    ∙ ap (λ (t : ℕ). t / 2 ^ k) (xor-half a b)
    ∙ xor-shr k (a / 2) (b / 2)
    ∙ sym (ap₂ bit_xor (shr_suc k a) (shr_suc k b))

-- `(a ^ b) << k`
pub xor-shl : (k a b : ℕ) → (a ⊕ b) * 2 ^ k ≡ a * 2 ^ k ⊕ b * 2 ^ k
xor-shl zero a b = omega (arith, ap₂ bit_xor (mul-one a) (mul-one b))
xor-shl (suc k) a b =
    shl_suc k (a ⊕ b)
    ∙ ap (λ (t : ℕ). 2 * t) (xor-shl k a b)
    ∙ sym (xor-double (a * 2 ^ k) (b * 2 ^ k))
    ∙ sym (ap₂ bit_xor (shl_suc k a) (shl_suc k b))

-- `a ^ b` kept to `k` bits
pub xor-mod : (k a b : ℕ) → (a ⊕ b) % 2 ^ k ≡ a % 2 ^ k ⊕ b % 2 ^ k
xor-mod zero a b = omega (arith, ap₂ bit_xor (mod-one a) (mod-one b), xor-zero 0)
xor-mod (suc k) a b =
    let ea : a % 2 ^ suc k / 2 ≡ a / 2 % 2 ^ k = omega (arith, mod_suc k a) in
    let eb : b % 2 ^ suc k / 2 ≡ b / 2 % 2 ^ k = omega (arith, mod_suc k b) in
    omega (
      arith,
      mod_suc k (a ⊕ b),
      mod_suc k a,
      mod_suc k b,
      bit_xor_step a b,
      bit_xor_step (a % 2 ^ suc k) (b % 2 ^ suc k),
      ap₂ bit_xor ea eb,
      ap (λ (t : ℕ). t % 2 ^ k) (xor-half a b),
      xor-mod k (a / 2) (b / 2),
    )

pub xor-lt : (k a b : ℕ) → a < 2 ^ k → b < 2 ^ k → a ⊕ b < 2 ^ k
xor-lt k a b p q =
    let e : a ⊕ b ≡ (a ⊕ b) % 2 ^ k =
      sym (xor-mod k a b ∙ ap₂ bit_xor (mod-eq_of_lt p) (mod-eq_of_lt q)) in
    omega (arith, e, mod-lt (a ⊕ b) (pow_pos k))
