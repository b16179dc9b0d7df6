-- ===== src/Bits/PolyLaws.antt =====
-- The ring laws of the product of polynomials over GF(2).
use native.Mathlib.Nat.{pow-suc, pow-le-pow_right}
use hardware_wallet_benchmar.Prelude.{
  ℕ, zero, suc, ◌≡◌, ◌*◌, ◌<◌, ◌≤◌, ◌^◌, ◌/◌, arith, ◌%◌, ap, ◌+◌, ◌∙◌, ap₂, sym, bit_xor,
}
use hardware_wallet_benchmar.Bits.Poly.{
  ◌⊗◌, times_step, zero-times, times-zero, times-xor, xor-times, double-times,
}
use hardware_wallet_benchmar.Bits.Xor.{◌⊕◌, xor_comm, xor-double, xor-lt}
use hardware_wallet_benchmar.Bits.And.{xor-eq-add}
use hardware_wallet_benchmar.Bits.Pow.{pow_pos, shl_suc}

-- The lowest digit apart from the rest.
low_digit_apart : (a : ℕ) → a ≡ 2 * (a / 2) ⊕ a % 2
low_digit_apart a =
    let h : a % 2 < 2 ^ 1 = omega arith in
    let e : a / 2 * 2 ^ 1 ≡ 2 * (a / 2) = omega arith in
    omega (arith, xor-eq-add 1 (a / 2) (a % 2) h, ap (λ t. t ⊕ a % 2) e)

times-double : (a b : ℕ) → a ⊗ 2 * b ≡ 2 * (a ⊗ b)
times-double a b = below a a (omega arith)
  where
    below : (k x : ℕ) → x ≤ k → x ⊗ 2 * b ≡ 2 * (x ⊗ b)
    below k zero h = omega (arith, zero-times (2 * b), zero-times b)
    below zero (suc x) h = absurd (omega arith)
    below (suc k) (suc x) h =
        let e : suc x % 2 * (2 * b) ≡ 2 * (suc x % 2 * b) = grind arith in
        times_step (suc x) (2 * b)
        ∙ ap₂ (λ (t u : ℕ). t ⊕ 2 * u) e (below k (suc x / 2) (omega arith))
        ∙ xor-double (suc x % 2 * b) (2 * (suc x / 2 ⊗ b))
        ∙ ap (λ (t : ℕ). 2 * t) (sym (times_step (suc x) b))

digit-times : (d b c : ℕ) → d < 2 → d * b ⊗ c ≡ d * (b ⊗ c)
digit-times zero b c h =
    let e : 0 * b ≡ 0 = omega arith in
    let g : 0 * (b ⊗ c) ≡ 0 = omega arith in ap (λ t. t ⊗ c) e ∙ zero-times c ∙ sym g
digit-times (suc zero) b c h =
    let e : 1 * b ≡ b = omega arith in
    let g : 1 * (b ⊗ c) ≡ b ⊗ c = omega arith in ap (λ t. t ⊗ c) e ∙ sym g
digit-times (suc (suc d)) b c h = absurd (omega arith)

pub times-one : (a : ℕ) → a ⊗ 1 ≡ a
times-one a = below a a (omega arith)
  where
    below : (k x : ℕ) → x ≤ k → x ⊗ 1 ≡ x
    below k zero h = zero-times 1
    below zero (suc x) h = absurd (omega arith)
    below (suc k) (suc x) h =
        let e : suc x % 2 * 1 ≡ suc x % 2 = omega arith in
        times_step (suc x) 1
        ∙ ap₂ (λ (t u : ℕ). t ⊕ 2 * u) e (below k (suc x / 2) (omega arith))
        ∙ xor_comm (suc x % 2) (2 * (suc x / 2))
        ∙ sym (low_digit_apart (suc x))

times-digit : (d b : ℕ) → d < 2 → b ⊗ d ≡ d * b
times-digit zero b h = let e : 0 * b ≡ 0 = omega arith in times-zero b ∙ sym e
times-digit (suc zero) b h = let e : 1 * b ≡ b = omega arith in times-one b ∙ sym e
times-digit (suc (suc d)) b h = absurd (omega arith)

-- The product does not depend on the order
pub times_comm : (a b : ℕ) → a ⊗ b ≡ b ⊗ a
times_comm a b = below a a (omega arith)
  where
    below : (k x : ℕ) → x ≤ k → x ⊗ b ≡ b ⊗ x
    below k zero h = zero-times b ∙ sym (times-zero b)
    below zero (suc x) h = absurd (omega arith)
    below (suc k) (suc x) h =
        times_step (suc x) b
        ∙ ap₂ (λ (t u : ℕ). t ⊕ 2 * u) (sym (times-digit (suc x % 2) b (omega arith)))
            (below k (suc x / 2) (omega arith))
        ∙ ap (λ t. b ⊗ (suc x % 2) ⊕ t) (sym (times-double b (suc x / 2)))
        ∙ xor_comm (b ⊗ (suc x % 2)) (b ⊗ 2 * (suc x / 2))
        ∙ sym (times-xor b (2 * (suc x / 2)) (suc x % 2))
        ∙ ap (λ t. b ⊗ t) (sym (low_digit_apart (suc x)))

-- or the grouping of its factors.
times_assoc : (a b c : ℕ) → (a ⊗ b) ⊗ c ≡ a ⊗ (b ⊗ c)
times_assoc a b c = below a a (omega arith)
  where
    below : (k x : ℕ) → x ≤ k → (x ⊗ b) ⊗ c ≡ x ⊗ (b ⊗ c)
    below k zero h = ap (λ t. t ⊗ c) (zero-times b) ∙ zero-times c ∙ sym (zero-times (b ⊗ c))
    below zero (suc x) h = absurd (omega arith)
    below (suc k) (suc x) h =
        ap (λ t. t ⊗ c) (times_step (suc x) b)
        ∙ xor-times (suc x % 2 * b) (2 * (suc x / 2 ⊗ b)) c
        ∙ ap₂ bit_xor (digit-times (suc x % 2) b c (omega arith)) (
            double-times (suc x / 2 ⊗ b) c
            ∙ ap (λ (t : ℕ). 2 * t) (below k (suc x / 2) (omega arith)))
        ∙ sym (times_step (suc x) (b ⊗ c))

-- A product with shifted factors.
pub shl-times : (k a b : ℕ) → a * 2 ^ k ⊗ b ≡ (a ⊗ b) * 2 ^ k
shl-times zero a b =
    let e : a * 2 ^ 0 ≡ a = omega arith in
    let g : (a ⊗ b) * 2 ^ 0 ≡ a ⊗ b = omega arith in ap (λ t. t ⊗ b) e ∙ sym g
shl-times (suc k) a b =
    ap (λ t. t ⊗ b) (shl_suc k a)
    ∙ double-times (a * 2 ^ k) b
    ∙ ap (λ (t : ℕ). 2 * t) (shl-times k a b)
    ∙ sym (shl_suc k (a ⊗ b))

pub times-shl : (k a b : ℕ) → a ⊗ b * 2 ^ k ≡ (a ⊗ b) * 2 ^ k
times-shl k a b =
    times_comm a (b * 2 ^ k) ∙ shl-times k b a ∙ ap (λ (t : ℕ). t * 2 ^ k) (times_comm b a)

digit-mul-lt : (d b m : ℕ) → d < 2 → b < m → d * b < m
digit-mul-lt zero b m h k = omega arith
digit-mul-lt (suc zero) b m h k = omega arith
digit-mul-lt (suc (suc d)) b m h k = absurd (omega arith)

-- Degrees add up.
pub times-lt : (n m a b : ℕ) → a < 2 ^ n → b < 2 ^ m → a ⊗ b < 2 ^ (n + m)
times-lt zero m a b p q =
    let e : a ≡ 0 = omega arith in omega (arith, ap (λ t. t ⊗ b) e, zero-times b, pow_pos (0 + m))
times-lt (suc n) m a b p q =
    let e : suc n + m ≡ suc (n + m) = omega arith in
    let half : a / 2 < 2 ^ n = omega (arith, pow-suc 2 n) in
    let high : 2 * (a / 2 ⊗ b) < 2 ^ suc (n + m) =
      omega (arith, pow-suc 2 (n + m), times-lt n m (a / 2) b half q) in
    let wide : 2 ^ m ≤ 2 ^ suc (n + m) = pow-le-pow_right (omega arith) (omega arith) in
    let low : a % 2 * b < 2 ^ suc (n + m) =
      omega (arith, digit-mul-lt (a % 2) b (2 ^ m) (omega arith) q, wide) in
    omega (
      arith,
      xor-lt (suc (n + m)) (a % 2 * b) (2 * (a / 2 ⊗ b)) low high,
      times_step a b,
      ap (λ (t : ℕ). 2 ^ t) e,
    )
