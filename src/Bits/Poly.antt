-- ===== src/Bits/Poly.antt =====
-- Polynomials over GF(2) as numbers, digit `i` the coefficient of `x^i`: their sum is `^`, and this
-- is their product, the schoolbook way. It is what the program's carry-less products are to give.
use hardware_wallet_benchmar.Prelude.{
  ℕ, zero, suc, ◌+◌, ◌-◌, ◌*◌, ◌/◌, ◌%◌, ◌≤◌, ◌≡◌, refl, sym, ◌∙◌, ap, arith, ◌<◌, ap₂, bit_xor,
}
use hardware_wallet_benchmar.Bits.Xor.{
  ◌⊕◌, xor-zero, zero-xor, xor-half, xor-double, xor_self, xor_swap,
}
use hardware_wallet_benchmar.Bits.Step.{bit_xor_step}

-- the product by the low `n` digits of `a`
unfoldable pub digits_times : ℕ → ℕ → ℕ → ℕ
digits_times zero a b = 0
digits_times (suc n) a b = a % 2 * b ⊕ 2 * digits_times n (a / 2) b

infixl 68 ◌⊗◌
unfoldable pub ◌⊗◌ : ℕ → ℕ → ℕ
a ⊗ b = digits_times a a b

zero_times : (n b : ℕ) → digits_times n 0 b ≡ 0
unfolding digits_times
zero_times zero b = refl
zero_times (suc n) b =
    let e : 0 * b ≡ 0 = omega arith in ap₂ (λ (t u : ℕ). t ⊕ 2 * u) e (zero_times n b) ∙ xor-zero 0

enough_digits : (n a b : ℕ) → a ≤ n → digits_times (suc n) a b ≡ digits_times n a b
unfolding digits_times
enough_digits zero zero b h = zero_times 1 b
enough_digits zero (suc a) b h = absurd (omega arith)
enough_digits (suc n) a b h =
    ap (λ (t : ℕ). a % 2 * b ⊕ 2 * t) (enough_digits n (a / 2) b (omega arith))

more_digits : (j n a b : ℕ) → a ≤ n → digits_times (j + n) a b ≡ digits_times n a b
more_digits zero n a b h = let e : 0 + n ≡ n = omega arith in ap (λ (t : ℕ). digits_times t a b) e
more_digits (suc j) n a b h =
    let e : suc j + n ≡ suc (j + n) = omega arith in
    ap (λ (t : ℕ). digits_times t a b) e
    ∙ enough_digits (j + n) a b (omega arith)
    ∙ more_digits j n a b h

-- The product, one digit at a time.
pub times_step : (a b : ℕ) → a ⊗ b ≡ a % 2 * b ⊕ 2 * (a / 2 ⊗ b)
unfolding ◌⊗◌ digits_times
times_step zero b = sym (zero_times 1 b)
times_step (suc a) b =
    let e : a ≡ a - suc a / 2 + suc a / 2 = omega arith in
    ap (λ (t : ℕ). suc a % 2 * b ⊕ 2 * t)
      (ap (λ (t : ℕ). digits_times t (suc a / 2) b) e
        ∙ more_digits (a - suc a / 2) (suc a / 2) (suc a / 2) b (omega arith))

pub zero-times : (b : ℕ) → 0 ⊗ b ≡ 0
unfolding ◌⊗◌ digits_times
zero-times b = refl

pub times-zero : (a : ℕ) → a ⊗ 0 ≡ 0
times-zero a = below a a (omega arith)
  where
    below : (k x : ℕ) → x ≤ k → x ⊗ 0 ≡ 0
    below k zero h = zero-times 0
    below zero (suc x) h = absurd (omega arith)
    below (suc k) (suc x) h =
        let e : suc x % 2 * 0 ≡ 0 = omega arith in
        times_step (suc x) 0
        ∙ ap₂ (λ (t u : ℕ). t ⊕ 2 * u) e (below k (suc x / 2) (omega arith))
        ∙ xor-zero 0

-- a digit times a sum, and a sum of digits times a number
digit-times-xor : (d b c : ℕ) → d < 2 → d * (b ⊕ c) ≡ d * b ⊕ d * c
digit-times-xor zero b c h =
    let e : 0 * (b ⊕ c) ≡ 0 = omega arith in
    let eb : 0 * b ≡ 0 = omega arith in
    let ec : 0 * c ≡ 0 = omega arith in e ∙ sym (xor-zero 0) ∙ sym (ap₂ bit_xor eb ec)
digit-times-xor (suc zero) b c h =
    let e : 1 * (b ⊕ c) ≡ b ⊕ c = omega arith in
    let eb : 1 * b ≡ b = omega arith in
    let ec : 1 * c ≡ c = omega arith in e ∙ sym (ap₂ bit_xor eb ec)
digit-times-xor (suc (suc d)) b c h = absurd (omega arith)

digits-xor-times : (d e b : ℕ) → d < 2 → e < 2 → (d + e) % 2 * b ≡ d * b ⊕ e * b
digits-xor-times zero e b h k =
    let z : 0 * b ≡ 0 = omega arith in
    let g : (0 + e) % 2 ≡ e = omega arith in
    ap (λ (t : ℕ). t * b) g ∙ sym (zero-xor (e * b)) ∙ sym (ap (λ t. t ⊕ e * b) z)
digits-xor-times (suc zero) zero b h k =
    let z : 0 * b ≡ 0 = omega arith in sym (xor-zero (1 * b)) ∙ sym (ap (λ t. 1 * b ⊕ t) z)
digits-xor-times (suc zero) (suc zero) b h k =
    let z : 0 * b ≡ 0 = omega arith in z ∙ sym (xor_self (1 * b))
digits-xor-times (suc zero) (suc (suc e)) b h k = absurd (omega arith)
digits-xor-times (suc (suc d)) e b h k = absurd (omega arith)

-- The product spreads over sums, on either side.
pub times-xor : (a b c : ℕ) → a ⊗ (b ⊕ c) ≡ a ⊗ b ⊕ a ⊗ c
times-xor a b c = below a a (omega arith)
  where
    below : (k x : ℕ) → x ≤ k → x ⊗ (b ⊕ c) ≡ x ⊗ b ⊕ x ⊗ c
    below k zero h =
        zero-times (b ⊕ c) ∙ sym (ap₂ bit_xor (zero-times b) (zero-times c) ∙ xor-zero 0)
    below zero (suc x) h = absurd (omega arith)
    below (suc k) (suc x) h =
        times_step (suc x) (b ⊕ c)
        ∙ ap₂ (λ (t u : ℕ). t ⊕ 2 * u) (digit-times-xor (suc x % 2) b c (omega arith))
            (below k (suc x / 2) (omega arith))
        ∙ ap (λ (t : ℕ). (suc x % 2 * b ⊕ suc x % 2 * c) ⊕ t)
            (sym (xor-double (suc x / 2 ⊗ b) (suc x / 2 ⊗ c)))
        ∙ xor_swap (suc x % 2 * b) (suc x % 2 * c) (2 * (suc x / 2 ⊗ b)) (2 * (suc x / 2 ⊗ c))
        ∙ sym (ap₂ bit_xor (times_step (suc x) b) (times_step (suc x) c))

pub xor-times : (a b c : ℕ) → (a ⊕ b) ⊗ c ≡ a ⊗ c ⊕ b ⊗ c
xor-times a b c = below (a + b) a b (omega arith)
  where
    step : (x y : ℕ) → (x / 2 ⊕ y / 2) ⊗ c ≡ (x / 2) ⊗ c ⊕ (y / 2) ⊗ c → (x ⊕ y) ⊗ c ≡ x ⊗ c ⊕ y ⊗ c
    step x y ih =
        let parity : (x ⊕ y) % 2 ≡ (x % 2 + y % 2) % 2 = omega (arith, bit_xor_step x y) in
        times_step (x ⊕ y) c
        ∙ ap₂ (λ (t u : ℕ). t * c ⊕ 2 * (u ⊗ c)) parity (xor-half x y)
        ∙ ap₂ (λ (t u : ℕ). t ⊕ 2 * u)
            (digits-xor-times (x % 2) (y % 2) c (omega arith) (omega arith)) ih
        ∙ ap (λ (t : ℕ). (x % 2 * c ⊕ y % 2 * c) ⊕ t) (sym (xor-double (x / 2 ⊗ c) (y / 2 ⊗ c)))
        ∙ xor_swap (x % 2 * c) (y % 2 * c) (2 * (x / 2 ⊗ c)) (2 * (y / 2 ⊗ c))
        ∙ sym (ap₂ bit_xor (times_step x c) (times_step y c))

    below : (k x y : ℕ) → x + y ≤ k → (x ⊕ y) ⊗ c ≡ x ⊗ c ⊕ y ⊗ c
    below k zero y h =
        ap (λ t. t ⊗ c) (zero-xor y)
        ∙ sym (zero-xor (y ⊗ c))
        ∙ ap (λ t. t ⊕ y ⊗ c) (sym (zero-times c))
    below zero (suc x) y h = absurd (omega arith)
    below (suc k) (suc x) y h = step (suc x) y (below k (suc x / 2) (y / 2) (omega arith))

pub one-times : (b : ℕ) → 1 ⊗ b ≡ b
one-times b =
    let e : 1 * b ≡ b = omega arith in
    times_step 1 b ∙ ap₂ (λ (t u : ℕ). t ⊕ 2 * u) e (zero-times b) ∙ xor-zero b

-- Twice a factor is twice the product.
pub double-times : (a b : ℕ) → 2 * a ⊗ b ≡ 2 * (a ⊗ b)
double-times a b =
    let d : 2 * a % 2 ≡ 0 = omega arith in
    let z : 0 * b ≡ 0 = omega arith in
    let e : 2 * a % 2 * b ≡ 0 = ap (λ (t : ℕ). t * b) d ∙ z in
    let g : 2 * a / 2 ≡ a = omega arith in
    times_step (2 * a) b ∙ ap₂ (λ (t u : ℕ). t ⊕ 2 * (u ⊗ b)) e g ∙ zero-xor (2 * (a ⊗ b))
