-- ===== src/Field/Clmul/Reduce.antt =====
-- `reduce` as a linear map, and the product of `K` that comes of it.
use native.Mathlib.Nat.{mod-eq_of_lt}
use hardware_wallet_benchmar.Prelude.{
  ℕ, ◌+◌, ◌*◌, ◌^◌, ◌<◌, ◌≡◌, refl, arith, ◌>>>◌, ◌∙◌, u64, ap, ◌<<<◌, ap₂, sym, bit_xor,
}
use hardware_wallet_benchmar.Bits.Xor.{◌⊕◌, xor_assoc, xor-zero, xor-lt}
use hardware_wallet_benchmar.Field.Clmul.{clmul, reduce, base_mul}
use hardware_wallet_benchmar.Field.Clmul.Words.{clmul-eq-times}
use hardware_wallet_benchmar.Bits.Linear.{
  IsLinear, compose-IsLinear, sum-IsLinear, shr-IsLinear, u64-IsLinear, shl-IsLinear, agree_below,
  linear_ext, agree_below_sound,
}
use hardware_wallet_benchmar.Bits.Poly.{◌⊗◌, times-zero, times-xor, xor-times}
use hardware_wallet_benchmar.Bits.PolyLaws.{times_comm, times-one, times-shl}

-- `reduce` on the words of its argument: what the high word spills, and the sum
abbrev spilled : ℕ → ℕ
spilled hi = hi ⊕ (hi >>> 63 ⊕ hi >>> 61 ⊕ hi >>> 60)

abbrev folded : ℕ → ℕ
folded v = v ⊕ u64 (v <<< 1) ⊕ u64 (v <<< 3) ⊕ u64 (v <<< 4)

reduce_eq : (p : ℕ) → reduce p ≡ u64 p ⊕ folded (spilled (u64 (p >>> 64)))
unfolding reduce
reduce_eq p =
    let lo = u64 p in
    let v = spilled (u64 (p >>> 64)) in
    xor_assoc (lo ⊕ v ⊕ u64 (v <<< 1)) (u64 (v <<< 3)) (u64 (v <<< 4))
    ∙ xor_assoc (lo ⊕ v) (u64 (v <<< 1)) (u64 (v <<< 3) ⊕ u64 (v <<< 4))
    ∙ xor_assoc lo v (u64 (v <<< 1) ⊕ (u64 (v <<< 3) ⊕ u64 (v <<< 4)))
    ∙ ap (λ t. lo ⊕ t)
        (sym (xor_assoc v (u64 (v <<< 1)) (u64 (v <<< 3) ⊕ u64 (v <<< 4)))
          ∙ sym (xor_assoc (v ⊕ u64 (v <<< 1)) (u64 (v <<< 3)) (u64 (v <<< 4))))

id-IsLinear : IsLinear (λ x. x)
id-IsLinear a b = refl

spilled-IsLinear : IsLinear spilled
spilled-IsLinear =
    sum-IsLinear (λ x. x) _ id-IsLinear
      (sum-IsLinear _ (λ x. x >>> 60)
        (sum-IsLinear (λ x. x >>> 63) (λ x. x >>> 61) (shr-IsLinear 63) (shr-IsLinear 61))
        (shr-IsLinear 60))

shifted-IsLinear : (k : ℕ) → IsLinear (λ x. u64 (x <<< k))
shifted-IsLinear k = compose-IsLinear (λ x. u64 x) (λ x. x <<< k) u64-IsLinear (shl-IsLinear k)

folded-IsLinear : IsLinear folded
folded-IsLinear =
    sum-IsLinear _ (λ x. u64 (x <<< 4))
      (sum-IsLinear _ (λ x. u64 (x <<< 3))
        (sum-IsLinear (λ x. x) (λ x. u64 (x <<< 1)) id-IsLinear (shifted-IsLinear 1))
        (shifted-IsLinear 3))
      (shifted-IsLinear 4)

high-IsLinear : IsLinear (λ p. u64 (p >>> 64))
high-IsLinear = compose-IsLinear (λ x. u64 x) (λ x. x >>> 64) u64-IsLinear (shr-IsLinear 64)

-- The reduction respects `^`,
pub reduce-IsLinear : IsLinear reduce
reduce-IsLinear p q =
    reduce_eq (p ⊕ q)
    ∙ sum-IsLinear (λ x. u64 x) _ u64-IsLinear
        (compose-IsLinear folded _ folded-IsLinear
          (compose-IsLinear spilled (λ x. u64 (x >>> 64)) spilled-IsLinear high-IsLinear))
        p q
    ∙ sym (ap₂ bit_xor (reduce_eq p) (reduce_eq q))

-- and leaves a word as it is.
pub reduce_word : (p : ℕ) → p < 2 ^ 64 → reduce p ≡ p
reduce_word p h =
    let e : u64 (p >>> 64) ≡ 0 = omega arith in
    reduce_eq p ∙ ap (λ t. u64 p ⊕ folded (spilled t)) e ∙ xor-zero (u64 p) ∙ mod-eq_of_lt h

-- It gives a word.
pub reduce-lt : (p : ℕ) → reduce p < 2 ^ 64
reduce-lt p =
    let hi : ℕ = u64 (p >>> 64) in
    let v : ℕ = spilled hi in
    let small : (x y : ℕ) → x < 2 ^ 64 → y < 2 ^ 64 → x ⊕ y < 2 ^ 64 = λ x y. xor-lt 64 x y in
    let hv : v < 2 ^ 64 = small hi _ (omega arith) (
      small _ (hi >>> 60) (small (hi >>> 63) (hi >>> 61) (omega arith) (omega arith))
        (omega arith)) in
    let hf : folded v < 2 ^ 64 =
      small _ (u64 (v <<< 4))
        (small _ (u64 (v <<< 3)) (small v (u64 (v <<< 1)) hv (omega arith)) (omega arith))
        (omega arith) in
    let h : u64 p ⊕ folded v < 2 ^ 64 = small (u64 p) (folded v) (omega arith) hf in
    omega (arith, h, reduce_eq p)

-- The product of `K` is linear on either side, commutative, and has the unit 1.
pub base_mul-xor : (a b c : ℕ) → base_mul a (b ⊕ c) ≡ base_mul a b ⊕ base_mul a c
unfolding base_mul
base_mul-xor a b c =
    ap reduce (
      clmul-eq-times a (b ⊕ c)
      ∙ ap (λ t. u64 a ⊗ t) (u64-IsLinear b c)
      ∙ times-xor (u64 a) (u64 b) (u64 c)
      ∙ sym (ap₂ bit_xor (clmul-eq-times a b) (clmul-eq-times a c)))
    ∙ reduce-IsLinear (clmul a b) (clmul a c)

pub base_mul_comm : (a b : ℕ) → base_mul a b ≡ base_mul b a
unfolding base_mul
base_mul_comm a b =
    ap reduce (clmul-eq-times a b ∙ times_comm (u64 a) (u64 b) ∙ sym (clmul-eq-times b a))

pub xor-base_mul : (a b c : ℕ) → base_mul (a ⊕ b) c ≡ base_mul a c ⊕ base_mul b c
xor-base_mul a b c =
    base_mul_comm (a ⊕ b) c
    ∙ base_mul-xor c a b
    ∙ ap₂ bit_xor (base_mul_comm c a) (base_mul_comm c b)

pub base_mul-one : (a : ℕ) → a < 2 ^ 64 → base_mul a 1 ≡ a
unfolding base_mul
base_mul-one a h =
    ap reduce (clmul-eq-times a 1 ∙ times-one (u64 a) ∙ mod-eq_of_lt h) ∙ reduce_word a h

pub base_mul-zero : (a : ℕ) → base_mul a 0 ≡ 0
unfolding base_mul
base_mul-zero a = ap reduce (clmul-eq-times a 0 ∙ times-zero (u64 a)) ∙ reduce_word 0 (omega arith)

-- `x^64 + x^4 + x^3 + x + 1`
abbrev pub modulus : ℕ
modulus = 2 ^ 64 + 27

-- a product with the modulus, by its five terms
by_terms : ℕ → ℕ
by_terms q = q <<< 64 ⊕ (q <<< 4 ⊕ (q <<< 3 ⊕ (q <<< 1 ⊕ q)))

power-times : (q k : ℕ) → q ⊗ 1 <<< k ≡ q <<< k
power-times q k = times-shl k q 1 ∙ ap (λ (t : ℕ). t * 2 ^ k) (times-one q)

times-modulus : (q : ℕ) → q ⊗ modulus ≡ by_terms q
unfolding by_terms
times-modulus q =
    times-xor q (1 <<< 64) (1 <<< 4 ⊕ (1 <<< 3 ⊕ (1 <<< 1 ⊕ 1)))
    ∙ ap₂ bit_xor (power-times q 64) (
        times-xor q (1 <<< 4) (1 <<< 3 ⊕ (1 <<< 1 ⊕ 1))
        ∙ ap₂ bit_xor (power-times q 4) (
            times-xor q (1 <<< 3) (1 <<< 1 ⊕ 1)
            ∙ ap₂ bit_xor (power-times q 3)
                (times-xor q (1 <<< 1) 1 ∙ ap₂ bit_xor (power-times q 1) (times-one q))))

by_terms-IsLinear : IsLinear by_terms
by_terms-IsLinear a b =
    sym (times-modulus (a ⊕ b))
    ∙ xor-times a b modulus
    ∙ ap₂ bit_xor (times-modulus a) (times-modulus b)

quotient_of : ℕ → ℕ
quotient_of p = spilled (u64 (p >>> 64))

restored : ℕ → ℕ
restored p = by_terms (quotient_of p) ⊕ reduce p

restored-IsLinear : IsLinear restored
unfolding restored quotient_of
restored-IsLinear =
    sum-IsLinear (λ p. by_terms (quotient_of p)) reduce
      (compose-IsLinear by_terms quotient_of by_terms-IsLinear
        (compose-IsLinear spilled (λ p. u64 (p >>> 64)) spilled-IsLinear high-IsLinear))
      reduce-IsLinear

restored-id : (p : ℕ) → p < 2 ^ 128 → restored p ≡ p
unfolding agree_below restored quotient_of by_terms reduce
restored-id p h =
    linear_ext 128 restored (λ x. x) restored-IsLinear (λ a b. refl)
      (agree_below_sound 128 (λ i. restored (2 ^ i)) (λ i. 2 ^ i) refl) p h

-- reduce gives the remainder of a 128-bit polynomial by x^64 + x^4 + x^3 + x + 1: the two differ
-- by a multiple of it, and the remainder is a 64-bit word.
pub reduce_remainder :
    (p : ℕ) → p < 2 ^ 128 → (q : ℕ) × (q ⊗ modulus ⊕ reduce p ≡ p) × (reduce p < 2 ^ 64)
unfolding restored
reduce_remainder p h = (
  quotient_of p,
  ap (λ t. t ⊕ reduce p) (times-modulus (quotient_of p)) ∙ restored-id p h,
  reduce-lt p,
)
