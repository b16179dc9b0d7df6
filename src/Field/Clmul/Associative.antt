-- ===== src/Field/Clmul/Associative.antt =====
-- The product of `K` is associative: multiplying by `x` passes through either factor.
use native.Mathlib.Nat.{mod-eq_of_lt, pow-suc, pow-le-pow_right}
use native.Mathlib.Decide.{dec_lt}
use hardware_wallet_benchmar.Prelude.{
  ℕ, zero, suc, ◌*◌, ◌^◌, ◌<◌, ◌≤◌, ◌≡◌, refl, arith, ◌∙◌, ap, ap₂, sym, for_range,
}
use hardware_wallet_benchmar.Bits.Xor.{xor-double}
use hardware_wallet_benchmar.Bits.Pow.{shl_suc}
use hardware_wallet_benchmar.Bits.Linear.{
  IsLinear, compose-IsLinear, agree_below, linear_ext, agree_below_sound,
}
use hardware_wallet_benchmar.Bits.Poly.{◌⊗◌}
use hardware_wallet_benchmar.Bits.PolyLaws.{times-one, times-shl}
use hardware_wallet_benchmar.Field.Clmul.{clmul, clmul64, clmul32, class_sum, reduce, base_mul}
use hardware_wallet_benchmar.Field.Clmul.Words.{clmul-eq-times}
use hardware_wallet_benchmar.Field.Clmul.Reduce.{
  reduce-IsLinear, reduce_word, reduce-lt, base_mul-xor, xor-base_mul, base_mul-one,
}

-- the product with `x`
times_x : ℕ → ℕ
times_x v = reduce (2 * v)

double-IsLinear : IsLinear (λ v. 2 * v)
double-IsLinear a b = sym (xor-double a b)

times_x-IsLinear : IsLinear times_x
unfolding times_x
times_x-IsLinear = compose-IsLinear reduce (λ v. 2 * v) reduce-IsLinear double-IsLinear

-- `reduce` may come before it
reduce-double : (p : ℕ) → p < 2 ^ 127 → reduce (2 * p) ≡ times_x (reduce p)
unfolding agree_below times_x reduce
reduce-double p h =
    linear_ext 127 times_x (λ v. times_x (reduce v)) times_x-IsLinear
      (compose-IsLinear times_x reduce times_x-IsLinear reduce-IsLinear)
      (agree_below_sound 127 (λ i. times_x (2 ^ i)) (λ i. times_x (reduce (2 ^ i))) refl) p h

power-lt : (k : ℕ) → k < 64 → 2 ^ k < 2 ^ 64
power-lt k h =
    let two : 0 < 2 = omega arith in
    let small : k ≤ 63 = omega arith in omega (arith, pow-le-pow_right two small)

shifted-lt : (a k : ℕ) → a < 2 ^ 64 → k < 63 → a * 2 ^ k < 2 ^ 127
shifted-lt a k h low =
    let two : 0 < 2 = omega arith in
    let small : k ≤ 62 = omega arith in
    let wide : 2 ^ k ≤ 2 ^ 62 = pow-le-pow_right two small in
    let bound : a * 2 ^ k ≤ a * 2 ^ 62 = grind (arith, wide) in omega (arith, bound)

base_mul-power : (a k : ℕ) → a < 2 ^ 64 → k < 64 → base_mul a (2 ^ k) ≡ reduce (a * 2 ^ k)
unfolding base_mul
base_mul-power a k h low =
    let one : 1 * 2 ^ k ≡ 2 ^ k = omega arith in
    ap reduce (
      clmul-eq-times a (2 ^ k)
      ∙ ap₂ ◌⊗◌ (mod-eq_of_lt h) (mod-eq_of_lt (power-lt k low) ∙ sym one)
      ∙ times-shl k a 1
      ∙ ap (λ (t : ℕ). t * 2 ^ k) (times-one a))

-- a power's successor
base_mul-power_suc :
    (a k : ℕ) → a < 2 ^ 64 → suc k < 64 → base_mul a (2 ^ suc k) ≡ times_x (base_mul a (2 ^ k))
base_mul-power_suc a k h low =
    base_mul-power a (suc k) h low
    ∙ ap reduce (shl_suc k a)
    ∙ reduce-double (a * 2 ^ k) (shifted-lt a k h (omega arith))
    ∙ ap times_x (sym (base_mul-power a k h (omega arith)))

-- and the power after the last, which wraps to `x^4 + x^3 + x + 1`
base_mul-wrap : (a : ℕ) → a < 2 ^ 64 → base_mul a 27 ≡ times_x (base_mul a (2 ^ 63))
unfolding agree_below base_mul times_x clmul clmul64 clmul32 class_sum for_range reduce
base_mul-wrap a h =
    linear_ext 64 (λ v. base_mul v 27) (λ v. times_x (base_mul v (2 ^ 63)))
      (λ v w. xor-base_mul v w 27)
      (compose-IsLinear times_x (λ v. base_mul v (2 ^ 63)) times_x-IsLinear
        (λ v w. xor-base_mul v w (2 ^ 63)))
      (agree_below_sound 64 (λ i. base_mul (2 ^ i) 27) (λ i. times_x (base_mul (2 ^ i) (2 ^ 63)))
        refl)
      a h

times_x-power : (i : ℕ) → suc i < 64 → times_x (2 ^ i) ≡ 2 ^ suc i
unfolding times_x
times_x-power i h =
    let double : 2 * 2 ^ i ≡ 2 ^ suc i = omega (arith, pow-suc 2 i) in
    ap reduce double ∙ reduce_word (2 ^ suc i) (power-lt (suc i) h)

times_x-last : times_x (2 ^ 63) ≡ 27
unfolding times_x reduce
times_x-last = refl

base_mul-times_x :
    (a v : ℕ) → a < 2 ^ 64 → v < 2 ^ 64 → base_mul a (times_x v) ≡ times_x (base_mul a v)
base_mul-times_x a v ha hv =
    linear_ext 64 (λ w. base_mul a (times_x w)) (λ w. times_x (base_mul a w))
      (compose-IsLinear (base_mul a) times_x (base_mul-xor a) times_x-IsLinear)
      (compose-IsLinear times_x (base_mul a) times_x-IsLinear (base_mul-xor a))
      (λ i low. elim (dec_lt (suc i) 64) [
        | yes more ↦ ap (base_mul a) (times_x-power i more) ∙ base_mul-power_suc a i ha more
        | no last ↦
            let e : i ≡ 63 = omega arith in
            ap (λ j. base_mul a (times_x (2 ^ j))) e
            ∙ ap (base_mul a) times_x-last
            ∙ base_mul-wrap a ha
            ∙ ap (λ j. times_x (base_mul a (2 ^ j))) (sym e)
      ])
      v hv

base_mul-lt : (a b : ℕ) → base_mul a b < 2 ^ 64
unfolding base_mul
base_mul-lt a b = reduce-lt (clmul a b)

assoc-power :
    (a b i : ℕ)
    → a < 2 ^ 64
    → b < 2 ^ 64
    → i < 64
    → base_mul (base_mul a b) (2 ^ i) ≡ base_mul a (base_mul b (2 ^ i))
assoc-power a b zero ha hb h =
    base_mul-one (base_mul a b) (base_mul-lt a b) ∙ ap (base_mul a) (sym (base_mul-one b hb))
assoc-power a b (suc i) ha hb h =
    base_mul-power_suc (base_mul a b) i (base_mul-lt a b) h
    ∙ ap times_x (assoc-power a b i ha hb (omega arith))
    ∙ sym (base_mul-times_x a (base_mul b (2 ^ i)) ha (base_mul-lt b (2 ^ i)))
    ∙ ap (base_mul a) (sym (base_mul-power_suc b i hb h))

-- The product of words is associative.
pub base_mul_assoc :
    (a b c : ℕ)
    → a < 2 ^ 64
    → b < 2 ^ 64
    → c < 2 ^ 64
    → base_mul (base_mul a b) c ≡ base_mul a (base_mul b c)
base_mul_assoc a b c ha hb hc =
    linear_ext 64 (base_mul (base_mul a b)) (λ v. base_mul a (base_mul b v))
      (base_mul-xor (base_mul a b))
      (compose-IsLinear (base_mul a) (base_mul b) (base_mul-xor a) (base_mul-xor b))
      (λ i h. assoc-power a b i ha hb h) c hc
