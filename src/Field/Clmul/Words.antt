-- ===== src/Field/Clmul/Words.antt =====
-- The 64-bit products, from the 32-bit ones by Karatsuba, and the reduction as a linear map.
use native.Mathlib.Nat.{mod-eq_of_lt, pow-suc}
use hardware_wallet_benchmar.Prelude.{
  ℕ, zero, suc, ◌*◌, ◌/◌, ◌^◌, ◌<◌, ◌≡◌, arith, u64, bit_and, bit_or, ◌∙◌, ap, ap₂, bit_xor, u128,
  sym, u32, ◌>>>◌, ◌<<<◌,
}
use hardware_wallet_benchmar.Bits.Xor.{◌⊕◌, xor_assoc, xor-lt, xor_comm, xor-shl}
use hardware_wallet_benchmar.Field.Clmul.{clmul32, clmul64, clmul}
use hardware_wallet_benchmar.Field.Clmul.Correct.{clmul32-eq-times}
use hardware_wallet_benchmar.Bits.Poly.{◌⊗◌, xor-times, times-xor}
use hardware_wallet_benchmar.Bits.And.{xor-eq-add, and-zero, or-eq-xor}
use hardware_wallet_benchmar.Bits.Digits.{bit_ext, bit-xor, bit-lt}
use hardware_wallet_benchmar.Bits.Pow.{shl_suc}
use hardware_wallet_benchmar.Bits.Step.{bit_and_step}
use hardware_wallet_benchmar.Bits.PolyLaws.{times-lt, shl-times, times-shl}

-- One product gives the two cross terms.
pub karatsuba : (w x y z : ℕ) → (w ⊕ x) ⊗ (y ⊕ z) ⊕ w ⊗ y ⊕ x ⊗ z ≡ w ⊗ z ⊕ x ⊗ y
karatsuba w x y z =
    ap (λ t. t ⊕ w ⊗ y ⊕ x ⊗ z)
      (xor-times w x (y ⊕ z) ∙ ap₂ bit_xor (times-xor w y z) (times-xor x y z))
    ∙ cancel (w ⊗ y) (w ⊗ z) (x ⊗ y) (x ⊗ z)
  where
    cancel : (p q r s : ℕ) → (p ⊕ q) ⊕ (r ⊕ s) ⊕ p ⊕ s ≡ q ⊕ r
    cancel p q r s = bit_ext _ _ λ i. simp bit-xor (omega (arith, bit-lt q i, bit-lt r i))

-- Two words side by side
halves_sum : (m : ℕ) → m < 2 ^ 64 → (m / 2 ^ 32) * 2 ^ 64 ⊕ u64 (m * 2 ^ 32) ≡ m * 2 ^ 32
halves_sum m p = xor-eq-add 64 (m / 2 ^ 32) (u64 (m * 2 ^ 32)) (omega arith) ∙ omega arith

pub and-disjoint_shl : (k h r : ℕ) → r < 2 ^ k → bit_and (h * 2 ^ k) r ≡ 0
and-disjoint_shl zero h r p =
    let e : r ≡ 0 = omega arith in ap (bit_and (h * 2 ^ 0)) e ∙ and-zero (h * 2 ^ 0)
and-disjoint_shl (suc k) h r p =
    let e : h * 2 ^ suc k / 2 ≡ h * 2 ^ k = omega (arith, shl_suc k h) in
    omega (
      arith,
      bit_and_step (h * 2 ^ suc k) r,
      ap (λ t. bit_and t (r / 2)) e,
      and-disjoint_shl k h (r / 2) (omega (arith, pow-suc 2 k)),
      shl_suc k h,
    )

-- The three products of `clmul64` in their places.
join_words :
    (h m l : ℕ)
    → h < 2 ^ 64
    → m < 2 ^ 64
    → l < 2 ^ 64
    → bit_or (u128 ((h ⊕ m >>> 32) <<< 64)) (l ⊕ u64 (m <<< 32)) ≡ (h * 2 ^ 64 ⊕ m * 2 ^ 32) ⊕ l
join_words h m l p q r =
    let top : h ⊕ m / 2 ^ 32 < 2 ^ 64 = xor-lt 64 h (m / 2 ^ 32) p (omega arith) in
    let low : l ⊕ u64 (m * 2 ^ 32) < 2 ^ 64 = xor-lt 64 l (u64 (m * 2 ^ 32)) r (omega arith) in
    ap (λ t. bit_or t (l ⊕ u64 (m * 2 ^ 32))) (mod-eq_of_lt (omega arith))
    ∙ or-eq-xor _ _ (and-disjoint_shl 64 (h ⊕ m / 2 ^ 32) _ low)
    ∙ ap₂ bit_xor (xor-shl 64 h (m / 2 ^ 32)) (xor_comm l (u64 (m * 2 ^ 32)))
    ∙ sym (xor_assoc (h * 2 ^ 64 ⊕ m / 2 ^ 32 * 2 ^ 64) (u64 (m * 2 ^ 32)) l)
    ∙ ap (λ t. t ⊕ l)
        (xor_assoc (h * 2 ^ 64) (m / 2 ^ 32 * 2 ^ 64) (u64 (m * 2 ^ 32))
          ∙ ap (λ t. h * 2 ^ 64 ⊕ t) (halves_sum m q))

-- A product of two-word numbers.
two_words :
    (x1 x0 y1 y0 : ℕ)
    → (x1 * 2 ^ 32 ⊕ x0) ⊗ (y1 * 2 ^ 32 ⊕ y0)
      ≡ ((x1 ⊗ y1) * 2 ^ 64 ⊕ (x0 ⊗ y1 ⊕ x1 ⊗ y0) * 2 ^ 32) ⊕ x0 ⊗ y0
two_words x1 x0 y1 y0 =
    let e : (x1 ⊗ y1) * 2 ^ 32 * 2 ^ 32 ≡ (x1 ⊗ y1) * 2 ^ 64 = omega arith in
    xor-times (x1 * 2 ^ 32) x0 (y1 * 2 ^ 32 ⊕ y0)
    ∙ ap₂ bit_xor
        (shl-times 32 x1 (y1 * 2 ^ 32 ⊕ y0)
          ∙ ap (λ (t : ℕ). t * 2 ^ 32) (times-xor x1 (y1 * 2 ^ 32) y0)
          ∙ xor-shl 32 (x1 ⊗ y1 * 2 ^ 32) (x1 ⊗ y0)
          ∙ ap (λ t. t ⊕ (x1 ⊗ y0) * 2 ^ 32) (ap (λ (t : ℕ). t * 2 ^ 32) (times-shl 32 x1 y1) ∙ e))
        (times-xor x0 (y1 * 2 ^ 32) y0 ∙ ap (λ t. t ⊕ x0 ⊗ y0) (times-shl 32 x0 y1))
    ∙ regroup ((x1 ⊗ y1) * 2 ^ 64) ((x1 ⊗ y0) * 2 ^ 32) ((x0 ⊗ y1) * 2 ^ 32) (x0 ⊗ y0)
    ∙ ap (λ t. ((x1 ⊗ y1) * 2 ^ 64 ⊕ t) ⊕ x0 ⊗ y0) (sym (xor-shl 32 (x0 ⊗ y1) (x1 ⊗ y0)))
  where
    regroup : (p q r s : ℕ) → (p ⊕ q) ⊕ (r ⊕ s) ≡ (p ⊕ (r ⊕ q)) ⊕ s
    regroup p q r s =
        sym (xor_assoc (p ⊕ q) r s)
        ∙ ap (λ t. t ⊕ s) (xor_assoc p q r ∙ ap (λ t. p ⊕ t) (xor_comm q r))

-- clmul, by Karatsuba over 32-bit halves, is the carry-less product of its arguments as 64-bit
-- words.
pub clmul-eq-times : (a b : ℕ) → clmul a b ≡ u64 a ⊗ u64 b
unfolding clmul clmul64
clmul-eq-times a b =
    let a0 = u32 a in
    let a1 = u32 (a >>> 32) in
    let b0 = u32 b in
    let b1 = u32 (b >>> 32) in
    let ea : u64 a ≡ a1 * 2 ^ 32 ⊕ a0 = sym (xor-eq-add 32 a1 a0 (omega arith) ∙ omega arith) in
    let eb : u64 b ≡ b1 * 2 ^ 32 ⊕ b0 = sym (xor-eq-add 32 b1 b0 (omega arith) ∙ omega arith) in
    let l : clmul32 a0 b0 ≡ a0 ⊗ b0 = clmul32-eq-times a0 b0 (omega arith) (omega arith) in
    let h : clmul32 a1 b1 ≡ a1 ⊗ b1 = clmul32-eq-times a1 b1 (omega arith) (omega arith) in
    let m : clmul32 (a0 ⊕ a1) (b0 ⊕ b1) ⊕ clmul32 a0 b0 ⊕ clmul32 a1 b1 ≡ a0 ⊗ b1 ⊕ a1 ⊗ b0 =
      ap₂ bit_xor
        (ap₂ bit_xor
          (clmul32-eq-times (a0 ⊕ a1) (b0 ⊕ b1) (xor-lt 32 a0 a1 (omega arith) (omega arith))
            (xor-lt 32 b0 b1 (omega arith) (omega arith)))
          l)
        h
      ∙ karatsuba a0 a1 b0 b1 in
    let small : (x y : ℕ) → x < 2 ^ 32 → y < 2 ^ 32 → x ⊗ y < 2 ^ 64 = λ x y. times-lt 32 32 x y in
    ap₂ bit_or (ap (λ t. u128 (t <<< 64)) (ap₂ (λ s t. s ⊕ t >>> 32) h m))
      (ap₂ (λ s t. s ⊕ u64 (t <<< 32)) l m)
    ∙ join_words (a1 ⊗ b1) (a0 ⊗ b1 ⊕ a1 ⊗ b0) (a0 ⊗ b0) (small a1 b1 (omega arith) (omega arith))
        (xor-lt 64 (a0 ⊗ b1) (a1 ⊗ b0) (small a0 b1 (omega arith) (omega arith))
          (small a1 b0 (omega arith) (omega arith)))
        (small a0 b0 (omega arith) (omega arith))
    ∙ sym (ap₂ ◌⊗◌ ea eb ∙ two_words a1 a0 b1 b0)
