-- ===== src/Field/Clmul/Correct.antt =====
-- `clmul32` by integer products, `clmul64` and `clmul` by Karatsuba, and `spread`: each gives the
-- carry-less product.
use native.Mathlib.Nat.{mod-eq_of_lt}
use hardware_wallet_benchmar.Prelude.{
  ℕ, ◌^◌, ◌<◌, ◌≡◌, refl, arith, ap, ◌∙◌, bit_and, ap₂, bit_or, sym, bit_xor,
}
use hardware_wallet_benchmar.Bits.Xor.{◌⊕◌, xor_swap, xor_assoc, xor_comm, zero-xor, xor-zero}
use hardware_wallet_benchmar.Field.Clmul.{mask32, mask64, class_sum, clmul32}
use hardware_wallet_benchmar.Field.Clmul.Product.{class, class_terms, class_sum_eq}
use hardware_wallet_benchmar.Bits.Poly.{◌⊗◌, xor-times, times-xor}
use hardware_wallet_benchmar.Bits.Digits.{bit_ext, bit-and, bit, zero-bit}
use hardware_wallet_benchmar.Bits.And.{and-low_mask, or-eq-xor, and_comm, xor-and, and-zero}

and_disjoint : (s t m m' : ℕ) → bit_and m m' ≡ 0 → bit_and (bit_and s m) (bit_and t m') ≡ 0
and_disjoint s t m m' h = bit_ext _ _ λ i. omega (
  arith,
  bit-and i (bit_and s m) (bit_and t m'),
  bit-and i s m,
  bit-and i t m',
  bit-and i m m',
  ap (λ u. bit u i) h,
  zero-bit i,
)

-- `|` of numbers under disjoint masks
or_four :
    (w x y z : ℕ)
    → bit_and w x ≡ 0
    → bit_and w y ≡ 0
    → bit_and x y ≡ 0
    → bit_and w z ≡ 0
    → bit_and x z ≡ 0
    → bit_and y z ≡ 0
    → bit_or (bit_or (bit_or (bit_or 0 w) x) y) z ≡ w ⊕ x ⊕ y ⊕ z
or_four w x y z wx wy xy wz xz yz =
    let e0 : bit_or 0 w ≡ w = or-eq-xor 0 w (and_comm 0 w ∙ and-zero w) ∙ zero-xor w in
    let e1 : bit_or (bit_or 0 w) x ≡ w ⊕ x = ap (λ t. bit_or t x) e0 ∙ or-eq-xor w x wx in
    let e2 : bit_or (w ⊕ x) y ≡ w ⊕ x ⊕ y =
      or-eq-xor (w ⊕ x) y (xor-and y w x ∙ ap₂ bit_xor wy xy ∙ xor-zero 0) in
    let e3 : bit_or (w ⊕ x ⊕ y) z ≡ w ⊕ x ⊕ y ⊕ z = or-eq-xor (w ⊕ x ⊕ y) z (
      xor-and z (w ⊕ x) y
      ∙ ap₂ bit_xor (xor-and z w x ∙ ap₂ bit_xor wz xz ∙ xor-zero 0) yz
      ∙ xor-zero 0) in
    ap (λ t. bit_or (bit_or t y) z) e1 ∙ ap (λ t. bit_or t z) e2 ∙ e3

by_class :
    (a b : ℕ)
    → clmul32 a b ≡ class_terms a b 0 ⊕ class_terms a b 1 ⊕ class_terms a b 2 ⊕ class_terms a b 3
unfolding clmul32
by_class a b =
    or_four _ _ _ _ (and_disjoint (class_sum a b 0) (class_sum a b 1) (mask64 0) (mask64 1) refl)
      (and_disjoint (class_sum a b 0) (class_sum a b 2) (mask64 0) (mask64 2) refl)
      (and_disjoint (class_sum a b 1) (class_sum a b 2) (mask64 1) (mask64 2) refl)
      (and_disjoint (class_sum a b 0) (class_sum a b 3) (mask64 0) (mask64 3) refl)
      (and_disjoint (class_sum a b 1) (class_sum a b 3) (mask64 1) (mask64 3) refl)
      (and_disjoint (class_sum a b 2) (class_sum a b 3) (mask64 2) (mask64 3) refl)
    ∙ ap₂ bit_xor
        (ap₂ bit_xor
          (ap₂ bit_xor (class_sum_eq 0 a b (omega arith)) (class_sum_eq 1 a b (omega arith)))
          (class_sum_eq 2 a b (omega arith)))
        (class_sum_eq 3 a b (omega arith))

-- rows and columns
add_rows :
    (w x y z w' x' y' z' : ℕ)
    → (w ⊕ x ⊕ y ⊕ z) ⊕ (w' ⊕ x' ⊕ y' ⊕ z') ≡ (w ⊕ w') ⊕ (x ⊕ x') ⊕ (y ⊕ y') ⊕ (z ⊕ z')
add_rows w x y z w' x' y' z' =
    xor_swap (w ⊕ x ⊕ y) z (w' ⊕ x' ⊕ y') z'
    ∙ ap (λ t. t ⊕ (z ⊕ z'))
        (xor_swap (w ⊕ x) y (w' ⊕ x') y' ∙ ap (λ t. t ⊕ (y ⊕ y')) (xor_swap w x w' x'))

times-xor_four : (a b c d e : ℕ) → a ⊗ b ⊕ a ⊗ c ⊕ a ⊗ d ⊕ a ⊗ e ≡ a ⊗ (b ⊕ c ⊕ d ⊕ e)
times-xor_four a b c d e = sym (
    times-xor a (b ⊕ c ⊕ d) e
    ∙ ap (λ t. t ⊕ a ⊗ e) (times-xor a (b ⊕ c) d ∙ ap (λ t. t ⊕ a ⊗ d) (times-xor a b c)))

xor-times_four : (a b c d e : ℕ) → b ⊗ a ⊕ c ⊗ a ⊕ d ⊗ a ⊕ e ⊗ a ≡ (b ⊕ c ⊕ d ⊕ e) ⊗ a
xor-times_four a b c d e = sym (
    xor-times (b ⊕ c ⊕ d) e a
    ∙ ap (λ t. t ⊕ e ⊗ a) (xor-times (b ⊕ c) d a ∙ ap (λ t. t ⊕ d ⊗ a) (xor-times b c a)))

rotate_four : (a b c d : ℕ) → d ⊕ a ⊕ b ⊕ c ≡ a ⊕ b ⊕ c ⊕ d
rotate_four a b c d =
    ap (λ t. t ⊕ c) (xor_assoc d a b) ∙ xor_assoc d (a ⊕ b) c ∙ xor_comm d (a ⊕ b ⊕ c)

xor_columns :
    (a0 a1 a2 a3 b0 b1 b2 b3 : ℕ)
    → (a0 ⊗ b0 ⊕ a1 ⊗ b3 ⊕ a2 ⊗ b2 ⊕ a3 ⊗ b1)
        ⊕ (a0 ⊗ b1 ⊕ a1 ⊗ b0 ⊕ a2 ⊗ b3 ⊕ a3 ⊗ b2)
        ⊕ (a0 ⊗ b2 ⊕ a1 ⊗ b1 ⊕ a2 ⊗ b0 ⊕ a3 ⊗ b3)
        ⊕ (a0 ⊗ b3 ⊕ a1 ⊗ b2 ⊕ a2 ⊗ b1 ⊕ a3 ⊗ b0)
      ≡ (a0 ⊕ a1 ⊕ a2 ⊕ a3) ⊗ (b0 ⊕ b1 ⊕ b2 ⊕ b3)
xor_columns a0 a1 a2 a3 b0 b1 b2 b3 =
    let r = b0 ⊕ b1 ⊕ b2 ⊕ b3 in
    ap (λ t. t ⊕ (a0 ⊗ b2 ⊕ a1 ⊗ b1 ⊕ a2 ⊗ b0 ⊕ a3 ⊗ b3) ⊕ (a0 ⊗ b3 ⊕ a1 ⊗ b2 ⊕ a2 ⊗ b1 ⊕ a3 ⊗ b0))
      (add_rows (a0 ⊗ b0) (a1 ⊗ b3) (a2 ⊗ b2) (a3 ⊗ b1) (a0 ⊗ b1) (a1 ⊗ b0) (a2 ⊗ b3) (a3 ⊗ b2))
    ∙ ap (λ t. t ⊕ (a0 ⊗ b3 ⊕ a1 ⊗ b2 ⊕ a2 ⊗ b1 ⊕ a3 ⊗ b0)) (add_rows _ _ _ _ _ _ _ _)
    ∙ add_rows _ _ _ _ _ _ _ _
    ∙ ap₂ bit_xor
        (ap₂ bit_xor
          (ap₂ bit_xor (times-xor_four a0 b0 b1 b2 b3)
            (times-xor_four a1 b3 b0 b1 b2 ∙ ap (λ t. a1 ⊗ t) (rotate_four b0 b1 b2 b3)))
          (times-xor_four a2 b2 b3 b0 b1
            ∙ ap (λ t. a2 ⊗ t) (rotate_four b3 b0 b1 b2 ∙ rotate_four b0 b1 b2 b3)))
        (times-xor_four a3 b1 b2 b3 b0 ∙ ap (λ t. a3 ⊗ t) (sym (rotate_four b1 b2 b3 b0)))
    ∙ xor-times_four r a0 a1 a2 a3

and-xor : (a m n : ℕ) → bit_and a m ⊕ bit_and a n ≡ bit_and a (m ⊕ n)
and-xor a m n = ap₂ bit_xor (and_comm a m) (and_comm a n) ∙ sym (xor-and a m n) ∙ and_comm (m ⊕ n) a

-- The four classes make up a 32-bit number.
classes : (a : ℕ) → a < 2 ^ 32 → class a 0 ⊕ class a 1 ⊕ class a 2 ⊕ class a 3 ≡ a
classes a h =
    ap (λ t. t ⊕ class a 2 ⊕ class a 3) (and-xor a (mask32 0) (mask32 1))
    ∙ ap (λ t. t ⊕ class a 3) (and-xor a (mask32 0 ⊕ mask32 1) (mask32 2))
    ∙ and-xor a (mask32 0 ⊕ mask32 1 ⊕ mask32 2) (mask32 3)
    ∙ and-low_mask 32 a
    ∙ mod-eq_of_lt h

-- clmul32, by integer products of four classes of bit positions, is the carry-less product of two
-- 32-bit words.
pub clmul32-eq-times : (a b : ℕ) → a < 2 ^ 32 → b < 2 ^ 32 → clmul32 a b ≡ a ⊗ b
unfolding class_terms
clmul32-eq-times a b p q =
    by_class a b
    ∙ xor_columns (class a 0) (class a 1) (class a 2) (class a 3) (class b 0) (class b 1)
        (class b 2) (class b 3)
    ∙ ap₂ ◌⊗◌ (classes a p) (classes b q)
