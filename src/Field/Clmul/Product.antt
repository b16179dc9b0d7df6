-- ===== src/Field/Clmul/Product.antt =====
-- `clmul32`, `clmul64` and `clmul` are the carry-less product of polynomials over GF(2).
use native.Mathlib.Nat.{mod-eq_of_lt}
use hardware_wallet_benchmar.Prelude.{
  ℕ, zero, suc, ◌+◌, ◌*◌, ◌/◌, ◌%◌, ◌^◌, ◌<◌, ◌≡◌, refl, arith, ap₂, ap, bit_and, u64, ◌∙◌, sym,
  bit_xor, ◌-◌,
}
use hardware_wallet_benchmar.Bits.Xor.{◌⊕◌, zero-xor}
use hardware_wallet_benchmar.Field.Clmul.{mask32, mask64, class_sum}
use hardware_wallet_benchmar.Field.Clmul.Sparse.{
  ones, DigitsLe, sparse_product, and-ones-DigitsLe, and-ones, ones_past,
}
use hardware_wallet_benchmar.Bits.Poly.{◌⊗◌}
use hardware_wallet_benchmar.Bits.Pow.{shl_suc, shr_suc, pow_add}
use hardware_wallet_benchmar.Bits.And.{and-le, and-shl, xor-and}
use hardware_wallet_benchmar.Bits.PolyLaws.{shl-times, times-shl}
use hardware_wallet_benchmar.Bits.Step.{bit_and_step}

-- bits `i`, `i + 4`, ... of `a`, moved down to the lowest place
sparse : ℕ → ℕ → ℕ
sparse a i = bit_and (a / 2 ^ i) (ones 8)

and-shr : (k a m : ℕ) → bit_and a (m * 2 ^ k) ≡ bit_and (a / 2 ^ k) m * 2 ^ k
and-shr zero a m =
    let e : a / 2 ^ 0 ≡ a = omega arith in
    let g : m * 2 ^ 0 ≡ m = omega arith in omega (arith, ap (bit_and a) g, ap (λ t. bit_and t m) e)
and-shr (suc k) a m =
    let e : m * 2 ^ suc k / 2 ≡ m * 2 ^ k = omega (arith, shl_suc k m) in
    omega (
      arith,
      bit_and_step a (m * 2 ^ suc k),
      ap (bit_and (a / 2)) e,
      and-shr k (a / 2) m,
      ap (λ t. bit_and t m) (shr_suc k a),
      shl_suc k (bit_and (a / 2 / 2 ^ k) m),
      ap (λ (t : ℕ). t * 2 ^ suc k) (ap (λ t. bit_and t m) (shr_suc k a)),
      shl_suc k m,
    )

mask32_eq : (i : ℕ) → i < 4 → mask32 i ≡ ones 8 * 2 ^ i
unfolding ones
mask32_eq zero h = refl
mask32_eq (suc zero) h = refl
mask32_eq (suc (suc zero)) h = refl
mask32_eq (suc (suc (suc zero))) h = refl
mask32_eq (suc (suc (suc (suc i)))) h = absurd (omega arith)

mask64_eq : (i : ℕ) → i < 4 → mask64 i ≡ ones 16 * 2 ^ i
unfolding ones
mask64_eq zero h = refl
mask64_eq (suc zero) h = refl
mask64_eq (suc (suc zero)) h = refl
mask64_eq (suc (suc (suc zero))) h = refl
mask64_eq (suc (suc (suc (suc i)))) h = absurd (omega arith)

-- `a & M << i` is such a class, in its place.
abbrev pub class : ℕ → ℕ → ℕ
class a i = bit_and a (mask32 i)

class_eq : (i a : ℕ) → i < 4 → class a i ≡ sparse a i * 2 ^ i
unfolding sparse
class_eq i a h = ap (bit_and a) (mask32_eq i h) ∙ and-shr i a (ones 8)

word_product : (x y : ℕ) → x < 2 ^ 32 → y < 2 ^ 32 → x * y < 2 ^ 64
word_product x y p q = grind arith

class_product : (i j a b : ℕ) → u64 (class a i * class b j) ≡ class a i * class b j
class_product i j a b = mod-eq_of_lt (
    word_product (class a i) (class b j) (omega (arith, and-le a (mask32 i)))
      (omega (arith, and-le b (mask32 j))))

product_in_place :
    (i j a b : ℕ) → i < 4 → j < 4 → class a i * class b j ≡ sparse a i * sparse b j * 2 ^ (i + j)
product_in_place i j a b p q =
    let x = sparse a i in
    let y = sparse b j in
    ap₂ (λ (s t : ℕ). s * t) (class_eq i a p) (class_eq j b q)
    ∙ (omega arith)
    ∙ ap (λ (t : ℕ). x * y * t) (sym (pow_add i j))

carryless_in_place :
    (i j a b : ℕ) → i < 4 → j < 4 → class a i ⊗ class b j ≡ (sparse a i ⊗ sparse b j) * 2 ^ (i + j)
carryless_in_place i j a b p q =
    let x = sparse a i in
    let y = sparse b j in
    ap₂ ◌⊗◌ (class_eq i a p) (class_eq j b q)
    ∙ shl-times i x (y * 2 ^ j)
    ∙ ap (λ (t : ℕ). t * 2 ^ i) (times-shl j x y)
    ∙ (omega arith)
    ∙ ap (λ (t : ℕ). (x ⊗ y) * t) (sym (pow_add i j))

product_masked :
    (i j a b : ℕ)
    → DigitsLe 8 15 (sparse a i * sparse b j)
      × (bit_and (sparse a i * sparse b j) (ones 15) ≡ sparse a i ⊗ sparse b j)
unfolding sparse
product_masked i j a b =
    sparse_product 7 8 _ _ (omega arith) (and-ones-DigitsLe 8 (a / 2 ^ i))
      (and-ones-DigitsLe 8 (b / 2 ^ j))

-- One product of the class `k`, masked: the places add up to `k`,
term_same :
    (i j k a b : ℕ)
    → i < 4
    → j < 4
    → k < 4
    → i + j ≡ k
    → bit_and (u64 (class a i * class b j)) (mask64 k) ≡ class a i ⊗ class b j
term_same i j k a b p q r e =
    let s : ℕ = sparse a i * sparse b j in
    let m = product_masked i j a b in
    ap₂ bit_and (class_product i j a b ∙ product_in_place i j a b p q ∙ ap (λ (t : ℕ). s * 2 ^ t) e)
      (mask64_eq k r)
    ∙ and-shl k s (ones 16)
    ∙ ap (λ (t : ℕ). t * 2 ^ k) (ones_past 8 15 s m.0 ∙ m.1)
    ∙ ap (λ (t : ℕ). (sparse a i ⊗ sparse b j) * 2 ^ t) (sym e)
    ∙ sym (carryless_in_place i j a b p q)

-- or wrap round to it, one hexadecimal place up.
term_wrapped :
    (i j k a b : ℕ)
    → i < 4
    → j < 4
    → k < 4
    → i + j ≡ 4 + k
    → bit_and (u64 (class a i * class b j)) (mask64 k) ≡ class a i ⊗ class b j
unfolding ones
term_wrapped i j k a b p q r e =
    let s : ℕ = sparse a i * sparse b j in
    let m = product_masked i j a b in
    let up : (t : ℕ) → t * 2 ^ (4 + k) ≡ 16 * t * 2 ^ k =
      λ t. omega (arith, ap (λ (u : ℕ). t * u) (pow_add 4 k)) in
    let h : 16 * s / 16 ≡ s = omega arith in
    let lowest : bit_and (16 * s) (ones 16) ≡ 16 * (sparse a i ⊗ sparse b j) =
      omega (arith, and-ones 15 (16 * s), ap (λ t. bit_and t (ones 15)) h, m.1) in
    ap₂ bit_and
      (class_product i j a b ∙ product_in_place i j a b p q ∙ ap (λ (t : ℕ). s * 2 ^ t) e ∙ up s)
      (mask64_eq k r)
    ∙ and-shl k (16 * s) (ones 16)
    ∙ ap (λ (t : ℕ). t * 2 ^ k) lowest
    ∙ sym (up (sparse a i ⊗ sparse b j))
    ∙ ap (λ (t : ℕ). (sparse a i ⊗ sparse b j) * 2 ^ t) (sym e)
    ∙ sym (carryless_in_place i j a b p q)

-- the classes that meet in class `k`
unfoldable pub class_terms : ℕ → ℕ → ℕ → ℕ
class_terms a b k =
    class a 0 ⊗ class b ((k + 4 - 0) % 4)
    ⊕ class a 1 ⊗ class b ((k + 4 - 1) % 4)
    ⊕ class a 2 ⊗ class b ((k + 4 - 2) % 4)
    ⊕ class a 3 ⊗ class b ((k + 4 - 3) % 4)

xor_four_and :
    (m w x y z : ℕ)
    → bit_and (0 ⊕ w ⊕ x ⊕ y ⊕ z) m ≡ bit_and w m ⊕ bit_and x m ⊕ bit_and y m ⊕ bit_and z m
xor_four_and m w x y z =
    ap (λ t. bit_and (t ⊕ x ⊕ y ⊕ z) m) (zero-xor w)
    ∙ xor-and m (w ⊕ x ⊕ y) z
    ∙ ap (λ t. t ⊕ bit_and z m) (xor-and m (w ⊕ x) y)
    ∙ ap (λ t. t ⊕ bit_and y m ⊕ bit_and z m) (xor-and m w x)

pub class_sum_eq : (k a b : ℕ) → k < 4 → bit_and (class_sum a b k) (mask64 k) ≡ class_terms a b k
unfolding class_sum class_terms
class_sum_eq zero a b h =
    xor_four_and (mask64 0) _ _ _ _
    ∙ ap₂ bit_xor
        (ap₂ bit_xor
          (ap₂ bit_xor (term_same 0 0 0 a b (omega arith) (omega arith) h (omega arith))
            (term_wrapped 1 3 0 a b (omega arith) (omega arith) h (omega arith)))
          (term_wrapped 2 2 0 a b (omega arith) (omega arith) h (omega arith)))
        (term_wrapped 3 1 0 a b (omega arith) (omega arith) h (omega arith))
class_sum_eq (suc zero) a b h =
    xor_four_and (mask64 1) _ _ _ _
    ∙ ap₂ bit_xor
        (ap₂ bit_xor
          (ap₂ bit_xor (term_same 0 1 1 a b (omega arith) (omega arith) h (omega arith))
            (term_same 1 0 1 a b (omega arith) (omega arith) h (omega arith)))
          (term_wrapped 2 3 1 a b (omega arith) (omega arith) h (omega arith)))
        (term_wrapped 3 2 1 a b (omega arith) (omega arith) h (omega arith))
class_sum_eq (suc (suc zero)) a b h =
    xor_four_and (mask64 2) _ _ _ _
    ∙ ap₂ bit_xor
        (ap₂ bit_xor
          (ap₂ bit_xor (term_same 0 2 2 a b (omega arith) (omega arith) h (omega arith))
            (term_same 1 1 2 a b (omega arith) (omega arith) h (omega arith)))
          (term_same 2 0 2 a b (omega arith) (omega arith) h (omega arith)))
        (term_wrapped 3 3 2 a b (omega arith) (omega arith) h (omega arith))
class_sum_eq (suc (suc (suc zero))) a b h =
    xor_four_and (mask64 3) _ _ _ _
    ∙ ap₂ bit_xor
        (ap₂ bit_xor
          (ap₂ bit_xor (term_same 0 3 3 a b (omega arith) (omega arith) h (omega arith))
            (term_same 1 2 3 a b (omega arith) (omega arith) h (omega arith)))
          (term_same 2 1 3 a b (omega arith) (omega arith) h (omega arith)))
        (term_same 3 0 3 a b (omega arith) (omega arith) h (omega arith))
class_sum_eq (suc (suc (suc (suc k)))) a b h = absurd (omega arith)
