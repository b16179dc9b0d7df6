-- ===== src/Field/E/Schoolbook.antt =====
-- The product of `E` by Karatsuba, on the coefficients: what multiplying out and
-- `y^3 = y + 1` give.
use hardware_wallet_benchmar.Prelude.{ℕ, ◌≡◌, sym, ◌∙◌, ap, ap₂, bit_xor, u64}
use hardware_wallet_benchmar.Bits.Xor.{◌⊕◌}
use hardware_wallet_benchmar.Field.Clmul.{clmul, reduce, base_mul}
use hardware_wallet_benchmar.Field.Clmul.Words.{clmul-eq-times, karatsuba}
use hardware_wallet_benchmar.Field.Clmul.Reduce.{reduce-IsLinear}
use hardware_wallet_benchmar.Field.E.{E, new, ◌⊠◌}
use hardware_wallet_benchmar.Bits.Poly.{◌⊗◌}
use hardware_wallet_benchmar.Bits.Linear.{u64-IsLinear}

cross : (w x y z : ℕ) → clmul (w ⊕ x) (y ⊕ z) ⊕ clmul w y ⊕ clmul x z ≡ clmul w z ⊕ clmul x y
cross w x y z =
    ap₂ bit_xor
      (ap₂ bit_xor (clmul-eq-times (w ⊕ x) (y ⊕ z) ∙ ap₂ ◌⊗◌ (u64-IsLinear w x) (u64-IsLinear y z))
        (clmul-eq-times w y))
      (clmul-eq-times x z)
    ∙ karatsuba (u64 w) (u64 x) (u64 y) (u64 z)
    ∙ sym (ap₂ bit_xor (clmul-eq-times w z) (clmul-eq-times x y))

-- the coefficients of a product, written out
abbrev pub product_c0 : E → E → ℕ
product_c0 a b = base_mul a.c0 b.c0 ⊕ (base_mul a.c1 b.c2 ⊕ base_mul a.c2 b.c1)

abbrev pub product_c1 : E → E → ℕ
product_c1 a b =
    (base_mul a.c0 b.c1 ⊕ base_mul a.c1 b.c0)
    ⊕ (base_mul a.c1 b.c2 ⊕ base_mul a.c2 b.c1)
    ⊕ base_mul a.c2 b.c2

abbrev pub product_c2 : E → E → ℕ
product_c2 a b = (base_mul a.c0 b.c2 ⊕ base_mul a.c2 b.c0) ⊕ base_mul a.c1 b.c1 ⊕ base_mul a.c2 b.c2

-- The product of E by Karatsuba has the coefficients that multiplying out and y^3 = y + 1 give.
pub mul_schoolbook : (a b : E) → a ⊠ b ≡ new (product_c0 a b) (product_c1 a b) (product_c2 a b)
unfolding ◌⊠◌ base_mul
mul_schoolbook a b =
    let p0 = clmul a.c0 b.c0 in
    let p1 = clmul a.c1 b.c1 in
    let p2 = clmul a.c2 b.c2 in
    let x12 = clmul a.c1 b.c2 in
    let x21 = clmul a.c2 b.c1 in
    let e1 = cross a.c0 a.c1 b.c0 b.c1 in
    let e2 = cross a.c0 a.c2 b.c0 b.c2 in
    let e3 = cross a.c1 a.c2 b.c1 b.c2 in
    let pair = λ (x y : ℕ). reduce-IsLinear x y in
    λ i.
      new
        ((ap (λ t. reduce (p0 ⊕ t)) e3
            ∙ pair p0 (x12 ⊕ x21)
            ∙ ap (λ t. reduce p0 ⊕ t) (pair x12 x21))
          i)
        ((ap₂ (λ s t. reduce (s ⊕ t ⊕ p2)) e1 e3
            ∙ pair (clmul a.c0 b.c1 ⊕ clmul a.c1 b.c0 ⊕ (x12 ⊕ x21)) p2
            ∙ ap (λ t. t ⊕ reduce p2)
                (pair (clmul a.c0 b.c1 ⊕ clmul a.c1 b.c0) (x12 ⊕ x21)
                  ∙ ap₂ bit_xor (pair (clmul a.c0 b.c1) (clmul a.c1 b.c0)) (pair x12 x21)))
          i)
        ((ap (λ t. reduce (t ⊕ p1 ⊕ p2)) e2
            ∙ pair (clmul a.c0 b.c2 ⊕ clmul a.c2 b.c0 ⊕ p1) p2
            ∙ ap (λ t. t ⊕ reduce p2)
                (pair (clmul a.c0 b.c2 ⊕ clmul a.c2 b.c0) p1
                  ∙ ap (λ t. t ⊕ reduce p1) (pair (clmul a.c0 b.c2) (clmul a.c2 b.c0))))
          i)
