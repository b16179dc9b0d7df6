-- ===== src/Tables/Product.antt =====
-- The three limbs that MUL writes to the bus are those of the product of `E`: the columns hold the
-- limbs of both factors, each an element of the base field.
use hardware_wallet_benchmar.Prelude.{ℕ, ◌≡◌, refl, sym, ◌∙◌, ap, ap₂, List, [], ◌∷◌}
use hardware_wallet_benchmar.Field.E.{◌⊞◌, E, ◌⊠◌, of_k}
use hardware_wallet_benchmar.Tables.Flush.{mul_result}
use hardware_wallet_benchmar.Field.E.Embed.{mul-of_k-of_k}
use hardware_wallet_benchmar.Bits.Xor.{◌⊕◌, xor_assoc, xor_self, xor_comm}
use hardware_wallet_benchmar.Field.E.Laws.{E_path}
use hardware_wallet_benchmar.Field.Clmul.{base_mul}
use hardware_wallet_benchmar.Field.E.Schoolbook.{mul_schoolbook}

-- the columns of a MUL row: five that `mul_result` does not read, then the factors
abbrev pub mul_row : E → E → E → E → E → E → E → List E
mul_row pc fp a b c x y =
    pc ∷ fp ∷ a ∷ b ∷ c ∷ of_k x.c0 ∷ of_k x.c1 ∷ of_k x.c2 ∷ of_k y.c0 ∷ of_k y.c1 ∷ of_k y.c2 ∷ []

-- an element by its limbs, each as an element of the base field
abbrev pub limbs : E → List E
limbs a = of_k a.c0 ∷ of_k a.c1 ∷ of_k a.c2 ∷ []

-- sums of embedded elements, summed from the left
of_k-add : (j k : ℕ) → of_k j ⊞ of_k k ≡ of_k (j ⊕ k)
unfolding ◌⊞◌
of_k-add j k = E_path _ _ refl (xor_self 0) (xor_self 0)

add_of_k : (a b : E) (j k : ℕ) → a ≡ of_k j → b ≡ of_k k → a ⊞ b ≡ of_k (j ⊕ k)
add_of_k a b j k p q = ap₂ ◌⊞◌ p q ∙ of_k-add j k

-- On a row that holds the limbs of two elements, the three values that MUL writes to the bus are
-- the limbs of their product in E.
pub mul_result-mul : (pc fp a b c x y : E) → mul_result (mul_row pc fp a b c x y) ≡ limbs (x ⊠ y)
unfolding mul_result
mul_result-mul pc fp a b c x y =
    let m = λ (j k : ℕ). mul-of_k-of_k j k in
    let s = λ (u v : E) (j k : ℕ). add_of_k u v j k in
    let p = λ (j k : ℕ). base_mul j k in
    ap₂ (λ u r. u ∷ r)
      (s _ _ _ _ (s _ _ _ _ (m x.c0 y.c0) (m x.c1 y.c2)) (m x.c2 y.c1)
        ∙ ap of_k (xor_assoc (p x.c0 y.c0) (p x.c1 y.c2) (p x.c2 y.c1)))
      (ap₂ (λ u v. u ∷ v ∷ [])
        (s _ _ _ _
            (s _ _ _ _ (s _ _ _ _ (s _ _ _ _ (m x.c0 y.c1) (m x.c1 y.c0)) (m x.c1 y.c2))
              (m x.c2 y.c1))
            (m x.c2 y.c2)
          ∙ ap (λ t. of_k (t ⊕ p x.c2 y.c2))
              (xor_assoc (p x.c0 y.c1 ⊕ p x.c1 y.c0) (p x.c1 y.c2) (p x.c2 y.c1)))
        (s _ _ _ _ (s _ _ _ _ (s _ _ _ _ (m x.c0 y.c2) (m x.c1 y.c1)) (m x.c2 y.c0)) (m x.c2 y.c2)
          ∙ ap (λ t. of_k (t ⊕ p x.c2 y.c2))
              (xor_assoc (p x.c0 y.c2) (p x.c1 y.c1) (p x.c2 y.c0)
                ∙ ap (λ t. p x.c0 y.c2 ⊕ t) (xor_comm (p x.c1 y.c1) (p x.c2 y.c0))
                ∙ sym (xor_assoc (p x.c0 y.c2) (p x.c2 y.c0) (p x.c1 y.c1)))))
    ∙ sym (ap limbs (mul_schoolbook x y))
