-- ===== src/Field/E/Laws.antt =====
-- The laws of `E` that the verifier's algebra rests on.
use hardware_wallet_benchmar.Prelude.{ℕ, ◌≡◌, sym, ◌∙◌, ap, ap₂, ◌<◌, ◌^◌, bit_xor}
use hardware_wallet_benchmar.Bits.Xor.{
  ◌⊕◌, xor_assoc, xor_comm, xor-zero, xor_swap, xor_self, xor-lt, zero-xor,
}
use hardware_wallet_benchmar.Field.E.{E, new, ◌⊠◌, ◌⊞◌, zero_e, one_e}
use hardware_wallet_benchmar.Field.E.Schoolbook.{mul_schoolbook, product_c0, product_c1, product_c2}
use hardware_wallet_benchmar.Field.Clmul.Reduce.{
  reduce-lt, base_mul_comm, base_mul-xor, base_mul-one, base_mul-zero,
}
use hardware_wallet_benchmar.Field.Clmul.{base_mul}

-- the three limbs are words
pub record IsElement (a : E) : Type 0 where
  pub word0 : a.c0 < 2 ^ 64
  pub word1 : a.c1 < 2 ^ 64
  pub word2 : a.c2 < 2 ^ 64

pub E_path : (a b : E) → a.c0 ≡ b.c0 → a.c1 ≡ b.c1 → a.c2 ≡ b.c2 → a ≡ b
E_path a b p q r = λ i. new (p i) (q i) (r i)

pub add_comm : (a b : E) → a ⊞ b ≡ b ⊞ a
unfolding ◌⊞◌
add_comm a b = E_path _ _ (xor_comm a.c0 b.c0) (xor_comm a.c1 b.c1) (xor_comm a.c2 b.c2)

pub add_assoc : (a b c : E) → (a ⊞ b) ⊞ c ≡ a ⊞ (b ⊞ c)
unfolding ◌⊞◌
add_assoc a b c =
    E_path _ _ (xor_assoc a.c0 b.c0 c.c0) (xor_assoc a.c1 b.c1 c.c1) (xor_assoc a.c2 b.c2 c.c2)

pub add_self : (a : E) → a ⊞ a ≡ zero_e
unfolding ◌⊞◌
add_self a = E_path _ _ (xor_self a.c0) (xor_self a.c1) (xor_self a.c2)

pub add-zero : (a : E) → a ⊞ zero_e ≡ a
unfolding ◌⊞◌
add-zero a = E_path _ _ (xor-zero a.c0) (xor-zero a.c1) (xor-zero a.c2)

pub zero-add : (a : E) → zero_e ⊞ a ≡ a
zero-add a = add_comm zero_e a ∙ add-zero a

pub add_cancel : (a b : E) → a ⊞ (a ⊞ b) ≡ b
add_cancel a b = sym (add_assoc a a b) ∙ ap (λ t. t ⊞ b) (add_self a) ∙ zero-add b

add_three :
    (p q r p' q' r' : ℕ) → (p ⊕ (q ⊕ r)) ⊕ (p' ⊕ (q' ⊕ r')) ≡ (p ⊕ p') ⊕ ((q ⊕ q') ⊕ (r ⊕ r'))
add_three p q r p' q' r' =
    xor_swap p (q ⊕ r) p' (q' ⊕ r') ∙ ap (λ t. (p ⊕ p') ⊕ t) (xor_swap q r q' r')

add_four :
    (p q r s p' q' r' s' : ℕ)
    → ((p ⊕ q) ⊕ r ⊕ s) ⊕ ((p' ⊕ q') ⊕ r' ⊕ s') ≡ ((p ⊕ p') ⊕ (q ⊕ q')) ⊕ (r ⊕ r') ⊕ (s ⊕ s')
add_four p q r s p' q' r' s' =
    xor_swap (p ⊕ q ⊕ r) s (p' ⊕ q' ⊕ r') s'
    ∙ ap (λ t. t ⊕ (s ⊕ s'))
        (xor_swap (p ⊕ q) r (p' ⊕ q') r' ∙ ap (λ t. t ⊕ (r ⊕ r')) (xor_swap p q p' q'))

add_five :
    (p q r s t p' q' r' s' t' : ℕ)
    → ((p ⊕ q) ⊕ (r ⊕ s) ⊕ t) ⊕ ((p' ⊕ q') ⊕ (r' ⊕ s') ⊕ t')
      ≡ ((p ⊕ p') ⊕ (q ⊕ q')) ⊕ ((r ⊕ r') ⊕ (s ⊕ s')) ⊕ (t ⊕ t')
add_five p q r s t p' q' r' s' t' =
    add_four p q (r ⊕ s) t p' q' (r' ⊕ s') t'
    ∙ ap (λ u. ((p ⊕ p') ⊕ (q ⊕ q')) ⊕ u ⊕ (t ⊕ t')) (xor_swap r s r' s')

-- The product of E is commutative.
pub mul_comm : (a b : E) → a ⊠ b ≡ b ⊠ a
mul_comm a b =
    let m = λ (x y : ℕ). base_mul_comm x y in
    mul_schoolbook a b
    ∙ E_path (new (product_c0 a b) (product_c1 a b) (product_c2 a b))
        (new (product_c0 b a) (product_c1 b a) (product_c2 b a))
        (ap₂ bit_xor (m a.c0 b.c0) (
          ap₂ bit_xor (m a.c1 b.c2) (m a.c2 b.c1)
          ∙ xor_comm (base_mul b.c2 a.c1) (base_mul b.c1 a.c2)))
        (ap₂ bit_xor
          (ap₂ bit_xor
            (ap₂ bit_xor (m a.c0 b.c1) (m a.c1 b.c0)
              ∙ xor_comm (base_mul b.c1 a.c0) (base_mul b.c0 a.c1))
            (ap₂ bit_xor (m a.c1 b.c2) (m a.c2 b.c1)
              ∙ xor_comm (base_mul b.c2 a.c1) (base_mul b.c1 a.c2)))
          (m a.c2 b.c2))
        (ap₂ bit_xor
          (ap₂ bit_xor
            (ap₂ bit_xor (m a.c0 b.c2) (m a.c2 b.c0)
              ∙ xor_comm (base_mul b.c2 a.c0) (base_mul b.c0 a.c2))
            (m a.c1 b.c1))
          (m a.c2 b.c2))
    ∙ sym (mul_schoolbook b a)

-- The product of E distributes over its sum.
pub mul-add : (a b c : E) → a ⊠ (b ⊞ c) ≡ a ⊠ b ⊞ a ⊠ c
unfolding ◌⊞◌
mul-add a b c =
    let m = λ (x y z : ℕ). base_mul-xor x y z in
    mul_schoolbook a (b ⊞ c)
    ∙ E_path _ _
        (ap₂ bit_xor (m a.c0 b.c0 c.c0) (ap₂ bit_xor (m a.c1 b.c2 c.c2) (m a.c2 b.c1 c.c1))
          ∙ sym (add_three _ _ _ _ _ _))
        (ap₂ bit_xor
            (ap₂ bit_xor (ap₂ bit_xor (m a.c0 b.c1 c.c1) (m a.c1 b.c0 c.c0))
              (ap₂ bit_xor (m a.c1 b.c2 c.c2) (m a.c2 b.c1 c.c1)))
            (m a.c2 b.c2 c.c2)
          ∙ sym (add_five _ _ _ _ _ _ _ _ _ _))
        (ap₂ bit_xor
            (ap₂ bit_xor (ap₂ bit_xor (m a.c0 b.c2 c.c2) (m a.c2 b.c0 c.c0)) (m a.c1 b.c1 c.c1))
            (m a.c2 b.c2 c.c2)
          ∙ sym (add_four _ _ _ _ _ _ _ _))
    ∙ sym (ap₂ ◌⊞◌ (mul_schoolbook a b) (mul_schoolbook a c))

pub add-mul : (a b c : E) → (a ⊞ b) ⊠ c ≡ a ⊠ c ⊞ b ⊠ c
add-mul a b c = mul_comm (a ⊞ b) c ∙ mul-add c a b ∙ ap₂ ◌⊞◌ (mul_comm c a) (mul_comm c b)

pub mul-zero : (a : E) → a ⊠ zero_e ≡ zero_e
mul-zero a =
    ap (λ t. a ⊠ t) (sym (add_self zero_e)) ∙ mul-add a zero_e zero_e ∙ add_self (a ⊠ zero_e)

-- One is neutral for the product of E, on elements of three words.
pub mul-one : (a : E) → IsElement a → a ⊠ one_e ≡ a
mul-one a h =
    let o0 = base_mul-one a.c0 h.word0 in
    let o1 = base_mul-one a.c1 h.word1 in
    let o2 = base_mul-one a.c2 h.word2 in
    mul_schoolbook a one_e
    ∙ E_path _ _ (simp (o0, base_mul-zero, xor-zero)) (simp (o1, base_mul-zero, xor-zero, zero-xor))
        (simp (o2, base_mul-zero, xor-zero, zero-xor))

pub zero-mul : (a : E) → zero_e ⊠ a ≡ zero_e
zero-mul a = mul_comm zero_e a ∙ mul-zero a

pub one-mul : (a : E) → IsElement a → one_e ⊠ a ≡ a
one-mul a h = mul_comm one_e a ∙ mul-one a h

-- Products and sums of elements are elements.
pub mul-IsElement : (a b : E) → IsElement (a ⊠ b)
unfolding ◌⊠◌
mul-IsElement a b = record { word0 = reduce-lt _; word1 = reduce-lt _; word2 = reduce-lt _ }

pub add-IsElement : (a b : E) → IsElement a → IsElement b → IsElement (a ⊞ b)
unfolding ◌⊞◌
add-IsElement a b p q = record {
  word0 = xor-lt 64 a.c0 b.c0 p.word0 q.word0;
  word1 = xor-lt 64 a.c1 b.c1 p.word1 q.word1;
  word2 = xor-lt 64 a.c2 b.c2 p.word2 q.word2;
}
