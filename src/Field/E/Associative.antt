-- ===== src/Field/E/Associative.antt =====
-- The product of `E` is associative: it is a sum of multiples of `a`, `a y` and `a y^2` by the limbs of
-- `b`, and multiplying by `y` passes through either factor.
use hardware_wallet_benchmar.Prelude.{ℕ, ◌≡◌, refl, sym, ◌∙◌, ap, ap₂, ◌<◌, ◌^◌}
use hardware_wallet_benchmar.Bits.Xor.{◌⊕◌, xor_assoc, xor_comm, xor_swap, xor_left_comm, xor-lt}
use hardware_wallet_benchmar.Field.E.{E, new, ◌⊠◌, ◌⊞◌, mul_k}
use hardware_wallet_benchmar.Field.E.Schoolbook.{mul_schoolbook}
use hardware_wallet_benchmar.Field.E.Laws.{IsElement, E_path, mul-add}
use hardware_wallet_benchmar.Field.Clmul.{base_mul}
use hardware_wallet_benchmar.Field.Clmul.Reduce.{base_mul-xor, xor-base_mul}
use hardware_wallet_benchmar.Field.Clmul.Associative.{base_mul_assoc}

-- the product with `y`
times_y : E → E
times_y a = new a.c2 (a.c0 ⊕ a.c2) a.c1

sort_five : (q p r s t : ℕ) → (q ⊕ p) ⊕ (r ⊕ s) ⊕ t ≡ p ⊕ ((q ⊕ s) ⊕ (t ⊕ r))
sort_five q p r s t = simp (xor_assoc, xor_comm, xor_left_comm)

sort_four : (q p r s : ℕ) → (q ⊕ p) ⊕ r ⊕ s ≡ p ⊕ (r ⊕ (q ⊕ s))
sort_four q p r s = simp (xor_assoc, xor_left_comm)

sort_words : (p q r s : ℕ) → p ⊕ ((q ⊕ r) ⊕ s) ≡ q ⊕ (s ⊕ (r ⊕ p))
sort_words p q r s = simp (xor_assoc, xor_comm, xor_left_comm)

mul_limbs :
    (a b : E) → a ⊠ b ≡ mul_k a b.c0 ⊞ (mul_k (times_y a) b.c1 ⊞ mul_k (times_y (times_y a)) b.c2)
unfolding ◌⊞◌ mul_k times_y
mul_limbs a b =
    mul_schoolbook a b
    ∙ E_path _ _
        (ap (λ t. base_mul a.c0 b.c0 ⊕ t) (xor_comm (base_mul a.c1 b.c2) (base_mul a.c2 b.c1)))
        (sort_five _ _ _ _ _
          ∙ ap₂ (λ s t. base_mul a.c1 b.c0 ⊕ (s ⊕ t)) (sym (xor-base_mul a.c0 a.c2 b.c1))
              (sym (xor-base_mul a.c2 a.c1 b.c2)))
        (sort_four _ _ _ _
          ∙ ap (λ t. base_mul a.c2 b.c0 ⊕ (base_mul a.c1 b.c1 ⊕ t))
              (sym (xor-base_mul a.c0 a.c2 b.c2)))

times_y-add : (a b : E) → times_y (a ⊞ b) ≡ times_y a ⊞ times_y b
unfolding times_y ◌⊞◌
times_y-add a b = E_path _ _ refl (xor_swap a.c0 b.c0 a.c2 b.c2) refl

times_y-mul_k : (a : E) (k : ℕ) → times_y (mul_k a k) ≡ mul_k (times_y a) k
unfolding times_y mul_k
times_y-mul_k a k = E_path _ _ refl (sym (xor-base_mul a.c0 a.c2 k)) refl

times_y_cube : (a : E) → times_y (times_y (times_y a)) ≡ times_y a ⊞ a
unfolding times_y ◌⊞◌
times_y_cube a = E_path _ _ (xor_comm a.c0 a.c2) (xor_comm a.c1 (a.c0 ⊕ a.c2)) (xor_comm a.c2 a.c1)

mul_k-xor : (a : E) (j k : ℕ) → mul_k a (j ⊕ k) ≡ mul_k a j ⊞ mul_k a k
unfolding mul_k ◌⊞◌
mul_k-xor a j k = E_path _ _ (base_mul-xor a.c0 j k) (base_mul-xor a.c1 j k) (base_mul-xor a.c2 j k)

add-mul_k : (a b : E) (k : ℕ) → mul_k (a ⊞ b) k ≡ mul_k a k ⊞ mul_k b k
unfolding mul_k ◌⊞◌
add-mul_k a b k =
    E_path _ _ (xor-base_mul a.c0 b.c0 k) (xor-base_mul a.c1 b.c1 k) (xor-base_mul a.c2 b.c2 k)

sort_sum : (p q r s : E) → p ⊞ ((q ⊞ r) ⊞ s) ≡ q ⊞ (s ⊞ (r ⊞ p))
unfolding ◌⊞◌
sort_sum p q r s =
    E_path _ _ (sort_words p.c0 q.c0 r.c0 s.c0) (sort_words p.c1 q.c1 r.c1 s.c1)
      (sort_words p.c2 q.c2 r.c2 s.c2)

times_y-IsElement : (a : E) → IsElement a → IsElement (times_y a)
unfolding times_y
times_y-IsElement a h = record {
  word0 = h.word2;
  word1 = xor-lt 64 a.c0 a.c2 h.word0 h.word2;
  word2 = h.word1;
}

mul_k-mul_k :
    (x : E) (j k : ℕ)
    → IsElement x
    → j < 2 ^ 64
    → k < 2 ^ 64
    → mul_k x (base_mul j k) ≡ mul_k (mul_k x j) k
unfolding mul_k
mul_k-mul_k x j k h hj hk =
    E_path _ _ (sym (base_mul_assoc x.c0 j k h.word0 hj hk))
      (sym (base_mul_assoc x.c1 j k h.word1 hj hk)) (sym (base_mul_assoc x.c2 j k h.word2 hj hk))

-- `y` passes through the second factor
mul-times_y : (a b : E) → a ⊠ times_y b ≡ times_y (a ⊠ b)
unfolding times_y
mul-times_y a b =
    let y = times_y a in
    let yy = times_y y in
    let x0 = mul_k a b.c2 in
    let x1 = mul_k y b.c0 in
    let x2 = mul_k y b.c2 in
    let x3 = mul_k yy b.c1 in
    mul_limbs a (times_y b)
    ∙ ap (λ t. x0 ⊞ (t ⊞ x3)) (mul_k-xor y b.c0 b.c2)
    ∙ sort_sum x0 x1 x2 x3
    ∙ ap (λ t. x1 ⊞ (x3 ⊞ t))
        (sym (add-mul_k y a b.c2) ∙ ap (λ t. mul_k t b.c2) (sym (times_y_cube a)))
    ∙ sym (
        ap times_y (mul_limbs a b)
        ∙ times_y-add (mul_k a b.c0) (mul_k y b.c1 ⊞ mul_k yy b.c2)
        ∙ ap₂ (λ s t. s ⊞ t) (times_y-mul_k a b.c0)
            (times_y-add (mul_k y b.c1) (mul_k yy b.c2)
              ∙ ap₂ (λ s t. s ⊞ t) (times_y-mul_k y b.c1) (times_y-mul_k yy b.c2)))

-- and so does a word
pub mul-mul_k :
    (a b : E) (k : ℕ) → IsElement a → IsElement b → k < 2 ^ 64 → a ⊠ mul_k b k ≡ mul_k (a ⊠ b) k
unfolding mul_k
mul-mul_k a b k ha hb hk =
    let through =
      λ (x : E) (hx : IsElement x) (j : ℕ) (hj : j < 2 ^ 64). mul_k-mul_k x j k hx hj hk in
    let y = times_y a in
    let hy = times_y-IsElement a ha in
    let yy = times_y y in
    let hyy = times_y-IsElement y hy in
    mul_limbs a (mul_k b k)
    ∙ ap₂ (λ s t. s ⊞ t) (through a ha b.c0 hb.word0)
        (ap₂ (λ s t. s ⊞ t) (through y hy b.c1 hb.word1) (through yy hyy b.c2 hb.word2))
    ∙ sym (
        ap (λ t. mul_k t k) (mul_limbs a b)
        ∙ add-mul_k (mul_k a b.c0) (mul_k y b.c1 ⊞ mul_k yy b.c2) k
        ∙ ap (λ t. mul_k (mul_k a b.c0) k ⊞ t) (add-mul_k (mul_k y b.c1) (mul_k yy b.c2) k))

-- The product of E is associative, on elements of three words.
pub mul_assoc : (a b c : E) → IsElement a → IsElement b → IsElement c → (a ⊠ b) ⊠ c ≡ a ⊠ (b ⊠ c)
mul_assoc a b c ha hb hc =
    let y = times_y b in
    let hy = times_y-IsElement b hb in
    let yy = times_y y in
    let hyy = times_y-IsElement y hy in
    mul_limbs (a ⊠ b) c
    ∙ ap₂ (λ s t. s ⊞ t) (sym (mul-mul_k a b c.c0 ha hb hc.word0))
        (ap₂ (λ s t. s ⊞ t)
          (ap (λ t. mul_k t c.c1) (sym (mul-times_y a b)) ∙ sym (mul-mul_k a y c.c1 ha hy hc.word1))
          (ap (λ t. mul_k t c.c2) (ap times_y (sym (mul-times_y a b)) ∙ sym (mul-times_y a y))
            ∙ sym (mul-mul_k a yy c.c2 ha hyy hc.word2)))
    ∙ sym (
        ap (λ t. a ⊠ t) (mul_limbs b c)
        ∙ mul-add a (mul_k b c.c0) (mul_k y c.c1 ⊞ mul_k yy c.c2)
        ∙ ap (λ t. a ⊠ mul_k b c.c0 ⊞ t) (mul-add a (mul_k y c.c1) (mul_k yy c.c2)))
