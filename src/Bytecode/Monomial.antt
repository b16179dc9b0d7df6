-- ===== src/Bytecode/Monomial.antt =====
-- `monomial_sum` of leanvm-pow/ledger/verifier/src/bytecode.rs: it is linear in each of its sums.
use hardware_wallet_benchmar.Prelude.{
  ℕ, zero, suc, List, [], ◌∷◌, ◌≡◌, refl, sym, ap, ◌∙◌, arith, ◌+◌, ◌<◌, length, set, u128, ◌<<<◌,
  replicate,
}
use hardware_wallet_benchmar.Bits.Xor.{
  ◌⊕◌, xor_assoc, xor_comm, xor-zero, zero-xor, xor-shl, xor-mod,
}
use hardware_wallet_benchmar.Field.Clmul.{reduce}
use hardware_wallet_benchmar.Field.Clmul.Reduce.{reduce-IsLinear}
use hardware_wallet_benchmar.Field.E.{E, new, zero_e, ◌⊞◌, times_monomial}
use hardware_wallet_benchmar.Field.E.Laws.{E_path}
use hardware_wallet_benchmar.Transcript.Multilinear.{at}
use hardware_wallet_benchmar.Bytecode.{shifted_sums, monomial_sum}

-- one limb of the shifted sums, from `k` on
unfoldable limb_sum : (E → ℕ) → ℕ → List E → ℕ
limb_sum limb k [] = 0
limb_sum limb k (x ∷ xs) = u128 (limb x <<< k) ⊕ limb_sum limb (k + 1) xs

abbrev limb0 : E → ℕ
limb0 x = x.c0

abbrev limb1 : E → ℕ
limb1 x = x.c1

abbrev limb2 : E → ℕ
limb2 x = x.c2

shifted_sums-limb_sum :
    (xs : List E) (k c0 c1 c2 : ℕ)
    → shifted_sums k (c0, c1, c2) xs
      ≡ (c0 ⊕ limb_sum limb0 k xs, c1 ⊕ limb_sum limb1 k xs, c2 ⊕ limb_sum limb2 k xs)
unfolding shifted_sums limb_sum
shifted_sums-limb_sum [] k c0 c1 c2 =
    λ i. (sym (xor-zero c0) i, sym (xor-zero c1) i, sym (xor-zero c2) i)
shifted_sums-limb_sum (x ∷ xs) k c0 c1 c2 =
    shifted_sums-limb_sum xs (k + 1) (c0 ⊕ u128 (x.c0 <<< k)) (c1 ⊕ u128 (x.c1 <<< k))
      (c2 ⊕ u128 (x.c2 <<< k))
    ∙ (λ i. (
      xor_assoc c0 (u128 (x.c0 <<< k)) (limb_sum limb0 (k + 1) xs) i,
      xor_assoc c1 (u128 (x.c1 <<< k)) (limb_sum limb1 (k + 1) xs) i,
      xor_assoc c2 (u128 (x.c2 <<< k)) (limb_sum limb2 (k + 1) xs) i,
    ))

monomial_sum_limbs :
    (xs : List E)
    → monomial_sum xs
      ≡ new
          (reduce (limb_sum limb0 0 xs))
          (reduce (limb_sum limb1 0 xs))
          (reduce (limb_sum limb2 0 xs))
unfolding monomial_sum
monomial_sum_limbs xs =
    ap (λ (p : ℕ × ℕ × ℕ). let (a, b, c) = p in new (reduce a) (reduce b) (reduce c))
      (shifted_sums-limb_sum xs 0 0 0 0 ∙ (λ i. (
        zero-xor (limb_sum limb0 0 xs) i,
        zero-xor (limb_sum limb1 0 xs) i,
        zero-xor (limb_sum limb2 0 xs) i,
      )))

shifted_xor : (k a b : ℕ) → u128 ((a ⊕ b) <<< k) ≡ u128 (a <<< k) ⊕ u128 (b <<< k)
shifted_xor k a b = ap (λ (t : ℕ). u128 t) (xor-shl k a b) ∙ xor-mod 128 (a <<< k) (b <<< k)

limb_sum-set :
    (limb : E → ℕ) (xs : List E) (j k : ℕ) (w : E)
    → ((a b : E) → limb (a ⊞ b) ≡ limb a ⊕ limb b)
    → k < length xs
    → limb_sum limb j (set xs k (at xs k ⊞ w)) ≡ limb_sum limb j xs ⊕ u128 (limb w <<< (j + k))
unfolding limb_sum
limb_sum-set limb [] j k w linear h = absurd (omega arith)
limb_sum-set limb (x ∷ xs) j zero w linear h =
    let rest = limb_sum limb (j + 1) xs in
    let here : ℕ = u128 (limb x <<< j) in
    let added : ℕ = u128 (limb w <<< j) in
    let e : j ≡ j + 0 = omega arith in
    ap (λ (t : ℕ). u128 (t <<< j) ⊕ rest) (linear x w)
    ∙ ap (λ (t : ℕ). t ⊕ rest) (shifted_xor j (limb x) (limb w))
    ∙ xor_assoc here added rest
    ∙ ap (λ (t : ℕ). here ⊕ t) (xor_comm added rest)
    ∙ sym (xor_assoc here rest added)
    ∙ ap (λ (n : ℕ). here ⊕ rest ⊕ u128 (limb w <<< n)) e
limb_sum-set limb (x ∷ xs) j (suc k) w linear h =
    let here : ℕ = u128 (limb x <<< j) in
    let e : j + 1 + k ≡ j + suc k = omega arith in
    ap (λ (t : ℕ). here ⊕ t) (limb_sum-set limb xs (j + 1) k w linear (omega arith))
    ∙ sym (xor_assoc here (limb_sum limb (j + 1) xs) (u128 (limb w <<< (j + 1 + k))))
    ∙ ap (λ (n : ℕ). here ⊕ limb_sum limb (j + 1) xs ⊕ u128 (limb w <<< n)) e

-- a weight added at position `k`
pub monomial_sum-set :
    (xs : List E) (k : ℕ) (w : E)
    → k < length xs
    → monomial_sum (set xs k (at xs k ⊞ w)) ≡ monomial_sum xs ⊞ times_monomial w k
unfolding ◌⊞◌ times_monomial
monomial_sum-set xs k w h =
    let one_limb = λ (limb : E → ℕ) (linear : (a b : E) → limb (a ⊞ b) ≡ limb a ⊕ limb b).
      ap reduce (limb_sum-set limb xs 0 k w linear h)
      ∙ reduce-IsLinear (limb_sum limb 0 xs) (u128 (limb w <<< (0 + k))) in
    let e : 0 + k ≡ k = omega arith in
    let shown = λ (limb : E → ℕ).
      ap (λ (n : ℕ). reduce (limb_sum limb 0 xs) ⊕ reduce (u128 (limb w <<< n))) e in
    monomial_sum_limbs (set xs k (at xs k ⊞ w))
    ∙ E_path _ _ (one_limb limb0 (λ a b. refl) ∙ shown limb0)
        (one_limb limb1 (λ a b. refl) ∙ shown limb1) (one_limb limb2 (λ a b. refl) ∙ shown limb2)
    ∙ ap (λ s. s ⊞ times_monomial w k) (sym (monomial_sum_limbs xs))

pub monomial_sum_zeros : monomial_sum (replicate 64 zero_e) ≡ zero_e
unfolding monomial_sum shifted_sums reduce
monomial_sum_zeros = refl
