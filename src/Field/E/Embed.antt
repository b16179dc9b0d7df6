-- ===== src/Field/E/Embed.antt =====
-- `K` in `E`, shifts by monomials, and `frobenius` (field.rs).
use hardware_wallet_benchmar.Prelude.{
  ℕ, ◌≡◌, refl, arith, sym, ◌∙◌, ap, ap₂, ◌<◌, ◌^◌, u128, ◌<<<◌, u64, suc, ◌*◌,
}
use native.Mathlib.Nat.{mod-eq_of_lt, pow-le-pow_right, pow-suc}
use hardware_wallet_benchmar.Field.E.{times_monomial, mul_k, frobenius, monomial, E, ◌⊞◌, of_k, ◌⊠◌}
use hardware_wallet_benchmar.Field.Clmul.{base_mul, reduce}
use hardware_wallet_benchmar.Bits.Xor.{◌⊕◌, xor_comm, zero-xor, xor_swap, xor_cancel, xor-zero}
use hardware_wallet_benchmar.Field.Clmul.Reduce.{base_mul-zero, base_mul_comm}
use hardware_wallet_benchmar.Field.E.Laws.{IsElement, E_path}
use hardware_wallet_benchmar.Field.E.Schoolbook.{mul_schoolbook}
use hardware_wallet_benchmar.Bits.PolyLaws.{times-lt, times-shl, times-one}
use hardware_wallet_benchmar.Bits.Poly.{◌⊗◌}
use hardware_wallet_benchmar.Field.Clmul.Words.{clmul-eq-times}

-- Multiplying by an embedded element of the base field is multiplying each limb by it.
pub mul-of_k : (a : E) (k : ℕ) → a ⊠ of_k k ≡ mul_k a k
unfolding mul_k
mul-of_k a k =
    mul_schoolbook a (of_k k)
    ∙ E_path _ _ (simp (base_mul-zero, xor-zero)) (simp (base_mul-zero, xor-zero, zero-xor))
        (simp (base_mul-zero, xor-zero, zero-xor))

-- The embedding of the base field respects products.
pub mul-of_k-of_k : (j k : ℕ) → of_k j ⊠ of_k k ≡ of_k (base_mul j k)
unfolding mul_k
mul-of_k-of_k j k =
    mul-of_k (of_k j) k
    ∙ E_path _ _ refl (base_mul_comm 0 k ∙ base_mul-zero k) (base_mul_comm 0 k ∙ base_mul-zero k)

shift_limb :
    (limb k : ℕ)
    → limb < 2 ^ 64
    → k < 64
    → reduce (u128 (limb <<< k)) ≡ base_mul limb (u64 (1 <<< k))
unfolding base_mul
shift_limb limb k h hk =
    let power : 1 <<< k < 2 ^ 64 = power-lt k hk in
    let one : u64 (1 <<< k) ≡ 1 <<< k = mod-eq_of_lt power in
    let small : limb <<< k < 2 ^ 128 = omega (
      arith,
      times-lt 64 64 limb (1 <<< k) h power,
      times-shl k limb 1,
      ap (λ (t : ℕ). t * 2 ^ k) (times-one limb),
    ) in
    ap reduce (
      mod-eq_of_lt small
      ∙ sym (ap (λ (t : ℕ). t * 2 ^ k) (times-one limb))
      ∙ sym (times-shl k limb 1)
      ∙ sym (ap₂ ◌⊗◌ (mod-eq_of_lt h) (mod-eq_of_lt (omega (arith, one, power)) ∙ one))
      ∙ sym (clmul-eq-times limb (u64 (1 <<< k))))
  where
    power-lt : (k : ℕ) → k < 64 → 1 <<< k < 2 ^ 64
    power-lt k hk = omega (
      arith,
      pow-le-pow_right {n = 2} (omega arith) {i = suc k} {j = 64} (omega arith),
      pow-suc 2 k,
    )

-- On an element of three words and for k below 64, times_monomial is the product with monomial.
pub times_monomial-mul :
    (a : E) (k : ℕ) → IsElement a → k < 64 → times_monomial a k ≡ a ⊠ monomial k
unfolding times_monomial monomial mul_k
times_monomial-mul a k h hk =
    E_path _ _ (shift_limb a.c0 k h.word0 hk) (shift_limb a.c1 k h.word1 hk)
      (shift_limb a.c2 k h.word2 hk)
    ∙ sym (mul-of_k a (u64 (1 <<< k)))

-- frobenius respects sums.
frobenius-add : (a b : E) → frobenius (a ⊞ b) ≡ frobenius a ⊞ frobenius b
unfolding frobenius ◌⊞◌
frobenius-add a b = E_path _ _ refl refl (xor_swap a.c1 b.c1 a.c2 b.c2)

-- Three applications of frobenius change nothing.
frobenius_thrice : (a : E) → frobenius (frobenius (frobenius a)) ≡ a
unfolding frobenius
frobenius_thrice a =
    E_path _ _ refl (ap (λ t. a.c2 ⊕ t) (xor_comm a.c1 a.c2) ∙ xor_cancel a.c2 a.c1) (
      ap (λ t. (a.c1 ⊕ a.c2) ⊕ t) (ap (λ t. a.c2 ⊕ t) (xor_comm a.c1 a.c2) ∙ xor_cancel a.c2 a.c1)
      ∙ xor_comm (a.c1 ⊕ a.c2) a.c1
      ∙ xor_cancel a.c1 a.c2)
