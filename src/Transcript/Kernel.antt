-- ===== src/Transcript/Kernel.antt =====
-- `eq_kernel` of leanvm-pow/ledger/verifier/src/transcript.rs against `eq_bits`.
use native.Mathlib.Nat.{div-add-mod, div-div-eq-div-mul, pow-suc, mod-eq_of_lt, mod-lt}
use hardware_wallet_benchmar.Prelude.{
  ℕ, zero, suc, List, [], ◌∷◌, ◌≡◌, sym, ap, ap₂, ◌∙◌, arith, ◌+◌, ◌*◌, ◌/◌, ◌%◌, ◌^◌, ◌<◌, ◌≤◌,
  inl, inr, ◌==◌, ==_iff, ==_false, Bool-cases, if◌then◌else◌, length, set, get_or-set_self,
  length-set, subst,
}
use hardware_wallet_benchmar.Transcript.Doubled.{kernel_round-Doubled}
use hardware_wallet_benchmar.Bits.Pow.{pow_pos, pow_add}
use hardware_wallet_benchmar.Field.E.{E, ◌⊞◌, ◌⊠◌, one_e, zero_e}
use hardware_wallet_benchmar.Field.E.Laws.{IsElement, mul-add, mul-one, mul-IsElement}
use hardware_wallet_benchmar.Transcript.Multilinear.{
  at, eq_bits, eq_bits_from, eq_kernel, kernel_round, kernel_rounds,
}

-- the next bit of a selector
next_half : (k i : ℕ) → i / 2 ^ suc k ≡ i / 2 ^ k / 2
next_half k i = ap (λ (t : ℕ). i / t) (pow-suc 2 k) ∙ sym (div-div-eq-div-mul i (2 ^ k) 2)

next_low : (k i : ℕ) → i % 2 ^ suc k ≡ i % 2 ^ k + 2 ^ k * (i / 2 ^ k % 2)
next_low k i =
    let p = 2 ^ k in
    let q = i / p in
    let split : q ≡ q / 2 * 2 + q % 2 = omega arith in
    omega (
      arith,
      div-add-mod i (2 ^ suc k),
      div-add-mod i p,
      ap (λ (t : ℕ). 2 ^ suc k * t) (next_half k i),
      ap (λ (t : ℕ). t * (q / 2)) (pow-suc 2 k),
      ap (λ (t : ℕ). p * t) split,
    )

pub one-IsElement : IsElement one_e
one-IsElement = record { word0 = omega arith; word1 = omega arith; word2 = omega arith }

mul_grows : (a b : ℕ) → 0 < b → a ≤ a * b
mul_grows a zero h = absurd (omega arith)
mul_grows a (suc b) h = omega arith

-- the factor of `eq_bits` at a coordinate
abbrev pub factor : ℕ → E → E
factor q r = if q % 2 == 1 then r else one_e ⊞ r

-- after the round of coordinate `k`, whose bit of `i` is that of `i / 2^k`
doubled_at :
    (k i : ℕ) (r : E) (out : List E)
    → 2 ^ k + 2 ^ k ≤ length out
    → ((c : ℕ) → c < 2 ^ k → IsElement (at out c))
    → at (kernel_round (2 ^ k) r out) (i % 2 ^ suc k) ≡ at out (i % 2 ^ k) ⊠ factor (i / 2 ^ k) r
doubled_at k i r out long h =
    let p = 2 ^ k in
    let c = i % p in
    let small : c < p = mod-lt i (pow_pos k) in
    let d = kernel_round-Doubled p r out (pow_pos k) long in
    let out1 = kernel_round p r out in
    elim (Bool-cases (i / p % 2 == 1)) [
      | inl odd ↦
          let e : i % 2 ^ suc k ≡ c + p =
            omega (arith, next_low k i, ap (λ (t : ℕ). p * t) ((==_iff (i / p % 2) 1).0 odd)) in
          ap (at out1) e
          ∙ d.high c (omega arith) (omega arith)
          ∙ ap (λ b. at out c ⊠ (if b then r else one_e ⊞ r)) (sym odd)
      | inr even ↦
          let zero_bit : i / p % 2 ≡ 0 = omega (arith, ==_false (i / p % 2) 1 even) in
          let e : i % 2 ^ suc k ≡ c = omega (arith, next_low k i, ap (λ (t : ℕ). p * t) zero_bit) in
          ap (at out1) e
          ∙ d.low c (omega arith) (omega arith)
          ∙ ap (λ x. x ⊞ at out c ⊠ r) (sym (mul-one (at out c) (h c small)))
          ∙ sym (mul-add (at out c) one_e r)
          ∙ ap (λ b. at out c ⊠ (if b then r else one_e ⊞ r)) (sym even)
    ]

rounds_at :
    (point : List E) (k i : ℕ) (out : List E)
    → 2 ^ (k + length point) ≤ length out
    → ((c : ℕ) → c < 2 ^ k → IsElement (at out c))
    → i < 2 ^ (k + length point)
    → at (kernel_rounds k point out) i ≡ eq_bits_from (at out (i % 2 ^ k)) (i / 2 ^ k) point
unfolding kernel_rounds eq_bits_from
rounds_at [] k i out long h low =
    let e : k + 0 ≡ k = omega arith in
    ap (at out) (sym (mod-eq_of_lt (subst (λ n. i < 2 ^ n) e low)))
rounds_at (r ∷ point) k i out long h low =
    let p = 2 ^ k in
    let out1 = kernel_round p r out in
    let e : k + suc (length point) ≡ suc k + length point = omega arith in
    let long' = subst (λ n. 2 ^ n ≤ length out) e long in
    let room : p + p ≤ length out = omega (
      arith,
      long',
      pow-suc 2 k,
      pow_add (suc k) (length point),
      mul_grows (2 ^ suc k) (2 ^ length point) (pow_pos (length point)),
    ) in
    let d = kernel_round-Doubled p r out (pow_pos k) room in
    let elements : (c : ℕ) → c < 2 ^ suc k → IsElement (at out1 c) = λ c l.
      subst (λ n. IsElement (at out1 n)) (mod-eq_of_lt l)
        (subst IsElement (sym (doubled_at k c r out room h))
          (mul-IsElement (at out (c % p)) (factor (c / p) r))) in
    let step : k + 1 ≡ suc k = omega arith in
    ap (λ n. at (kernel_rounds n point out1) i) step
    ∙ rounds_at point (suc k) i out1 (omega (arith, long', d.long)) elements
        (subst (λ n. i < 2 ^ n) e low)
    ∙ ap₂ (λ x q. eq_bits_from x q point) (doubled_at k i r out room h) (next_half k i)

-- Into an array of 2^n words at least, for a point of n coordinates, eq_kernel writes at each i below
-- 2^n what eq_bits gives for i and the point.
pub eq_kernel-eq_bits :
    (point out : List E) (i : ℕ)
    → 2 ^ length point ≤ length out
    → i < 2 ^ length point
    → at (eq_kernel point out) i ≡ eq_bits i point
unfolding eq_kernel eq_bits
eq_kernel-eq_bits point out i long low =
    let first = set out 0 one_e in
    let zeroth : i % 2 ^ 0 ≡ 0 = omega arith in
    let whole : i / 2 ^ 0 ≡ i = omega arith in
    let n : 0 + length point ≡ length point = omega arith in
    let start : at first 0 ≡ one_e =
      get_or-set_self out 0 one_e zero_e (omega (arith, long, pow_pos (length point))) in
    rounds_at point 0 i first
      (subst (λ k. 2 ^ k ≤ length first) (sym n) (omega (arith, long, length-set out 0 one_e)))
      (λ c l.
        let e : 0 ≡ c = omega arith in
        subst (λ k. IsElement (at first k)) e (subst IsElement (sym start) one-IsElement))
      (subst (λ k. i < 2 ^ k) (sym n) low)
    ∙ ap₂ (λ x q. eq_bits_from x q point) (ap (at first) zeroth ∙ start) whole
