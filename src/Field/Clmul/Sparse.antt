-- ===== src/Field/Clmul/Sparse.antt =====
-- Why `clmul32` may multiply integers: in numbers whose hexadecimal digits are 0 or 1 a digit of
-- the product counts to less than 16, so nothing carries and its parity is the carry-less digit.
use mathlib.Core.Path.{subst}
use hardware_wallet_benchmar.Prelude.{
  ℕ, zero, suc, ◌+◌, ◌*◌, ◌/◌, ◌%◌, ◌^◌, ◌≤◌, ◌<◌, ◌≡◌, refl, arith, bit_and, ap, ap₂, bit_xor, ◌∙◌,
  sym,
}
use hardware_wallet_benchmar.Bits.Xor.{◌⊕◌, xor-shl, xor-zero}
use hardware_wallet_benchmar.Bits.Step.{bit_and_step, bit_xor_step}
use hardware_wallet_benchmar.Bits.Poly.{◌⊗◌, xor-times, zero-times, one-times}
use hardware_wallet_benchmar.Bits.And.{and-zero, xor-eq-add, and_comm}
use hardware_wallet_benchmar.Bits.PolyLaws.{shl-times}

-- `z` has `n` hexadecimal digits, each at most `m`.
abbrev pub DigitsLe : ℕ → ℕ → ℕ → Type 0
DigitsLe m zero z = z ≡ 0
DigitsLe m (suc n) z = (z % 16 ≤ m) × DigitsLe m n (z / 16)

-- 0x11...1 with `n` ones
unfoldable pub ones : ℕ → ℕ
ones zero = 0
ones (suc n) = 16 * ones n + 1

pub and-ones : (n z : ℕ) → bit_and z (ones (suc n)) ≡ 16 * bit_and (z / 16) (ones n) + z % 2
unfolding ones
and-ones n z =
    let m = ones n in
    let e1 : (16 * m + 1) / 2 ≡ 8 * m = omega arith in
    let e2 : 8 * m / 2 ≡ 4 * m = omega arith in
    let e3 : 4 * m / 2 ≡ 2 * m = omega arith in
    let e4 : 2 * m / 2 ≡ m = omega arith in
    let d : z / 2 / 2 / 2 / 2 ≡ z / 16 = omega arith in
    omega (
      arith,
      bit_and_step z (16 * m + 1),
      bit_and_step (z / 2) (8 * m),
      bit_and_step (z / 2 / 2) (4 * m),
      bit_and_step (z / 2 / 2 / 2) (2 * m),
      ap (bit_and (z / 2)) e1,
      ap (bit_and (z / 2 / 2)) e2,
      ap (bit_and (z / 2 / 2 / 2)) e3,
      ap₂ bit_and d e4,
    )

xor_sixteen :
    (u v d e : ℕ) → d < 2 → e < 2 → (16 * u + d) ⊕ (16 * v + e) ≡ 16 * (u ⊕ v) + (d + e) % 2
xor_sixteen u v d e p q =
    let u1 : (16 * u + d) / 2 ≡ 8 * u = omega arith in
    let v1 : (16 * v + e) / 2 ≡ 8 * v = omega arith in
    omega (arith, bit_xor_step (16 * u + d) (16 * v + e), ap₂ bit_xor u1 v1, xor_eight u v)
  where
    xor_eight : (x y : ℕ) → 8 * x ⊕ 8 * y ≡ 8 * (x ⊕ y)
    xor_eight x y =
        let ex : x * 2 ^ 3 ≡ 8 * x = omega arith in
        let ey : y * 2 ^ 3 ≡ 8 * y = omega arith in omega (arith, xor-shl 3 x y, ap₂ bit_xor ex ey)

-- Digits that do not carry: the lowest bits of a sum are the `^` of the lowest bits.
add-DigitsLe :
    (n p q x y : ℕ) → p + q ≤ 15 → DigitsLe p n x → DigitsLe q n y → DigitsLe (p + q) n (x + y)
add-DigitsLe zero p q x y h dx dy = omega arith
add-DigitsLe (suc n) p q x y h dx dy =
    let e : (x + y) / 16 ≡ x / 16 + y / 16 = omega arith in
    (omega arith, rw e (add-DigitsLe n p q (x / 16) (y / 16) h dx.1 dy.1))

and-ones-add :
    (n p q x y : ℕ)
    → p + q ≤ 15
    → DigitsLe p n x
    → DigitsLe q n y
    → bit_and (x + y) (ones n) ≡ bit_and x (ones n) ⊕ bit_and y (ones n)
unfolding ones
and-ones-add zero p q x y h dx dy =
    and-zero (x + y) ∙ sym (ap₂ bit_xor (and-zero x) (and-zero y) ∙ xor-zero 0)
and-ones-add (suc n) p q x y h dx dy =
    let e : (x + y) / 16 ≡ x / 16 + y / 16 = omega arith in
    omega (
      arith,
      and-ones n (x + y),
      ap (λ t. bit_and t (ones n)) e,
      and-ones-add n p q (x / 16) (y / 16) h dx.1 dy.1,
      xor_sixteen (bit_and (x / 16) (ones n)) (bit_and (y / 16) (ones n)) (x % 2) (y % 2)
          (omega arith) (omega arith),
      ap₂ bit_xor (and-ones n x) (and-ones n y),
    )

sparse_and : (n z : ℕ) → DigitsLe 1 n z → bit_and z (ones n) ≡ z
unfolding ones
sparse_and zero z h = omega (arith, and-zero z)
sparse_and (suc n) z h = omega (arith, and-ones n z, sparse_and n (z / 16) h.1)

pub and-ones-DigitsLe : (n z : ℕ) → DigitsLe 1 n (bit_and z (ones n))
unfolding ones
and-ones-DigitsLe zero z = and-zero z
and-ones-DigitsLe (suc n) z =
    let e : bit_and z (ones (suc n)) / 16 ≡ bit_and (z / 16) (ones n) =
      omega (arith, and-ones n z) in
    (omega (arith, and-ones n z), rw e (and-ones-DigitsLe n (z / 16)))

longer : (m n z : ℕ) → DigitsLe m n z → DigitsLe m (suc n) z
longer m zero z h = omega arith
longer m (suc n) z h = (h.0, longer m n (z / 16) h.1)

-- the digits of a product of `suc n` by `m` digits
abbrev pub total : ℕ → ℕ → ℕ
total zero m = m
total (suc n) m = suc (total n m)

longer_by : (m n k z : ℕ) → DigitsLe m k z → DigitsLe m (total n k) z
longer_by m zero k z h = h
longer_by m (suc n) k z h = longer m (total n k) z (longer_by m n k z h)

one_digit :
    (d m b : ℕ) → d ≤ 1 → DigitsLe 1 m b → DigitsLe 1 m (d * b) × (bit_and (d * b) (ones m) ≡ d ⊗ b)
one_digit zero m b h s =
    let e : 0 * b ≡ 0 = omega arith in
    (
      rw e (zeros_sparse m),
      ap (λ t. bit_and t (ones m)) e ∙ and_comm 0 (ones m) ∙ and-zero (ones m) ∙ sym (zero-times b),
    )
  where
    zeros_sparse : (k : ℕ) → DigitsLe 1 k 0
    zeros_sparse zero = refl
    zeros_sparse (suc k) = (omega arith, zeros_sparse k)
one_digit (suc zero) m b h s =
    let e : 1 * b ≡ b = omega arith in
    (rw e s, ap (λ t. bit_and t (ones m)) e ∙ sparse_and m b s ∙ sym (one-times b))
one_digit (suc (suc d)) m b h s = absurd (omega arith)

hex_step : (a b : ℕ) → a ⊗ b ≡ 16 * (a / 16 ⊗ b) ⊕ a % 16 ⊗ b
hex_step a b =
    let h : a % 16 < 2 ^ 4 = omega arith in
    let e : a ≡ a / 16 * 2 ^ 4 ⊕ a % 16 = omega (arith, xor-eq-add 4 (a / 16) (a % 16) h) in
    let g : (a / 16 ⊗ b) * 2 ^ 4 ≡ 16 * (a / 16 ⊗ b) = omega arith in
    ap (λ t. t ⊗ b) e
    ∙ xor-times (a / 16 * 2 ^ 4) (a % 16) b
    ∙ ap (λ t. t ⊕ a % 16 ⊗ b) (shl-times 4 (a / 16) b ∙ g)

-- The integer product of sparse numbers, masked to its lowest bits, is the carry-less product.
pub sparse_product :
    (n m a b : ℕ)
    → suc n ≤ 15
    → DigitsLe 1 (suc n) a
    → DigitsLe 1 m b
    → DigitsLe (suc n) (total n m) (a * b) × (bit_and (a * b) (ones (total n m)) ≡ a ⊗ b)
sparse_product zero m a b h sa sb = one_digit a m b (omega arith) sb
sparse_product (suc n) m a b h sa sb =
    let ih = sparse_product n m (a / 16) b (omega arith) sa.1 sb in
    let x : ℕ = a / 16 * b in
    let k : ℕ = total n m in
    let d = one_digit (a % 16) (suc k) b sa.0 (longer 1 k b (longer_by 1 n m b sb)) in
    let sixteen : 16 * x / 16 ≡ x = omega arith in
    let dx : DigitsLe (suc n) (suc k) (16 * x) = (omega arith, rw sixteen ih.0) in
    let apart : a ≡ 16 * (a / 16) + a % 16 = omega arith in
    let e : a * b ≡ 16 * x + a % 16 * b = omega (arith, ap (λ (t : ℕ). t * b) apart) in
    let s : suc n + 1 ≡ suc (suc n) = omega arith in
    (
      rw e (
          subst (λ t. DigitsLe t (suc k) (16 * x + a % 16 * b)) s
            (add-DigitsLe (suc k) (suc n) 1 (16 * x) (a % 16 * b) (omega arith) dx d.0)),
      ap (λ t. bit_and t (ones (suc k))) e
          ∙ and-ones-add (suc k) (suc n) 1 (16 * x) (a % 16 * b) (omega arith) dx d.0
          ∙ ap₂ bit_xor
              (omega (arith, and-ones k (16 * x), ap (λ t. bit_and t (ones k)) sixteen, ih.1)) d.1
          ∙ sym (hex_step a b),
    )

-- Masking past the last digit changes nothing.
pub ones_past : (m n z : ℕ) → DigitsLe m n z → bit_and z (ones (suc n)) ≡ bit_and z (ones n)
unfolding ones
ones_past m zero z h =
    ap (λ t. bit_and t (ones 1)) h ∙ and_comm 0 (ones 1) ∙ and-zero (ones 1) ∙ sym (and-zero z)
ones_past m (suc n) z h =
    omega (arith, and-ones (suc n) z, and-ones n z, ones_past m n (z / 16) h.1)
