-- ===== src/Transcript/Equality.antt =====
-- The equality polynomial, and the weight of padding rows, at points of the cube.
use native.Mathlib.Nat.{pow-suc}
use hardware_wallet_benchmar.Field.E.{E, new}
use hardware_wallet_benchmar.Prelude.{
  Bool, true, false, ℕ, zero, suc, ◌≡◌, refl, sym, ◌∙◌, ap, ap₂, List, [], ◌∷◌, ◌%◌, ◌/◌, ◌==◌, ◌<◌,
  ◌^◌, ◌≤◌, if◌then◌else◌, Bool, leb, Bool-cases, ltb, ◌&&◌, arith, not, length, inl, ◌||◌, true,
  for_range, ==_iff, inr, ==_false,
}
use hardware_wallet_benchmar.Transcript.Multilinear.{
  eq_eval, eq_eval_from, eq_bits, eq_bits_from, padding_weight, padding_loop, bit_e,
}
use hardware_wallet_benchmar.Field.E.{E, ◌⊞◌, ◌⊠◌, one_e, zero_e}
use hardware_wallet_benchmar.Field.Clmul.{clmul, clmul64, clmul32, class_sum, reduce}
use hardware_wallet_benchmar.Field.E.Laws.{add_self, add_assoc, zero-add, add_comm, add-zero}

-- the point of the cube that `selector` names, lowest bit first
unfoldable pub cube : ℕ → ℕ → List E
cube zero selector = []
cube (suc n) selector = bit_e selector ∷ cube n (selector / 2)

-- a bit, as an element
abbrev verdict : Bool → E
verdict b = if b then one_e else zero_e

bit_e-verdict : (n : ℕ) → bit_e n ≡ verdict (n % 2 == 1)
bit_e-verdict n = elim (Bool-cases (n % 2 == 1)) [
  | inl p ↦ ap (λ (t : ℕ). new t 0 0) ((==_iff (n % 2) 1).0 p) ∙ ap verdict (sym p)
  | inr p ↦
      let even : n % 2 ≡ 0 = omega (arith, ==_false (n % 2) 1 p) in
      ap (λ (t : ℕ). new t 0 0) even ∙ ap verdict (sym p)
]

-- one coordinate of the selector against one of the point
bit_factor :
    (selector : ℕ) (x : E)
    → one_e ⊞ bit_e selector ⊞ x ≡ (if selector % 2 == 1 then x else one_e ⊞ x)
bit_factor selector x =
    ap (λ t. one_e ⊞ t ⊞ x) (bit_e-verdict selector) ∙ by_bit (selector % 2 == 1)
  where
    by_bit : (b : Bool) → one_e ⊞ verdict b ⊞ x ≡ (if b then x else one_e ⊞ x)
    by_bit true = ap (λ t. t ⊞ x) (add_self one_e) ∙ zero-add x
    by_bit false = ap (λ t. t ⊞ x) (add-zero one_e)

-- eq_bits is eq_eval at the point of the cube that the selector's bits name.
pub eq_bits-eq_eval :
    (selector : ℕ) (point : List E)
    → eq_eval (cube (length point) selector) point ≡ eq_bits selector point
unfolding eq_eval eq_bits eq_eval_from eq_bits_from cube
eq_bits-eq_eval selector point = from point selector one_e
  where
    from :
        (point : List E) (selector : ℕ) (result : E)
        → eq_eval_from result (cube (length point) selector) point
          ≡ eq_bits_from result selector point
    from [] selector result = refl
    from (x ∷ point) selector result =
        ap (λ t. eq_eval_from (result ⊠ t) (cube (length point) (selector / 2)) point)
          (bit_factor selector x)
        ∙ from point (selector / 2) (result ⊠ (if selector % 2 == 1 then x else one_e ⊞ x))

-- eq_eval is symmetric in its two points.
eq_eval_comm : (left right : List E) → eq_eval left right ≡ eq_eval right left
unfolding eq_eval eq_eval_from
eq_eval_comm left right = from left right one_e
  where
    from :
        (left right : List E) (result : E)
        → eq_eval_from result left right ≡ eq_eval_from result right left
    from [] [] result = refl
    from [] (y ∷ right) result = refl
    from (x ∷ left) [] result = refl
    from (x ∷ left) (y ∷ right) result =
        ap (λ t. eq_eval_from (result ⊠ t) left right)
          (add_assoc one_e x y ∙ ap (λ t. one_e ⊞ t) (add_comm x y) ∙ sym (add_assoc one_e y x))
        ∙ from left right (result ⊠ (one_e ⊞ y ⊞ x))

-- one coordinate of `padding_weight`, at bits
abbrev compared : Bool → Bool → Bool → Bool
compared p q b = if p then q && b else q || b

padding_step :
    (p q b : Bool)
    → (one_e ⊞ verdict p) ⊠ verdict q ⊞ (one_e ⊞ verdict p ⊞ verdict q) ⊠ verdict b
      ≡ verdict (compared p q b)
unfolding ◌⊞◌ ◌⊠◌ clmul clmul64 clmul32 class_sum reduce for_range
padding_step true true true = refl
padding_step true true false = refl
padding_step true false true = refl
padding_step true false false = refl
padding_step false true true = refl
padding_step false true false = refl
padding_step false false true = refl
padding_step false false false = refl

padding_last : (p b : Bool) → (one_e ⊞ verdict p) ⊠ verdict b ≡ verdict (not p && b)
unfolding ◌⊞◌ ◌⊠◌ clmul clmul64 clmul32 class_sum reduce for_range
padding_last true true = refl
padding_last true false = refl
padding_last false true = refl
padding_last false false = refl

abbrev reached : ℕ → ℕ → Bool → Bool
reached n row b = ltb n row || ((n == row) && b)

reached_step :
    (n row : ℕ) (b : Bool)
    → reached (n / 2) (row / 2) (compared (n % 2 == 1) (row % 2 == 1) b) ≡ reached n row b
reached_step n row b = ground arith

reached_last : (n row : ℕ) (b : Bool) → row < 1 → n ≤ 1 → (not (n % 2 == 1) && b) ≡ reached n row b
reached_last n row b hr hn = ground arith

padding_loop-cube :
    (k n row : ℕ) (b : Bool)
    → row < 2 ^ k
    → n ≤ 2 ^ k
    → padding_loop (verdict b) n (cube k row) ≡ verdict (reached n row b)
unfolding padding_loop cube
padding_loop-cube zero n row b hr hn =
    ap (λ t. (one_e ⊞ t) ⊠ verdict b) (bit_e-verdict n)
    ∙ padding_last (n % 2 == 1) b
    ∙ ap verdict (reached_last n row b (omega arith) (omega arith))
padding_loop-cube (suc k) n row b hr hn =
    let p = n % 2 == 1 in
    let q = row % 2 == 1 in
    ap₂
      (λ s t.
        padding_loop ((one_e ⊞ s) ⊠ t ⊞ (one_e ⊞ s ⊞ t) ⊠ verdict b) (n / 2) (cube k (row / 2)))
      (bit_e-verdict n) (bit_e-verdict row)
    ∙ ap (λ t. padding_loop t (n / 2) (cube k (row / 2))) (padding_step p q b)
    ∙ padding_loop-cube k (n / 2) (row / 2) (compared p q b) (omega (arith, pow-suc 2 k))
        (omega (arith, pow-suc 2 k))
    ∙ ap verdict (reached_step n row b)

-- At the point of the cube that a row below 2^k names, for n up to 2^k, padding_weight is 1 if
-- the row is n or above and 0 if it is below.
pub padding_weight-cube :
    (k n row : ℕ)
    → row < 2 ^ k
    → n ≤ 2 ^ k
    → padding_weight (cube k row) n ≡ (if leb n row then one_e else zero_e)
unfolding padding_weight
padding_weight-cube k n row hr hn = padding_loop-cube k n row true hr hn ∙ ap verdict (last n row)
  where
    last : (n row : ℕ) → reached n row true ≡ leb n row
    last n row = ground arith
