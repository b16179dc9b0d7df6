-- ===== src/Transcript/Multilinear.antt =====
-- The multilinear helpers. An index is read from its lowest bit.
use hardware_wallet_benchmar.Prelude.{
  ℕ, List, [], ◌∷◌, ◌%◌, ltb, set, for_range, if◌then◌else◌, ◌/◌, ◌+◌, get_or, ◌==◌, length, ◌^◌,
  ◌*◌, ◌&&◌,
}
use hardware_wallet_benchmar.Error.{Result, ok, require, multilinear_size, ◌>>◌}
use hardware_wallet_benchmar.Field.E.{E, new, zero_e, one_e, ◌⊞◌, ◌⊠◌}
use hardware_wallet_benchmar.Field.E

abbrev pub at : List E → ℕ → E
at xs i = get_or xs i zero_e

-- one round of `eq_kernel`, at coordinate `r`: the inner loop over `i < half`
unfoldable pub kernel_round : ℕ → E → List E → List E
unfolding for_range
kernel_round half r out =
    for_range half 0
      (λ i o. let high = at o i ⊠ r in let o' = set o (i + half) high in set o' i (at o' i ⊞ high))
      out

-- the rounds from `k` on
unfoldable pub kernel_rounds : ℕ → List E → List E → List E
kernel_rounds k [] out = out
kernel_rounds k (r ∷ point) out = kernel_rounds (k + 1) point (kernel_round (2 ^ k) r out)

-- `out`, with `eq(i, point)` at every `i < 2^len(point)`
unfoldable pub eq_kernel : List E → List E → List E
eq_kernel point out = kernel_rounds 0 point (set out 0 one_e)

-- one coordinate of `fold_eval`: the inner loop over `i < len / 2`
unfoldable pub fold_round : ℕ → E → List E → List E
unfolding for_range
fold_round half r values =
    for_range half 0 (λ i v. set v i (at v (2 * i) ⊞ r ⊠ (at v (2 * i) ⊞ at v (2 * i + 1)))) values

unfoldable pub fold_rounds : ℕ → List E → List E → List E
fold_rounds len [] values = values
fold_rounds len (r ∷ point) values = fold_rounds (len / 2) point (fold_round (len / 2) r values)

unfoldable pub fold_eval : List E → List E → Result E
fold_eval values point = do
  require (ltb (length point) 32 && (length values == 2 ^ length point)) multilinear_size
  ok (at (fold_rounds (length values) point values) 0)

-- The loops of `eq_eval`, `eq_bits` and `dot`, from the running result.
unfoldable pub eq_eval_from : E → List E → List E → E
eq_eval_from result (x ∷ left) (y ∷ right) = eq_eval_from (result ⊠ (one_e ⊞ x ⊞ y)) left right
eq_eval_from result (x ∷ left) [] = result
eq_eval_from result [] right = result

unfoldable pub eq_eval : List E → List E → E
eq_eval left right = eq_eval_from one_e left right

unfoldable pub eq_bits_from : E → ℕ → List E → E
eq_bits_from result selector [] = result
eq_bits_from result selector (x ∷ point) =
    eq_bits_from (result ⊠ (if selector % 2 == 1 then x else one_e ⊞ x)) (selector / 2) point

unfoldable pub eq_bits : ℕ → List E → E
eq_bits selector point = eq_bits_from one_e selector point

unfoldable pub dot_from : E → List E → List E → E
dot_from result (x ∷ left) (y ∷ right) = dot_from (result ⊞ x ⊠ y) left right
dot_from result (x ∷ left) [] = result
dot_from result [] right = result

unfoldable pub dot : List E → List E → E
dot left right = dot_from zero_e left right

-- the closure `bit`
abbrev pub bit_e : ℕ → E
bit_e n = new (n % 2) 0 0

-- the loop of `padding_weight`, `n` shifted to the current coordinate
unfoldable pub padding_loop : E → ℕ → List E → E
padding_loop low n [] = (one_e ⊞ bit_e n) ⊠ low
padding_loop low n (r ∷ point) =
    padding_loop ((one_e ⊞ bit_e n) ⊠ r ⊞ (one_e ⊞ bit_e n ⊞ r) ⊠ low) (n / 2) point

unfoldable pub padding_weight : List E → ℕ → E
padding_weight point n = padding_loop one_e n point

unfoldable pub index_loop : E → E → List E → E
index_loop result power [] = result
index_loop result power (challenge ∷ point) =
    index_loop (result ⊠ (one_e ⊞ challenge ⊠ (one_e ⊞ power))) (E.square power) point

unfoldable pub index_mle : List E → E
index_mle point = index_loop one_e E.gen point

-- Horner's rule, from the last coefficient
unfoldable pub poly_eval : List E → E → E
poly_eval [] point = zero_e
poly_eval (c ∷ coefficients) point = poly_eval coefficients point ⊠ point ⊞ c
