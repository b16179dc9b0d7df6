-- ===== src/Keccak/Rmfe.antt =====
-- What `RMFE_EMBED` and `RMFE_PROJECT` are for: the product of two embeddings, projected, is the AND.
use hardware_wallet_benchmar.Prelude.{
  ℕ, List, [], ◌∷◌, ◌≡◌, refl, ap, ap₂, ◌∙◌, ◌%◌, ◌/◌, ◌*◌, ◌^◌, ◌<◌, bit_xor, bit_and, Bool, true,
  ◌==◌, ◌&&◌, ltb, ==_iff, sym, ltb→lt,
}
use hardware_wallet_benchmar.Bits.Xor.{◌⊕◌, xor_swap, xor-mod, xor-shr, xor-shl}
use hardware_wallet_benchmar.Bits.And.{xor-and, and_comm}
use hardware_wallet_benchmar.Bits.Poly.{◌⊗◌, xor-times, times-xor, digits_times}
use hardware_wallet_benchmar.Bits.Linear.{
  IsLinear, compose-IsLinear, linear_ext, agree_below, agree_below_sound, every_below,
  every_below_sound, both_left, both_right,
}
use hardware_wallet_benchmar.Keccak.Shape.{rmfe_embed, rmfe_project}
use hardware_wallet_benchmar.Field.Clmul.{clmul32, class_sum}
use hardware_wallet_benchmar.Tables.Columns.{nat_at}
use hardware_wallet_benchmar.Field.Clmul.Correct.{clmul32-eq-times}

-- the sum of the polynomials that the bits of `a` choose
unfoldable pub embed_by : List ℕ → ℕ → ℕ
embed_by [] a = 0
embed_by (e ∷ es) a = ((a % 2) ⊗ e) ⊕ embed_by es (a / 2)

-- one half of a word folded onto the other
unfoldable pub fold_half : ℕ → ℕ → ℕ
fold_half k p = p ⊕ p / 2 ^ k

-- the sum of the bits of a word
unfoldable pub parity : ℕ → ℕ
unfolding fold_half
parity p = fold_half 1 (fold_half 2 (fold_half 4 (fold_half 8 (fold_half 16 (fold_half 32 p))))) % 2

-- the bits that the masks read of `p`
unfoldable pub project_by : List ℕ → ℕ → ℕ
unfolding parity
project_by [] p = 0
project_by (mask ∷ masks) p = parity (bit_and p mask) ⊕ project_by masks p * 2 ^ 1

embed_by-IsLinear : (es : List ℕ) → IsLinear (embed_by es)
unfolding embed_by
embed_by-IsLinear [] a b = refl
embed_by-IsLinear (e ∷ es) a b =
    ap₂ bit_xor (ap (λ t. t ⊗ e) (xor-mod 1 a b) ∙ xor-times (a % 2) (b % 2) e)
      (ap (embed_by es) (xor-shr 1 a b) ∙ embed_by-IsLinear es (a / 2) (b / 2))
    ∙ xor_swap _ _ _ _

fold_half-IsLinear : (k : ℕ) → IsLinear (fold_half k)
unfolding fold_half
fold_half-IsLinear k a b = ap (λ t. (a ⊕ b) ⊕ t) (xor-shr k a b) ∙ xor_swap _ _ _ _

fold_then : (f : ℕ → ℕ) (k : ℕ) → IsLinear f → IsLinear (λ p. f (fold_half k p))
fold_then f k linear = compose-IsLinear f (fold_half k) linear (fold_half-IsLinear k)

parity-IsLinear : IsLinear parity
unfolding parity
parity-IsLinear = fold_then _ 32 (
    fold_then _ 16
      (fold_then _ 8 (fold_then _ 4 (fold_then _ 2 (fold_then (λ p. p % 2) 1 (xor-mod 1))))))

project_by-IsLinear : (masks : List ℕ) → IsLinear (project_by masks)
unfolding project_by
project_by-IsLinear [] a b = refl
project_by-IsLinear (mask ∷ masks) a b =
    ap₂ bit_xor (ap parity (xor-and mask a b) ∙ parity-IsLinear _ _)
      (ap (λ t. t * 2 ^ 1) (project_by-IsLinear masks a b) ∙ xor-shl 1 _ _)
    ∙ xor_swap _ _ _ _

unfoldable pub product_of : ℕ → ℕ → ℕ
product_of a b = project_by rmfe_project (embed_by rmfe_embed a ⊗ embed_by rmfe_embed b)

product_of-IsLinear_left : (b : ℕ) → IsLinear (λ a. product_of a b)
unfolding product_of
product_of-IsLinear_left b x y =
    ap (project_by rmfe_project) (
      ap (λ t. t ⊗ embed_by rmfe_embed b) (embed_by-IsLinear rmfe_embed x y)
      ∙ xor-times (embed_by rmfe_embed x) (embed_by rmfe_embed y) (embed_by rmfe_embed b))
    ∙ project_by-IsLinear rmfe_project _ _

product_of-IsLinear_right : (a : ℕ) → IsLinear (λ b. product_of a b)
unfolding product_of
product_of-IsLinear_right a x y =
    ap (project_by rmfe_project) (
      ap (λ t. embed_by rmfe_embed a ⊗ t) (embed_by-IsLinear rmfe_embed x y)
      ∙ times-xor (embed_by rmfe_embed a) (embed_by rmfe_embed x) (embed_by rmfe_embed y))
    ∙ project_by-IsLinear rmfe_project _ _

and-IsLinear_right : (a : ℕ) → IsLinear (λ b. bit_and a b)
and-IsLinear_right a x y =
    and_comm a (x ⊕ y) ∙ xor-and a x y ∙ ap₂ bit_xor (and_comm x a) (and_comm y a)

-- the product of two embeddings, by the program's own product of words
row_product : ℕ → ℕ → ℕ
row_product i j = project_by rmfe_project (clmul32 (nat_at rmfe_embed i) (nat_at rmfe_embed j))

-- do the products of single bits project to their AND?
pairs_agree : ℕ → Bool
pairs_agree i = agree_below 16 (row_product i) (λ j. bit_and (2 ^ i) (2 ^ j))

all_pairs_agree : every_below pairs_agree 16 ≡ true
unfolding every_below pairs_agree agree_below row_product project_by parity clmul32 class_sum
all_pairs_agree = refl

-- is a single bit's embedding its entry, within 32 bits?
single_bit : ℕ → Bool
single_bit i =
    (embed_by rmfe_embed (2 ^ i) == nat_at rmfe_embed i) && ltb (nat_at rmfe_embed i) (2 ^ 32)

single_bits : every_below single_bit 16 ≡ true
unfolding every_below embed_by single_bit ◌⊗◌ digits_times
single_bits = refl

pair_agrees :
    (i : ℕ) → i < 16 → (j : ℕ) → j < 16 → product_of (2 ^ i) (2 ^ j) ≡ bit_and (2 ^ i) (2 ^ j)
unfolding product_of pairs_agree single_bit row_product
pair_agrees i li j lj =
    let ei = every_below_sound single_bit 16 i li single_bits in
    let ej = every_below_sound single_bit 16 j lj single_bits in
    ap (project_by rmfe_project) (
      ap₂ (λ x y. x ⊗ y) ((==_iff _ _).0 (both_left _ _ ei)) ((==_iff _ _).0 (both_left _ _ ej))
      ∙ sym (
          clmul32-eq-times (nat_at rmfe_embed i) (nat_at rmfe_embed j)
            (ltb→lt _ _ (both_right _ _ ei)) (ltb→lt _ _ (both_right _ _ ej))))
    ∙ agree_below_sound 16 (row_product i) (λ k. bit_and (2 ^ i) (2 ^ k))
        (every_below_sound pairs_agree 16 i li all_pairs_agree) j lj

-- For two words below 2^16, the carry-less product of their embeddings by RMFE_EMBED, read by the
-- masks of RMFE_PROJECT, is their AND.
pub project-embed :
    (a b : ℕ)
    → a < 2 ^ 16
    → b < 2 ^ 16
    → project_by rmfe_project (embed_by rmfe_embed a ⊗ embed_by rmfe_embed b) ≡ bit_and a b
unfolding product_of
project-embed a b la lb =
    linear_ext 16 (λ x. product_of x b) (λ x. bit_and x b) (product_of-IsLinear_left b) (xor-and b)
      (λ i li.
        linear_ext 16 (λ y. product_of (2 ^ i) y) (λ y. bit_and (2 ^ i) y)
          (product_of-IsLinear_right (2 ^ i)) (and-IsLinear_right (2 ^ i)) (pair_agrees i li) b lb)
      a la
