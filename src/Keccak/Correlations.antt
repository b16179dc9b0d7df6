-- ===== src/Keccak/Correlations.antt =====
-- `correlations`: the sums of products of two eq kernels over `z`, one for each shift.
use hardware_wallet_benchmar.Bits.Xor.{◌⊕◌}
use hardware_wallet_benchmar.Field.E.{E, one_e, ◌⊞◌, zero_e, ◌≟◌, ◌⊠◌}
use hardware_wallet_benchmar.Prelude.{
  List, for_range, ℕ, set, if◌then◌else◌, ◌∷◌, ◌+◌, [], bit_or, ◌/◌, replicate, get_or, ◌<<<◌,
}
use hardware_wallet_benchmar.Transcript.Multilinear.{at}

-- `pair[k]`: the products of the two kernels at coordinate `k`
unfoldable pub pair_at : E → E → List (List E)
pair_at p q =
    let p0 = one_e ⊞ p in
    let q0 = one_e ⊞ q in ((p0 ⊠ q0) ∷ (p0 ⊠ q) ∷ []) ∷ ((p ⊠ q0) ∷ (p ⊠ q) ∷ []) ∷ []

unfoldable pub pairs : List E → List E → List (List (List E))
unfolding pair_at
pairs (p ∷ ps) (q ∷ qs) = pair_at p q ∷ pairs ps qs
pairs [] qs = []
pairs (p ∷ ps) [] = []

-- the loop over `z`, at carry `c` of weight `weight`
unfoldable pub carry_term : List (List E) → ℕ → ℕ → E → List E → List E
unfolding for_range
carry_term pair r c weight next =
    if weight ≟ zero_e
    then next
    else for_range 2 0
        (λ z n.
          let i = (z + r + c) / 2 in set n i (at n i ⊞ weight ⊠ at (get_or pair z []) (z ⊕ r ⊕ c)))
        next

-- `next`, at the shift's bit `r`
unfoldable pub next_carry : List (List E) → ℕ → List E → List E
unfolding carry_term for_range
next_carry pair r carry =
    for_range 2 0 (λ c n. carry_term pair r c (at carry c) n) (zero_e ∷ zero_e ∷ [])

-- the walk over the bits from `k` on
unfoldable pub walk : List (List (List E)) → ℕ → ℕ → List E → List E → List E
unfolding next_carry
walk [] k shift carry out = set out shift (at carry 0 ⊞ at carry 1)
walk (pair ∷ later) k shift carry out =
    let out' = walk later (k + 1) (bit_or shift (0 <<< k)) (next_carry pair 0 carry) out in
    walk later (k + 1) (bit_or shift (1 <<< k)) (next_carry pair 1 carry) out'

unfoldable pub correlations : List E → List E → List E
unfolding walk
correlations p q = walk (pairs p q) 0 0 (one_e ∷ zero_e ∷ []) (replicate 64 zero_e)
