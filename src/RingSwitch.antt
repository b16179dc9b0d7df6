-- ===== src/RingSwitch.antt =====
-- leanvm-pow/ledger/verifier/src/ring_switch.rs: 64 slice claims become one claim on `q_keccak`.
use hardware_wallet_benchmar.Prelude.{
  ℕ, zero, suc, List, [], ◌∷◌, ◌+◌, if◌then◌else◌, bit_and, ◌==◌, ◌%◌,
}
use hardware_wallet_benchmar.Field.E.{E, zero_e, one_e, gen, square, ◌⊞◌, ◌⊠◌}
use hardware_wallet_benchmar.Transcript.Monad.{M, ◌>>=◌, pure}
use hardware_wallet_benchmar.Transcript.Ops.{samples}

abbrev pub ring_map_shifts : List ℕ
ring_map_shifts = 32 ∷ 16 ∷ 8 ∷ 4 ∷ 2 ∷ 1 ∷ []

-- `shift` squarings
unfoldable pub squared : ℕ → E → E
squared zero value = value
squared (suc shift) value = squared shift (square value)

-- the stages of the drawn map: `a + f a^(2^shift)`
unfoldable pub ring_map_stages : E → List E → List ℕ → E
ring_map_stages value (challenge ∷ challenges) (shift ∷ shifts) =
    ring_map_stages (value ⊞ challenge ⊠ squared shift value) challenges shifts
ring_map_stages value [] shifts = value
ring_map_stages value (challenge ∷ challenges) [] = value

unfoldable pub ring_map : E → List E → E
ring_map value challenges = ring_map_stages value challenges ring_map_shifts

-- `c_k`: the product over the stages whose shift `k` has a bit of
unfoldable pub coefficient : ℕ → E → List E → List ℕ → E
coefficient k product (f ∷ challenges) (shift ∷ shifts) =
    coefficient k (if bit_and k shift == 0 then product else product ⊠ squared (k % shift) f)
      challenges shifts
coefficient k product [] shifts = product
coefficient k product (f ∷ challenges) [] = product

-- `coefficients`, from `k` on
unfoldable pub coefficients_from : ℕ → ℕ → List E → List E
coefficients_from k zero challenges = []
coefficients_from k (suc n) challenges =
    coefficient k one_e challenges ring_map_shifts ∷ coefficients_from (k + 1) n challenges

pub record RingWeight : Type 0 where
  pub point : List E
  pub challenges : List E

-- one term's product, over the coordinates that both points have
unfoldable pub weight_product : E → List E → List E → E
weight_product product (value ∷ frobenius) (challenge ∷ r_prime) =
    weight_product (product ⊠ (one_e ⊞ value ⊞ challenge)) frobenius r_prime
weight_product product [] r_prime = product
weight_product product (value ∷ frobenius) [] = product

-- the coordinates that `zip` reached, squared
unfoldable pub square_zipped : List E → List E → List E
square_zipped (value ∷ frobenius) (challenge ∷ r_prime) =
    square value ∷ square_zipped frobenius r_prime
square_zipped [] r_prime = []
square_zipped (value ∷ frobenius) [] = value ∷ frobenius

unfoldable pub weight_terms : E → List E → List E → List E → E
weight_terms total [] frobenius r_prime = total
weight_terms total (c ∷ table) frobenius r_prime =
    weight_terms (total ⊞ weight_product c frobenius r_prime) table
      (square_zipped frobenius r_prime) r_prime

-- `W` at `r_prime`
unfoldable pub weight_at : RingWeight → List E → E
weight_at w r_prime = weight_terms zero_e (coefficients_from 0 64 w.challenges) w.point r_prime

-- the target, by Horner from the top
unfoldable pub ring_target : List E → List E → E
ring_target [] challenges = zero_e
ring_target (value ∷ s) challenges = ring_target s challenges ⊠ gen ⊞ ring_map value challenges

unfoldable pub ring_switch : {S : Type 0} → List E → RingWeight → M S (E × RingWeight)
ring_switch s weight = do
  challenges ← samples 6
  pure (ring_target s challenges, record weight { challenges = challenges })
