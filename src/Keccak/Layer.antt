-- ===== src/Keccak/Layer.antt =====
-- `Claim`, `instance_weights` and `verify_layer`: one round of the permutation.
use hardware_wallet_benchmar.Keccak.Weights.{Weights, layer, lane0_sum, dot_eq, along}
use hardware_wallet_benchmar.Transcript.Source.{Source}
use hardware_wallet_benchmar.Prelude.{
  List, ℕ, [], ◌∷◌, drop, suc, if◌then◌else◌, ◌+◌, ◌>>>◌, ◌%◌, replicate, ◌==◌, ◌*◌, map, ◌-◌, ◌/◌,
  zero, some, take, ◌^◌,
}
use hardware_wallet_benchmar.Field.E.{E, one_e, ◌⊞◌, ◌⊠◌, zero_e, ◌≟◌}
use hardware_wallet_benchmar.Keccak.Shape.{
  KeccakShape, pack_bits, embed_bits, rmfe_embed, rmfe_project, product_bits, segments, local_bits,
  z_bits, lane_bits,
}
use hardware_wallet_benchmar.Transcript.Multilinear.{eq_kernel, at, poly_eval}
use hardware_wallet_benchmar.Bus.TableSumcheck.{powers_from}
use hardware_wallet_benchmar.Transcript.Monad.{M, pure, ◌>>=◌, ◌>>◌, lift}
use hardware_wallet_benchmar.Tables.Columns.{nat_at}
use hardware_wallet_benchmar.Hash.Permutation.{keccak_rc, state_lanes}
use hardware_wallet_benchmar.Transcript.Ops.{round_poly, next_scalars, sample, sum_from, sumcheck}
use hardware_wallet_benchmar.Error.{require, keccak_product, keccak_layer}

pub record Claim : Type 0 where
  pub value : E
  pub mu : List E
  -- a pack index, then a segment index
  pub point : List E
  pub weights : Weights

-- the sum of the powers that the bits of `e` choose, `e` shifted to the current power
unfoldable pub embed_loop : E → ℕ → List E → E
embed_loop value e [] = value
embed_loop value e (power ∷ powers) =
    embed_loop (if e % 2 == 1 then value ⊞ power else value) (e / 2) powers

unfoldable pub instance_weights : E → List E
unfolding embed_loop
instance_weights s =
    let powers = powers_from one_e embed_bits s in map (λ e. embed_loop zero_e e powers) rmfe_embed

-- coefficient `c`'s functional: the sum of the `mu[i]` whose mask has bit `c`
unfoldable pub functional_loop : ℕ → E → List ℕ → List E → E
functional_loop c functional (mask ∷ masks) (m ∷ mu) =
    functional_loop c (if (mask >>> c) % 2 == 1 then functional ⊞ m else functional) masks mu
functional_loop c functional [] mu = functional
functional_loop c functional (mask ∷ masks) [] = functional

unfoldable pub projected_loop : ℕ → List E → List E → E → E
unfolding functional_loop
projected_loop c mu [] projected = projected
projected_loop c mu (coefficient ∷ product) projected =
    projected_loop (c + 1) mu product
      (projected ⊞ functional_loop c zero_e rmfe_project mu ⊠ coefficient)

-- the segments' eq kernel, at the claim's point
unfoldable pub segment_kernel : KeccakShape → Claim → List E
segment_kernel shape claim = eq_kernel (drop (pack_bits shape) claim.point) (replicate 2 zero_e)

-- what iota adds, over the segments from `segment` on
unfoldable pub iota_loop : KeccakShape → ℕ → Weights → ℕ → List E → E → E
iota_loop shape step weights segment [] iota = iota
iota_loop shape step weights segment (weight ∷ later) iota =
    let constant = nat_at keccak_rc (shape.depth * (segment + 1) - step - 1) in
    iota_loop shape step weights (segment + 1) later (iota ⊞ weight ⊠ lane0_sum weights constant)

-- `lam`
unfoldable pub row_weights : List E → E → ℕ → ℕ → List E
row_weights lw beta zero lane = []
row_weights lw beta (suc n) lane =
    (at lw lane ⊞ beta ⊠ (at lw (along lane 4) ⊞ beta ⊠ at lw (along lane 3)))
    ∷ row_weights lw beta n (lane + 1)

module _ {S : Type 0} (src : Source S) where
  -- the rounds of the pack and the segment: the challenges, the value and the scale
  unfoldable pub point_rounds : E → E → List E → M S (List E × E × E)
  point_rounds value scale [] = pure ([], value, scale)
  point_rounds value scale (r ∷ coords) = do
    message ← round_poly src 3 value (some r)
    challenge ← sample
    let factor = one_e ⊞ r ⊞ challenge
    (challenges, value', scale') ←
        point_rounds (factor ⊠ poly_eval message challenge) (scale ⊠ factor) coords
    pure (challenge ∷ challenges, value', scale')

  unfoldable pub verify_layer : KeccakShape → ℕ → Claim → M S Claim
  verify_layer shape step claim = do
    product ← next_scalars src product_bits
    let projected = projected_loop 0 claim.mu product zero_e
    let iota =
        iota_loop shape step claim.weights 0 (take (segments shape) (segment_kernel shape claim))
          zero_e
    let mu_sum = sum_from zero_e claim.mu
    lift (require ((projected ⊞ iota ⊠ mu_sum) ≟ claim.value) keccak_product)
    s ← sample
    let mu = instance_weights s
    let kappa = sum_from zero_e mu
    (point, value, scale) ← point_rounds (poly_eval product s) one_e claim.point
    (local, final) ← sumcheck src value 4 local_bits
    t ← next_scalars src 3
    let and_form = kappa ⊠ at t 0 ⊞ (kappa ⊞ at t 1) ⊠ at t 2
    lift (require ((scale ⊠ dot_eq claim.weights local ⊠ and_form) ≟ final) keccak_layer)
    beta ← sample
    let lw = eq_kernel (drop z_bits local) (replicate (2 ^ lane_bits) zero_e)
    pure (record {
      value = at t 0 ⊞ beta ⊠ (at t 1 ⊞ beta ⊠ at t 2);
      mu = mu;
      point = point;
      weights = layer (take z_bits local) (row_weights lw beta state_lanes 0);
    })
