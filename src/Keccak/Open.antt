-- ===== src/Keccak/Open.antt =====
-- `verify_keccak`: the reduction, and the openings of the committed outputs and inputs.
use hardware_wallet_benchmar.Keccak.Weights.{initial, lane_combination}
use hardware_wallet_benchmar.Field.E.{E, zero_e, ◌⊞◌, ◌⊠◌, ◌≟◌}
use hardware_wallet_benchmar.Transcript.Source.{Source}
use hardware_wallet_benchmar.Prelude.{
  for_range, List, ℕ, suc, replicate, set, ◌*◌, ◌++◌, ◌∷◌, ◌+◌, [], zero, length, ◌-◌, ◌==◌, ◌&&◌,
  leb, take, drop,
}
use hardware_wallet_benchmar.Keccak.Shape.{
  KeccakShape, pack, pack_bits, segments, pack_bits_const, slot_bits, lane_bits,
}
use hardware_wallet_benchmar.Keccak.Layer.{Claim, verify_layer, segment_kernel}
use hardware_wallet_benchmar.Transcript.Monad.{M, pure, ◌>>=◌, ◌>>◌, lift}
use hardware_wallet_benchmar.Hash.Permutation.{state_lanes}
use hardware_wallet_benchmar.Transcript.Multilinear.{at, eq_kernel, fold_eval, dot}
use hardware_wallet_benchmar.Transcript.Ops.{sumcheck, next_scalar, next_scalars, sample, samples}
use hardware_wallet_benchmar.Error.{
  require, keccak_output_opening, keccak_input_opening, announced_table_sizes,
}
use hardware_wallet_benchmar.Bus.Gkr.{max_point}

-- the weight of each lane of `count` segments from `first` on, added to `wt`
unfoldable pub slot_weights : List E → List E → ℕ → ℕ → List E
unfolding for_range
slot_weights slot_eq segment_eq first count =
    for_range count 0
      (λ segment wt.
        for_range state_lanes 0
          (λ lane wt'. set wt' lane (
            at wt' lane
            ⊞ at slot_eq (state_lanes * (first + segment) + lane) ⊠ at segment_eq segment))
          wt)
      (replicate state_lanes zero_e)

-- what the reduction leaves: the outputs' point and claim, the inputs' point and slices
pub record Reduced : Type 0 where
  pub word : E
  pub output_point : List E
  pub input_point : List E
  pub slices : List E

module _ {S : Type 0} (src : Source S) where
  -- `open`: the slot's point, the weight on each slice there, and the value left
  unfoldable pub open_slot : KeccakShape → Claim → ℕ → ℕ → E → M S (List E × List E × E)
  open_slot shape claim first count value = do
    (slot, value') ← sumcheck src value 3 (slot_bits shape)
    let slot_eq = eq_kernel slot (replicate 64 zero_e)
    let wt = slot_weights slot_eq (segment_kernel shape claim) first count
    pure (slot, lane_combination claim.weights wt, value')

  unfoldable pub open_outputs : KeccakShape → List E → E → E → List E → M S (E × List E)
  open_outputs shape lanes segment committed inst = do
    let first : Claim = record {
      value = zero_e;
      mu = replicate pack zero_e;
      point = replicate (pack_bits shape) zero_e ++ segment ∷ [];
      weights = initial lanes;
    }
    (slot, weights, value) ← open_slot shape first 1 (segments shape - 1) committed
    word ← next_scalar src
    lift (require ((at weights 0 ⊠ word) ≟ value) keccak_output_opening)
    pure (word, inst ++ slot)

  unfoldable pub open_inputs : KeccakShape → Claim → M S (List E × List E)
  open_inputs shape claim = do
    (low, value) ← sumcheck src claim.value 3 pack_bits_const
    (slot, weights, value') ← open_slot shape claim 0 (segments shape) value
    slices ← next_scalars src 64
    folded ← lift (fold_eval claim.mu low)
    lift (require ((folded ⊠ dot weights slices) ≟ value') keccak_input_opening)
    pure (low ++ take (pack_bits shape) claim.point ++ slot, slices)

  -- the layers from `step` on, `n` of them
  unfoldable pub each_layer : KeccakShape → ℕ → ℕ → Claim → M S Claim
  each_layer shape step zero claim = pure claim
  each_layer shape step (suc n) claim = do
    claim' ← verify_layer src shape step claim
    each_layer shape (step + 1) n claim'

  unfoldable pub verify_keccak : KeccakShape → List E → List E → M S Reduced
  verify_keccak shape inst output = do
    lift (
        require
          (length inst == shape.log_steps
            && length output == state_lanes
            && leb pack_bits_const shape.log_steps
            && segments shape == 2
            && leb (shape.log_steps + slot_bits shape) max_point)
          announced_table_sizes)
    segment ← sample
    lane_point ← samples lane_bits
    let lanes = eq_kernel lane_point (replicate 32 zero_e)
    let segment_eq = eq_kernel (segment ∷ []) (replicate 2 zero_e)
    let last = at segment_eq (segments shape - 1) ⊠ dot (take state_lanes lanes) output
    committed ← next_scalar src
    let mu = eq_kernel (take pack_bits_const inst) (replicate pack zero_e)
    let start : Claim = record {
      value = committed ⊞ last;
      mu = mu;
      point = drop pack_bits_const inst ++ segment ∷ [];
      weights = initial lanes;
    }
    claim ← each_layer shape 0 shape.depth start
    (word, output_point) ← open_outputs shape lanes segment committed inst
    (input_point, slices) ← open_inputs shape claim
    pure (record {
      word = word;
      output_point = output_point;
      input_point = input_point;
      slices = slices;
    })
