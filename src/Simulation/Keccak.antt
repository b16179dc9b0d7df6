-- ===== src/Simulation/Keccak.antt =====
-- The Keccak reduction on two sources.
use hardware_wallet_benchmar.Prelude.{ℕ, zero, suc, List, [], ◌∷◌, some, ◌+◌}
use hardware_wallet_benchmar.Keccak.Layer
use hardware_wallet_benchmar.Keccak.Open
use hardware_wallet_benchmar.Keccak.Layer.{Claim}
use hardware_wallet_benchmar.Transcript.Source.{Source}
use hardware_wallet_benchmar.Simulation.{
  Simulation, Sim, pure-Sim, bind-Sim, lift-Sim, sample-Sim, check-Sim,
}
use hardware_wallet_benchmar.Keccak.Shape.{
  KeccakShape, product_bits, slot_bits, pack_bits_const, local_bits, lane_bits,
}
use hardware_wallet_benchmar.Field.E.{E, one_e, ◌⊞◌, ◌⊠◌}
use hardware_wallet_benchmar.Simulation.Ops.{
  next_scalars-Sim, sumcheck-Sim, next_scalar-Sim, round_poly-Sim, samples-Sim,
}
use hardware_wallet_benchmar.Transcript.Multilinear.{poly_eval, fold_eval}

module _ {S S' : Type 0} {src : Source S} {src' : Source S'} (sim : Simulation src src') where
  point_rounds-Sim :
      (value scale : E) (coords : List E)
      → Sim sim
          (Layer.point_rounds src value scale coords)
          (Layer.point_rounds src' value scale coords)
  unfolding Layer.point_rounds
  point_rounds-Sim value scale [] = pure-Sim sim _
  point_rounds-Sim value scale (r ∷ coords) =
      bind-Sim sim (round_poly-Sim sim 3 value (some r)) (λ message.
        bind-Sim sim (sample-Sim sim) (λ challenge.
          bind-Sim sim
            (point_rounds-Sim ((one_e ⊞ r ⊞ challenge) ⊠ poly_eval message challenge)
              (scale ⊠ (one_e ⊞ r ⊞ challenge)) coords)
            (λ later. pure-Sim sim _)))

  verify_layer-Sim :
      (shape : KeccakShape) (step : ℕ) (claim : Claim)
      → Sim sim (Layer.verify_layer src shape step claim) (Layer.verify_layer src' shape step claim)
  unfolding Layer.verify_layer
  verify_layer-Sim shape step claim = bind-Sim sim (next_scalars-Sim sim product_bits) (λ product.
      check-Sim sim _ (
        bind-Sim sim (sample-Sim sim) (λ s.
          bind-Sim sim (point_rounds-Sim _ one_e claim.point) (λ rounds.
            bind-Sim sim (sumcheck-Sim sim _ 4 local_bits) (λ last.
              bind-Sim sim (next_scalars-Sim sim 3)
                (λ t. check-Sim sim _ (bind-Sim sim (sample-Sim sim) (λ beta. pure-Sim sim _))))))))

  open_slot-Sim :
      (shape : KeccakShape) (claim : Claim) (first count : ℕ) (value : E)
      → Sim sim
          (Open.open_slot src shape claim first count value)
          (Open.open_slot src' shape claim first count value)
  unfolding Open.open_slot
  open_slot-Sim shape claim first count value =
      bind-Sim sim (sumcheck-Sim sim value 3 (slot_bits shape)) (λ slot. pure-Sim sim _)

  open_outputs-Sim :
      (shape : KeccakShape) (lanes : List E) (segment committed : E) (inst : List E)
      → Sim sim
          (Open.open_outputs src shape lanes segment committed inst)
          (Open.open_outputs src' shape lanes segment committed inst)
  unfolding Open.open_outputs
  open_outputs-Sim shape lanes segment committed inst =
      bind-Sim sim (open_slot-Sim shape _ 1 _ committed)
        (λ opened. bind-Sim sim (next_scalar-Sim sim) (λ word. check-Sim sim _ (pure-Sim sim _)))

  open_inputs-Sim :
      (shape : KeccakShape) (claim : Claim)
      → Sim sim (Open.open_inputs src shape claim) (Open.open_inputs src' shape claim)
  unfolding Open.open_inputs
  open_inputs-Sim shape claim =
      bind-Sim sim (sumcheck-Sim sim claim.value 3 pack_bits_const) (λ low.
        bind-Sim sim (open_slot-Sim shape claim 0 _ _) (λ opened.
          bind-Sim sim (next_scalars-Sim sim 64) (λ slices.
            bind-Sim sim (lift-Sim sim (fold_eval claim.mu low.0))
              (λ folded. check-Sim sim _ (pure-Sim sim _)))))

  each_layer-Sim :
      (shape : KeccakShape) (step n : ℕ) (claim : Claim)
      → Sim sim (Open.each_layer src shape step n claim) (Open.each_layer src' shape step n claim)
  unfolding Open.each_layer
  each_layer-Sim shape step zero claim = pure-Sim sim _
  each_layer-Sim shape step (suc n) claim =
      bind-Sim sim (verify_layer-Sim shape step claim)
        (λ claim'. each_layer-Sim shape (step + 1) n claim')

  pub verify_keccak-Sim :
      (shape : KeccakShape) (inst output : List E)
      → Sim sim
          (Open.verify_keccak src shape inst output)
          (Open.verify_keccak src' shape inst output)
  unfolding Open.verify_keccak
  verify_keccak-Sim shape inst output = check-Sim sim _ (
      bind-Sim sim (sample-Sim sim) (λ segment.
        bind-Sim sim (samples-Sim sim lane_bits) (λ lane_point.
          bind-Sim sim (next_scalar-Sim sim) (λ committed.
            bind-Sim sim (each_layer-Sim shape 0 shape.depth _) (λ claim.
              bind-Sim sim (open_outputs-Sim shape _ segment committed inst) (λ outputs.
                bind-Sim sim (open_inputs-Sim shape claim) (λ inputs. pure-Sim sim _)))))))
