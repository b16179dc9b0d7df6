-- ===== src/Simulation/Ops.antt =====
-- The transcript's methods on two sources.
use hardware_wallet_benchmar.Prelude.{ℕ, zero, suc, Option, some, none, [], ◌∷◌}
use hardware_wallet_benchmar.Transcript.Source.{Source}
use hardware_wallet_benchmar.Transcript.Ops
use hardware_wallet_benchmar.Transcript.Ops.{samples}
use hardware_wallet_benchmar.Field.E.{E}
use hardware_wallet_benchmar.Simulation.{
  Simulation, Sim, bind-Sim, then-Sim, pure-Sim, lift-Sim, sample-Sim, absorb-Sim, read-Sim,
  scalar_request,
}
use hardware_wallet_benchmar.Transcript.Multilinear.{poly_eval}

module _ {S S' : Type 0} {src : Source S} {src' : Source S'} (sim : Simulation src src') where
  pub samples-Sim : (n : ℕ) → Sim sim (samples n) (samples n)
  unfolding samples
  samples-Sim zero = pure-Sim sim []
  samples-Sim (suc n) =
      bind-Sim sim (sample-Sim sim)
        (λ value. bind-Sim sim (samples-Sim n) (λ values. pure-Sim sim (value ∷ values)))

  next-Sim : Sim sim (Ops.next src) (Ops.next src')
  unfolding Ops.next
  next-Sim =
      bind-Sim sim (read-Sim sim scalar_request) (λ bytes. pure-Sim sim (Ops.from_bytes bytes))

  pub next_scalar-Sim : Sim sim (Ops.next_scalar src) (Ops.next_scalar src')
  unfolding Ops.next_scalar
  next_scalar-Sim =
      bind-Sim sim next-Sim (λ value. then-Sim sim (absorb-Sim sim value _) (pure-Sim sim value))

  pub next_scalars-Sim : (n : ℕ) → Sim sim (Ops.next_scalars src n) (Ops.next_scalars src' n)
  unfolding Ops.next_scalars
  next_scalars-Sim zero = pure-Sim sim []
  next_scalars-Sim (suc n) =
      bind-Sim sim next_scalar-Sim
        (λ value. bind-Sim sim (next_scalars-Sim n) (λ values. pure-Sim sim (value ∷ values)))

  pub grind_check-Sim : (bits : ℕ) → Sim sim (Ops.grind_check src bits) (Ops.grind_check src' bits)
  unfolding Ops.grind_check
  grind_check-Sim bits = bind-Sim sim next-Sim (λ nonce.
      then-Sim sim (absorb-Sim sim nonce _)
        (bind-Sim sim (sample-Sim sim) (λ challenge. lift-Sim sim _)))

  pub round_poly-Sim :
      (count : ℕ) (claim : E) (r : Option E)
      → Sim sim (Ops.round_poly src count claim r) (Ops.round_poly src' count claim r)
  unfolding Ops.round_poly
  round_poly-Sim count claim none =
      bind-Sim sim next_scalar-Sim
        (λ c0. bind-Sim sim (next_scalars-Sim _) (λ tail. pure-Sim sim _))
  round_poly-Sim count claim (some r) = bind-Sim sim (next_scalars-Sim _) (λ tail. pure-Sim sim _)

  pub sumcheck-Sim :
      (claim : E) (count n : ℕ)
      → Sim sim (Ops.sumcheck src claim count n) (Ops.sumcheck src' claim count n)
  unfolding Ops.sumcheck
  sumcheck-Sim claim count zero = pure-Sim sim ([], claim)
  sumcheck-Sim claim count (suc n) = bind-Sim sim (round_poly-Sim count claim none) (λ message.
      bind-Sim sim (sample-Sim sim) (λ challenge.
        bind-Sim sim (sumcheck-Sim (poly_eval message challenge) count n)
          (λ later. pure-Sim sim _)))
