-- ===== src/Simulation/Walk.antt =====
-- The whole verifier on two sources.
use hardware_wallet_benchmar.Prelude.{List, [], map, take, drop, ◌+◌, leb, ◌&&◌, ◌≡◌, subst, sym}
use hardware_wallet_benchmar.Verify
use hardware_wallet_benchmar.Transcript.Ops.{start}
use hardware_wallet_benchmar.RingSwitch
use hardware_wallet_benchmar.Transcript.Source.{Source}
use hardware_wallet_benchmar.Simulation.{
  Simulation, Sim, bind-Sim, check-Sim, pure-Sim, lift-Sim, sample-Sim,
}
use hardware_wallet_benchmar.Field.E.{E}
use hardware_wallet_benchmar.Bytecode.{Program}
use hardware_wallet_benchmar.Whir.Config.{Limits}
use hardware_wallet_benchmar.RingSwitch.{RingWeight}
use hardware_wallet_benchmar.Hash.Digest.{Digest, from_halves}
use hardware_wallet_benchmar.Simulation.Whir.{verify_whir-Sim}
use hardware_wallet_benchmar.Simulation.Ops.{next_scalars-Sim, samples-Sim}
use hardware_wallet_benchmar.Stacked.{basis}
use hardware_wallet_benchmar.Bus.Layout.{build_layout}
use hardware_wallet_benchmar.Tables.Columns.{
  nat_at, n_tables, op_keccak, global_column_bases, keccak_out,
}
use hardware_wallet_benchmar.Transcript.Multilinear.{at}
use hardware_wallet_benchmar.Simulation.Bus.{bus_and_tables-Sim}
use hardware_wallet_benchmar.Simulation.Keccak.{verify_keccak-Sim}
use hardware_wallet_benchmar.Error.{require, announced_high_limb, pcs_inverse_rate, ok}
use hardware_wallet_benchmar.Verify.{high_limbs_zero, verify-inv, verify-accepts}

module _ {S S' : Type 0} {src : Source S} {src' : Source S'} (sim : Simulation src src') where
  ring_switch-Sim :
      (s : List E) (weight : RingWeight)
      → Sim sim (RingSwitch.ring_switch s weight) (RingSwitch.ring_switch s weight)
  unfolding RingSwitch.ring_switch
  ring_switch-Sim s weight = bind-Sim sim (samples-Sim sim 6) (λ challenges. pure-Sim sim _)

  walk-Sim :
      (program : Program) (public_input : Digest)
      → Sim sim (Verify.walk src program public_input) (Verify.walk src' program public_input)
  unfolding Verify.walk
  walk-Sim program public_input = bind-Sim sim (next_scalars-Sim sim (2 + n_tables)) (λ announced.
      let limbs = map (λ (value : E). value.c0) announced in
      let rate = nat_at limbs (1 + n_tables) in
      check-Sim sim (require (high_limbs_zero announced) announced_high_limb) (
        check-Sim sim (require (leb 1 rate && leb rate 4) pcs_inverse_rate) (
          bind-Sim sim
            (lift-Sim sim (build_layout program (nat_at limbs 0) (take n_tables (drop 1 limbs))))
            (λ (layout, slots). bind-Sim sim (next_scalars-Sim sim 2) (λ root_halves.
              bind-Sim sim (lift-Sim sim (from_halves (at root_halves 0) (at root_halves 1)))
                (λ root. bind-Sim sim (bus_and_tables-Sim sim program layout) (λ tables.
                  bind-Sim sim (sample-Sim sim) (λ public_challenge.
                    bind-Sim sim
                      (verify_keccak-Sim sim layout.keccak
                        (take (nat_at layout.heights op_keccak) tables.table_point)
                        (take 25
                          (drop (nat_at global_column_bases op_keccak + keccak_out) tables.values)))
                      (λ reduced.
                        bind-Sim sim
                          (ring_switch-Sim reduced.slices
                            (record { point = reduced.input_point; challenges = [] }))
                          (λ ring. bind-Sim sim (sample-Sim sim) (λ scale. pure-Sim sim _)))))))))))

  pub checks-Sim :
      (limits : Limits) (program : Program) (public_input : Digest)
      → Sim sim
          (Verify.checks src limits program public_input)
          (Verify.checks src' limits program public_input)
  unfolding Verify.checks
  checks-Sim limits program public_input = bind-Sim sim (walk-Sim program public_input) (λ stacked.
      verify_whir-Sim sim limits stacked.stack_log stacked.placed stacked.log_inverse_rate
        stacked.target stacked.root (basis stacked))

  -- What `verify` accepts from the one source, it accepts from the other, if that ends where it should.
  pub verify_transfer :
      (limits : Limits) (program : Program) (public_input : Digest) (s : S) (s' : S') (s1 : S)
      → Verify.verify src limits program public_input s ≡ ok s1
      → sim.Valid s1
      → sim.Rel s s'
      → (s1' : S') × sim.Rel s1 s1'
        × (src'.finish s1' ≡ ok tt → Verify.verify src' limits program public_input s' ≡ ok s1')
  unfolding start
  verify_transfer limits program public_input s s' s1 e valid r =
      let (u, run, ended, last) = verify-inv src limits program public_input s s1 e in
      let (s1', run', r1) =
        (checks-Sim limits program public_input).runs _ u tt s' run
          (subst sim.Valid (sym last) valid) r in
      (
        s1',
        subst (λ x. sim.Rel x s1') last r1,
        λ ended'. verify-accepts src' limits program public_input s' _ run' ended',
      )
