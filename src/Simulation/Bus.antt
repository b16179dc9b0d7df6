-- ===== src/Simulation/Bus.antt =====
-- The bus and the table sumcheck on two sources.
use hardware_wallet_benchmar.Prelude.{
  not, leb, max, length, ◌&&◌, ℕ, zero, suc, List, [], ◌∷◌, some, ◌==◌, ◌-◌, false, true, take,
  ◌++◌, ◌+◌,
}
use hardware_wallet_benchmar.Bus.Gkr
use hardware_wallet_benchmar.Bus.Balance
use hardware_wallet_benchmar.Bus.TableSumcheck
use hardware_wallet_benchmar.Transcript.Source.{Source}
use hardware_wallet_benchmar.Simulation.{
  Simulation, Sim, pure-Sim, bind-Sim, lift-Sim, sample-Sim, if-Sim, check-Sim,
}
use hardware_wallet_benchmar.Bus.Layout.{Layout}
use hardware_wallet_benchmar.Bytecode.{Program, evaluate}
use hardware_wallet_benchmar.Field.E.{E, is_zero}
use hardware_wallet_benchmar.Bus.Balance.{Bus}
use hardware_wallet_benchmar.Simulation.Ops.{
  next_scalars-Sim, next_scalar-Sim, round_poly-Sim, samples-Sim, sumcheck-Sim,
}
use hardware_wallet_benchmar.Transcript.Multilinear.{poly_eval}
use hardware_wallet_benchmar.Bus.Blocks.{side_layout}
use hardware_wallet_benchmar.Error.{require, bus_count_zero, announced_table_sizes}
use hardware_wallet_benchmar.Tables.Columns.{bus_bits}
use hardware_wallet_benchmar.Bus.Gkr.{max_point}

module _ {S S' : Type 0} {src : Source S} {src' : Source S'} (sim : Simulation src src') where
  layer_rounds-Sim :
      (n : ℕ) (claim : E) (coords : List E)
      → Sim sim (Gkr.layer_rounds src n claim coords) (Gkr.layer_rounds src' n claim coords)
  unfolding Gkr.layer_rounds
  layer_rounds-Sim n claim [] = pure-Sim sim _
  layer_rounds-Sim n claim (r ∷ coords) =
      bind-Sim sim (round_poly-Sim sim n claim (some r)) (λ message.
        bind-Sim sim (sample-Sim sim) (λ challenge.
          bind-Sim sim (layer_rounds-Sim n (poly_eval message challenge) coords)
            (λ later. pure-Sim sim _)))

  next_children-Sim :
      (n size : ℕ) → Sim sim (Gkr.next_children src n size) (Gkr.next_children src' n size)
  unfolding Gkr.next_children
  next_children-Sim zero size = pure-Sim sim _
  next_children-Sim (suc n) size =
      bind-Sim sim (next_scalars-Sim sim size)
        (λ child. bind-Sim sim (next_children-Sim n size) (λ children. pure-Sim sim _))

  fold_all-Sim :
      (children : List (List E)) (y : List E)
      → Sim sim (Gkr.fold_all src children y) (Gkr.fold_all src' children y)
  unfolding Gkr.fold_all
  fold_all-Sim [] y = pure-Sim sim _
  fold_all-Sim (child ∷ children) y =
      bind-Sim sim (lift-Sim sim _)
        (λ value. bind-Sim sim (fold_all-Sim children y) (λ values. pure-Sim sim _))

  gkr_layer_step-Sim :
      (step : ℕ) (point values : List E)
      → Sim sim
          (Gkr.gkr_layer_step src step point values)
          (Gkr.gkr_layer_step src' step point values)
  unfolding Gkr.gkr_layer_step
  gkr_layer_step-Sim step point values = bind-Sim sim (sample-Sim sim) (λ combiner.
      bind-Sim sim (layer_rounds-Sim _ _ point) (λ rounds.
        bind-Sim sim (next_children-Sim 3 _) (λ children. check-Sim sim _ (
          bind-Sim sim (samples-Sim sim step) (λ y.
            bind-Sim sim (fold_all-Sim children y)
              (λ values'. check-Sim sim _ (pure-Sim sim _)))))))

  gkr_layers-Sim :
      (fuel layer : ℕ) (point values : List E)
      → Sim sim
          (Gkr.gkr_layers src fuel layer point values)
          (Gkr.gkr_layers src' fuel layer point values)
  unfolding Gkr.gkr_layers
  gkr_layers-Sim zero layer point values = pure-Sim sim _
  gkr_layers-Sim (suc fuel) layer point values = if-Sim sim (layer == 0) (pure-Sim sim _) (
      bind-Sim sim (gkr_layer_step-Sim _ point values)
        (λ next. gkr_layers-Sim fuel (layer - Gkr.step_of layer) (next.0) (next.1)))

  verify_gkr-Sim : (depth : ℕ) → Sim sim (Gkr.verify_gkr src depth) (Gkr.verify_gkr src' depth)
  unfolding Gkr.verify_gkr
  verify_gkr-Sim depth = bind-Sim sim (next_scalar-Sim sim) (λ shared.
      bind-Sim sim (next_scalar-Sim sim)
        (λ count. bind-Sim sim (gkr_layers-Sim depth depth [] _) (λ last. pure-Sim sim _)))

  verify_bus_balance-Sim :
      (program : Program) (layout : Layout)
      → Sim sim
          (Balance.verify_bus_balance src program layout)
          (Balance.verify_bus_balance src' program layout)
  unfolding Balance.verify_bus_balance
  verify_bus_balance-Sim program layout =
      bind-Sim sim (lift-Sim sim (side_layout layout false)) (λ flush_layout.
        bind-Sim sim (samples-Sim sim _) (λ alphas. bind-Sim sim (sample-Sim sim) (λ beta.
          bind-Sim sim (verify_gkr-Sim _) (λ reduced.
            check-Sim sim (require (not (is_zero reduced.0)) bus_count_zero) (
              check-Sim sim
                (require
                  (leb (max layout.log_memory layout.log_bytecode) (length reduced.1)
                    && leb (layout.log_bytecode + bus_bits) max_point)
                  announced_table_sizes)
                (bind-Sim sim (next_scalars-Sim sim 3) (λ memory.
                  bind-Sim sim (next_scalar-Sim sim) (λ memory_final.
                    bind-Sim sim (next_scalar-Sim sim) (λ bytecode_final.
                      bind-Sim sim
                        (lift-Sim sim
                          (evaluate program (take layout.log_bytecode reduced.1 ++ alphas)))
                        (λ bytecode_value.
                          bind-Sim sim (lift-Sim sim (side_layout layout true))
                            (λ count_layout. pure-Sim sim _)))))))))))

  next_tables-Sim :
      (widths : List ℕ)
      → Sim sim (TableSumcheck.next_tables src widths) (TableSumcheck.next_tables src' widths)
  unfolding TableSumcheck.next_tables
  next_tables-Sim [] = pure-Sim sim _
  next_tables-Sim (width ∷ widths) =
      bind-Sim sim (next_scalars-Sim sim width)
        (λ values. bind-Sim sim (next_tables-Sim widths) (λ rest. pure-Sim sim _))

  table_sumcheck-Sim :
      (layout : Layout) (bus : Bus) (xi_powers : List E) (target : E)
      → Sim sim
          (TableSumcheck.table_sumcheck src layout bus xi_powers target)
          (TableSumcheck.table_sumcheck src' layout bus xi_powers target)
  unfolding TableSumcheck.table_sumcheck
  table_sumcheck-Sim layout bus xi_powers target = check-Sim sim _ (
      bind-Sim sim (sumcheck-Sim sim target 4 _) (λ rounds.
        bind-Sim sim (next_tables-Sim _) (λ tables.
          bind-Sim sim (lift-Sim sim (side_layout layout false)) (λ flush_layout.
            bind-Sim sim (lift-Sim sim (side_layout layout true))
              (λ count_layout. check-Sim sim _ (pure-Sim sim _))))))

  pub bus_and_tables-Sim :
      (program : Program) (layout : Layout)
      → Sim sim
          (TableSumcheck.bus_and_tables src program layout)
          (TableSumcheck.bus_and_tables src' program layout)
  unfolding TableSumcheck.bus_and_tables
  bus_and_tables-Sim program layout = bind-Sim sim (verify_bus_balance-Sim program layout) (λ bus.
      bind-Sim sim (sample-Sim sim)
        (λ xi. bind-Sim sim (table_sumcheck-Sim layout bus _ _) (λ reduced. pure-Sim sim _)))
