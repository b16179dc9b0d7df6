-- ===== src/Simulation/Whir.antt =====
-- The stacked opening on two sources.
use hardware_wallet_benchmar.Prelude.{
  ℕ, zero, suc, List, [], ◌∷◌, none, Bool, false, ◌==◌, ◌++◌, true,
}
use hardware_wallet_benchmar.Whir.Merkle
use hardware_wallet_benchmar.Whir.Queries
use hardware_wallet_benchmar.Whir.Verify
use hardware_wallet_benchmar.Transcript.Source.{Source}
use hardware_wallet_benchmar.Simulation.{
  Simulation, Sim, bind-Sim, pure-Sim, lift-Sim, if-Sim, read-Sim, check-Sim, sample-Sim,
  row_request, then-Sim, sibling_request, batch_request,
}
use hardware_wallet_benchmar.Whir.Config.{Limits, derive_config}
use hardware_wallet_benchmar.Field.E.{E, zero_e}
use hardware_wallet_benchmar.Whir.Verify.{Progress, Level, Glued}
use hardware_wallet_benchmar.Hash.Digest.{Digest, from_halves}
use hardware_wallet_benchmar.Simulation.Ops.{
  next_scalars-Sim, round_poly-Sim, grind_check-Sim, samples-Sim, next_scalar-Sim,
}
use hardware_wallet_benchmar.Transcript.Placement.{log2_strict}
use hardware_wallet_benchmar.Transcript.Multilinear.{at, fold_eval, poly_eval}
use hardware_wallet_benchmar.Error.{err, whir_shape}

module _ {S S' : Type 0} {src : Source S} {src' : Source S'} (sim : Simulation src src') where
  read_rows-Sim :
      (row_words leaf_words : ℕ) (level0 : Bool) (lane_weights : List E) (positions : List ℕ)
      → Sim sim
          (Merkle.read_rows src row_words leaf_words level0 lane_weights positions)
          (Merkle.read_rows src' row_words leaf_words level0 lane_weights positions)
  unfolding Merkle.read_rows
  read_rows-Sim row_words leaf_words level0 lane_weights [] = pure-Sim sim _
  read_rows-Sim row_words leaf_words level0 lane_weights (position ∷ positions) =
      bind-Sim sim (read-Sim sim (row_request row_words)) (λ row.
        bind-Sim sim (read_rows-Sim row_words leaf_words level0 lane_weights positions)
          (λ rows. pure-Sim sim _))

  with_sibling-Sim :
      (node : Merkle.Node) → Sim sim (Merkle.with_sibling src node) (Merkle.with_sibling src' node)
  unfolding Merkle.with_sibling
  with_sibling-Sim (index, digest) =
      bind-Sim sim (read-Sim sim sibling_request) (λ sibling. pure-Sim sim _)

  climb_level-Sim :
      (nodes : List Merkle.Node)
      → Sim sim (Merkle.climb_level src nodes) (Merkle.climb_level src' nodes)
  unfolding Merkle.climb_level
  climb_level-Sim [] = pure-Sim sim _
  climb_level-Sim (node ∷ []) = bind-Sim sim (with_sibling-Sim node) (λ parent. pure-Sim sim _)
  climb_level-Sim ((index, digest) ∷ (index', digest') ∷ nodes) =
      if-Sim sim (Merkle.paired src index index')
        (bind-Sim sim (climb_level-Sim nodes) (λ parents. pure-Sim sim _))
        (bind-Sim sim (with_sibling-Sim (index, digest)) (λ parent.
          bind-Sim sim (climb_level-Sim ((index', digest') ∷ nodes)) (λ parents. pure-Sim sim _)))

  climb-Sim :
      (height : ℕ) (nodes : List Merkle.Node)
      → Sim sim (Merkle.climb src height nodes) (Merkle.climb src' height nodes)
  unfolding Merkle.climb
  climb-Sim zero nodes = pure-Sim sim nodes
  climb-Sim (suc height) nodes =
      bind-Sim sim (climb_level-Sim nodes) (λ parents. climb-Sim height parents)

  open_rows-Sim :
      (root : Digest) (block_length : ℕ) (queries : List ℕ) (row_words leaf_words : ℕ)
      (level0 : Bool) (lane_weights : List E)
      → Sim sim
          (Merkle.open_rows src root block_length queries row_words leaf_words level0 lane_weights)
          (Merkle.open_rows src' root block_length queries row_words leaf_words level0 lane_weights)
  unfolding Merkle.open_rows Merkle.is_root
  open_rows-Sim root block_length queries row_words leaf_words level0 lane_weights =
      bind-Sim sim (lift-Sim sim (log2_strict block_length)) (λ height. check-Sim sim _ (
        then-Sim sim (read-Sim sim batch_request) (
          bind-Sim sim (read_rows-Sim row_words leaf_words level0 lane_weights _)
            (λ rows. bind-Sim sim (climb-Sim height _) (λ top. check-Sim sim _ (pure-Sim sim _))))))

  sample_loop-Sim :
      (fuel depth per_word block_length left : ℕ)
      → Sim sim
          (Queries.sample_loop fuel depth per_word block_length left)
          (Queries.sample_loop fuel depth per_word block_length left)
  unfolding Queries.sample_loop
  sample_loop-Sim zero depth per_word block_length left = pure-Sim sim _
  sample_loop-Sim (suc fuel) depth per_word block_length left =
      if-Sim sim (left == 0) (pure-Sim sim _) (
        bind-Sim sim (sample-Sim sim) (λ challenge.
          bind-Sim sim (sample_loop-Sim fuel depth per_word block_length _)
            (λ queries. pure-Sim sim _)))

  sample_queries-Sim :
      (block_length count : ℕ)
      → Sim sim
          (Queries.sample_queries block_length count)
          (Queries.sample_queries block_length count)
  unfolding Queries.sample_queries
  sample_queries-Sim block_length count =
      bind-Sim sim (lift-Sim sim (log2_strict block_length))
        (λ depth. check-Sim sim _ (sample_loop-Sim count depth _ block_length count))

  fold_rounds-Sim :
      (n : ℕ) (p : Progress) → Sim sim (Verify.fold_rounds src n p) (Verify.fold_rounds src' n p)
  unfolding Verify.fold_rounds
  fold_rounds-Sim zero p = pure-Sim sim p
  fold_rounds-Sim (suc n) p = bind-Sim sim (sample-Sim sim) (λ challenge.
      bind-Sim sim (round_poly-Sim sim 3 _ none)
        (λ quad. fold_rounds-Sim n (record p { quad = quad; folds = p.folds ++ challenge ∷ [] })))

  query_level-Sim :
      (limits : Limits) (log_n placed : ℕ) (level : Level) (level0 : Bool) (level_folds : List E)
      (pending : List (List E × Glued)) (next_root : Digest) (p : Progress)
      → Sim sim
          (Verify.query_level src limits log_n placed level level0 level_folds pending next_root p)
          (Verify.query_level src' limits log_n placed level level0 level_folds pending next_root p)
  unfolding Verify.query_level
  query_level-Sim limits log_n placed level level0 level_folds pending next_root p =
      then-Sim sim (grind_check-Sim sim _) (
        check-Sim sim _ (
          bind-Sim sim (sample_queries-Sim _ level.query_count) (λ qs.
            bind-Sim sim (sample-Sim sim) (λ lam.
              bind-Sim sim (open_rows-Sim p.root _ qs _ _ level0 _)
                (λ opened. bind-Sim sim (round_poly-Sim sim 3 _ none) (λ intro. pure-Sim sim _))))))

  tail_rounds-Sim :
      (n : ℕ) (quad : List E) (target : E)
      → Sim sim (Verify.tail_rounds src n quad target) (Verify.tail_rounds src' n quad target)
  unfolding Verify.tail_rounds
  tail_rounds-Sim zero quad target = pure-Sim sim _
  tail_rounds-Sim (suc n) quad target = bind-Sim sim (sample-Sim sim) (λ challenge.
      bind-Sim sim
        (if-Sim sim (n == 0) (pure-Sim sim quad)
          (round_poly-Sim sim 3 (poly_eval quad challenge) none))
        (λ quad'.
          bind-Sim sim (tail_rounds-Sim n quad' (poly_eval quad challenge))
            (λ later. pure-Sim sim _)))

  middle_level-Sim :
      (limits : Limits) (log_n placed : ℕ) (level : Level) (level0 : Bool) (p0 : Progress)
      → Sim sim
          (Verify.middle_level src limits log_n placed level level0 p0)
          (Verify.middle_level src' limits log_n placed level level0 p0)
  unfolding Verify.middle_level
  middle_level-Sim limits log_n placed level level0 p0 =
      bind-Sim sim (fold_rounds-Sim level.fold_count p0) (λ p.
        bind-Sim sim (next_scalars-Sim sim 2) (λ halves.
          bind-Sim sim (lift-Sim sim (from_halves (at halves 0) (at halves 1))) (λ next_root.
            check-Sim sim _ (
              bind-Sim sim (samples-Sim sim _) (λ points.
                bind-Sim sim (next_scalar-Sim sim) (λ ood_value.
                  bind-Sim sim (round_poly-Sim sim 3 ood_value none) (λ intro.
                    query_level-Sim limits log_n placed level level0 _ _ next_root _)))))))

  final_level-Sim :
      (limits : Limits) (log_n placed lane_folds : ℕ) (evaluate_basis : List E → E) (level : Level)
      (level0 : Bool) (p0 : Progress)
      → Sim sim
          (Verify.final_level src limits log_n placed lane_folds evaluate_basis level level0 p0)
          (Verify.final_level src' limits log_n placed lane_folds evaluate_basis level level0 p0)
  unfolding Verify.final_level
  final_level-Sim limits log_n placed lane_folds evaluate_basis level level0 p0 =
      bind-Sim sim (fold_rounds-Sim level.fold_count p0) (λ p1. check-Sim sim _ (
        bind-Sim sim (next_scalars-Sim sim _) (λ residual.
          bind-Sim sim (query_level-Sim limits log_n placed level level0 _ [] p1.root p1) (λ p.
            bind-Sim sim (tail_rounds-Sim _ p.quad zero_e) (λ tail.
              bind-Sim sim (lift-Sim sim (fold_eval residual tail.0)) (λ value. lift-Sim sim _))))))

  each_level-Sim :
      (limits : Limits) (log_n placed lane_folds : ℕ) (evaluate_basis : List E → E) (level0 : Bool)
      (levels : List Level) (p : Progress)
      → Sim sim
          (Verify.each_level src limits log_n placed lane_folds evaluate_basis level0 levels p)
          (Verify.each_level src' limits log_n placed lane_folds evaluate_basis level0 levels p)
  unfolding Verify.each_level
  each_level-Sim limits log_n placed lane_folds evaluate_basis level0 [] p =
      lift-Sim sim (err whir_shape)
  each_level-Sim limits log_n placed lane_folds evaluate_basis level0 (level ∷ []) p =
      final_level-Sim limits log_n placed lane_folds evaluate_basis level level0 p
  each_level-Sim limits log_n placed lane_folds evaluate_basis level0 (level ∷ next ∷ levels) p =
      bind-Sim sim (middle_level-Sim limits log_n placed level level0 p) (λ p'.
        each_level-Sim limits log_n placed lane_folds evaluate_basis false (next ∷ levels) p')

  pub verify_whir-Sim :
      (limits : Limits) (log_n placed log_inv_rate : ℕ) (target : E) (root : Digest)
      (evaluate_basis : List E → E)
      → Sim sim
          (Verify.verify_whir src limits log_n placed log_inv_rate target root evaluate_basis)
          (Verify.verify_whir src' limits log_n placed log_inv_rate target root evaluate_basis)
  unfolding Verify.verify_whir
  verify_whir-Sim limits log_n placed log_inv_rate target root evaluate_basis =
      bind-Sim sim (lift-Sim sim (derive_config limits log_n log_inv_rate)) (λ config.
        bind-Sim sim (round_poly-Sim sim 3 target none)
          (λ quad. each_level-Sim limits log_n placed _ evaluate_basis true _ _))
