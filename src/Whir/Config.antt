-- ===== src/Whir/Config.antt =====
-- `derive_config`: the levels of an opening, by the stacked log size and the inverse rate.
pub mod Capacity
use hardware_wallet_benchmar.Prelude.{
  ℕ, zero, suc, List, [], ◌∷◌, leb, if◌then◌else◌, Bool, length, get_or, true, ◌&&◌, ◌-◌, ◌==◌, min,
  ◌+◌, ◌++◌, ltb,
}
use hardware_wallet_benchmar.Error.{
  Error, Result, ok, err, require, whir_shape, query_count_ladder, ◌>>=◌, ◌>>◌,
}

abbrev pub initial_folding_factor : ℕ
initial_folding_factor = 6

abbrev pub subsequent_folding_factor : ℕ
subsequent_folding_factor = 4

abbrev pub initial_reduction_factor : ℕ
initial_reduction_factor = 3

abbrev pub subsequent_reduction_factor : ℕ
subsequent_reduction_factor = 1

abbrev pub residual_max_log : ℕ
residual_max_log = 5

abbrev pub query_grinding_bits : ℕ
query_grinding_bits = 17

abbrev pub min_stacked_log : ℕ
min_stacked_log = 15

abbrev pub max_stacked_log : ℕ
max_stacked_log = 28

abbrev pub max_levels : ℕ
max_levels = 6

abbrev pub max_ood : ℕ
max_ood = 72

-- the capacities that differ between the device and elsewhere
pub record Limits : Type 0 where
  pub max_queries : ℕ
  pub max_all_queries : ℕ

abbrev pub device_limits : Limits
device_limits = record { max_queries = 112; max_all_queries = 240 }

abbrev pub host_limits : Limits
host_limits = record { max_queries = 256; max_all_queries = 400 }

-- `WHIR_QUERIES`, by log inverse rate: a row for each stacked log size from 15 on
abbrev queries_half : List (List ℕ)
queries_half =
    (222 ∷ 55 ∷ 0 ∷ 0 ∷ 0 ∷ 0 ∷ [])
    ∷ (223 ∷ 56 ∷ 30 ∷ 0 ∷ 0 ∷ 0 ∷ [])
    ∷ (223 ∷ 56 ∷ 31 ∷ 0 ∷ 0 ∷ 0 ∷ [])
    ∷ (223 ∷ 56 ∷ 32 ∷ 0 ∷ 0 ∷ 0 ∷ [])
    ∷ (223 ∷ 56 ∷ 32 ∷ 0 ∷ 0 ∷ 0 ∷ [])
    ∷ (223 ∷ 56 ∷ 32 ∷ 22 ∷ 0 ∷ 0 ∷ [])
    ∷ (223 ∷ 56 ∷ 32 ∷ 22 ∷ 0 ∷ 0 ∷ [])
    ∷ (224 ∷ 56 ∷ 32 ∷ 23 ∷ 0 ∷ 0 ∷ [])
    ∷ (224 ∷ 56 ∷ 32 ∷ 23 ∷ 0 ∷ 0 ∷ [])
    ∷ (224 ∷ 56 ∷ 32 ∷ 23 ∷ 17 ∷ 0 ∷ [])
    ∷ (224 ∷ 56 ∷ 32 ∷ 23 ∷ 17 ∷ 0 ∷ [])
    ∷ (224 ∷ 56 ∷ 32 ∷ 23 ∷ 18 ∷ 0 ∷ [])
    ∷ (225 ∷ 56 ∷ 32 ∷ 23 ∷ 18 ∷ 0 ∷ [])
    ∷ (225 ∷ 56 ∷ 32 ∷ 23 ∷ 18 ∷ 14 ∷ [])
    ∷ []

abbrev queries_quarter : List (List ℕ)
queries_quarter =
    (111 ∷ 45 ∷ 0 ∷ 0 ∷ 0 ∷ 0 ∷ [])
    ∷ (112 ∷ 45 ∷ 27 ∷ 0 ∷ 0 ∷ 0 ∷ [])
    ∷ (112 ∷ 45 ∷ 28 ∷ 0 ∷ 0 ∷ 0 ∷ [])
    ∷ (112 ∷ 45 ∷ 28 ∷ 0 ∷ 0 ∷ 0 ∷ [])
    ∷ (112 ∷ 45 ∷ 28 ∷ 0 ∷ 0 ∷ 0 ∷ [])
    ∷ (112 ∷ 45 ∷ 28 ∷ 20 ∷ 0 ∷ 0 ∷ [])
    ∷ (112 ∷ 45 ∷ 28 ∷ 20 ∷ 0 ∷ 0 ∷ [])
    ∷ (112 ∷ 45 ∷ 28 ∷ 21 ∷ 0 ∷ 0 ∷ [])
    ∷ (112 ∷ 45 ∷ 28 ∷ 21 ∷ 0 ∷ 0 ∷ [])
    ∷ (112 ∷ 45 ∷ 28 ∷ 21 ∷ 16 ∷ 0 ∷ [])
    ∷ (112 ∷ 45 ∷ 28 ∷ 21 ∷ 16 ∷ 0 ∷ [])
    ∷ (112 ∷ 45 ∷ 28 ∷ 21 ∷ 16 ∷ 0 ∷ [])
    ∷ (112 ∷ 45 ∷ 28 ∷ 21 ∷ 16 ∷ 0 ∷ [])
    ∷ (112 ∷ 45 ∷ 28 ∷ 21 ∷ 16 ∷ 13 ∷ [])
    ∷ []

abbrev queries_eighth : List (List ℕ)
queries_eighth =
    (75 ∷ 37 ∷ 0 ∷ 0 ∷ 0 ∷ 0 ∷ [])
    ∷ (75 ∷ 37 ∷ 24 ∷ 0 ∷ 0 ∷ 0 ∷ [])
    ∷ (75 ∷ 37 ∷ 25 ∷ 0 ∷ 0 ∷ 0 ∷ [])
    ∷ (75 ∷ 38 ∷ 25 ∷ 0 ∷ 0 ∷ 0 ∷ [])
    ∷ (75 ∷ 38 ∷ 25 ∷ 0 ∷ 0 ∷ 0 ∷ [])
    ∷ (75 ∷ 38 ∷ 25 ∷ 18 ∷ 0 ∷ 0 ∷ [])
    ∷ (75 ∷ 38 ∷ 25 ∷ 19 ∷ 0 ∷ 0 ∷ [])
    ∷ (75 ∷ 38 ∷ 25 ∷ 19 ∷ 0 ∷ 0 ∷ [])
    ∷ (75 ∷ 38 ∷ 25 ∷ 19 ∷ 0 ∷ 0 ∷ [])
    ∷ (75 ∷ 38 ∷ 25 ∷ 19 ∷ 15 ∷ 0 ∷ [])
    ∷ (75 ∷ 38 ∷ 25 ∷ 19 ∷ 15 ∷ 0 ∷ [])
    ∷ (75 ∷ 38 ∷ 25 ∷ 19 ∷ 15 ∷ 0 ∷ [])
    ∷ (75 ∷ 38 ∷ 25 ∷ 19 ∷ 15 ∷ 0 ∷ [])
    ∷ (75 ∷ 38 ∷ 25 ∷ 19 ∷ 15 ∷ 13 ∷ [])
    ∷ []

abbrev queries_sixteenth : List (List ℕ)
queries_sixteenth =
    (56 ∷ 32 ∷ 0 ∷ 0 ∷ 0 ∷ 0 ∷ [])
    ∷ (56 ∷ 32 ∷ 22 ∷ 0 ∷ 0 ∷ 0 ∷ [])
    ∷ (56 ∷ 32 ∷ 22 ∷ 0 ∷ 0 ∷ 0 ∷ [])
    ∷ (56 ∷ 32 ∷ 23 ∷ 0 ∷ 0 ∷ 0 ∷ [])
    ∷ (56 ∷ 32 ∷ 23 ∷ 0 ∷ 0 ∷ 0 ∷ [])
    ∷ (56 ∷ 32 ∷ 23 ∷ 17 ∷ 0 ∷ 0 ∷ [])
    ∷ (56 ∷ 32 ∷ 23 ∷ 17 ∷ 0 ∷ 0 ∷ [])
    ∷ (56 ∷ 32 ∷ 23 ∷ 18 ∷ 0 ∷ 0 ∷ [])
    ∷ (56 ∷ 32 ∷ 23 ∷ 18 ∷ 0 ∷ 0 ∷ [])
    ∷ (56 ∷ 32 ∷ 23 ∷ 18 ∷ 14 ∷ 0 ∷ [])
    ∷ (56 ∷ 32 ∷ 23 ∷ 18 ∷ 14 ∷ 0 ∷ [])
    ∷ (56 ∷ 32 ∷ 23 ∷ 18 ∷ 14 ∷ 0 ∷ [])
    ∷ (56 ∷ 32 ∷ 23 ∷ 18 ∷ 15 ∷ 0 ∷ [])
    ∷ (56 ∷ 32 ∷ 23 ∷ 18 ∷ 15 ∷ 12 ∷ [])
    ∷ []

abbrev pub whir_queries : List (List (List ℕ))
whir_queries = queries_half ∷ queries_quarter ∷ queries_eighth ∷ queries_sixteenth ∷ []

-- The arrays of `struct Config` up to `levels`.
pub record Config : Type 0 where
  pub log_inv_rates : List ℕ
  pub folds : List ℕ
  pub queries : List ℕ

abbrev pub nat_at : List ℕ → ℕ → ℕ
nat_at xs i = get_or xs i 0

-- The `while` that adds levels, on fuel: the rates and the folds. `levels` is the length of both.
unfoldable pub ladder : ℕ → List ℕ → List ℕ → ℕ → Result (List ℕ × List ℕ)
ladder zero rates folds remaining = err query_count_ladder
ladder (suc fuel) rates folds remaining =
    let levels = length folds in
    let last = levels - 1 in
    let reduction = if levels == 1 then initial_reduction_factor else subsequent_reduction_factor in
    let fold = min subsequent_folding_factor remaining in
    let rest =
      ladder fuel (rates ++ (nat_at rates last + nat_at folds last - reduction) ∷ [])
        (folds ++ fold ∷ []) (remaining - fold) in
    let more = require (ltb levels max_levels) query_count_ladder >> rest in
    if ltb residual_max_log remaining then more else ok (rates, folds)

-- `take_while(|&&q| q != 0)`
unfoldable pub take_nonzero : List ℕ → List ℕ
take_nonzero [] = []
take_nonzero (q ∷ table) = if q == 0 then [] else q ∷ take_nonzero table

-- `config.queries[level] <= MAX_QUERIES`, level by level
unfoldable pub all_le : ℕ → List ℕ → Bool
all_le bound [] = true
all_le bound (q ∷ queries) = leb q bound && all_le bound queries

unfoldable pub derive_config : Limits → ℕ → ℕ → Result Config
unfolding ladder take_nonzero all_le
derive_config limits log_n log_inv_rate = do
  require
      (leb min_stacked_log log_n
        && leb log_n max_stacked_log
        && leb 1 log_inv_rate
        && leb log_inv_rate 4)
      whir_shape
  levels ←
      ladder (max_levels + 1) (log_inv_rate ∷ []) (initial_folding_factor ∷ [])
        (log_n - initial_folding_factor)
  let table = get_or (get_or whir_queries (log_inv_rate - 1) []) (log_n - min_stacked_log) []
  let queries = take_nonzero table
  require (length queries == length levels.1) query_count_ladder
  require (all_le limits.max_queries queries) whir_shape
  ok (record { log_inv_rates = levels.0; folds = levels.1; queries = queries })
