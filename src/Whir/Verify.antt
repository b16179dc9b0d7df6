-- ===== src/Whir/Verify.antt =====
-- `verify_whir`: the levels of the opening, each folded, queried and glued, and the terminal check.
use hardware_wallet_benchmar.Prelude.{
  ℕ, zero, suc, List, [], ◌∷◌, ◌++◌, ◌+◌, Bool, none, length, false, get_or, if◌then◌else◌, ◌-◌,
  drop, ◌==◌, ◌/◌, true, leb, ◌^◌, take, ◌*◌, replicate,
}
use hardware_wallet_benchmar.Error.{err, require, whir_shape, whir_terminal}
use hardware_wallet_benchmar.Field.E.{E, zero_e, one_e, ◌⊞◌, ◌⊠◌, ◌≟◌}
use hardware_wallet_benchmar.Hash.Digest.{Digest, from_halves}
use hardware_wallet_benchmar.Transcript.Source.{Source}
use hardware_wallet_benchmar.Transcript.Monad.{M, ◌>>=◌, ◌>>◌, pure, lift}
use hardware_wallet_benchmar.Transcript.Ops.{
  sample, samples, next_scalar, next_scalars, round_poly, grind_check,
}
use hardware_wallet_benchmar.Whir.Config.{
  Limits, derive_config, query_grinding_bits, max_ood, residual_max_log,
}
use hardware_wallet_benchmar.Whir.Merkle.{Opened, open_rows, partition_point}
use hardware_wallet_benchmar.Whir.Queries.{sample_queries, induced_weight}
use hardware_wallet_benchmar.Transcript.Multilinear.{at, poly_eval, eq_eval, fold_eval, eq_kernel}

-- A claim glued to the running one: the points or the queries are slices of arrays that only
-- grow, so the claim holds them itself.
pub data Glued : Type 0 where
  ood : List E → Glued
  drawn : List ℕ → E → Glued

-- its scalar, and how many folds came before it
abbrev pub GluedClaim : Type 0
GluedClaim = E × ℕ × Glued

pub record Level : Type 0 where
  pub fold_count : ℕ
  pub rate : ℕ
  pub query_count : ℕ

-- the arrays of the configuration, level by level
unfoldable pub levels_of : List ℕ → List ℕ → List ℕ → List Level
levels_of (fold ∷ folds) (rate ∷ rates) (query ∷ queries) =
    record { fold_count = fold; rate = rate; query_count = query } ∷ levels_of folds rates queries
levels_of [] rates queries = []
levels_of (fold ∷ folds) [] queries = []
levels_of (fold ∷ folds) (rate ∷ rates) [] = []

-- what passes from level to level
pub record Progress : Type 0 where
  pub quad : List E
  pub folds : List E
  pub glued : List GluedClaim
  pub n_ood : ℕ
  pub n_queries : ℕ
  pub root : Digest

-- the enforced value: the opened values of the queries, by powers of `lam`
unfoldable pub enforced_loop : Opened → E → E → E → List ℕ → E
enforced_loop opened lam enforced weight [] = enforced
enforced_loop opened lam enforced weight (query ∷ queries) =
    enforced_loop opened lam
      (enforced ⊞ at opened.values (partition_point query opened.positions) ⊠ weight) (weight ⊠ lam)
      queries

-- `*q += scalar * i`, coefficient by coefficient
unfoldable pub add_scaled : E → List E → List E → List E
add_scaled scalar (q ∷ quad) (i ∷ intro) = (q ⊞ scalar ⊠ i) ∷ add_scaled scalar quad intro
add_scaled scalar [] intro = []
add_scaled scalar (q ∷ quad) [] = q ∷ quad

unfoldable pub glue : E → E → List (List E × Glued) → Progress → Progress
glue lam scalar [] p = p
glue lam scalar ((intro, claim) ∷ pending) p =
    let scalar' = scalar ⊠ lam in
    glue lam scalar' pending (record p {
      quad = add_scaled scalar' p.quad intro;
      glued = p.glued ++ (scalar', length p.folds, claim) ∷ [];
    })

unfoldable pub claim_weight : List E → GluedClaim → E
claim_weight point (scalar, fold_start, ood points) =
    scalar ⊠ eq_eval points (drop fold_start point)
claim_weight point (scalar, fold_start, drawn qs lam) =
    scalar ⊠ induced_weight qs lam (drop fold_start point)

unfoldable pub add_claims : List E → E → List GluedClaim → E
add_claims point weight [] = weight
add_claims point weight (claim ∷ glued) = add_claims point (weight ⊞ claim_weight point claim) glued

abbrev pub div_ceil : ℕ → ℕ → ℕ
div_ceil a b = (a + (b - 1)) / b

module _ {S : Type 0} (src : Source S) where
  unfoldable pub fold_rounds : ℕ → Progress → M S Progress
  fold_rounds zero p = pure p
  fold_rounds (suc n) p = do
    challenge ← sample
    quad ← round_poly src 3 (poly_eval p.quad challenge) none
    fold_rounds n (record p { quad = quad; folds = p.folds ++ challenge ∷ [] })

  -- the queries of a level, and the claims glued: `pending` are those that came before
  unfoldable pub query_level :
      Limits
      → ℕ
      → ℕ
      → Level
      → Bool
      → List E
      → List (List E × Glued)
      → Digest
      → Progress
      → M S Progress
  query_level limits log_n placed level level0 level_folds pending next_root p = do
    let message_log = log_n - length p.folds
    grind_check src query_grinding_bits
    let block_length = 2 ^ (message_log + level.rate)
    lift (require (leb (p.n_queries + level.query_count) limits.max_all_queries) whir_shape)
    qs ← sample_queries block_length level.query_count
    lam ← sample
    let lanes = 2 ^ level.fold_count
    let leaf_words = if level0 then lanes else 3 * lanes
    let row_words = if level0 then div_ceil placed (2 ^ message_log) else leaf_words
    opened ←
        open_rows src p.root block_length qs row_words leaf_words level0
          (eq_kernel level_folds (replicate lanes zero_e))
    intro ← round_poly src 3 (enforced_loop opened lam zero_e one_e qs) none
    pure (
        glue lam one_e (pending ++ (intro, drawn qs lam) ∷ [])
          (record p { n_queries = p.n_queries + level.query_count; root = next_root }))

  -- the last rounds: the challenges, and the last target
  unfoldable pub tail_rounds : ℕ → List E → E → M S (List E × E)
  tail_rounds zero quad target = pure ([], target)
  tail_rounds (suc n) quad target = do
    challenge ← sample
    let target' = poly_eval quad challenge
    quad' ← (if n == 0 then pure quad else round_poly src 3 target' none)
    (tail, final) ← tail_rounds n quad' target'
    pure (challenge ∷ tail, final)

  -- a level that is not the last: a new commitment, and a claim out of its domain
  unfoldable pub middle_level : Limits → ℕ → ℕ → Level → Bool → Progress → M S Progress
  middle_level limits log_n placed level level0 p0 = do
    p ← fold_rounds level.fold_count p0
    let message_log = log_n - length p.folds
    halves ← next_scalars src 2
    next_root ← lift (from_halves (at halves 0) (at halves 1))
    lift (require (leb (p.n_ood + message_log) max_ood) whir_shape)
    points ← samples message_log
    ood_value ← next_scalar src
    intro ← round_poly src 3 ood_value none
    query_level limits log_n placed level level0 (drop (length p0.folds) p.folds)
        ((intro, ood points) ∷ []) next_root (record p { n_ood = p.n_ood + message_log })

  -- the last level: the residual is read in full, and the terminal claim checked
  unfoldable pub final_level :
      Limits → ℕ → ℕ → ℕ → (List E → E) → Level → Bool → Progress → M S (Unit {0})
  final_level limits log_n placed lane_folds evaluate_basis level level0 p0 = do
    p1 ← fold_rounds level.fold_count p0
    let message_log = log_n - length p1.folds
    lift (require (leb message_log residual_max_log) whir_shape)
    residual ← next_scalars src (2 ^ message_log)
    p ← query_level limits log_n placed level level0 (drop (length p0.folds) p1.folds) [] p1.root p1
    (tail, target) ← tail_rounds message_log p.quad zero_e
    let point = p.folds ++ tail
    let rotated = drop lane_folds point ++ take lane_folds point
    let weight = add_claims point (evaluate_basis rotated) p.glued
    value ← lift (fold_eval residual tail)
    lift (require ((weight ⊠ value) ≟ target) whir_terminal)

  unfoldable pub each_level :
      Limits → ℕ → ℕ → ℕ → (List E → E) → Bool → List Level → Progress → M S (Unit {0})
  each_level limits log_n placed lane_folds evaluate_basis level0 [] p = lift (err whir_shape)
  each_level limits log_n placed lane_folds evaluate_basis level0 (level ∷ []) p =
      final_level limits log_n placed lane_folds evaluate_basis level level0 p
  each_level limits log_n placed lane_folds evaluate_basis level0 (level ∷ next ∷ levels) p = do
    p' ← middle_level limits log_n placed level level0 p
    each_level limits log_n placed lane_folds evaluate_basis false (next ∷ levels) p'

  unfoldable pub verify_whir : Limits → ℕ → ℕ → ℕ → E → Digest → (List E → E) → M S (Unit {0})
  verify_whir limits log_n placed log_inv_rate target root evaluate_basis = do
    config ← lift (derive_config limits log_n log_inv_rate)
    quad ← round_poly src 3 target none
    each_level limits log_n placed (get_or config.folds 0 0) evaluate_basis true
        (levels_of config.folds config.log_inv_rates config.queries)
        (record { quad = quad; folds = []; glued = []; n_ood = 0; n_queries = 0; root = root })
