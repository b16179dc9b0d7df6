-- ===== src/Bus/Gkr.antt =====
-- `verify_gkr`: the three grand products, batched, layer by layer.
use hardware_wallet_benchmar.Prelude.{
  some, ℕ, zero, suc, List, [], ◌∷◌, ◌++◌, if◌then◌else◌, ◌+◌, ◌-◌, ◌^◌, ◌%◌, ◌==◌, leb, length,
}
use hardware_wallet_benchmar.Error.{require, gkr_layer, announced_table_sizes}
use hardware_wallet_benchmar.Transcript.Monad.{M, ◌>>=◌, ◌>>◌, pure, lift}
use hardware_wallet_benchmar.Transcript.Source.{Source}
use hardware_wallet_benchmar.Field.E.{E, one_e, ◌⊠◌, ◌≟◌}
use hardware_wallet_benchmar.Transcript.Ops.{round_poly, next_scalar, sample, next_scalars, samples}
use hardware_wallet_benchmar.Transcript.Multilinear.{poly_eval, fold_eval}

-- `MAX_POINT` of lib.rs: the most coordinates that a point has
abbrev pub max_point : ℕ
max_point = 30

-- the product of a node's children
unfoldable pub product_from : E → List E → E
product_from product [] = product
product_from product (value ∷ child) = product_from (product ⊠ value) child

unfoldable pub products : List (List E) → List E
unfolding product_from
products [] = []
products (child ∷ children) = product_from one_e child ∷ products children

-- odd layers take one step, even ones two
abbrev pub step_of : ℕ → ℕ
step_of layer = if layer % 2 == 1 then 1 else 2

module _ {S : Type 0} (src : Source S) where
  -- the rounds of a layer, one for each coordinate: the challenges, and the last claim
  unfoldable pub layer_rounds : ℕ → E → List E → M S (List E × E)
  layer_rounds n_coeffs claim [] = pure ([], claim)
  layer_rounds n_coeffs claim (r ∷ coords) = do
    message ← round_poly src n_coeffs claim (some r)
    challenge ← sample
    (x, final) ← layer_rounds n_coeffs (poly_eval message challenge) coords
    pure (challenge ∷ x, final)

  -- `n` lists of `size` scalars
  unfoldable pub next_children : ℕ → ℕ → M S (List (List E))
  next_children zero size = pure []
  next_children (suc n) size = do
    child ← next_scalars src size
    children ← next_children n size
    pure (child ∷ children)

  -- `fold_eval` of each of the children
  unfoldable pub fold_all : List (List E) → List E → M S (List E)
  fold_all [] y = pure []
  fold_all (child ∷ children) y = do
    value ← lift (fold_eval child y)
    values ← fold_all children y
    pure (value ∷ values)

  -- one turn of the `while`: the next point and values
  unfoldable pub gkr_layer_step : ℕ → List E → List E → M S (List E × List E)
  gkr_layer_step step point values = do
    combiner ← sample
    (x, claim) ← layer_rounds (2 ^ step + 1) (poly_eval values combiner) point
    children ← next_children 3 (2 ^ step)
    lift (require (claim ≟ poly_eval (products children) combiner) gkr_layer)
    y ← samples step
    values' ← fold_all children y
    lift (require (leb (length point + step) max_point) announced_table_sizes)
    pure (y ++ x, values')

  -- the `while`, on fuel: each turn takes one layer at least
  unfoldable pub gkr_layers : ℕ → ℕ → List E → List E → M S (List E × List E)
  gkr_layers zero layer point values = pure (point, values)
  gkr_layers (suc fuel) layer point values =
      let more : M S (List E × List E) = (do
        (point', values') ← gkr_layer_step (step_of layer) point values
        gkr_layers fuel (layer - step_of layer) point' values') in
      if layer == 0 then pure (point, values) else more

  -- the count root, the point, and the three claims there
  unfoldable pub verify_gkr : ℕ → M S (E × List E × List E)
  verify_gkr depth = do
    shared ← next_scalar src
    count ← next_scalar src
    (point, values) ← gkr_layers depth depth [] (shared ∷ shared ∷ count ∷ [])
    pure (count, point, values)
