-- ===== src/Whir/Queries.antt =====
-- `sample_queries` and `induced_weight`.
use hardware_wallet_benchmar.Prelude.{
  ℕ, zero, suc, List, [], ◌∷◌, ◌+◌, length, leb, u64, map, min, ◌*◌, get_or, ◌/◌, ◌<<<◌, ◌-◌, drop,
  ◌++◌, ◌%◌, bit_or, if◌then◌else◌, ◌==◌, u128, ◌>>>◌, u32, bit_and,
}
use hardware_wallet_benchmar.Error.{require, whir_shape}
use hardware_wallet_benchmar.Field.E.{E, zero_e, one_e, mul_k, ◌⊞◌, ◌⊠◌}
use hardware_wallet_benchmar.Field.K.{K}
use hardware_wallet_benchmar.Field.K
use hardware_wallet_benchmar.Transcript.Monad.{M, ◌>>=◌, ◌>>◌, pure, lift}
use hardware_wallet_benchmar.Transcript.Ops.{sample}
use hardware_wallet_benchmar.Transcript.Placement.{log2_strict}

-- query `chunk` of a challenge: `depth` bits of its three words, from bit `chunk * depth` on
unfoldable pub query_chunk : E → ℕ → ℕ → ℕ → ℕ
query_chunk challenge depth block_length chunk =
    let bits = challenge.c0 ∷ challenge.c1 ∷ challenge.c2 ∷ 0 ∷ [] in
    let limb = chunk * depth / 64 in
    let shift = chunk * depth % 64 in
    let window = bit_or (get_or bits limb 0) (u128 (get_or bits (limb + 1) 0 <<< 64)) >>> shift in
    u32 (bit_and (u64 window) (block_length - 1))

-- chunks `chunk, chunk + 1, ...`, `n` of them
unfoldable pub query_chunks : E → ℕ → ℕ → ℕ → ℕ → List ℕ
unfolding query_chunk
query_chunks challenge depth block_length chunk zero = []
query_chunks challenge depth block_length chunk (suc n) =
    query_chunk challenge depth block_length chunk
    ∷ query_chunks challenge depth block_length (chunk + 1) n

module _ {S : Type 0} where
  -- the `while`, on fuel: `left` queries to draw
  unfoldable pub sample_loop : ℕ → ℕ → ℕ → ℕ → ℕ → M S (List ℕ)
  sample_loop zero depth per_word block_length left = pure []
  sample_loop (suc fuel) depth per_word block_length left =
      let n = min per_word left in
      let more : M S (List ℕ) = (do
        challenge ← sample
        queries ← sample_loop fuel depth per_word block_length (left - n)
        pure (query_chunks challenge depth block_length 0 n ++ queries)) in
      if left == 0 then pure [] else more

  -- `depth` is 0 only at a block length of 1, which no level has
  unfoldable pub sample_queries : ℕ → ℕ → M S (List ℕ)
  sample_queries block_length count = do
    depth ← lift (log2_strict block_length)
    lift (require (leb depth 32) whir_shape)
    sample_loop count depth (192 / depth) block_length count

-- The subspace polynomials' normalizers: `roots[i]`, then the layer above it.
unfoldable pub subspace_roots : ℕ → K → List K → List K
subspace_roots zero root layer = []
subspace_roots (suc n) root layer =
    let layer' = map (λ value. K.add (K.square value) (K.mul root value)) layer in
    root ∷ subspace_roots n (get_or layer' 0 0) (drop 1 layer')

-- `K(1 << (i + 1))`, from `i` on
unfoldable pub first_layer : ℕ → ℕ → List K
first_layer i zero = []
first_layer i (suc n) = u64 (1 <<< (i + 1)) ∷ first_layer (i + 1) n

-- one query's product over the coordinates
unfoldable pub query_product : K → E → List E → List K → E
query_product basis product [] roots = product
query_product basis product (challenge ∷ point) roots =
    let root = get_or roots 0 0 in
    query_product (K.add (K.square basis) (K.mul root basis))
      (product ⊠ (one_e ⊞ mul_k challenge (K.add 1 (K.mul basis (K.inv root))))) point
      (drop 1 roots)

-- the sum over the queries
unfoldable pub weight_loop : E → E → List ℕ → E → List E → List K → E
weight_loop total weight [] lam point roots = total
weight_loop total weight (query ∷ queries) lam point roots =
    weight_loop (total ⊞ query_product query weight point roots) (weight ⊠ lam) queries lam point
      roots

unfoldable pub induced_weight : List ℕ → E → List E → E
induced_weight queries lam point =
    let message_log = length point in
    weight_loop zero_e one_e queries lam point
      (subspace_roots message_log 1 (first_layer 0 message_log))
