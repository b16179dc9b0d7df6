-- ===== src/Whir/Merkle.antt =====
-- `open_rows`: a level's Merkle opening. Rows come at the distinct queried positions, ascending,
-- then the siblings that authenticate them together.
use hardware_wallet_benchmar.Prelude.{
  ℕ, zero, suc, List, [], ◌∷◌, ◌/◌, ◌+◌, Bool, if◌then◌else◌, ◌-◌, ◌*◌, bytes_eq, ◌==◌, leb, ◌%◌,
  ltb, ◌&&◌, false, from_le_bytes, length, take, bit_or, get_or, drop, ◌++◌,
}
use hardware_wallet_benchmar.Error.{require, merkle_opening_shape, merkle_root_mismatch}
use hardware_wallet_benchmar.Hash.Hasher.{hash_pair}
use hardware_wallet_benchmar.Hash.Hasher
use hardware_wallet_benchmar.Hash.Digest.{Digest}
use hardware_wallet_benchmar.Field.E.{E, zero_e, one_e, mul_k, of_k, ◌⊞◌, ◌⊠◌}
use hardware_wallet_benchmar.Field.E
use hardware_wallet_benchmar.Transcript.Source.{Source, Piece}
use hardware_wallet_benchmar.Transcript.Monad.{M, ◌>>=◌, ◌>>◌, pure, lift}
use hardware_wallet_benchmar.Transcript.Ops.{read}
use hardware_wallet_benchmar.Transcript.Placement.{log2_strict}

-- `partition_point(|&p| p < query)` of an ascending list: how many lie below
unfoldable pub partition_point : ℕ → List ℕ → ℕ
partition_point query [] = 0
partition_point query (p ∷ positions) =
    if ltb p query then partition_point query positions + 1 else 0

-- one query into the distinct positions, unless it is there
unfoldable pub insert_position : List ℕ → ℕ → List ℕ
unfolding partition_point
insert_position positions query =
    let at = partition_point query positions in
    if ltb at (length positions) && (get_or positions at 0 == query)
    then positions
    else take at positions ++ (query ∷ drop at positions)

unfoldable pub insert_positions : List ℕ → List ℕ → List ℕ
insert_positions positions [] = positions
insert_positions positions (query ∷ queries) =
    insert_positions (insert_position positions query) queries

-- the closure `word`: word `k` of the leaf image, its zero prefix included
unfoldable pub leaf_word : ℕ → List ℕ → ℕ → ℕ
leaf_word prefix row k =
    if ltb k prefix then 0 else from_le_bytes (take 8 (drop (8 * (k - prefix)) row))

-- a row reduced against the lane weights: at level 0, its lanes are words in reverse order
unfoldable pub value_level0 : ℕ → ℕ → List ℕ → ℕ → E → List E → E
value_level0 leaf_words prefix row i value [] = value
value_level0 leaf_words prefix row i value (weight ∷ weights) =
    let w = leaf_word prefix row (leaf_words - 1 - i) in
    value_level0 leaf_words prefix row (i + 1) (if w == 0 then value else value ⊞ mul_k weight w)
      weights

-- and above it elements
unfoldable pub value_above : ℕ → List ℕ → ℕ → E → List E → E
value_above prefix row lane value [] = value
value_above prefix row lane value (weight ∷ weights) =
    let word = λ (k : ℕ). leaf_word prefix row k in
    value_above prefix row (lane + 1)
      (value ⊞ weight ⊠ E.new (word (3 * lane)) (word (3 * lane + 1)) (word (3 * lane + 2))) weights

-- what an opening leaves: the distinct positions and the value at each
pub record Opened : Type 0 where
  pub positions : List ℕ
  pub values : List E

-- a node on a queried path: its index in its level, and its digest
abbrev pub Node : Type 0
Node = ℕ × List ℕ

unfoldable pub leaf_digest : ℕ → List ℕ → List ℕ
leaf_digest prefix row =
    (Hasher.finish (Hasher.update (Hasher.zeros Hasher.new (8 * prefix)) row)).bytes

module _ {S : Type 0} (src : Source S) where
  -- the rows, in the order of their positions: the leaf nodes, and the values
  unfoldable pub read_rows : ℕ → ℕ → Bool → List E → List ℕ → M S (List Node × List E)
  read_rows row_words leaf_words level0 lane_weights [] = pure ([], [])
  read_rows row_words leaf_words level0 lane_weights (position ∷ positions) = do
    let prefix = leaf_words - row_words
    row ← read src Piece.row (8 * row_words)
    (nodes, values) ← read_rows row_words leaf_words level0 lane_weights positions
    pure (
      (position, leaf_digest prefix row) ∷ nodes,
      (if level0
            then value_level0 leaf_words prefix row 0 zero_e lane_weights
            else value_above prefix row 0 zero_e lane_weights)
          ∷ values,
    )

  -- a node whose sibling is read, and its parent
  unfoldable pub with_sibling : Node → M S Node
  with_sibling (index, digest) = do
    sibling ← read src Piece.sibling 32
    pure (
      index / 2,
      (if index % 2 == 0 then hash_pair digest sibling else hash_pair sibling digest).bytes,
    )

  -- is `other` the right sibling of the left child `index`?
  abbrev pub paired : ℕ → ℕ → Bool
  paired index other = (index % 2 == 0) && (other == bit_or index 1)

  -- one level up: a sibling is read only where it is not itself on a path
  unfoldable pub climb_level : List Node → M S (List Node)
  climb_level [] = pure []
  climb_level (node ∷ []) = do parent ← with_sibling node; pure (parent ∷ [])
  climb_level ((index, digest) ∷ (index', digest') ∷ nodes) =
      let pair : M S (List Node) = (do
        parents ← climb_level nodes
        pure ((index / 2, (hash_pair digest digest').bytes) ∷ parents)) in
      let single : M S (List Node) = (do
        parent ← with_sibling (index, digest)
        parents ← climb_level ((index', digest') ∷ nodes)
        pure (parent ∷ parents)) in
      if paired index index' then pair else single

  unfoldable pub climb : ℕ → List Node → M S (List Node)
  climb zero nodes = pure nodes
  climb (suc height) nodes = do parents ← climb_level nodes; climb height parents

  unfoldable pub is_root : Digest → List Node → Bool
  is_root root ((index, digest) ∷ []) = bytes_eq digest root.bytes
  is_root root nodes = false

  unfoldable pub open_rows : Digest → ℕ → List ℕ → ℕ → ℕ → Bool → List E → M S Opened
  open_rows root block_length queries row_words leaf_words level0 lane_weights = do
    height ← lift (log2_strict block_length)
    let positions = insert_positions [] queries
    lift (require (leb row_words leaf_words && leb leaf_words 64) merkle_opening_shape)
    read src Piece.batch 0
    (nodes, values) ← read_rows row_words leaf_words level0 lane_weights positions
    top ← climb height nodes
    lift (require (is_root root top) merkle_root_mismatch)
    pure (record { positions = positions; values = values })
