-- ===== src/Whir/Opening.antt =====
-- `open_rows`, under the root of a tree: the values it returns are those of the tree's rows.
use hardware_wallet_benchmar.Prelude.{
  ℕ, List, [], ◌∷◌, ◌≡◌, refl, sym, ap, ap₂, ◌∙◌, arith, ◌+◌, ◌-◌, ◌*◌, ◌^◌, ◌≤◌, ◌<◌, ◌⊎◌, inl,
  inr, Bool, ◌&&◌, if◌then◌else◌, map, subst, leb,
}
use hardware_wallet_benchmar.Error.{ok, ok-inj, require, merkle_opening_shape, merkle_root_mismatch}
use hardware_wallet_benchmar.Field.E.{E, zero_e}
use hardware_wallet_benchmar.Hash.Digest.{Digest}
use hardware_wallet_benchmar.Hash.Digest.Bytes.{IsBytes, finish-IsBytes}
use hardware_wallet_benchmar.Transcript.Source.{Source, Piece}
use hardware_wallet_benchmar.Transcript.Monad.{
  Transcript, ◌>>=◌, ◌>>◌, pure, lift, bind-ok, lift-require,
}
use hardware_wallet_benchmar.Transcript.Ops.{read}
use hardware_wallet_benchmar.Whir.Merkle.{
  Node, Opened, climb, is_root, read_rows, open_rows, leaf_digest, value_level0, value_above,
  insert_positions, insert_position,
}
use hardware_wallet_benchmar.Whir.Tree.{Tree, node_digest, SecondPreimage, leaf}
use hardware_wallet_benchmar.Whir.Binding.{
  Serves, EachNode, Fits, Honest, Claim, read-IsBytes, climb_lifts, top-Honest, both, chain, follow,
}
use hardware_wallet_benchmar.Whir.Positions.{compare_cases, insert_below, insert_at, insert_above}
use hardware_wallet_benchmar.Whir.Sampled.{AllBelow, log2_strict-power}

insert_position-AllBelow :
    (bound : ℕ) (positions : List ℕ) (query : ℕ)
    → AllBelow bound positions
    → query < bound
    → AllBelow bound (insert_position positions query)
unfolding AllBelow insert_position
insert_position-AllBelow bound [] query h low = (low, tt)
insert_position-AllBelow bound (p ∷ positions) query (hp, h) low = elim (compare_cases query p) [
  | inl below ↦ subst (AllBelow bound) (sym (insert_below p positions query below)) (low, (hp, h))
  | inr (inl same) ↦ subst (AllBelow bound) (sym (insert_at p positions query same)) (hp, h)
  | inr (inr above) ↦
      subst (AllBelow bound) (sym (insert_above p positions query above))
        (hp, insert_position-AllBelow bound positions query h low)
]

insert_positions-AllBelow :
    (bound : ℕ) (positions queries : List ℕ)
    → AllBelow bound positions
    → AllBelow bound queries
    → AllBelow bound (insert_positions positions queries)
unfolding AllBelow insert_positions
insert_positions-AllBelow bound positions [] h low = h
insert_positions-AllBelow bound positions (query ∷ queries) h (low, lows) =
    insert_positions-AllBelow bound (insert_position positions query) queries
      (insert_position-AllBelow bound positions query h low) lows

pub leaf_digest-IsBytes : (prefix : ℕ) (row : List ℕ) → IsBytes 32 (leaf_digest prefix row)
unfolding leaf_digest
leaf_digest-IsBytes prefix row = finish-IsBytes _

-- a row reduced against the lane weights, at level 0 or above
unfoldable pub row_value : Tree → ℕ → Bool → List E → List ℕ → E
row_value tree leaf_words level0 lane_weights row =
    if level0
    then value_level0 leaf_words tree.prefix row 0 zero_e lane_weights
    else value_above tree.prefix row 0 zero_e lane_weights

module _ {S : Type 0} (src : Source S) (serves : Serves src) (tree : Tree) (leaf_words : ℕ)
    (level0 : Bool) (lane_weights : List E) where
  abbrev value : List ℕ → E
  value row = row_value tree leaf_words level0 lane_weights row

  rows_lift :
      (positions : List ℕ) (t t' : Transcript S) (nodes : List Node) (values : List E)
      → leaf_words - tree.row_words ≡ tree.prefix
      → AllBelow (2 ^ tree.height) positions
      → read_rows src tree.row_words leaf_words level0 lane_weights positions t
        ≡ ok ((nodes, values), t')
      → EachNode (Fits tree.height) nodes
        × (EachNode (Honest src serves tree 0) nodes
            → Claim src serves tree (values ≡ map (λ p. value (tree.row p)) positions))
  unfolding read_rows EachNode AllBelow row_value
  rows_lift [] t t' nodes values shape low e =
      subst
        (λ (x : List Node × List E).
          EachNode (Fits tree.height) x.0
          × (EachNode (Honest src serves tree 0) x.0 → Claim src serves tree (x.1 ≡ [])))
        (ap (λ x. x.0) (ok-inj e)) (tt, λ _. inl refl)
  rows_lift (p ∷ positions) t t' nodes values shape (low, lows) e =
      let (row, t1, e0, e1) =
        bind-ok (read src Piece.row (8 * tree.row_words)) _ t ((nodes, values), t') e in
      let ((nodes', values'), t2, e2, e3) =
        bind-ok (read_rows src tree.row_words leaf_words level0 lane_weights positions) _ t1
          ((nodes, values), t') e1 in
      let (up, down) = rows_lift positions t1 t2 nodes' values' shape lows e2 in
      let bytes = read-IsBytes src serves Piece.row (8 * tree.row_words) t t1 row e0 in
      let made : ℕ → List Node × List E = λ prefix. (
        (p, leaf_digest prefix row) ∷ nodes',
        (if level0
              then value_level0 leaf_words prefix row 0 zero_e lane_weights
              else value_above prefix row 0 zero_e lane_weights)
            ∷ values',
      ) in
      let q : made tree.prefix ≡ (nodes, values) =
        ap made (sym shape) ∙ ap (λ x. x.0) (ok-inj e3) in
      subst
        (λ (x : List Node × List E).
          EachNode (Fits tree.height) x.0
          × (EachNode (Honest src serves tree 0) x.0
              → Claim src serves tree (x.1 ≡ map (λ i. value (tree.row i)) (p ∷ positions))))
        q
        (
          ((low, leaf_digest-IsBytes tree.prefix row), up),
          λ honest.
              follow src serves tree (λ x. ap₂ (λ r vs. value r ∷ vs) x.0 x.1)
                (both src serves tree (leaf tree p row low bytes honest.0) (down honest.1)),
        )

-- On an opening that returns, from a source that serves as many bytes as it is asked for, under the
-- root of a tree of at most 2^32 rows and for queries within it, the positions are the distinct
-- queries and the value at each is that of the tree's row, or a row or a pair of digests is at hand
-- that is not the tree's and has the digest of one of its nodes.
pub open_rows-Binds :
    {S : Type 0} (src : Source S) (tree : Tree) (root : Digest) (queries : List ℕ) (leaf_words : ℕ)
    (level0 : Bool) (lane_weights : List E) (t t' : Transcript S) (opened : Opened)
    → Serves src
    → tree.height ≤ 32
    → root.bytes ≡ node_digest tree tree.height 0
    → leaf_words - tree.row_words ≡ tree.prefix
    → AllBelow (2 ^ tree.height) queries
    → open_rows src root (2 ^ tree.height) queries tree.row_words leaf_words level0 lane_weights t
      ≡ ok (opened, t')
    → ((opened.positions ≡ insert_positions [] queries)
        × (opened.values
            ≡ map
                (λ p. row_value tree leaf_words level0 lane_weights (tree.row p))
                (insert_positions [] queries)))
      ⊎ SecondPreimage tree
unfolding open_rows AllBelow
open_rows-Binds src tree root queries leaf_words level0 lane_weights t t' opened serves small top
      shape low e =
    let from_leaves : 0 + tree.height ≡ tree.height = omega arith in
    let positions = insert_positions [] queries in
    let after = λ (height : ℕ).
      lift (require (leb tree.row_words leaf_words && leb leaf_words 64) merkle_opening_shape)
      >> (read src Piece.batch 0
          >> (read_rows src tree.row_words leaf_words level0 lane_weights positions >>= λ rows.
              climb src height rows.0 >>= λ nodes.
              lift (require (is_root src root nodes) merkle_root_mismatch)
              >> pure (record { positions = positions; values = rows.1 }))) in
    let run = ap (λ x. (lift x >>= after) t) (sym (log2_strict-power tree.height small)) ∙ e in
    let (u, t1, e0, e1) =
      bind-ok
        (lift (require (leb tree.row_words leaf_words && leb leaf_words 64) merkle_opening_shape)) _
        t (opened, t') run in
    let (none_read, t2, e2, e3) = bind-ok (read src Piece.batch 0) _ t1 (opened, t') e1 in
    let (rows, t3, e4, e5) =
      bind-ok (read_rows src tree.row_words leaf_words level0 lane_weights positions) _ t2
        (opened, t') e3 in
    let (nodes, t4, e6, e7) = bind-ok (climb src tree.height rows.0) _ t3 (opened, t') e5 in
    let (v, t5, e8, e9) =
      bind-ok (lift (require (is_root src root nodes) merkle_root_mismatch)) _ t4 (opened, t') e7 in
    let (up, down) =
      rows_lift src serves tree leaf_words level0 lane_weights positions t2 t3 rows.0 rows.1 shape
        (insert_positions-AllBelow (2 ^ tree.height) [] queries tt low) e4 in
    let (up', down') =
      climb_lifts src serves tree tree.height 0 rows.0 t3 t4 nodes from_leaves up e6 in
    let rooted = top-Honest src serves tree root nodes top up' (lift-require _ _ t4 (v, t5) e8) in
    let same = ap (λ x. x.0) (ok-inj e9) in
    follow src serves tree
      (λ values. (sym (ap (λ o. o.positions) same), sym (ap (λ o. o.values) same) ∙ values))
      (chain src serves tree down (down' rooted))
