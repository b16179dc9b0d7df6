-- ===== src/Whir/Tree.antt =====
-- A Merkle tree as a committer builds it: the digests of its rows, and above them of pairs. What an
-- opening is held against, and what it takes to open something else.
use native.Mathlib.Decide.{ℕ_discrete}
use native.Mathlib.Nat.{pow-suc}
use mathlib.Core.List.{List-discrete}
use hardware_wallet_benchmar.Prelude.{
  ℕ, zero, suc, List, [], ◌∷◌, ◌≡◌, ◌≢◌, refl, sym, ap, ap₂, ◌∙◌, arith, ◌+◌, ◌*◌, ◌/◌, ◌%◌, ◌^◌,
  ◌<◌, ◌⊎◌, inl, inr, bit_or, true, bytes_eq, ◌==◌, ◌&&◌, ==_iff, Bool-cases,
}
use hardware_wallet_benchmar.Bits.Step.{bit_or_step}
use hardware_wallet_benchmar.Bits.Or.{or-zero}
use hardware_wallet_benchmar.Hash.Hasher.{hash_pair}
use hardware_wallet_benchmar.Hash.Digest.Bytes.{IsBytes}
use hardware_wallet_benchmar.Whir.Merkle.{leaf_digest}

-- a tree of `2^height` rows of `row_words` words, each hashed after `prefix` zero words
pub record Tree : Type 0 where
  pub height : ℕ
  pub prefix : ℕ
  pub row_words : ℕ
  pub row : ℕ → List ℕ

-- the digest of node `i` of level `k`, the leaves at level 0
unfoldable pub node_digest : Tree → ℕ → ℕ → List ℕ
node_digest tree zero i = leaf_digest tree.prefix (tree.row i)
node_digest tree (suc k) i =
    (hash_pair (node_digest tree k (2 * i)) (node_digest tree k (2 * i + 1))).bytes

-- something else that hashes to a digest of the tree
pub data SecondPreimage (tree : Tree) : Type 0 where
  other_row :
      (i : ℕ) (row : List ℕ)
      → i < 2 ^ tree.height
      → IsBytes (8 * tree.row_words) row
      → row ≢ tree.row i
      → leaf_digest tree.prefix row ≡ node_digest tree 0 i
      → SecondPreimage tree
  other_pair :
      (k n i : ℕ) (left right : List ℕ)
      → k + suc n ≡ tree.height
      → i < 2 ^ n
      → IsBytes 32 left
      → IsBytes 32 right
      → ((left ≢ node_digest tree k (2 * i)) ⊎ (right ≢ node_digest tree k (2 * i + 1)))
      → (hash_pair left right).bytes ≡ node_digest tree (suc k) i
      → SecondPreimage tree

-- a pair that hashes to a node's digest is that of its children
pub children :
    (tree : Tree) (k n i : ℕ) (left right : List ℕ)
    → k + suc n ≡ tree.height
    → i < 2 ^ n
    → IsBytes 32 left
    → IsBytes 32 right
    → (hash_pair left right).bytes ≡ node_digest tree (suc k) i
    → ((left ≡ node_digest tree k (2 * i)) × (right ≡ node_digest tree k (2 * i + 1)))
      ⊎ SecondPreimage tree
children tree k n i left right h low hl hr e =
    elim (List-discrete ℕ_discrete left (node_digest tree k (2 * i))) [
      | yes p ↦ elim (List-discrete ℕ_discrete right (node_digest tree k (2 * i + 1))) [
        | yes q ↦ inl (p, q)
        | no q ↦ inr (other_pair k n i left right h low hl hr (inr q) e)
      ]
      | no p ↦ inr (other_pair k n i left right h low hl hr (inl p) e)
    ]

-- and a row that hashes to a leaf's digest is the leaf's
pub leaf :
    (tree : Tree) (i : ℕ) (row : List ℕ)
    → i < 2 ^ tree.height
    → IsBytes (8 * tree.row_words) row
    → leaf_digest tree.prefix row ≡ node_digest tree 0 i
    → (row ≡ tree.row i) ⊎ SecondPreimage tree
leaf tree i row low h e = elim (List-discrete ℕ_discrete row (tree.row i)) [
  | yes p ↦ inl p
  | no p ↦ inr (other_row i row low h p e)
]

-- the right sibling of a left child
pub or_one : (i : ℕ) → i % 2 ≡ 0 → bit_or i 1 ≡ i + 1
or_one i h = omega (arith, bit_or_step i 1, or-zero (i / 2))

pub half-lt : (i n : ℕ) → i < 2 ^ suc n → i / 2 < 2 ^ n
half-lt i n h = omega (arith, pow-suc 2 n)

pub bytes_eq-eq : (xs ys : List ℕ) → bytes_eq xs ys ≡ true → xs ≡ ys
unfolding bytes_eq
bytes_eq-eq [] [] h = refl
bytes_eq-eq (a ∷ xs) (b ∷ ys) h = elim (Bool-cases (a == b)) [
  | inl same ↦
      ap₂ (λ x r. x ∷ r) ((==_iff a b).0 same)
        (bytes_eq-eq xs ys (ap (λ c. c && bytes_eq xs ys) (sym same) ∙ h))
  | inr apart ↦ cc (ap (λ c. c && bytes_eq xs ys) (sym apart) ∙ h)
]
bytes_eq-eq (a ∷ xs) [] h = cc
bytes_eq-eq [] (b ∷ ys) h = cc
