-- ===== src/Whir/Tests/Merkle.antt =====
-- An opening of a tree of two rows at its right leaf.
use hardware_wallet_benchmar.Prelude.{
  ℕ, zero, suc, List, [], ◌∷◌, ◌≡◌, refl, sym, ap, arith, ◌^◌, ◌⊎◌, Bool, true, map, replicate,
  length, ◌==◌, if◌then◌else◌, Bool-cases, inl, inr, ==_iff, subst, to_le_bytes, bytes_eq,
  from_le_bytes,
}
use hardware_wallet_benchmar.Transcript.Ops.{read}
use hardware_wallet_benchmar.Error.{ok, ok-inj}
use hardware_wallet_benchmar.Field.E.{one_e}
use hardware_wallet_benchmar.Hash.Digest.{Digest}
use hardware_wallet_benchmar.Hash.Digest.Bytes.{IsBytes}
use hardware_wallet_benchmar.Hash.Digest.RoundTrip.{AllBytes, no_bytes, byte}
use hardware_wallet_benchmar.Hash.State.{zero_state, permute}
use hardware_wallet_benchmar.Hash.Permutation.{keccak_f}
use hardware_wallet_benchmar.Hash.Hasher.{
  hash_pair, update, update_loop, zeros, zeros_loop, finish, absorb_word, end_lane, flush_block,
  flush_word,
}
use hardware_wallet_benchmar.Transcript.Source.{Source, Piece}
use hardware_wallet_benchmar.Transcript.Monad.{Transcript}
use hardware_wallet_benchmar.Transcript.Placement.{log2_strict, trailing_zeros, trailing_zeros_loop}
use hardware_wallet_benchmar.Whir.Merkle.{
  Opened, open_rows, insert_positions, insert_position, partition_point, read_rows, climb,
  climb_level, with_sibling, is_root, leaf_digest,
}
use hardware_wallet_benchmar.Whir.Tree.{Tree, node_digest, SecondPreimage}
use hardware_wallet_benchmar.Whir.Binding.{Serves}
use hardware_wallet_benchmar.Whir.Opening.{row_value, open_rows-Binds, leaf_digest-IsBytes}
use hardware_wallet_benchmar.Whir.Sampled.{AllBelow}

-- every row one word of ones
abbrev two_rows : Tree
two_rows = record { height = 1; prefix = 1; row_words = 1; row = λ _. replicate 8 1 }

abbrev two_rows_root : Digest
two_rows_root = record { bytes = node_digest two_rows 1 0 }

-- the sibling that the opening asks for is a leaf's digest; all else is ones
abbrev served : Piece → ℕ → List ℕ
served piece n = if n == 32 then leaf_digest 1 (replicate 8 1) else replicate n 1

abbrev two_rows_source : Source (Unit {0})
two_rows_source = record { read = λ piece n s. ok (served piece n, s); finish = λ s. ok tt }

ones-IsBytes : (n : ℕ) → IsBytes n (replicate n 1)
ones-IsBytes n = record { all = ones n; size = long n }
  where
    ones : (n : ℕ) → AllBytes (replicate n 1)
    ones zero = no_bytes
    ones (suc n) = byte (omega arith) (ones n)

    long : (n : ℕ) → length {A = ℕ} (replicate n 1) ≡ n
    long zero = refl
    long (suc n) = ap suc (long n)

served-IsBytes : (piece : Piece) (n : ℕ) → IsBytes n (served piece n)
served-IsBytes piece n =
    let at : Bool → List ℕ = λ b. if b then leaf_digest 1 (replicate 8 1) else replicate n 1 in
    elim (Bool-cases (n == 32)) [
      | inl same ↦ subst (IsBytes n) (sym (ap at same)) (
          subst (λ k. IsBytes k (leaf_digest 1 (replicate 8 1))) (sym ((==_iff n 32).0 same))
            (leaf_digest-IsBytes 1 (replicate 8 1)))
      | inr apart ↦ subst (IsBytes n) (sym (ap at apart)) (ones-IsBytes n)
    ]

two_rows-Serves : Serves two_rows_source
unfolding Serves
two_rows-Serves piece n s s' bytes e =
    subst (IsBytes n) (ap (λ p. p.0) (ok-inj e)) (served-IsBytes piece n)

abbrev at_start : Transcript (Unit {0})
at_start = record { source = tt; sponge = record { state = zero_state; pending = [] } }

abbrev right_row : Opened
right_row = record {
  positions = 1 ∷ [];
  values = row_value two_rows 2 true (one_e ∷ []) (replicate 8 1) ∷ [];
}

right_row_opens :
    open_rows two_rows_source two_rows_root 2 (1 ∷ 1 ∷ []) 1 2 true (one_e ∷ []) at_start
    ≡ ok (right_row, at_start)
unfolding open_rows log2_strict trailing_zeros trailing_zeros_loop insert_positions insert_position
    partition_point read_rows climb climb_level with_sibling is_root leaf_digest node_digest
    hash_pair update update_loop zeros zeros_loop finish permute keccak_f to_le_bytes bytes_eq
    row_value read absorb_word end_lane flush_block flush_word from_le_bytes
right_row_opens = refl

queries-AllBelow : AllBelow (2 ^ 1) (1 ∷ 1 ∷ [])
unfolding AllBelow
queries-AllBelow = (omega arith, (omega arith, tt))

open_rows-Binds_example :
    ((right_row.positions ≡ insert_positions [] (1 ∷ 1 ∷ []))
      × (right_row.values
          ≡ map
              (λ p. row_value two_rows 2 true (one_e ∷ []) (two_rows.row p))
              (insert_positions [] (1 ∷ 1 ∷ []))))
    ⊎ SecondPreimage two_rows
open_rows-Binds_example =
    open_rows-Binds two_rows_source two_rows two_rows_root (1 ∷ 1 ∷ []) 2 true (one_e ∷ []) at_start
      at_start right_row two_rows-Serves (omega arith) refl refl queries-AllBelow right_row_opens
