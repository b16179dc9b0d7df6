-- ===== src/Hash/Hasher.antt =====
-- `struct Hasher`: Keccak-256 fed in pieces, whole words where the input allows.
pub mod Bytewise
mod Lane
pub mod Pieces
use hardware_wallet_benchmar.Prelude.{
  ℕ, zero, suc, List, [], ◌∷◌, take, min, length, from_le_bytes, if◌then◌else◌, bit_or, u64, drop,
  ◌-◌, ◌+◌, ◌==◌, to_le_bytes, ◌/◌, ◌%◌, ◌<<<◌, ◌*◌, ◌&&◌, ◌++◌, leb,
}
use hardware_wallet_benchmar.Hash.State.{State, zero_state, permute, xor_lane, lane}
use hardware_wallet_benchmar.Hash.Digest.{Digest}
use hardware_wallet_benchmar.Hash.Permutation.{rate}

-- `filled`: the bytes of the current block absorbed; `word`: the bytes of a lane not yet in it
pub record Hasher : Type 0 where
  pub state : State
  pub filled : ℕ
  pub word : ℕ

abbrev pub new : Hasher
new = record { state = zero_state; filled = 0; word = 0 }

-- the two `if`s of `end_lane`
unfoldable pub flush_word : Hasher → Hasher
flush_word h =
    if h.word == 0
    then h
    else record h { state = xor_lane h.state (h.filled / 8 - 1) h.word; word = 0 }

unfoldable pub flush_block : Hasher → Hasher
flush_block h = if h.filled == rate then record h { state = permute h.state; filled = 0 } else h

unfoldable pub end_lane : Hasher → Hasher
end_lane h = flush_block (flush_word h)

-- one byte: the `else` branch of the loop of `update`
unfoldable pub absorb_byte : Hasher → ℕ → Hasher
absorb_byte h b =
    let h' = record h {
      word = bit_or h.word (u64 (b <<< (8 * (h.filled % 8))));
      filled = h.filled + 1;
    } in
    if h'.filled % 8 == 0 then end_lane h' else h'

-- eight bytes: the other branch
unfoldable pub absorb_word : Hasher → List ℕ → Hasher
absorb_word h bytes = end_lane (record h { word = from_le_bytes bytes; filled = h.filled + 8 })

-- the loop, on fuel; each round takes a byte at least
unfoldable pub update_loop : ℕ → Hasher → List ℕ → Hasher
update_loop zero h bytes = h
update_loop (suc fuel) h [] = h
update_loop (suc fuel) h (b ∷ bytes) =
    let by_word = update_loop fuel (absorb_word h (take 8 (b ∷ bytes))) (drop 8 (b ∷ bytes)) in
    let by_byte = update_loop fuel (absorb_byte h b) bytes in
    if (h.filled % 8 == 0) && leb 8 (length (b ∷ bytes)) then by_word else by_byte

unfoldable pub update : Hasher → List ℕ → Hasher
update h bytes = update_loop (length bytes) h bytes

-- `zeros`: the loop, on fuel
unfoldable pub zeros_loop : ℕ → Hasher → ℕ → Hasher
zeros_loop zero h n = h
zeros_loop (suc fuel) h n =
    let step = min n (8 - h.filled % 8) in
    let h' = record h { filled = h.filled + step } in
    let rest = zeros_loop fuel (if h'.filled % 8 == 0 then end_lane h' else h') (n - step) in
    if n == 0 then h else rest

unfoldable pub zeros : Hasher → ℕ → Hasher
zeros h n = zeros_loop n h n

unfoldable pub finish : Hasher → Digest
finish h =
    let word = bit_or h.word (u64 (1 <<< (8 * (h.filled % 8)))) in
    let s1 = xor_lane h.state (h.filled / 8) word in
    let s2 = xor_lane s1 (rate / 8 - 1) (u64 (0x80 <<< 56)) in
    let s3 = permute s2 in
    record {
      bytes =
          to_le_bytes 8 (lane s3 0)
          ++ (to_le_bytes 8 (lane s3 1)
              ++ (to_le_bytes 8 (lane s3 2) ++ to_le_bytes 8 (lane s3 3)));
    }

unfoldable pub keccak_hash : List ℕ → Digest
keccak_hash bytes = finish (update new bytes)

unfoldable pub hash_pair : List ℕ → List ℕ → Digest
hash_pair left right = finish (update (update new left) right)
