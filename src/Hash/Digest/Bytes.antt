-- ===== src/Hash/Digest/Bytes.antt =====
-- Every digest has 32 bytes.
use hardware_wallet_benchmar.Prelude.{
  ℕ, zero, suc, List, [], ◌∷◌, ◌++◌, ◌≡◌, refl, arith, ap, length, length-append, to_le_bytes, ◌+◌,
  ◌/◌,
}
use hardware_wallet_benchmar.Hash.Digest.RoundTrip.{AllBytes, no_bytes, byte}
use hardware_wallet_benchmar.Hash.Hasher.{Hasher, finish, hash_pair}

-- `n` bytes: what the type `[u8; n]` says in the source
pub record IsBytes (n : ℕ) (bytes : List ℕ) : Type 0 where
  pub all : AllBytes bytes
  pub size : length bytes ≡ n

append-AllBytes : (xs ys : List ℕ) → AllBytes xs → AllBytes ys → AllBytes (xs ++ ys)
append-AllBytes [] ys no_bytes k = k
append-AllBytes (x ∷ xs) ys (byte h hs) k = byte h (append-AllBytes xs ys hs k)

append-IsBytes :
    (m n : ℕ) (xs ys : List ℕ) → IsBytes m xs → IsBytes n ys → IsBytes (m + n) (xs ++ ys)
append-IsBytes m n xs ys h k = record {
  all = append-AllBytes xs ys h.all k.all;
  size = omega (arith, length-append xs ys, h.size, k.size);
}

to_le_bytes-AllBytes : (count word : ℕ) → AllBytes (to_le_bytes count word)
unfolding to_le_bytes
to_le_bytes-AllBytes zero word = no_bytes
to_le_bytes-AllBytes (suc count) word = byte (omega arith) (to_le_bytes-AllBytes count (word / 256))

pub length-to_le_bytes : (count word : ℕ) → length (to_le_bytes count word) ≡ count
unfolding to_le_bytes
length-to_le_bytes zero word = refl
length-to_le_bytes (suc count) word = ap suc (length-to_le_bytes count (word / 256))

word-IsBytes : (word : ℕ) → IsBytes 8 (to_le_bytes 8 word)
word-IsBytes word = record { all = to_le_bytes-AllBytes 8 word; size = length-to_le_bytes 8 word }

pub finish-IsBytes : (h : Hasher) → IsBytes 32 (finish h).bytes
unfolding finish
finish-IsBytes h = append-IsBytes 8 24 _ _ (word-IsBytes _) (
    append-IsBytes 8 16 _ _ (word-IsBytes _)
      (append-IsBytes 8 8 _ _ (word-IsBytes _) (word-IsBytes _)))

pub hash_pair-IsBytes : (left right : List ℕ) → IsBytes 32 (hash_pair left right).bytes
unfolding hash_pair
hash_pair-IsBytes left right = finish-IsBytes _
