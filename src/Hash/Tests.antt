-- ===== src/Hash/Tests.antt =====
-- Runs of the hash functions.
use hardware_wallet_benchmar.Hash.Interleaved
use hardware_wallet_benchmar.Prelude.{
  zero, suc, refl, ◌≡◌, List, [], ◌∷◌, to_le_bytes, ℕ, arith, replicate, get_or-replicate, suc,
}
use hardware_wallet_benchmar.Hash.Permutation.{keccak_f}
use hardware_wallet_benchmar.Hash.State.{permute}
use hardware_wallet_benchmar.Hash.Hasher.{new, keccak_hash, update, update_loop, finish}
use hardware_wallet_benchmar.Hash.Digest.{from_halves, Digest, halves}
use hardware_wallet_benchmar.Hash.Interleaved.Refine.{lane-xor_lane, lane-set_lane, AllWords}
use hardware_wallet_benchmar.Hash.Digest.RoundTrip.{AllBytes, no_bytes, from_halves-halves, byte}
use hardware_wallet_benchmar.Hash.Hasher.Pieces.{update-append, new-Ready}
use hardware_wallet_benchmar.Error.{ok}

-- Keccak-256 of the empty text
empty_vector : keccak_hash [] ≡ record {
  bytes =
      0xc5 ∷ 0xd2 ∷ 0x46 ∷ 0x01 ∷ 0x86 ∷ 0xf7 ∷ 0x23 ∷ 0x3c ∷ 0x92 ∷ 0x7e ∷ 0x7d ∷ 0xb2 ∷ 0xdc
      ∷ 0xc7 ∷ 0x03 ∷ 0xc0 ∷ 0xe5 ∷ 0x00 ∷ 0xb6 ∷ 0x53 ∷ 0xca ∷ 0x82 ∷ 0x27 ∷ 0x3b ∷ 0x7b ∷ 0xfa
      ∷ 0xd8 ∷ 0x04 ∷ 0x5d ∷ 0x85 ∷ 0xa4 ∷ 0x70 ∷ [];
}
unfolding keccak_hash update update_loop finish permute keccak_f to_le_bytes
empty_vector = refl

abbrev zero_words : List ℕ
zero_words = replicate 50 0

zero_words-AllWords : AllWords zero_words
zero_words-AllWords k = omega (arith, get_or-replicate {A = ℕ} 50 k 0)

lane-set_lane_example :
    Interleaved.lane (Interleaved.set_lane zero_words 3 0x0123456789ABCDEF) 3 ≡ 0x0123456789ABCDEF
lane-set_lane_example = lane-set_lane zero_words 3 3 0x0123456789ABCDEF (omega arith) (omega arith)

lane-xor_lane_example :
    Interleaved.lane (Interleaved.xor_lane zero_words 3 0x0123456789ABCDEF) 4
    ≡ Interleaved.lane zero_words 4
lane-xor_lane_example =
    lane-xor_lane zero_words 3 4 0x0123456789ABCDEF zero_words-AllWords (omega arith) (omega arith)

abbrev ones_digest : Digest
ones_digest = record { bytes = replicate 32 1 }

ones-AllBytes : (n : ℕ) → AllBytes (replicate n 1)
ones-AllBytes zero = no_bytes
ones-AllBytes (suc n) = byte (omega arith) (ones-AllBytes n)

from_halves-halves_example :
    from_halves (halves ones_digest).0 (halves ones_digest).1 ≡ ok ones_digest
from_halves-halves_example = from_halves-halves ones_digest (ones-AllBytes 32) refl

update-append_example :
    update (update new (1 ∷ [])) (replicate 10 1) ≡ update new (1 ∷ replicate 10 1)
update-append_example =
    update-append new (1 ∷ []) (replicate 10 1) new-Ready (ones-AllBytes 1) (ones-AllBytes 10)
