-- ===== src/Pow/Tests.antt =====
-- The search and the advice at a concrete hash.
use hardware_wallet_benchmar.Prelude.{
  ℕ, ◌≡◌, ◌↔◌, [], ◌∷◌, map, ◌-◌, ◌%◌, arith, List, some, reverse, length, ◌+◌, ◌/◌,
}
use hardware_wallet_benchmar.Pow.{find_smallest, advice}
use hardware_wallet_benchmar.Hash.Digest.RoundTrip.{AllBytes, no_bytes, byte}
use hardware_wallet_benchmar.Pow.Correct.{IsSmallest, find_smallest-IsSmallest, advice-length}
use hardware_wallet_benchmar.Field.E.{E, new}

-- a hash whose first bytes are the number's lowest, each of them taken from 255
abbrev turned : List ℕ → List ℕ
turned message = map (λ b. 255 - b % 256) (reverse message)

map-AllBytes : (bytes : List ℕ) → AllBytes (map (λ b. 255 - b % 256) bytes)
map-AllBytes [] = no_bytes
map-AllBytes (b ∷ bytes) = byte (omega arith) (map-AllBytes bytes)

abbrev table_address : ℕ → E
table_address k = new k 0 0

find_smallest-IsSmallest_example :
    (find_smallest turned 18 ≡ some 0xc0ffff) ↔ IsSmallest turned 18 0xc0ffff
find_smallest-IsSmallest_example =
    find_smallest-IsSmallest turned 18 0xc0ffff (λ message. map-AllBytes (reverse message))
      (omega arith)

advice-length_example :
    (length (advice turned table_address 35).0 ≡ 35 + 1)
    × (length (advice turned table_address 35).1 ≡ 35 / 16)
advice-length_example = advice-length turned table_address 35
