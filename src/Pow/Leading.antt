-- ===== src/Pow/Leading.antt =====
-- What the search looks for: a digest that starts with zero bits, of the number as 32 bytes, highest
-- first (`abi.encode(uint256(j))`).
use native.Mathlib.Nat.{pow-suc}
use native.Mathlib.Decide.{ℕ_discrete, dec_lt}
use hardware_wallet_benchmar.Prelude.{
  ℕ, zero, suc, List, [], ◌∷◌, ◌++◌, ◌≡◌, ◌≢◌, ◌↔◌, refl, sym, ap, ap₂, ◌∙◌, arith, ◌<◌, ◌≤◌, ◌+◌,
  ◌-◌, ◌*◌, ◌/◌, ◌%◌, ◌^◌, bit_and, bit_or, ◌<<<◌, take, replicate, reverse, to_le_bytes,
  from_le_bytes, get_or, subst, min, max, ==_iff, true,
}
use hardware_wallet_benchmar.Bits.Digits.{bit, bit-and, bit-or, bit_ext, zero-bit, bit-lt}
use hardware_wallet_benchmar.Bits.Pow.{shr_suc}
use hardware_wallet_benchmar.Bits.And.{and-zero}
use hardware_wallet_benchmar.Hash.Digest.RoundTrip.{AllBytes, no_bytes, byte, take-AllBytes}
use hardware_wallet_benchmar.Pow.{mask_from, mask, is_hit, digest, lane_of}

-- byte `i`
abbrev pub byte_at : List ℕ → ℕ → ℕ
byte_at bytes i = get_or bytes i 0

-- does `bytes` start with `n` zero bits, the highest of each byte first?
unfoldable pub StartsWithZeros : List ℕ → ℕ → Type 0
StartsWithZeros bytes n = (k : ℕ) → k < n → byte_at bytes (k / 8) / 2 ^ (7 - k % 8) % 2 ≡ 0

-- `abi.encode(uint256(j))`: 32 bytes, highest first
unfoldable pub abi_encode : ℕ → List ℕ
abi_encode j = reverse (to_le_bytes 32 j)

-- a power of two has one digit
power_bit : (p : ℕ) → bit (2 ^ p) p ≡ 1
unfolding bit
power_bit zero = refl
power_bit (suc p) =
    let half : 2 ^ suc p / 2 ≡ 2 ^ p = omega (arith, pow-suc 2 p) in
    ap (λ t. bit t p) half ∙ power_bit p

power_other : (p i : ℕ) → i ≢ p → bit (2 ^ p) i ≡ 0
unfolding bit
power_other zero zero h = absurd (h refl)
power_other zero (suc i) h = zero-bit i
power_other (suc p) zero h = omega (arith, pow-suc 2 p)
power_other (suc p) (suc i) h =
    let half : 2 ^ suc p / 2 ≡ 2 ^ p = omega (arith, pow-suc 2 p) in
    ap (λ t. bit t i) half ∙ power_other p i (λ e. h (ap suc e))

-- a digit of a number by division
bit_div : (n i : ℕ) → bit n i ≡ n / 2 ^ i % 2
unfolding bit
bit_div n zero = omega arith
bit_div n (suc i) = bit_div (n / 2) i ∙ ap (λ (t : ℕ). t % 2) (sym (shr_suc i n))

-- a bit in the mask
or-clear : (a m p : ℕ) → (bit_and a (bit_or m (1 <<< p)) ≡ 0) ↔ ((bit_and a m ≡ 0) × (bit a p ≡ 0))
or-clear a m p =
    let one : 1 <<< p ≡ 2 ^ p = omega arith in
    let whole = bit_or m (1 <<< p) in
    (
      λ h.
          let at : (i : ℕ) → min (bit a i) (max (bit m i) (bit (1 <<< p) i)) ≡ 0 = λ i.
            omega
              (arith, bit-and i a whole, bit-or i m (1 <<< p), ap (λ t. bit t i) h, zero-bit i) in
          (
            bit_ext (bit_and a m) 0 (λ i. omega (arith, at i, bit-and i a m, zero-bit i)),
            omega (arith, at p, ap (λ t. bit t p) one, power_bit p, bit-lt a p),
          ),
      λ (clear, off). bit_ext (bit_and a whole) 0 (λ i.
          let there : min (bit a i) (bit m i) ≡ 0 =
            omega (arith, ap (λ t. bit t i) clear, bit-and i a m, zero-bit i) in
          elim (ℕ_discrete i p) [
            | yes e ↦ omega (arith, bit-and i a whole, ap (bit a) e, off, zero-bit i)
            | no ne ↦ omega (
              arith,
              bit-and i a whole,
              bit-or i m (1 <<< p),
              ap (λ t. bit t i) one,
              power_other p i ne,
              there,
              zero-bit i,
            )
          ]),
    )

-- where bit `k` of the digest stands in lane 0
abbrev place : ℕ → ℕ
place k = 8 * (k / 8) + 7 - k % 8

mask_from-clear :
    (a n k m : ℕ)
    → (bit_and a (mask_from k n m) ≡ 0)
      ↔ ((bit_and a m ≡ 0) × ((j : ℕ) → k ≤ j → j < k + n → bit a (place j) ≡ 0))
unfolding mask_from
mask_from-clear a zero k m = ((λ h. (h, λ j low high. absurd (omega arith))), λ (h, rest). h)
mask_from-clear a (suc n) k m =
    let m' = bit_or m (1 <<< place k) in
    let later = mask_from-clear a n (k + 1) m' in
    let here = or-clear a m (place k) in
    (
      λ h.
          let (clear, rest) = later.0 h in
          let (clear', first) = here.0 clear in
          (
            clear',
            λ j low high. elim (ℕ_discrete j k) [
              | yes e ↦ ap (λ i. bit a (place i)) e ∙ first
              | no ne ↦ rest j (omega (arith, ne)) (omega arith)
            ],
          ),
      λ (clear, all). later.1 (
        here.1 (clear, all k (omega arith) (omega arith)),
        λ j low high. all j (omega arith) (omega arith),
      ),
    )

-- the digits of the lowest byte, and of the others
low_bit : (b r p : ℕ) → b < 256 → p < 8 → bit (b + 256 * r) p ≡ bit b p
low_bit b r p h low = bit_div (b + 256 * r) p ∙ below p low ∙ sym (bit_div b p)
  where
    below : (p : ℕ) → p < 8 → (b + 256 * r) / 2 ^ p % 2 ≡ b / 2 ^ p % 2
    below zero l = omega arith
    below (suc zero) l = omega arith
    below (suc (suc zero)) l = omega arith
    below (suc (suc (suc zero))) l = omega arith
    below (suc (suc (suc (suc zero)))) l = omega arith
    below (suc (suc (suc (suc (suc zero))))) l = omega arith
    below (suc (suc (suc (suc (suc (suc zero)))))) l = omega arith
    below (suc (suc (suc (suc (suc (suc (suc zero))))))) l = omega arith
    below (suc (suc (suc (suc (suc (suc (suc (suc p)))))))) l = absurd (omega arith)

high_bit : (b r p : ℕ) → b < 256 → bit (b + 256 * r) (p + 8) ≡ bit r p
unfolding bit
high_bit b r p h =
    let e : p + 8 ≡ suc (suc (suc (suc (suc (suc (suc (suc p))))))) = omega arith in
    let byte_off : (b + 256 * r) / 2 / 2 / 2 / 2 / 2 / 2 / 2 / 2 ≡ r = omega arith in
    ap (bit (b + 256 * r)) e ∙ ap (λ n. bit n p) byte_off

-- a digit of a number that bytes make
bytes_bit :
    (bytes : List ℕ) (p : ℕ)
    → AllBytes bytes
    → bit (from_le_bytes bytes) p ≡ bit (byte_at bytes (p / 8)) (p % 8)
unfolding from_le_bytes
bytes_bit [] p no_bytes = zero-bit p ∙ sym (zero-bit (p % 8))
bytes_bit (b ∷ bytes) p (byte h hs) = elim (dec_lt p 8) [
  | yes low ↦
      let first : p / 8 ≡ 0 = omega arith in
      let same : p % 8 ≡ p = omega arith in
      low_bit b (from_le_bytes bytes) p h low
      ∙ (λ i. bit (byte_at (b ∷ bytes) (sym first i)) (sym same i))
  | no high ↦
      let e : p ≡ (p - 8) + 8 = omega arith in
      let next : suc ((p - 8) / 8) ≡ p / 8 = omega arith in
      let same : (p - 8) % 8 ≡ p % 8 = omega arith in
      ap (bit (b + 256 * from_le_bytes bytes)) e
      ∙ high_bit b (from_le_bytes bytes) (p - 8) h
      ∙ bytes_bit bytes (p - 8) hs
      ∙ (λ i. bit (byte_at (b ∷ bytes) (next i)) (same i))
]

take-at : (n i : ℕ) (xs : List ℕ) → i < n → byte_at (take n xs) i ≡ byte_at xs i
take-at zero i xs h = absurd (omega arith)
take-at (suc n) i [] h = refl
take-at (suc n) zero (x ∷ xs) h = refl
take-at (suc n) (suc i) (x ∷ xs) h = take-at n i xs (omega arith)

lane_bit :
    (bytes : List ℕ) (k : ℕ)
    → AllBytes bytes
    → k < 64
    → bit (lane_of bytes 0) (place k) ≡ byte_at bytes (k / 8) / 2 ^ (7 - k % 8) % 2
lane_bit bytes k h low =
    let its_byte : place k / 8 ≡ k / 8 = omega arith in
    let its_bit : place k % 8 ≡ 7 - k % 8 = omega arith in
    bytes_bit (take 8 bytes) (place k) (take-AllBytes 8 bytes h)
    ∙ ap₂ bit (ap (byte_at (take 8 bytes)) its_byte ∙ take-at 8 (k / 8) bytes (omega arith)) its_bit
    ∙ bit_div (byte_at bytes (k / 8)) (7 - k % 8)

-- a digest of zeros at its start
hit_iff :
    (bytes : List ℕ) (difficulty : ℕ)
    → AllBytes bytes
    → difficulty ≤ 64
    → (bit_and (lane_of bytes 0) (mask difficulty) ≡ 0) ↔ StartsWithZeros bytes difficulty
unfolding mask StartsWithZeros
hit_iff bytes difficulty h small =
    let lane = lane_of bytes 0 in
    let clear = mask_from-clear lane difficulty 0 0 in
    (
      λ e k low.
          sym (lane_bit bytes k h (omega arith)) ∙ (clear.0 e).1 k (omega arith) (omega arith),
      λ zeros.
          clear.1
            (and-zero lane, λ k from low. lane_bit bytes k h (omega arith) ∙ zeros k (omega arith)),
    )

-- the message of `digest` is the encoding
message_of : (j : ℕ) → j < 2 ^ 64 → replicate 24 0 ++ reverse (to_le_bytes 8 j) ≡ abi_encode j
unfolding abi_encode to_le_bytes
message_of j h =
    let above : 0 ≡ j / 256 / 256 / 256 / 256 / 256 / 256 / 256 / 256 = omega arith in
    ap (λ (t : ℕ). reverse (to_le_bytes 8 j ++ to_le_bytes 24 t)) above

-- For a hash that gives bytes, the digest of a 64-bit number is a hit exactly where the hash of its
-- encoding starts with the zero bits.
pub is_hit-StartsWithZeros :
    (keccak256 : List ℕ → List ℕ) (difficulty j : ℕ)
    → ((message : List ℕ) → AllBytes (keccak256 message))
    → difficulty ≤ 64
    → j < 2 ^ 64
    → (is_hit keccak256 difficulty j ≡ true) ↔ StartsWithZeros (keccak256 (abi_encode j)) difficulty
unfolding is_hit digest
is_hit-StartsWithZeros keccak256 difficulty j bytes small h =
    let d = keccak256 (replicate 24 0 ++ reverse (to_le_bytes 8 j)) in
    let same : d ≡ keccak256 (abi_encode j) = ap keccak256 (message_of j h) in
    let hit = hit_iff d difficulty (bytes (replicate 24 0 ++ reverse (to_le_bytes 8 j))) small in
    let test = ==_iff (bit_and (lane_of d 0) (mask difficulty)) 0 in
    (
      λ e. subst (λ b. StartsWithZeros b difficulty) same (hit.0 (test.0 e)),
      λ zeros. test.1 (hit.1 (subst (λ b. StartsWithZeros b difficulty) (sym same) zeros)),
    )
