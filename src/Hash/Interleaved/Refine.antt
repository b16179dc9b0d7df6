-- ===== src/Hash/Interleaved/Refine.antt =====
-- The device's lanes behave as the portable state's.
use hardware_wallet_benchmar.Prelude.{
  ℕ, ◌≡◌, refl, sym, ◌∙◌, ap, ap₂, ◌<◌, ◌^◌, ◌*◌, arith, bit_and, bit_or, bit_xor, u32, ◌>>>◌,
  ◌<<<◌, ◌+◌, subst, length, set, ◌≢◌, if◌then◌else◌, ◌==◌, get_or-set_self, get_or-set_ne,
  Bool-cases, length-set, inl, ==_iff, inr, ==_false,
}
use hardware_wallet_benchmar.Hash.Interleaved.{
  lane, set_lane, xor_lane, word, Words, unzip, odd_word, zip, even_word,
}
use hardware_wallet_benchmar.Bits.Linear.{
  IsLinear, shr-IsLinear, shl-IsLinear, agree_below, linear_ext, agree_below_sound,
}
use hardware_wallet_benchmar.Bits.Xor.{xor-lt, ◌⊕◌, xor_swap}
use hardware_wallet_benchmar.Hash.Interleaved.Linear.{
  or-high, and-IsLinear, u32-IsLinear, zip-IsLinear, or-low, zip-lt, unzip-lt, unzip-IsLinear,
}
use hardware_wallet_benchmar.Bits.And.{and-le, or-eq-xor, and_comm}
use hardware_wallet_benchmar.Field.Clmul.Words.{and-disjoint_shl}

-- the two halves of a lane before `zip`, and of its words after `unzip`, by `^` in place of `|`
low_half : ℕ → ℕ → ℕ
low_half even odd = bit_and even 0xFFFF ⊕ u32 (odd <<< 16)

high_half : ℕ → ℕ → ℕ
high_half even odd = even >>> 16 ⊕ bit_and odd 0xFFFF_0000

join_words : ℕ → ℕ → ℕ
join_words even odd = zip (low_half even odd) ⊕ zip (high_half even odd) <<< 32

low_half-xor : (a b c d : ℕ) → low_half (a ⊕ c) (b ⊕ d) ≡ low_half a b ⊕ low_half c d
unfolding low_half
low_half-xor a b c d =
    ap₂ bit_xor (and-IsLinear 0xFFFF a c)
      (ap (λ t. u32 t) (shl-IsLinear 16 b d) ∙ u32-IsLinear (b <<< 16) (d <<< 16))
    ∙ xor_swap (bit_and a 0xFFFF) (bit_and c 0xFFFF) (u32 (b <<< 16)) (u32 (d <<< 16))

high_half-xor : (a b c d : ℕ) → high_half (a ⊕ c) (b ⊕ d) ≡ high_half a b ⊕ high_half c d
unfolding high_half
high_half-xor a b c d =
    ap₂ bit_xor (shr-IsLinear 16 a c) (and-IsLinear 0xFFFF_0000 b d)
    ∙ xor_swap (a >>> 16) (c >>> 16) (bit_and b 0xFFFF_0000) (bit_and d 0xFFFF_0000)

join_words-xor : (a b c d : ℕ) → join_words (a ⊕ c) (b ⊕ d) ≡ join_words a b ⊕ join_words c d
unfolding join_words
join_words-xor a b c d =
    ap₂ bit_xor (ap zip (low_half-xor a b c d) ∙ zip-IsLinear (low_half a b) (low_half c d)) (
      ap (λ t. zip t <<< 32) (high_half-xor a b c d)
      ∙ ap (λ t. t <<< 32) (zip-IsLinear (high_half a b) (high_half c d))
      ∙ shl-IsLinear 32 (zip (high_half a b)) (zip (high_half c d)))
    ∙ xor_swap (zip (low_half a b)) (zip (low_half c d)) (zip (high_half a b) <<< 32)
        (zip (high_half c d) <<< 32)

low_half-lt : (even odd : ℕ) → low_half even odd < 2 ^ 32
unfolding low_half
low_half-lt even odd = xor-lt 32 _ _ (omega (arith, and-le even 0xFFFF)) (omega arith)

-- a lane's value is read from its two words, the even one of 32 bits
lane-eq :
    (s : Words) (i : ℕ)
    → word s (2 * i) < 2 ^ 32
    → lane s i ≡ join_words (word s (2 * i)) (word s (2 * i + 1))
unfolding lane join_words low_half high_half
lane-eq s i h =
    let even = word s (2 * i) in
    let odd = word s (2 * i + 1) in
    let lo = zip (low_half even odd) in
    let hi = zip (high_half even odd) in
    let small : lo < 2 ^ 32 = zip-lt (low_half even odd) (low_half-lt even odd) in
    ap₂ (λ l r. bit_or (zip l) (zip r <<< 32)) (or-low even odd) (or-high even odd h)
    ∙ or-eq-xor lo (hi <<< 32) (and_comm lo (hi <<< 32) ∙ and-disjoint_shl 32 hi lo small)

even_word-eq : (v : ℕ) → even_word v ≡ low_half (unzip (u32 v)) (unzip (u32 (v >>> 32)))
unfolding even_word low_half
even_word-eq v = or-low (unzip (u32 v)) (unzip (u32 (v >>> 32)))

odd_word-eq : (v : ℕ) → odd_word v ≡ high_half (unzip (u32 v)) (unzip (u32 (v >>> 32)))
unfolding odd_word high_half
odd_word-eq v = or-high (unzip (u32 v)) (unzip (u32 (v >>> 32))) (unzip-lt (u32 v) (omega arith))

even_word-lt : (v : ℕ) → even_word v < 2 ^ 32
even_word-lt v = subst (λ t. t < 2 ^ 32) (sym (even_word-eq v)) (low_half-lt _ _)

split_join : ℕ → ℕ
split_join v =
    let lo = unzip (u32 v) in
    let hi = unzip (u32 (v >>> 32)) in join_words (low_half lo hi) (high_half lo hi)

split_join-IsLinear : IsLinear split_join
unfolding split_join
split_join-IsLinear a b =
    let lo = λ (v : ℕ). unzip (u32 v) in
    let hi = λ (v : ℕ). unzip (u32 (v >>> 32)) in
    let el : lo (a ⊕ b) ≡ lo a ⊕ lo b =
      ap unzip (u32-IsLinear a b) ∙ unzip-IsLinear (u32 a) (u32 b) in
    let eh : hi (a ⊕ b) ≡ hi a ⊕ hi b =
      ap (λ t. unzip (u32 t)) (shr-IsLinear 32 a b)
      ∙ ap unzip (u32-IsLinear (a >>> 32) (b >>> 32))
      ∙ unzip-IsLinear (u32 (a >>> 32)) (u32 (b >>> 32)) in
    ap₂ join_words (ap₂ low_half el eh ∙ low_half-xor (lo a) (hi a) (lo b) (hi b))
      (ap₂ high_half el eh ∙ high_half-xor (lo a) (hi a) (lo b) (hi b))
    ∙ join_words-xor (low_half (lo a) (hi a)) (high_half (lo a) (hi a)) (low_half (lo b) (hi b))
        (high_half (lo b) (hi b))

split_join-id : (v : ℕ) → v < 2 ^ 64 → split_join v ≡ v
unfolding agree_below split_join join_words low_half high_half zip unzip
split_join-id v h =
    linear_ext 64 split_join (λ x. x) split_join-IsLinear (λ a b. refl)
      (agree_below_sound 64 (λ i. split_join (2 ^ i)) (λ i. 2 ^ i) refl) v h

-- Joining the words that a 64-bit value splits into gives the value back.
words-join : (v : ℕ) → v < 2 ^ 64 → join_words (even_word v) (odd_word v) ≡ v
unfolding split_join
words-join v h = ap₂ join_words (even_word-eq v) (odd_word-eq v) ∙ split_join-id v h

-- every word of the state is one of 32 bits
abbrev pub AllWords : Words → Type 0
AllWords s = (k : ℕ) → word s k < 2 ^ 32

-- A lane whose two words a write leaves alone reads as it did.
lane-cong :
    (s s' : Words) (j : ℕ)
    → word s' (2 * j) ≡ word s (2 * j)
    → word s' (2 * j + 1) ≡ word s (2 * j + 1)
    → lane s' j ≡ lane s j
unfolding lane
lane-cong s s' j p q =
    ap₂
      (λ even odd.
        bit_or (zip (bit_or (bit_and even 0xFFFF) (u32 (odd <<< 16))))
          (zip (bit_or (even >>> 16) (bit_and odd 0xFFFF_0000)) <<< 32))
      p q

-- what a write of two words leaves of a lane
module _ (s : Words) (i a b : ℕ) (hi : 2 * i + 1 < length s) where
  even_written : word (set (set s (2 * i) a) (2 * i + 1) b) (2 * i) ≡ a
  even_written =
      get_or-set_ne (set s (2 * i) a) (2 * i + 1) (2 * i) b 0 (λ e. omega arith)
      ∙ get_or-set_self s (2 * i) a 0 (omega arith)

  odd_written : word (set (set s (2 * i) a) (2 * i + 1) b) (2 * i + 1) ≡ b
  odd_written =
      get_or-set_self (set s (2 * i) a) (2 * i + 1) b 0 (omega (arith, length-set s (2 * i) a))

  lane_other : (j : ℕ) → i ≢ j → lane (set (set s (2 * i) a) (2 * i + 1) b) j ≡ lane s j
  lane_other j n =
      let apart : (k : ℕ)
          → k ≢ 2 * i
          → k ≢ 2 * i + 1
          → word (set (set s (2 * i) a) (2 * i + 1) b) k ≡ word s k =
        λ k p q.
          get_or-set_ne (set s (2 * i) a) (2 * i + 1) k b 0 (λ e. q (sym e))
          ∙ get_or-set_ne s (2 * i) k a 0 (λ e. p (sym e)) in
      lane-cong s _ j (apart (2 * j) (λ e. n (omega arith)) (λ e. omega arith))
        (apart (2 * j + 1) (λ e. omega arith) (λ e. n (omega arith)))

-- On the device's bit-interleaved state, set_lane stores a 64-bit value in a lane in range and
-- leaves the others alone.
pub lane-set_lane :
    (s : Words) (i j v : ℕ)
    → 2 * i + 1 < length s
    → v < 2 ^ 64
    → lane (set_lane s i v) j ≡ (if i == j then v else lane s j)
unfolding set_lane
lane-set_lane s i j v hi hv = elim (Bool-cases (i == j)) [
  | inl p ↦
      let e : i ≡ j = (==_iff i j).0 p in
      let we = even_written s i (even_word v) (odd_word v) hi in
      let wo = odd_written s i (even_word v) (odd_word v) hi in
      ap (λ k. lane (set_lane s i v) k) (sym e)
      ∙ lane-eq (set_lane s i v) i (subst (λ t. t < 2 ^ 32) (sym we) (even_word-lt v))
      ∙ ap₂ join_words we wo
      ∙ words-join v hv
      ∙ ap (λ b. if b then v else lane s j) (sym p)
  | inr p ↦
      lane_other s i (even_word v) (odd_word v) hi j (==_false i j p)
      ∙ ap (λ b. if b then v else lane s j) (sym p)
]

-- On the device's bit-interleaved state, all its words of 32 bits, xor_lane adds a 64-bit value
-- to a lane in range and leaves the others alone.
pub lane-xor_lane :
    (s : Words) (i j v : ℕ)
    → AllWords s
    → 2 * i + 1 < length s
    → v < 2 ^ 64
    → lane (xor_lane s i v) j ≡ (if i == j then lane s j ⊕ v else lane s j)
unfolding xor_lane
lane-xor_lane s i j v hs hi hv =
    let even = word s (2 * i) ⊕ even_word v in
    let odd = word (set s (2 * i) even) (2 * i + 1) ⊕ odd_word v in
    let odd_kept : word (set s (2 * i) even) (2 * i + 1) ≡ word s (2 * i + 1) =
      get_or-set_ne s (2 * i) (2 * i + 1) even 0 (λ e. omega arith) in
    elim (Bool-cases (i == j)) [
      | inl p ↦
          let e : i ≡ j = (==_iff i j).0 p in
          let we = even_written s i even odd hi in
          let wo = odd_written s i even odd hi in
          let small : even < 2 ^ 32 = xor-lt 32 _ _ (hs (2 * i)) (even_word-lt v) in
          ap (λ k. lane (xor_lane s i v) k) (sym e)
          ∙ lane-eq (xor_lane s i v) i (subst (λ t. t < 2 ^ 32) (sym we) small)
          ∙ ap₂ join_words we (wo ∙ ap (λ t. t ⊕ odd_word v) odd_kept)
          ∙ join_words-xor (word s (2 * i)) (word s (2 * i + 1)) (even_word v) (odd_word v)
          ∙ ap₂ bit_xor (sym (lane-eq s i (hs (2 * i))) ∙ ap (λ k. lane s k) e) (words-join v hv)
          ∙ ap (λ b. if b then lane s j ⊕ v else lane s j) (sym p)
      | inr p ↦
          lane_other s i even odd hi j (==_false i j p)
          ∙ ap (λ b. if b then lane s j ⊕ v else lane s j) (sym p)
    ]
