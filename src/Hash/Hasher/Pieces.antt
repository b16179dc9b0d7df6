-- ===== src/Hash/Hasher/Pieces.antt =====
-- What is hashed in pieces, zeros among them, is hashed as a whole.
use hardware_wallet_benchmar.Prelude.{
  ℕ, zero, suc, List, [], ◌∷◌, ◌++◌, ◌≡◌, ◌≢◌, refl, sym, ap, ◌∙◌, arith, ◌+◌, ◌-◌, ◌*◌, ◌%◌, ◌≤◌,
  bit_or, u64, ◌<<<◌, Bool, ◌==◌, ==_apart, if◌then◌else◌, replicate, min,
}
use hardware_wallet_benchmar.Hash.Hasher.{
  Hasher, new, end_lane, absorb_byte, update, zeros, zeros_loop, finish, keccak_hash, hash_pair,
}
use hardware_wallet_benchmar.Hash.Hasher.Bytewise.{
  Ready, bytewise, bytewise-append, bytewise-Ready, update-bytewise,
}
use hardware_wallet_benchmar.Hash.Digest.RoundTrip.{AllBytes, no_bytes, byte}
use hardware_wallet_benchmar.Bits.Or.{or-zero}

append-AllBytes : (xs ys : List ℕ) → AllBytes xs → AllBytes ys → AllBytes (xs ++ ys)
append-AllBytes [] ys no_bytes k = k
append-AllBytes (x ∷ xs) ys (byte h hs) k = byte h (append-AllBytes xs ys hs k)

-- However an input of bytes is cut in two, updating with the one part and then with the other is
-- updating with the whole, from any hasher that holds back no byte between two lanes.
pub update-append :
    (h : Hasher) (xs ys : List ℕ)
    → Ready h
    → AllBytes xs
    → AllBytes ys
    → update (update h xs) ys ≡ update h (xs ++ ys)
update-append h xs ys r hx hy =
    ap (λ x. update x ys) (update-bytewise h xs r hx)
    ∙ update-bytewise (bytewise h xs) ys (bytewise-Ready h xs r) hy
    ∙ bytewise-append h xs ys
    ∙ sym (update-bytewise h (xs ++ ys) r (append-AllBytes xs ys hx hy))

-- `n` bytes on
abbrev skip : Hasher → ℕ → Hasher
skip h n = record h { filled = h.filled + n }

abbrev settle : Hasher → Bool → Hasher
settle h ended = if ended then end_lane h else h

zero_byte : (h : Hasher) → absorb_byte h 0 ≡ settle (skip h 1) ((h.filled + 1) % 8 == 0)
unfolding absorb_byte
zero_byte h =
    let nothing : u64 (0 <<< (8 * (h.filled % 8))) ≡ 0 = omega arith in
    let kept = ap (λ t. bit_or h.word t) nothing ∙ or-zero h.word in
    λ i. settle (record h { word = kept i; filled = h.filled + 1 }) ((h.filled + 1) % 8 == 0)

-- zeros within a lane
zero_bytes :
    (s : ℕ) (h : Hasher)
    → h.filled % 8 + suc s ≤ 8
    → bytewise h (replicate (suc s) 0) ≡ settle (skip h (suc s)) ((h.filled + suc s) % 8 == 0)
unfolding bytewise
zero_bytes zero h fits = zero_byte h
zero_bytes (suc s) h fits =
    let inside : (h.filled + 1) % 8 ≢ 0 = λ e. omega arith in
    let more : (h.filled + 1) % 8 + suc s ≤ 8 = omega arith in
    let count : h.filled + 1 + suc s ≡ h.filled + suc (suc s) = omega arith in
    ap (λ x. bytewise x (replicate (suc s) 0))
      (zero_byte h ∙ ap (settle (skip h 1)) (==_apart ((h.filled + 1) % 8) 0 inside))
    ∙ zero_bytes s (skip h 1) more
    ∙ ap (λ (n : ℕ). settle (record h { filled = n }) (n % 8 == 0)) count

replicate-append : (m n : ℕ) → ◌++◌ {A = ℕ} (replicate m 0) (replicate n 0) ≡ replicate (m + n) 0
replicate-append zero n = let e : n ≡ 0 + n = omega arith in ap (λ k. replicate k 0) e
replicate-append (suc m) n =
    let e : suc (m + n) ≡ suc m + n = omega arith in
    ap (λ t. 0 ∷ t) (replicate-append m n) ∙ ap (λ k. replicate k 0) e

zeros_loop-bytewise :
    (fuel : ℕ) (h : Hasher) (n : ℕ) → n ≤ fuel → zeros_loop fuel h n ≡ bytewise h (replicate n 0)
unfolding zeros_loop bytewise
zeros_loop-bytewise zero h zero small = refl
zeros_loop-bytewise zero h (suc n) small = absurd (omega arith)
zeros_loop-bytewise (suc fuel) h zero small = refl
zeros_loop-bytewise (suc fuel) h (suc n) small =
    let s = min n (7 - h.filled % 8) in
    let step : min (suc n) (8 - h.filled % 8) ≡ suc s = omega arith in
    let run =
      λ (k : ℕ). zeros_loop fuel (settle (skip h k) ((h.filled + k) % 8 == 0)) (suc n - k) in
    let total : suc s + (suc n - suc s) ≡ suc n = omega arith in
    let some_left : suc n ≢ 0 = λ e. omega arith in
    ap (λ c. if c then h else run (min (suc n) (8 - h.filled % 8))) (==_apart (suc n) 0 some_left)
    ∙ ap run step
    ∙ ap (λ x. zeros_loop fuel x (suc n - suc s)) (sym (zero_bytes s h (omega arith)))
    ∙ zeros_loop-bytewise fuel (bytewise h (replicate (suc s) 0)) (suc n - suc s) (omega arith)
    ∙ bytewise-append h (replicate (suc s) 0) (replicate (suc n - suc s) 0)
    ∙ ap (bytewise h) (replicate-append (suc s) (suc n - suc s) ∙ ap (λ k. replicate k 0) total)

zeros-AllBytes : (n : ℕ) → AllBytes (replicate n 0)
zeros-AllBytes zero = no_bytes
zeros-AllBytes (suc n) = byte (omega arith) (zeros-AllBytes n)

-- `zeros` is an update with as many zero bytes
pub zeros-update : (h : Hasher) (n : ℕ) → Ready h → zeros h n ≡ update h (replicate n 0)
unfolding zeros
zeros-update h n r =
    zeros_loop-bytewise n h n (omega arith)
    ∙ sym (update-bytewise h (replicate n 0) r (zeros-AllBytes n))

pub new-Ready : Ready new
unfolding Ready
new-Ready _ = refl

-- `hash_pair` is the hash of the two digests, one after the other
pub hash_pair-keccak_hash :
    (left right : List ℕ)
    → AllBytes left
    → AllBytes right
    → hash_pair left right ≡ keccak_hash (left ++ right)
unfolding hash_pair keccak_hash
hash_pair-keccak_hash left right hl hr = ap finish (update-append new left right new-Ready hl hr)

pub zeros-update-finish :
    (n : ℕ) (row : List ℕ)
    → AllBytes row
    → finish (update (zeros new n) row) ≡ keccak_hash (replicate n 0 ++ row)
unfolding keccak_hash
zeros-update-finish n row h =
    ap (λ x. finish (update x row)) (zeros-update new n new-Ready)
    ∙ ap finish (update-append new (replicate n 0) row new-Ready (zeros-AllBytes n) h)
