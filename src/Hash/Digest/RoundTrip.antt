-- ===== src/Hash/Digest/RoundTrip.antt =====
-- A digest sent as two scalars comes back.
use hardware_wallet_benchmar.Prelude.{
  ℕ, zero, suc, ◌≡◌, refl, sym, ◌∙◌, ap, ap₂, ◌+◌, ◌<◌, arith, List, [], ◌∷◌, ◌++◌, length, take,
  drop, ◌≤◌, to_le_bytes, from_le_bytes, ◌*◌, length-take, ◌%◌, ◌/◌, length-drop, take-append-drop,
}
use hardware_wallet_benchmar.Hash.Digest.{Digest, halves, from_halves}
use hardware_wallet_benchmar.Error.{ok}

-- every byte is one of 8 bits: what the type `u8` says in the source
pub data AllBytes : List ℕ → Type 0 where
  no_bytes : AllBytes []
  byte : {b : ℕ} {bytes : List ℕ} → b < 256 → AllBytes bytes → AllBytes (b ∷ bytes)

-- The bytes of the number that they are the digits of.
to_le_bytes-from_le_bytes :
    (bytes : List ℕ) → AllBytes bytes → to_le_bytes (length bytes) (from_le_bytes bytes) ≡ bytes
unfolding to_le_bytes from_le_bytes
to_le_bytes-from_le_bytes [] h = refl
to_le_bytes-from_le_bytes (b ∷ bytes) (byte h hs) =
    let low : (b + 256 * from_le_bytes bytes) % 256 ≡ b = omega arith in
    let high : (b + 256 * from_le_bytes bytes) / 256 ≡ from_le_bytes bytes = omega arith in
    ap₂ (λ l r. l ∷ r) low
      (ap (λ t. to_le_bytes (length bytes) t) high ∙ to_le_bytes-from_le_bytes bytes hs)

pub take-AllBytes : (n : ℕ) (bytes : List ℕ) → AllBytes bytes → AllBytes (take n bytes)
take-AllBytes zero bytes h = no_bytes
take-AllBytes (suc n) [] no_bytes = no_bytes
take-AllBytes (suc n) (b ∷ bytes) (byte h hs) = byte h (take-AllBytes n bytes hs)

pub drop-AllBytes : (n : ℕ) (bytes : List ℕ) → AllBytes bytes → AllBytes (drop n bytes)
drop-AllBytes zero bytes h = h
drop-AllBytes (suc n) [] no_bytes = no_bytes
drop-AllBytes (suc n) (b ∷ bytes) (byte h hs) = drop-AllBytes n bytes hs

-- eight bytes, as a word and back
word-bytes :
    (bytes : List ℕ)
    → AllBytes bytes
    → 8 ≤ length bytes
    → to_le_bytes 8 (from_le_bytes (take 8 bytes)) ≡ take 8 bytes
word-bytes bytes h n =
    let e : length (take 8 bytes) ≡ 8 = omega (arith, length-take 8 bytes) in
    ap (λ k. to_le_bytes k (from_le_bytes (take 8 bytes))) (sym e)
    ∙ to_le_bytes-from_le_bytes (take 8 bytes) (take-AllBytes 8 bytes h)

drop-nil : (i : ℕ) → drop {A = ℕ} i [] ≡ []
drop-nil zero = refl
drop-nil (suc i) = refl

drop-drop : (i j : ℕ) (xs : List ℕ) → drop i (drop j xs) ≡ drop (j + i) xs
drop-drop i zero xs = let e : i ≡ 0 + i = omega arith in ap (λ k. drop k xs) e
drop-drop i (suc j) [] = drop-nil i ∙ sym (drop-nil (suc j + i))
drop-drop i (suc j) (x ∷ xs) =
    let e : suc (j + i) ≡ suc j + i = omega arith in drop-drop i j xs ∙ ap (λ k. drop k (x ∷ xs)) e

take_all : (xs : List ℕ) → take (length xs) xs ≡ xs
take_all [] = refl
take_all (x ∷ xs) = ap (λ t. x ∷ t) (take_all xs)

four_words :
    (bytes : List ℕ)
    → length bytes ≡ 32
    → take 8 bytes ++ (take 8 (drop 8 bytes) ++ (take 8 (drop 16 bytes) ++ take 8 (drop 24 bytes)))
      ≡ bytes
four_words bytes n =
    let eight : length (drop 24 bytes) ≡ 8 = omega (arith, length-drop 24 bytes) in
    let last : take 8 (drop 24 bytes) ≡ drop 8 (drop 16 bytes) =
      ap (λ k. take k (drop 24 bytes)) (sym eight)
      ∙ take_all (drop 24 bytes)
      ∙ sym (drop-drop 8 16 bytes) in
    let third : take 8 (drop 16 bytes) ++ take 8 (drop 24 bytes) ≡ drop 8 (drop 8 bytes) =
      ap (λ t. take 8 (drop 16 bytes) ++ t) last
      ∙ take-append-drop 8 (drop 16 bytes)
      ∙ sym (drop-drop 8 8 bytes) in
    ap (λ t. take 8 bytes ++ (take 8 (drop 8 bytes) ++ t)) third
    ∙ ap (λ t. take 8 bytes ++ t) (take-append-drop 8 (drop 8 bytes))
    ∙ take-append-drop 8 bytes

-- A digest of 32 bytes, split in its two scalars, is what the two scalars give back.
pub from_halves-halves :
    (d : Digest)
    → AllBytes d.bytes
    → length d.bytes ≡ 32
    → from_halves (halves d).0 (halves d).1 ≡ ok d
unfolding from_halves halves
from_halves-halves d h n =
    let w = λ (k : ℕ) (m : k ≤ 24).
      word-bytes (drop k d.bytes) (drop-AllBytes k d.bytes h)
        (omega (arith, length-drop k d.bytes)) in
    λ i. ok (record {
      bytes =
          (ap₂ (λ a r. a ++ r) (w 0 (omega arith))
                (ap₂ (λ a r. a ++ r) (w 8 (omega arith))
                  (ap₂ (λ a r. a ++ r) (w 16 (omega arith)) (w 24 (omega arith))))
              ∙ four_words d.bytes n)
            i;
    })
