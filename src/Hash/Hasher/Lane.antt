-- ===== src/Hash/Hasher/Lane.antt =====
-- The bytes of a lane, collected one by one in `Hasher.word`.
use native.Mathlib.Nat.{pow-le-pow_right}
use hardware_wallet_benchmar.Prelude.{
  ℕ, suc, List, [], ◌∷◌, ◌++◌, ◌≡◌, sym, ap, ◌∙◌, arith, ◌+◌, ◌*◌, ◌^◌, ◌≤◌, ◌<◌, bit_or, u64,
  ◌<<<◌, length, length-append, from_le_bytes,
}
use hardware_wallet_benchmar.Bits.Or.{or_add}
use hardware_wallet_benchmar.Bits.Pow.{pow_add}
use hardware_wallet_benchmar.Hash.Digest.RoundTrip.{AllBytes, no_bytes, byte}

pow_bytes : (n : ℕ) → 2 ^ (8 * suc n) ≡ 256 * 2 ^ (8 * n)
pow_bytes n =
    let e : 8 * suc n ≡ 8 + 8 * n = omega arith in ap (λ (t : ℕ). 2 ^ t) e ∙ pow_add 8 (8 * n)

pub from_le_bytes-lt :
    (bytes : List ℕ) → AllBytes bytes → from_le_bytes bytes < 2 ^ (8 * length bytes)
unfolding from_le_bytes
from_le_bytes-lt [] h = omega arith
from_le_bytes-lt (b ∷ bytes) (byte h hs) =
    omega (arith, from_le_bytes-lt bytes hs, pow_bytes (length bytes))

from_le_bytes-snoc :
    (bytes : List ℕ) (b : ℕ)
    → from_le_bytes (bytes ++ (b ∷ [])) ≡ from_le_bytes bytes + b * 2 ^ (8 * length bytes)
unfolding from_le_bytes
from_le_bytes-snoc [] b = omega arith
from_le_bytes-snoc (c ∷ bytes) b =
    omega (arith, from_le_bytes-snoc bytes b, ap (λ (t : ℕ). b * t) (pow_bytes (length bytes)))

pub snoc-AllBytes :
    (bytes : List ℕ) (b : ℕ) → AllBytes bytes → b < 256 → AllBytes (bytes ++ (b ∷ []))
snoc-AllBytes [] b no_bytes k = byte k no_bytes
snoc-AllBytes (c ∷ bytes) b (byte h hs) k = byte h (snoc-AllBytes bytes b hs k)

pub length-snoc : (bytes : List ℕ) (b : ℕ) → length (bytes ++ (b ∷ [])) ≡ suc (length bytes)
length-snoc bytes b = omega (arith, length-append bytes (b ∷ []))

-- the next byte of a lane
pub next_byte :
    (bytes : List ℕ) (b : ℕ)
    → AllBytes bytes
    → b < 256
    → length bytes < 8
    → bit_or (from_le_bytes bytes) (u64 (b <<< (8 * length bytes)))
      ≡ from_le_bytes (bytes ++ (b ∷ []))
next_byte bytes b h hb short =
    let n = length bytes in
    let two : 0 < 2 = omega arith in
    let fits : 8 * length (bytes ++ (b ∷ [])) ≤ 64 = omega (arith, length-snoc bytes b) in
    let small : from_le_bytes (bytes ++ (b ∷ [])) < 2 ^ 64 = omega (
      arith,
      from_le_bytes-lt (bytes ++ (b ∷ [])) (snoc-AllBytes bytes b h hb),
      pow-le-pow_right two fits,
    ) in
    let e = from_le_bytes-snoc bytes b in
    let whole : u64 (b * 2 ^ (8 * n)) ≡ b * 2 ^ (8 * n) = omega (arith, small, e) in
    ap (λ t. bit_or (from_le_bytes bytes) t) whole
    ∙ or_add (8 * n) b (from_le_bytes bytes) (from_le_bytes-lt bytes h)
    ∙ sym e
