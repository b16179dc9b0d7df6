-- ===== src/Transcript/Ops.antt =====
-- The methods of `Transcript`.
use hardware_wallet_benchmar.Prelude.{
  some, none, ℕ, zero, suc, List, [], ◌∷◌, if◌then◌else◌, none, from_le_bytes, Option, take, ◌==◌,
  ◌-◌, ltb, bit_and, ◌^◌, drop,
}
use hardware_wallet_benchmar.Error.{Result, ok, err, require, grinding_nonce}
use hardware_wallet_benchmar.Hash.Digest.{Digest}
use hardware_wallet_benchmar.Field.E.{E, new, zero_e, ◌≟◌, ◌⊞◌, ◌⊠◌}
use hardware_wallet_benchmar.Transcript.Source.{Source, Piece}
use hardware_wallet_benchmar.Transcript.Sponge
use hardware_wallet_benchmar.Transcript.Sponge.{Sponge, ds_observe, ds_pow_nonce}
use hardware_wallet_benchmar.Transcript.Monad.{Transcript, M, ◌>>=◌, ◌>>◌, pure, lift}
use hardware_wallet_benchmar.Transcript.Multilinear.{poly_eval}

-- `E::from_bytes`
unfoldable pub from_bytes : List ℕ → E
from_bytes bytes =
    new (from_le_bytes (take 8 bytes)) (from_le_bytes (take 8 (drop 8 bytes)))
      (from_le_bytes (take 8 (drop 16 bytes)))

-- `Transcript::new`
unfoldable pub start : {S : Type 0} → S → Digest → Digest → Transcript S
start source fiat_shamir_iv public_input = record {
  source = source;
  sponge = Sponge.start fiat_shamir_iv public_input;
}

-- the scalars just read, added to `tail`
unfoldable pub sum_from : E → List E → E
sum_from tail [] = tail
sum_from tail (x ∷ xs) = sum_from (tail ⊞ x) xs

-- `1.checked_shl(bits).map_or(MAX, |bit| bit - 1)`
abbrev pub low_mask : ℕ → ℕ
low_mask bits = if ltb bits 64 then 2 ^ bits - 1 else 2 ^ 64 - 1

module _ {S : Type 0} where
  unfoldable pub sample : M S E
  sample t =
      let (value, sponge) = Sponge.sample t.sponge in ok (value, record t { sponge = sponge })

  -- a list of `n` challenges
  unfoldable pub samples : ℕ → M S (List E)
  samples zero = pure []
  samples (suc n) = do value ← sample; values ← samples n; pure (value ∷ values)

  unfoldable pub absorb : E → ℕ → M S (Unit {0})
  absorb value tag t = ok (tt, record t { sponge = Sponge.absorb t.sponge value tag })

  module _ (src : Source S) where
    unfoldable pub read : Piece → ℕ → M S (List ℕ)
    read piece n t = elim (src.read piece n t.source) [
      | ok (bytes, source) ↦ ok (bytes, record t { source = source })
      | err e ↦ err e
    ]

    unfoldable pub finish : Transcript S → Result (Unit {0})
    finish t = src.finish t.source

    -- `next`
    unfoldable pub next : M S E
    next = do bytes ← read Piece.scalar 24; pure (from_bytes bytes)

    unfoldable pub next_scalar : M S E
    next_scalar = do value ← next; absorb value ds_observe; pure value

    unfoldable pub next_scalars : ℕ → M S (List E)
    next_scalars zero = pure []
    next_scalars (suc n) = do value ← next_scalar; values ← next_scalars n; pure (value ∷ values)

    unfoldable pub grind_check : ℕ → M S (Unit {0})
    grind_check bits = do
      nonce ← next
      absorb nonce ds_pow_nonce
      challenge ← sample
      lift (
          require (if bits == 0 then nonce ≟ zero_e else bit_and challenge.c0 (low_mask bits) == 0)
            grinding_nonce)

    -- The coefficients of a round's polynomial, `count` of them, from the `count - 1` that the
    -- transcript holds.
    unfoldable pub round_poly : ℕ → E → Option E → M S (List E)
    round_poly count claim none = do
      c0 ← next_scalar
      tail ← next_scalars (count - 2)
      pure (c0 ∷ (claim ⊞ sum_from zero_e tail) ∷ tail)
    round_poly count claim (some r) = do
      tail ← next_scalars (count - 1)
      pure ((claim ⊞ r ⊠ sum_from zero_e tail) ∷ tail)

    -- `n` rounds without equality factors: the challenges, and the final claim
    unfoldable pub sumcheck : E → ℕ → ℕ → M S (List E × E)
    sumcheck claim count zero = pure ([], claim)
    sumcheck claim count (suc n) = do
      message ← round_poly count claim none
      challenge ← sample
      (challenges, final) ← sumcheck (poly_eval message challenge) count n
      pure (challenge ∷ challenges, final)
