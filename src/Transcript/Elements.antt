-- ===== src/Transcript/Elements.antt =====
-- What the transcript reads, as elements of three words.
use native.Mathlib.Nat.{pow-suc, one-le-pow}
use hardware_wallet_benchmar.Prelude.{
  ℕ, zero, suc, ◌≡◌, refl, ◌∙◌, ap, ◌<◌, ◌≤◌, ◌^◌, arith, List, [], ◌∷◌, length, take, drop, subst,
  from_le_bytes, length-take,
}
use hardware_wallet_benchmar.Hash.Digest.RoundTrip.{AllBytes, byte, take-AllBytes, drop-AllBytes}
use hardware_wallet_benchmar.Transcript.Rounds.{AllElements, no_more, more}
use hardware_wallet_benchmar.Transcript.Ops.{
  sum_from, from_bytes, next_scalars, next_scalar, next, read, absorb,
}
use hardware_wallet_benchmar.Transcript.Source.{Source, Piece}
use hardware_wallet_benchmar.Field.E.{E, ◌⊞◌}
use hardware_wallet_benchmar.Field.E.Laws.{IsElement, add-IsElement}
use hardware_wallet_benchmar.Error.{ok, ok-inj, Result, err, err_ne-ok}
use hardware_wallet_benchmar.Transcript.Monad.{Transcript, bind-ok}

-- a source that serves bytes: what the type `&mut [u8]` of `read` says
abbrev pub ReadsBytes : {S : Type 0} → Source S → Type 0
ReadsBytes {S = S} src =
    (piece : Piece) (n : ℕ) (s s' : S) (bytes : List ℕ)
    → src.read piece n s ≡ ok (bytes, s')
    → AllBytes bytes

-- eight bytes make a word
from_le_bytes-lt :
    (k : ℕ) (bytes : List ℕ) → AllBytes bytes → length bytes ≤ k → from_le_bytes bytes < 256 ^ k
unfolding from_le_bytes
from_le_bytes-lt k [] h n = omega (arith, one-le-pow k 256 (omega arith))
from_le_bytes-lt zero (b ∷ bytes) (byte h hs) n = absurd (omega arith)
from_le_bytes-lt (suc k) (b ∷ bytes) (byte h hs) n =
    omega (arith, from_le_bytes-lt k bytes hs (omega arith), pow-suc 256 k)

word-lt : (bytes : List ℕ) → AllBytes bytes → from_le_bytes (take 8 bytes) < 2 ^ 64
word-lt bytes h =
    let lt : from_le_bytes (take 8 bytes) < 256 ^ 8 =
      from_le_bytes-lt 8 (take 8 bytes) (take-AllBytes 8 bytes h)
        (omega (arith, length-take 8 bytes)) in
    omega arith

pub from_bytes-IsElement : (bytes : List ℕ) → AllBytes bytes → IsElement (from_bytes bytes)
unfolding from_bytes
from_bytes-IsElement bytes h = record {
  word0 = word-lt bytes h;
  word1 = word-lt (drop 8 bytes) (drop-AllBytes 8 bytes h);
  word2 = word-lt (drop 16 bytes) (drop-AllBytes 16 bytes h);
}

pub sum_from-IsElement :
    (a : E) (xs : List E) → IsElement a → AllElements xs → IsElement (sum_from a xs)
unfolding sum_from
sum_from-IsElement a [] ha no_more = ha
sum_from-IsElement a (x ∷ xs) ha (more h hs) =
    sum_from-IsElement (a ⊞ x) xs (add-IsElement a x ha h) hs

module _ {S : Type 0} (src : Source S) (bytes_only : ReadsBytes src) where
  read-AllBytes :
      (piece : Piece) (n : ℕ) (t t' : Transcript S) (bytes : List ℕ)
      → read src piece n t ≡ ok (bytes, t')
      → AllBytes bytes
  unfolding read
  read-AllBytes piece n t t' bytes e = of (src.read piece n t.source) refl e
    where
      of :
          (r : Result (List ℕ × S))
          → src.read piece n t.source ≡ r
          → elim r as (λ _. Result (List ℕ × Transcript S)) [
            | ok (b, s) ↦ ok (b, record t { source = s })
            | err e' ↦ err e'
          ]
            ≡ ok (bytes, t')
          → AllBytes bytes
      of (ok (b, s)) p q =
          subst AllBytes (ap (λ x. x.0) (ok-inj q)) (bytes_only piece n t.source s b p)
      of (err e') p q = absurd (err_ne-ok q)

  pub next_scalar-IsElement :
      (t t' : Transcript S) (x : E) → next_scalar src t ≡ ok (x, t') → IsElement x
  unfolding next_scalar next absorb
  next_scalar-IsElement t t' x e =
      let (value, t1, e0, e1) = bind-ok (next src) _ t (x, t') e in
      let (bytes, t2, e2, e3) = bind-ok (read src Piece.scalar 24) _ t (value, t1) e0 in
      subst IsElement (ap (λ p. p.0) (ok-inj e3) ∙ ap (λ p. p.0) (ok-inj e1))
        (from_bytes-IsElement bytes (read-AllBytes Piece.scalar 24 t t2 bytes e2))

  pub next_scalars-AllElements :
      (n : ℕ) (t t' : Transcript S) (xs : List E)
      → next_scalars src n t ≡ ok (xs, t')
      → AllElements xs
  unfolding next_scalars
  next_scalars-AllElements zero t t' xs e = subst AllElements (ap (λ p. p.0) (ok-inj e)) no_more
  next_scalars-AllElements (suc n) t t' xs e =
      let (x, t1, e0, e1) = bind-ok (next_scalar src) _ t (xs, t') e in
      let (rest, t2, e2, e3) = bind-ok (next_scalars src n) _ t1 (xs, t') e1 in
      subst AllElements (ap (λ p. p.0) (ok-inj e3))
        (more (next_scalar-IsElement t t1 x e0) (next_scalars-AllElements n t1 t2 rest e2))
