-- ===== src/Whir/Sampled.antt =====
-- `sample_queries` always returns as many queries as asked for, each within the block.
use hardware_wallet_benchmar.Transcript.Sponge
use hardware_wallet_benchmar.Prelude.{
  ℕ, zero, suc, List, [], ◌∷◌, ◌++◌, ◌≡◌, refl, sym, ap, ◌∙◌, arith, ◌≤◌, ◌<◌, ◌+◌, ◌-◌, ◌/◌, ◌^◌,
  Bool, true, false, length, length-append, leb, le→leb, if◌then◌else◌, Bool-cases, inl, inr,
  ==_iff, ==_false, ◌==◌, min, u32, leb→le, bit_and, ==_apart,
}
use hardware_wallet_benchmar.Error.{Result, ok, err, require, whir_shape}
use hardware_wallet_benchmar.Transcript.Monad.{Transcript, M, ◌>>=◌, ◌>>◌, pure, lift}
use hardware_wallet_benchmar.Transcript.Ops.{sample}
use hardware_wallet_benchmar.Whir.Queries.{query_chunk, query_chunks, sample_loop, sample_queries}
use hardware_wallet_benchmar.Transcript.Placement.{log2_strict, trailing_zeros, trailing_zeros_loop}
use hardware_wallet_benchmar.Bits.Linear.{every_below, every_below_sound}
use hardware_wallet_benchmar.Bits.Pow.{pow_pos}
use hardware_wallet_benchmar.Field.E.{E}
use hardware_wallet_benchmar.Bits.And.{and-le}

-- every number is below `bound`
unfoldable pub AllBelow : ℕ → List ℕ → Type 0
AllBelow bound [] = Unit {0}
AllBelow bound (x ∷ xs) = (x < bound) × AllBelow bound xs

append-AllBelow :
    (bound : ℕ) (xs ys : List ℕ) → AllBelow bound xs → AllBelow bound ys → AllBelow bound (xs ++ ys)
unfolding AllBelow
append-AllBelow bound [] ys h k = k
append-AllBelow bound (x ∷ xs) ys (low, h) k = (low, append-AllBelow bound xs ys h k)

masked_lt : (w m : ℕ) → 0 < m → u32 (bit_and w (m - 1)) < m
masked_lt w m h = omega (arith, and-le w (m - 1))

query_chunk-lt :
    (challenge : E) (depth block_length chunk : ℕ)
    → 0 < block_length
    → query_chunk challenge depth block_length chunk < block_length
unfolding query_chunk
query_chunk-lt challenge depth block_length chunk h = masked_lt _ block_length h

query_chunks-AllBelow :
    (challenge : E) (depth block_length chunk n : ℕ)
    → 0 < block_length
    → (length (query_chunks challenge depth block_length chunk n) ≡ n)
      × AllBelow block_length (query_chunks challenge depth block_length chunk n)
unfolding query_chunks AllBelow
query_chunks-AllBelow challenge depth block_length chunk zero h = (refl, tt)
query_chunks-AllBelow challenge depth block_length chunk (suc n) h =
    let (long, below) = query_chunks-AllBelow challenge depth block_length (chunk + 1) n h in
    (omega (arith, long), (query_chunk-lt challenge depth block_length chunk h, below))

module _ {S : Type 0} where
  loop_returns :
      (fuel depth per_word block_length left : ℕ) (t : Transcript S)
      → left ≤ fuel
      → 1 ≤ per_word
      → 0 < block_length
      → (qs : List ℕ) × (u : Transcript S) × (sample_loop fuel depth per_word block_length left t
          ≡ ok (qs, u))
        × (length qs ≡ left)
        × AllBelow block_length qs
  unfolding sample_loop AllBelow sample
  loop_returns zero depth per_word block_length left t h one pos = ([], t, refl, omega arith, tt)
  loop_returns (suc fuel) depth per_word block_length left t h one pos =
      let n = min per_word left in
      let challenge = (Sponge.sample t.sponge).0 in
      let t1 = record t { sponge = (Sponge.sample t.sponge).1 } in
      let chunks = query_chunks challenge depth block_length 0 n in
      let more : M S (List ℕ) = sample >>= λ c.
      sample_loop fuel depth per_word block_length (left - n) >>= λ queries.
      pure (query_chunks c depth block_length 0 n ++ queries) in
      elim (Bool-cases (left == 0)) [
        | inl none_left ↦ (
          [],
          t,
          ap (λ b. (if b then pure [] else more) t) none_left,
          sym ((==_iff left 0).0 none_left),
          tt,
        )
        | inr some_left ↦
            let (qs, u, e, long, below) =
              loop_returns fuel depth per_word block_length (left - n) t1
                (omega (arith, ==_false left 0 some_left)) one pos in
            let (long', below') = query_chunks-AllBelow challenge depth block_length 0 n pos in
            (
              chunks ++ qs,
              u,
              ap (λ b. (if b then pure [] else more) t) some_left
                  ∙ ap
                      (λ (x : Result (List ℕ × Transcript S)). elim x [
                        | ok (queries, t') ↦ ok (chunks ++ queries, t')
                        | err e' ↦ err e'
                      ])
                      e,
              omega (arith, long, long', length-append chunks qs),
              append-AllBelow block_length chunks qs below' below,
            )
      ]

-- a depth from 1 to 32 leaves some chunks in a challenge
chunks_at : ℕ → Bool
chunks_at k = if k == 0 then true else leb 1 (192 / k)

some_chunks : every_below chunks_at 33 ≡ true
unfolding every_below chunks_at
some_chunks = refl

per_word_pos : (k : ℕ) → 1 ≤ k → k ≤ 32 → 1 ≤ 192 / k
unfolding chunks_at
per_word_pos k low high = leb→le 1 (192 / k) (
    ap (λ b. if b then true else leb 1 (192 / k)) (sym (==_apart k 0 (λ e. omega arith)))
    ∙ every_below_sound chunks_at 33 k (omega arith) some_chunks)

strict_at : ℕ → Bool
strict_at k = elim (log2_strict (2 ^ k)) [ ok depth ↦ depth == k | err _ ↦ false ]

strict_powers : every_below strict_at 33 ≡ true
unfolding every_below strict_at log2_strict trailing_zeros trailing_zeros_loop
strict_powers = refl

pub log2_strict-power : (k : ℕ) → k ≤ 32 → log2_strict (2 ^ k) ≡ ok k
unfolding strict_at
log2_strict-power k h =
    after (log2_strict (2 ^ k)) (every_below_sound strict_at 33 k (omega arith) strict_powers)
  where
    after : (x : Result ℕ) → elim x [ ok depth ↦ depth == k | err _ ↦ false ] ≡ true → x ≡ ok k
    after (ok depth) e = ap ok ((==_iff depth k).0 e)
    after (err error) e = absurd (cc e)

-- From a block of 2^k leaves, k from 1 to 32, sample_queries always returns: it gives as many
-- queries as it is asked for, each of them below 2^k.
pub sample_queries-AllBelow :
    {S : Type 0} (k count : ℕ) (t : Transcript S)
    → 1 ≤ k
    → k ≤ 32
    → (qs : List ℕ) × (u : Transcript S) × (sample_queries (2 ^ k) count t ≡ ok (qs, u))
      × (length qs ≡ count)
      × AllBelow (2 ^ k) qs
unfolding sample_queries
sample_queries-AllBelow {S = S} k count t low high =
    let run : Result ℕ → Result (List ℕ × Transcript S) = λ x.
      (lift x >>= λ depth.
      lift (require (leb depth 32) whir_shape)
      >> sample_loop count depth (192 / depth) (2 ^ k) count)
        t in
    let (qs, u, e, long, below) =
      loop_returns count k (192 / k) (2 ^ k) count t (omega arith) (per_word_pos k low high)
        (pow_pos k) in
    (
      qs,
      u,
      ap run (log2_strict-power k high)
          ∙ ap (λ b. (lift (require b whir_shape) >> sample_loop count k (192 / k) (2 ^ k) count) t)
              (le→leb k 32 high)
          ∙ e,
      long,
      below,
    )
