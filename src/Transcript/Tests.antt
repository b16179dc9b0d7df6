-- ===== src/Transcript/Tests.antt =====
-- The transcript's theorems at concrete proofs.
use hardware_wallet_benchmar.Prelude.{
  ℕ, zero, suc, ◌≡◌, refl, List, [], ◌∷◌, replicate, arith, some, length, ◌≤◌, ◌↔◌, ◌^◌, ◌<◌,
}
use hardware_wallet_benchmar.Error.{ok}
use hardware_wallet_benchmar.Transcript.Monad.{Transcript}
use hardware_wallet_benchmar.Transcript.Sponge.{Sponge, n_pending}
use hardware_wallet_benchmar.Transcript.Sponge
use hardware_wallet_benchmar.Transcript.Ops.{
  from_bytes, round_poly, sumcheck, next_scalars, next_scalar, next, read, absorb, sample, sum_from,
}
use hardware_wallet_benchmar.Field.E.{E, one_e, zero_e, gen, ◌⊞◌, ◌⊠◌}
use hardware_wallet_benchmar.Transcript.Multilinear.{
  padding_weight, poly_eval, eq_eval, eq_bits, at, eq_kernel,
}
use hardware_wallet_benchmar.Transcript.Elements.{from_bytes-IsElement}
use hardware_wallet_benchmar.Transcript.Rounds.{Meets, round_poly-Meets, more, no_more}
use hardware_wallet_benchmar.Transcript.Blocks.{absorb_all, absorb_blocks, sample-absorb_all}
use hardware_wallet_benchmar.Transcript.Source.{Source}
use hardware_wallet_benchmar.Field.E.Laws.{IsElement, add-IsElement, mul-IsElement}
use hardware_wallet_benchmar.Hash.State.{zero_state}
use hardware_wallet_benchmar.Hash.Digest.RoundTrip.{AllBytes, no_bytes, byte}
use hardware_wallet_benchmar.Transcript.Placement.{
  log2_ceil, nat_at, stack_offsets, sorted_order, sift, place, bit_length_loop,
}
use hardware_wallet_benchmar.Transcript.Placement.Disjoint.{Stacked, stack_offsets-Stacked}
use hardware_wallet_benchmar.Transcript.Equality.{cube, padding_weight-cube, eq_bits-eq_eval}
use hardware_wallet_benchmar.Transcript.Placement.Log.{log2_ceil_iff}
use hardware_wallet_benchmar.Transcript.Kernel.{eq_kernel-eq_bits}

-- a source that serves the byte 7 without end
abbrev sevens : Source ℕ
sevens = record { read = λ piece n s. ok (replicate n 7, s); finish = λ s. ok tt }

replicate-AllBytes : (n : ℕ) → AllBytes (replicate n 7)
replicate-AllBytes zero = no_bytes
replicate-AllBytes (suc n) = byte (omega arith) (replicate-AllBytes n)

abbrev sevens_scalar : E
sevens_scalar = from_bytes (replicate 24 7)

abbrev empty_sponge : Sponge
empty_sponge = record { state = zero_state; pending = [] }

abbrev one_absorbed : Sponge
one_absorbed = Sponge.absorb empty_sponge sevens_scalar 1

abbrev empty : Transcript ℕ
empty = record { source = 0; sponge = empty_sponge }

one-IsElement : IsElement one_e
one-IsElement = record { word0 = omega arith; word1 = omega arith; word2 = omega arith }

sevens-IsElement : IsElement sevens_scalar
sevens-IsElement = from_bytes-IsElement (replicate 24 7) (replicate-AllBytes 24)

abbrev drawn : E
drawn = (Sponge.sample one_absorbed).0

abbrev first_message : List E
first_message = sevens_scalar ∷ (one_e ⊞ zero_e) ∷ []

-- the run that the theorem's first half is about
sumcheck_run :
    sumcheck sevens one_e 2 1 empty
    ≡ ok (
      (drawn ∷ [], poly_eval first_message drawn),
      record { source = 0; sponge = (Sponge.sample one_absorbed).1 },
    )
unfolding sumcheck round_poly next_scalars next_scalar next read absorb sample sum_from
sumcheck_run = refl

abbrev factored_message : List E
factored_message = (one_e ⊞ gen ⊠ (zero_e ⊞ sevens_scalar)) ∷ sevens_scalar ∷ []

round_poly_run :
    round_poly sevens 2 one_e (some gen) empty
    ≡ ok (factored_message, record { source = 0; sponge = one_absorbed })
unfolding round_poly next_scalars next_scalar next read absorb sum_from
round_poly_run = refl

round_poly-Meets_example : Meets (some gen) factored_message one_e
round_poly-Meets_example =
    round_poly-Meets sevens 2 one_e (some gen) factored_message empty
      (record { source = 0; sponge = one_absorbed }) round_poly_run
      (more (add-IsElement one_e _ one-IsElement (mul-IsElement gen (zero_e ⊞ sevens_scalar)))
        (more sevens-IsElement no_more))

padding_weight-cube_example : padding_weight (cube 2 3) 1 ≡ one_e
padding_weight-cube_example = padding_weight-cube 2 1 3 (omega arith) (omega arith)

eq_bits-eq_eval_example : eq_eval (cube 2 2) (gen ∷ one_e ∷ []) ≡ eq_bits 2 (gen ∷ one_e ∷ [])
eq_bits-eq_eval_example = eq_bits-eq_eval 2 (gen ∷ one_e ∷ [])

eq_kernel-eq_bits_example :
    at (eq_kernel (gen ∷ one_e ∷ []) (replicate 5 gen)) 2 ≡ eq_bits 2 (gen ∷ one_e ∷ [])
eq_kernel-eq_bits_example =
    eq_kernel-eq_bits (gen ∷ one_e ∷ []) (replicate 5 gen) 2 (omega arith) (omega arith)

abbrev five_inputs : List (E × ℕ)
five_inputs = (one_e, 1) ∷ (gen, 1) ∷ (gen, 4) ∷ (one_e, 1) ∷ (gen, 1) ∷ []

sample-absorb_all_example :
    (Sponge.sample (absorb_all empty_sponge five_inputs)).1
    ≡ record { state = absorb_blocks zero_state five_inputs; pending = [] }
sample-absorb_all_example = sample-absorb_all zero_state five_inputs

log2_ceil_iff_example : (5 ≤ 2 ^ 3) ↔ (log2_ceil 5 ≤ 3)
log2_ceil_iff_example = log2_ceil_iff 5 3 (omega arith) (omega arith)

abbrev three_sizes : List ℕ
three_sizes = 3 ∷ 5 ∷ 3 ∷ []

three_sizes-le : (i : ℕ) → i < length three_sizes → nat_at three_sizes i ≤ 55
three_sizes-le zero h = omega arith
three_sizes-le (suc zero) h = omega arith
three_sizes-le (suc (suc zero)) h = omega arith
three_sizes-le (suc (suc (suc i))) h = omega arith

three_offsets : stack_offsets three_sizes (0 ∷ 0 ∷ 0 ∷ []) ≡ (32 ∷ 0 ∷ 40 ∷ [], 6)
unfolding stack_offsets sorted_order sift place log2_ceil bit_length_loop
three_offsets = refl

stack_offsets-Stacked_example :
    Stacked three_sizes
      (stack_offsets three_sizes (0 ∷ 0 ∷ 0 ∷ [])).0
      (stack_offsets three_sizes (0 ∷ 0 ∷ 0 ∷ [])).1
stack_offsets-Stacked_example =
    stack_offsets-Stacked three_sizes (0 ∷ 0 ∷ 0 ∷ []) refl (omega arith) three_sizes-le
