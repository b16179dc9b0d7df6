-- ===== src/Host/Status.antt =====
-- The status byte that the C side reads.
use hardware_wallet_benchmar.Prelude.{
  ℕ, ◌≡◌, refl, ◌∙◌, ap, ◌↔◌, ◌≤◌, arith, sym, get_or, List, ◌∷◌, ◌-◌, [],
}
use hardware_wallet_benchmar.Error.{
  Error, Result, ok, err, code, digest_half, multilinear_size, not_power_of_two, stream_exhausted,
  stream_not_consumed, grinding_nonce, merkle_opening_shape, merkle_root_mismatch, gkr_layer,
  bus_count_zero, table_sumcheck_terminal, announced_table_sizes, announced_high_limb,
  pcs_inverse_rate, committed_size, whir_shape, query_count_ladder, whir_terminal, keccak_product,
  keccak_layer, keccak_output_opening, keccak_input_opening, transport, err_ne-ok,
}
use hardware_wallet_benchmar.Host.Bytes.{status}

-- the reason of a code
reasons : List Error
reasons =
    digest_half ∷ multilinear_size ∷ not_power_of_two ∷ stream_exhausted ∷ stream_not_consumed
    ∷ grinding_nonce ∷ merkle_opening_shape ∷ merkle_root_mismatch ∷ gkr_layer ∷ bus_count_zero
    ∷ table_sumcheck_terminal ∷ announced_table_sizes ∷ announced_high_limb ∷ pcs_inverse_rate
    ∷ committed_size ∷ whir_shape ∷ query_count_ladder ∷ whir_terminal ∷ keccak_product
    ∷ keccak_layer ∷ keccak_output_opening ∷ keccak_input_opening ∷ transport ∷ []

decode : ℕ → Error
decode n = get_or reasons (n - 1) transport

decode-code : (e : Error) → decode (code e) ≡ e
unfolding decode code reasons
decode-code digest_half = refl
decode-code multilinear_size = refl
decode-code not_power_of_two = refl
decode-code stream_exhausted = refl
decode-code stream_not_consumed = refl
decode-code grinding_nonce = refl
decode-code merkle_opening_shape = refl
decode-code merkle_root_mismatch = refl
decode-code gkr_layer = refl
decode-code bus_count_zero = refl
decode-code table_sumcheck_terminal = refl
decode-code announced_table_sizes = refl
decode-code announced_high_limb = refl
decode-code pcs_inverse_rate = refl
decode-code committed_size = refl
decode-code whir_shape = refl
decode-code query_count_ladder = refl
decode-code whir_terminal = refl
decode-code keccak_product = refl
decode-code keccak_layer = refl
decode-code keccak_output_opening = refl
decode-code keccak_input_opening = refl
decode-code transport = refl

code_pos : (e : Error) → 1 ≤ code e
unfolding code
code_pos digest_half = omega arith
code_pos multilinear_size = omega arith
code_pos not_power_of_two = omega arith
code_pos stream_exhausted = omega arith
code_pos stream_not_consumed = omega arith
code_pos grinding_nonce = omega arith
code_pos merkle_opening_shape = omega arith
code_pos merkle_root_mismatch = omega arith
code_pos gkr_layer = omega arith
code_pos bus_count_zero = omega arith
code_pos table_sumcheck_terminal = omega arith
code_pos announced_table_sizes = omega arith
code_pos announced_high_limb = omega arith
code_pos pcs_inverse_rate = omega arith
code_pos committed_size = omega arith
code_pos whir_shape = omega arith
code_pos query_count_ladder = omega arith
code_pos whir_terminal = omega arith
code_pos keccak_product = omega arith
code_pos keccak_layer = omega arith
code_pos keccak_output_opening = omega arith
code_pos keccak_input_opening = omega arith
code_pos transport = omega arith

code-inj : (e e' : Error) → code e ≡ code e' → e ≡ e'
code-inj e e' p = sym (decode-code e) ∙ ap decode p ∙ decode-code e'

-- The status is 0 exactly when the proof is accepted, and two results with the same status are
-- the same.
pub status_correct :
    (r r' : Result (Unit {0})) → ((status r ≡ 0) ↔ (r ≡ ok tt)) × (status r ≡ status r' → r ≡ r')
unfolding status
status_correct (ok _) (ok _) = (((λ _. refl), λ _. refl), λ _. refl)
status_correct (ok _) (err e) = (((λ _. refl), λ _. refl), λ p. absurd (omega (arith, code_pos e)))
status_correct (err e) (ok _) = (
  ((λ p. absurd (omega (arith, code_pos e))), λ p. absurd (err_ne-ok p)),
  λ p. absurd (omega (arith, code_pos e)),
)
status_correct (err e) (err e') = (
  ((λ p. absurd (omega (arith, code_pos e))), λ p. absurd (err_ne-ok p)),
  λ p. ap err (code-inj e e' p),
)
