-- ===== src/Verify.antt =====
-- leanvm-pow/ledger/verifier/src/lib.rs: `walk`, everything before the stacked opening, and `verify`.
use hardware_wallet_benchmar.Prelude.{
  refl, ap, sym, ◌∙◌, ◌≡◌, ℕ, List, [], ◌∷◌, true, Bool, if◌then◌else◌, ◌==◌, ◌&&◌, get_or, ◌+◌,
  ◌-◌, map, take, drop, leb, ◌≡◌, ap, sym, ◌∙◌,
}
use hardware_wallet_benchmar.Error.{
  Result, ok, err, require, announced_high_limb, pcs_inverse_rate, ok-inj, err_ne-ok,
}
use hardware_wallet_benchmar.Transcript.Monad.{◌>>=◌, ◌>>◌, pure, lift, M, Transcript}
use hardware_wallet_benchmar.Transcript.Ops.{start, finish, next_scalars, sample}
use hardware_wallet_benchmar.Stacked.{Stacked, At, basis, each_claim}
use hardware_wallet_benchmar.Bus.TableSumcheck.{BusTables, bus_and_tables}
use hardware_wallet_benchmar.Keccak.Open.{verify_keccak}
use hardware_wallet_benchmar.Field.E.{new, E, ◌⊞◌, ◌⊠◌}
use hardware_wallet_benchmar.Bus.Layout.{build_layout}
use hardware_wallet_benchmar.Whir.Config.{Limits}
use hardware_wallet_benchmar.Transcript.Source.{Source}
use hardware_wallet_benchmar.Hash.Digest.{Digest, halves, from_halves}
use hardware_wallet_benchmar.Bus.Slot.{Slot, is_some, no_slot}
use hardware_wallet_benchmar.Bytecode.{Program}
use hardware_wallet_benchmar.Tables.Columns.{
  memory_final_counters, n_tables, memory_0, nat_at, global_column_bases, op_keccak, keccak_out,
}
use hardware_wallet_benchmar.Whir.Verify.{verify_whir}
use hardware_wallet_benchmar.Transcript.Multilinear.{at}
use hardware_wallet_benchmar.Bus.Layout.{build_layout}
use hardware_wallet_benchmar.RingSwitch.{ring_switch}

-- are the high limbs of every announced value zero?
unfoldable pub high_limbs_zero : List E → Bool
high_limbs_zero [] = true
high_limbs_zero (value ∷ announced) =
    (value.c1 == 0) && (value.c2 == 0) && high_limbs_zero announced

-- one memory limb of the public input, at the challenge
unfoldable pub public_line : E → ℕ → ℕ → E
public_line challenge low high = new low 0 0 ⊞ challenge ⊠ (new low 0 0 ⊞ new high 0 0)

unfoldable pub public_values : Digest → E → List E
unfolding public_line
public_values public_input challenge =
    let (first, second) = halves public_input in
    public_line challenge first.c0 second.c0
    ∷ public_line challenge first.c1 second.c1
    ∷ public_line challenge first.c2 second.c2
    ∷ []

-- the value claimed of `column` at a point
unfoldable pub claim_value : BusTables → List E → E → ℕ → At → E
claim_value tables public word column At.memory =
    if column == memory_final_counters
    then tables.memory_final
    else at tables.memory (column - memory_0)
claim_value tables public word column At.bytecode = tables.bytecode_final
claim_value tables public word column (At.table t) = at tables.values column
claim_value tables public word column At.public = at public (column - memory_0)
claim_value tables public word column At.keccak_output = word

-- the batched target, over the claims on committed columns, and the next power
unfoldable pub target_loop : List Slot → (ℕ → At → E) → E → List (ℕ × At) → E × E → E × E
target_loop slots value scale [] sums = sums
target_loop slots value scale ((column, where_at) ∷ claims) (target, power) =
    target_loop slots value scale claims (
      if is_some (get_or slots column no_slot)
      then (target ⊞ power ⊠ value column where_at, power ⊠ scale)
      else (target, power))

module _ {S : Type 0} (src : Source S) where
  unfoldable pub walk : Program → Digest → M S Stacked
  walk program public_input = do
    announced ← next_scalars src (2 + n_tables)
    lift (require (high_limbs_zero announced) announced_high_limb)
    let limbs = map (λ (value : E). value.c0) announced
    let table_rows = take n_tables (drop 1 limbs)
    let log_inverse_rate = nat_at limbs (1 + n_tables)
    lift (require (leb 1 log_inverse_rate && leb log_inverse_rate 4) pcs_inverse_rate)
    (layout, slots) ← lift (build_layout program (nat_at limbs 0) table_rows)
    root_halves ← next_scalars src 2
    root ← lift (from_halves (at root_halves 0) (at root_halves 1))
    tables ← bus_and_tables src program layout
    public_challenge ← sample
    let public = public_values public_input public_challenge
    let keccak_base = nat_at global_column_bases op_keccak
    reduced ←
        verify_keccak src layout.keccak (take (nat_at layout.heights op_keccak) tables.table_point)
          (take 25 (drop (keccak_base + keccak_out) tables.values))
    (ring_target, ring_weight) ←
        ring_switch reduced.slices (record { point = reduced.input_point; challenges = [] })
    scale ← sample
    let value = claim_value tables public reduced.word
    let batched = target_loop slots value scale each_claim (ring_target, scale)
    pure (record {
      root = root;
      log_inverse_rate = log_inverse_rate;
      stack_log = layout.stack_log;
      placed = layout.placed;
      slots = slots;
      target = batched.0;
      scale = scale;
      bus_point = tables.bus_point;
      log_memory = layout.log_memory;
      log_bytecode = layout.log_bytecode;
      table_point = tables.table_point;
      heights = layout.heights;
      public_challenge = public_challenge;
      keccak_output = reduced.output_point;
      ring_weight = ring_weight;
    })

  -- the reads and checks of `verify`, on a transcript
  unfoldable pub checks : Limits → Program → Digest → M S (Unit {0})
  checks limits program public_input = do
    stacked ← walk program public_input
    verify_whir src limits stacked.stack_log stacked.placed stacked.log_inverse_rate stacked.target
        stacked.root (basis stacked)

  -- Does the proof that `source` gives show that `program` runs on `public_input`? On success,
  -- the source as it is left.
  unfoldable pub verify : Limits → Program → Digest → S → Result S
  unfolding start
  verify limits program public_input source =
      elim (checks limits program public_input
        (start source (record { bytes = program.fiat_shamir_iv }) public_input)) [
          | ok (_, t) ↦ elim (finish src t) [ ok _ ↦ ok t.source | err error ↦ err error ]
          | err error ↦ err error
        ]

-- the transcript that `verify` starts on
abbrev pub first_transcript : {S : Type 0} → Program → Digest → S → Transcript S
first_transcript program public_input source =
    start source (record { bytes = program.fiat_shamir_iv }) public_input

module _ {S : Type 0} (src : Source S) where
  -- what an accepted proof went through
  pub verify-inv :
      (limits : Limits) (program : Program) (public_input : Digest) (s s1 : S)
      → verify src limits program public_input s ≡ ok s1
      → (u : Transcript S) × (checks src limits program public_input
            (first_transcript program public_input s)
          ≡ ok (tt, u))
        × (src.finish s1 ≡ ok tt)
        × (u.source ≡ s1)
  unfolding verify finish
  verify-inv limits program public_input s s1 e =
      after (checks src limits program public_input (first_transcript program public_input s)) refl
        e
    where
      ended :
          (u : Transcript S) (x : Result (Unit {0}))
          → src.finish u.source ≡ x
          → ◌≡◌ {A = Result S} (elim x [ ok _ ↦ ok u.source | err error ↦ err error ]) (ok s1)
          → (src.finish s1 ≡ ok tt) × (u.source ≡ s1)
      ended u (ok x) p q = (ap src.finish (sym (ok-inj q)) ∙ p, ok-inj q)
      ended u (err error) p q = absurd (err_ne-ok q)

      after :
          (x : Result (Unit {0} × Transcript S))
          → checks src limits program public_input (first_transcript program public_input s) ≡ x
          → ◌≡◌ {A = Result S}
              (elim x [
                | ok (_, t) ↦ elim (finish src t) [ ok _ ↦ ok t.source | err error ↦ err error ]
                | err error ↦ err error
              ])
              (ok s1)
          → (u : Transcript S) × (checks src limits program public_input
                (first_transcript program public_input s)
              ≡ ok (tt, u))
            × (src.finish s1 ≡ ok tt)
            × (u.source ≡ s1)
      after (ok (x, u)) p q =
          let (at_end, last) = ended u (src.finish u.source) refl q in (u, p, at_end, last)
      after (err error) p q = absurd (err_ne-ok q)

  pub verify-accepts :
      (limits : Limits) (program : Program) (public_input : Digest) (s : S) (u : Transcript S)
      → checks src limits program public_input (first_transcript program public_input s)
        ≡ ok (tt, u)
      → src.finish u.source ≡ ok tt
      → verify src limits program public_input s ≡ ok u.source
  unfolding verify finish
  verify-accepts limits program public_input s u p q =
      let last : Result (Unit {0} × Transcript S) → Result S = λ x. elim x [
        | ok (_, t) ↦ elim (finish src t) [ ok _ ↦ ok t.source | err error ↦ err error ]
        | err error ↦ err error
      ] in
      let close : Result (Unit {0}) → Result S =
        λ x. elim x [ ok _ ↦ ok u.source | err error ↦ err error ] in
      ap last p ∙ ap close q
