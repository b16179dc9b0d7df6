-- ===== src/Host/Prefix.antt =====
-- `Bytes` on a stream and on a longer one: `finish` is what tells them apart.
use hardware_wallet_benchmar.Prelude.{
  ℕ, zero, suc, List, [], ◌∷◌, ◌++◌, ◌≡◌, refl, sym, ap, ◌∙◌, arith, ◌≤◌, ◌+◌, length,
  length-append, take, drop, leb, leb→le, le→leb, Bool, if◌then◌else◌, Bool-cases, inl, inr, ==_iff,
}
use hardware_wallet_benchmar.Error.{
  Result, ok, err, ok-inj, err_ne-ok, stream_exhausted, require-true,
}
use hardware_wallet_benchmar.Host.Bytes
use hardware_wallet_benchmar.Host.Bytes.{Bytes, bytes_source}
use hardware_wallet_benchmar.Host.Tamper.{Accepted}
use hardware_wallet_benchmar.Host.Device.{from_start}
use hardware_wallet_benchmar.Simulation.{Simulation}
use hardware_wallet_benchmar.Simulation.Walk.{checks-Sim}
use hardware_wallet_benchmar.Verify.{verify-inv}
use hardware_wallet_benchmar.Transcript.Source.{Piece}
use hardware_wallet_benchmar.Transcript.Ops.{start}
use hardware_wallet_benchmar.Whir.Config.{Limits}
use hardware_wallet_benchmar.Bytecode.{Program}
use hardware_wallet_benchmar.Hash.Digest.{Digest}
use hardware_wallet_benchmar.Host.Served.{verdict_ok}

take-append_le :
    {A : Type 0} (n : ℕ) (xs ys : List A) → n ≤ length xs → take n (xs ++ ys) ≡ take n xs
take-append_le zero xs ys h = refl
take-append_le (suc n) [] ys h = absurd (omega arith)
take-append_le (suc n) (x ∷ xs) ys h = ap (λ t. x ∷ t) (take-append_le n xs ys (omega arith))

slice-append :
    {A : Type 0} (at n : ℕ) (xs ys : List A)
    → at + n ≤ length xs
    → take n (drop at (xs ++ ys)) ≡ take n (drop at xs)
slice-append zero n xs ys h = take-append_le n xs ys (omega arith)
slice-append (suc at) n [] ys h = absurd (omega arith)
slice-append (suc at) n (x ∷ xs) ys h = slice-append at n xs ys (omega arith)

-- what a read that is served takes, and where it ends
read-inv :
    (piece : Piece) (n : ℕ) (b b1 : Bytes) (out : List ℕ)
    → Bytes.read piece n b ≡ ok (out, b1)
    → (b.at + n ≤ length b.bytes)
      × (out ≡ take n (drop b.at b.bytes))
      × (b1 ≡ record { bytes = b.bytes; at = b.at + n })
unfolding Bytes.read
read-inv piece n b b1 out e =
    let answer : Bool → Result (List ℕ × Bytes) = λ c.
      if c
      then ok (take n (drop b.at b.bytes), record { bytes = b.bytes; at = b.at + n })
      else err stream_exhausted in
    elim (Bool-cases (leb (b.at + n) (length b.bytes))) [
      | inl fits ↦
          let served = ok-inj (sym (ap answer fits) ∙ e) in
          (
            leb→le (b.at + n) (length b.bytes) fits,
            sym (ap (λ x. x.0) served),
            sym (ap (λ x. x.1) served),
          )
      | inr over ↦ absurd (err_ne-ok (sym (ap answer over) ∙ e))
    ]

read-fits :
    (piece : Piece) (n at : ℕ) (bytes : List ℕ)
    → at + n ≤ length bytes
    → Bytes.read piece n (record { bytes = bytes; at = at })
      ≡ ok (take n (drop at bytes), record { bytes = bytes; at = at + n })
unfolding Bytes.read
read-fits piece n at bytes h =
    ap
      (λ c.
        if c
        then ok (take n (drop at bytes), record { bytes = bytes; at = at + n })
        else err stream_exhausted)
      (le→leb (at + n) (length bytes) h)

module _ (stream extra : List ℕ) where
  -- the same place in the longer stream
  abbrev longer : Bytes → Bytes
  longer b = record { bytes = stream ++ extra; at = b.at }

  extended : Simulation bytes_source bytes_source
  extended = record {
    Valid = λ _. Unit {0};
    Rel = λ b b'. (b.bytes ≡ stream) × (b' ≡ longer b);
    valid_before = λ request b b1 out e valid. tt;
    reads = λ {piece} {n} request b b1 out b' e valid (same, place).
        let (fits, taken, next) = read-inv piece n b b1 out e in
        let inside : b.at + n ≤ length stream =
          omega (arith, fits, ap (λ (t : List ℕ). length t) same) in
        (
          longer b1,
          ap (λ x. Bytes.read piece n x) place
              ∙ read-fits piece n b.at (stream ++ extra)
                  (omega (arith, inside, length-append stream extra))
              ∙ ap (λ t. ok (t, record { bytes = stream ++ extra; at = b.at + n }))
                  (slice-append b.at n stream extra inside
                    ∙ ap (λ t. take n (drop b.at t)) (sym same)
                    ∙ sym taken)
              ∙ ap (λ k. ok (out, longer k)) (sym next),
          (ap (λ k. k.bytes) next ∙ same, refl),
        );
  }

finished : (b : Bytes) → Bytes.finish b ≡ ok tt → b.at ≡ length b.bytes
unfolding Bytes.finish
finished b e = (==_iff b.at (length b.bytes)).0 (require-true _ _ e)

-- Of a byte stream and any stream that goes on after it, the verifier, reading them as Bytes, does
-- not accept both: no accepted stream is a proper prefix of another.
pub Accepted-append :
    (limits : Limits) (program : Program) (statement : Digest) (stream : List ℕ) (x : ℕ)
    (extra : List ℕ)
    → ¬ (
        Accepted limits program statement stream
        × Accepted limits program statement (stream ++ (x ∷ extra)))
unfolding extended start
Accepted-append limits program statement stream x extra (short, long) =
    let (b1, run) = verdict_ok _ short in
    let (b2, run') = verdict_ok _ long in
    let (u, through, ended, last) =
      verify-inv bytes_source limits program statement (from_start stream) b1 run in
    let (v, through', ended', last') =
      verify-inv bytes_source limits program statement (from_start (stream ++ (x ∷ extra))) b2
        run' in
    let (s, again, (same, place)) =
      (checks-Sim (extended stream (x ∷ extra)) limits program statement).runs _ u tt
        (from_start (stream ++ (x ∷ extra))) through tt (refl, refl) in
    let end : v.source ≡ s = ap (λ r. r.1.source) (ok-inj (sym through' ∙ again)) in
    let at_short = finished b1 ended in
    let at_long = finished b2 ended' in
    let whole : b2 ≡ longer stream (x ∷ extra) u.source = sym last' ∙ end ∙ place in
    let size : length b1.bytes ≡ length stream =
      ap (λ (t : List ℕ). length t) (ap (λ b. b.bytes) (sym last) ∙ same) in
    let size' : length b2.bytes ≡ length (stream ++ (x ∷ extra)) = ap (λ b. length b.bytes) whole in
    let moved : b2.at ≡ b1.at = ap (λ b. b.at) whole ∙ ap (λ b. b.at) last in
    let grown : length (stream ++ (x ∷ extra)) ≡ length stream + suc (length extra) =
      length-append stream (x ∷ extra) in
    absurd (omega (arith, at_short, at_long, size, size', moved, grown))
