-- ===== src/Host/Recorded.antt =====
-- The recorder and the finished recording as two sources of one proof; `device_stream`'s second pass.
use hardware_wallet_benchmar.Prelude.{
  ◌/◌, ◌==◌, ℕ, ◌≡◌, refl, sym, ◌∙◌, ap, subst, List, [], ◌∷◌, ◌++◌, length, arith, get_elem?, some,
  none, Option, to_le_bytes, ◌*◌, length-append, zero, suc, ==_iff,
}
use hardware_wallet_benchmar.Error.{
  Error, Result, ok, err, ok-inj, err_ne-ok, result-bind_ok, require, ◌>>=◌, ◌>>◌, stream_exhausted,
  stream_not_consumed, transport, require-true,
}
use hardware_wallet_benchmar.Transcript.Source.{Piece}
use hardware_wallet_benchmar.Simulation.{
  Request, Simulation, scalar_request, row_request, batch_request, sibling_request,
}
use hardware_wallet_benchmar.Host.Recorder.{Recorder, Proof, Batch, words_bytes, get, current}
use hardware_wallet_benchmar.Host.Recorder
use hardware_wallet_benchmar.Host.Bytes.{Bytes, bytes_source}
use hardware_wallet_benchmar.Host.Bytes
use hardware_wallet_benchmar.Host.Replay.{read-bytes, bytes-read, append_assoc, append-nil}
use hardware_wallet_benchmar.Verify.{verify}
use hardware_wallet_benchmar.Whir.Config.{Limits}
use hardware_wallet_benchmar.Bytecode.{Program}
use hardware_wallet_benchmar.Hash.Digest.{Digest}
use hardware_wallet_benchmar.Host.Device.{from_start, device_stream}
use hardware_wallet_benchmar.Simulation.Walk.{verify_transfer}

-- the sibling hashes of a proof are digests
unfoldable pub SiblingsFit : Proof → Type 0
SiblingsFit proof =
    (i j : ℕ) (b : Batch) (sibling : List ℕ)
    → get_elem? proof.merkle i ≡ some b
    → get_elem? b.sibling_hashes j ≡ some sibling
    → length sibling ≡ 32

length-to_le_bytes : (n w : ℕ) → length (to_le_bytes n w) ≡ n
unfolding to_le_bytes
length-to_le_bytes zero w = refl
length-to_le_bytes (suc n) w = omega (arith, length-to_le_bytes n (w / 256))

length-words_bytes : (ws : List ℕ) → length (words_bytes ws) ≡ 8 * length ws
length-words_bytes [] = refl
length-words_bytes (w ∷ ws) = omega (
  arith,
  length-append (to_le_bytes 8 w) (words_bytes ws),
  length-to_le_bytes 8 w,
  length-words_bytes ws,
)

get-found :
    {A : Type 0} (xs : List A) (i : ℕ) (error : Error) (a : A)
    → get xs i error ≡ ok a
    → get_elem? xs i ≡ some a
get-found {A = A} xs i error a e = after (get_elem? xs i) e
  where
    after :
        (o : Option A)
        → ◌≡◌ {A = Result A} (elim o [ some x ↦ ok x | none ↦ err error ]) (ok a)
        → o ≡ some a
    after (some x) p = ap some (ok-inj p)
    after none p = absurd (err_ne-ok p)

current-found :
    (r : Recorder) (b : Batch) → current r ≡ ok b → (i : ℕ) × (get_elem? r.proof.merkle i ≡ some b)
current-found r b e = after r.batch e
  where
    after :
        (o : Option ℕ)
        → ◌≡◌ {A = Result Batch}
            (elim o [
              | some i ↦ get r.proof.merkle i Error.stream_exhausted
              | none ↦ err Error.stream_exhausted
            ])
            (ok b)
        → (i : ℕ) × (get_elem? r.proof.merkle i ≡ some b)
    after (some i) p = (i, get-found r.proof.merkle i Error.stream_exhausted b p)
    after none p = absurd (err_ne-ok p)

-- what a piece leaves of the proof, and how long it is
read_piece-facts :
    {piece : Piece} {n : ℕ} (request : Request piece n) (r r' : Recorder) (out : List ℕ)
    → Recorder.read_piece piece n r ≡ ok (out, r')
    → (r'.proof ≡ r.proof) × (SiblingsFit r.proof → length out ≡ n)
unfolding Recorder.read_piece SiblingsFit
read_piece-facts scalar_request r r' out e =
    let (value, _, e1) =
      result-bind_ok (get r.proof.stream r.scalar stream_exhausted) _ (out, r') e in
    (
      sym (ap (λ p. p.1.proof) (ok-inj e1)),
      λ _.
          ap (λ p. length p.0) (sym (ok-inj e1))
          ∙ length-words_bytes (value.c0 ∷ value.c1 ∷ value.c2 ∷ []),
    )
read_piece-facts batch_request r r' out e =
    let m1 = get r.proof.merkle (Recorder.next_batch r) stream_exhausted >>= λ _. ok tt in
    let (_, _, e1) = result-bind_ok m1 _ (out, r') e in
    let m2 = require (Recorder.previous_done r) stream_not_consumed in
    let (_, _, e2) = result-bind_ok m2 _ (out, r') e1 in
    (sym (ap (λ p. p.1.proof) (ok-inj e2)), λ _. ap (λ p. length p.0) (sym (ok-inj e2)))
read_piece-facts (row_request words) r r' out e =
    let (b, _, e1) = result-bind_ok (current r) _ (out, r') e in
    let (row, _, e2) = result-bind_ok (get b.leaf_data r.row stream_exhausted) _ (out, r') e1 in
    let (_, fits, e3) =
      result-bind_ok (require (8 * words == 8 * length row) transport) _ (out, r') e2 in
    (
      sym (ap (λ p. p.1.proof) (ok-inj e3)),
      λ _.
          ap (λ p. length p.0) (sym (ok-inj e3))
          ∙ length-words_bytes row
          ∙ sym ((==_iff (8 * words) (8 * length row)).0 (require-true _ _ fits)),
    )
read_piece-facts sibling_request r r' out e =
    let (b, found, e1) = result-bind_ok (current r) _ (out, r') e in
    let (sibling, at, e2) =
      result-bind_ok (get b.sibling_hashes r.sibling stream_exhausted) _ (out, r') e1 in
    let (i, batch_at) = current-found r b found in
    (
      sym (ap (λ p. p.1.proof) (ok-inj e2)),
      λ fit.
          ap (λ p. length p.0) (sym (ok-inj e2))
          ∙ fit i r.sibling b sibling batch_at
              (get-found b.sibling_hashes r.sibling stream_exhausted sibling at),
    )

read-facts :
    {piece : Piece} {n : ℕ} (request : Request piece n) (r r' : Recorder) (out : List ℕ)
    → Recorder.read piece n r ≡ ok (out, r')
    → (r'.proof ≡ r.proof) × (SiblingsFit r.proof → length out ≡ n)
unfolding Recorder.read
read-facts {piece = piece} {n = n} request r r' out e =
    let ((out', r1), e0, e1) = result-bind_ok (Recorder.read_piece piece n r) _ (out, r') e in
    let (same, long) = read_piece-facts request r r1 out' e0 in
    (
      sym (ap (λ p. p.1.proof) (ok-inj e1)) ∙ same,
      λ fit. ap (λ p. length p.0) (sym (ok-inj e1)) ∙ long fit,
    )

-- a recording of which `whole` is the finished one
unfoldable pub Records : List ℕ → Recorder → Type 0
Records whole r = (later : List ℕ) × (whole ≡ r.bytes ++ later)

-- the finished recording, at the place that the recorder has reached
abbrev pub place_of : List ℕ → Recorder → Bytes
place_of whole r = record { bytes = whole; at = length r.bytes }

pub recorded : (whole : List ℕ) → Simulation Recorder.recorder_source bytes_source
unfolding Records
recorded whole = record {
  Valid = Records whole;
  Rel = λ r b. SiblingsFit r.proof × (b ≡ place_of whole r);
  valid_before = λ {piece} {n} request r r1 out e (later, p). (
    out ++ later,
    p ∙ ap (λ t. t ++ later) (read-bytes piece n r r1 out e) ∙ append_assoc r.bytes out later,
  );
  reads = λ {piece} {n} request r r1 out b e (later, p) (fit, same).
      let (proof, long) = read-facts request r r1 out e in
      let grown = read-bytes piece n r r1 out e in
      let split = p ∙ ap (λ t. t ++ later) grown ∙ append_assoc r.bytes out later in
      (
        place_of whole r1,
        ap (λ x. Bytes.read piece n x) same
            ∙ ap (λ k. Bytes.read piece k (place_of whole r)) (sym (long fit))
            ∙ bytes-read piece r.bytes out later whole split
            ∙ ap (λ t. ok (out, record { bytes = whole; at = length t })) (sym grown),
        (subst SiblingsFit (sym proof) fit, refl),
      );
}

-- Where the verifier accepts a proof that it records, it accepts the finished recording.
recorded-accepted :
    (limits : Limits) (program : Program) (proof : Proof) (statement : Digest) (r : Recorder)
    → SiblingsFit proof
    → verify Recorder.recorder_source limits program statement (Recorder.new proof) ≡ ok r
    → verify bytes_source limits program statement (from_start r.bytes)
      ≡ ok (record { bytes = r.bytes; at = length r.bytes })
unfolding Bytes.finish Records recorded
recorded-accepted limits program proof statement r fit e =
    let (b, (_, at), accepts) =
      verify_transfer (recorded r.bytes) limits program statement (Recorder.new proof)
        (from_start r.bytes) r e ([], sym (append-nil r.bytes)) (fit, refl) in
    accepts (
      ap (λ x. Bytes.finish x) at
      ∙ ap (λ b. require b stream_not_consumed) ((==_iff (length r.bytes) (length r.bytes)).1 refl))
    ∙ ap ok at

-- For a proof whose sibling hashes have 32 bytes each, the second pass of device_stream never
-- changes the outcome: device_stream returns the recorded bytes where the verifier accepts the
-- proof that it records, and that verifier's error where it does not.
pub device_stream-verify :
    (limits : Limits) (program : Program) (proof : Proof) (statement : Digest)
    → SiblingsFit proof
    → device_stream limits program proof statement ≡ (
        verify Recorder.recorder_source limits program statement (Recorder.new proof) >>= λ r.
        ok r.bytes)
unfolding device_stream
device_stream-verify limits program proof statement fit =
    after (verify Recorder.recorder_source limits program statement (Recorder.new proof)) refl
  where
    after :
        (x : Result Recorder)
        → verify Recorder.recorder_source limits program statement (Recorder.new proof) ≡ x
        → (x >>= λ r.
            (verify bytes_source limits program statement (from_start r.bytes) >>= λ _. ok tt)
            >> ok r.bytes)
          ≡ (x >>= λ r. ok r.bytes)
    after (ok r) p =
        ap (λ y. (y >>= λ _. ok tt) >> ok r.bytes)
          (recorded-accepted limits program proof statement r fit p)
    after (err error) p = refl
