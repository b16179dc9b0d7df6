-- ===== src/Host/Replay.antt =====
-- A recording, replayed: the recorder's bytes serve the same reads to the source that reads them
-- back in order.
use hardware_wallet_benchmar.Prelude.{
  ℕ, ◌≡◌, refl, sym, ◌∙◌, ap, ap₂, ◌+◌, arith, List, [], ◌∷◌, ◌++◌, length, take, drop, leb,
  if◌then◌else◌, true, length-append, le→leb, ◌==◌, ◌*◌,
}
use hardware_wallet_benchmar.Error.{
  ok, err, ◌>>=◌, result-bind_ok, ok-inj, stream_exhausted, require, stream_not_consumed, transport,
}
use hardware_wallet_benchmar.Transcript.Source.{Source, Piece}
use hardware_wallet_benchmar.Host.Recorder.{Recorder}
use hardware_wallet_benchmar.Host.Recorder
use hardware_wallet_benchmar.Host.Bytes.{Bytes}
use hardware_wallet_benchmar.Host.Bytes

-- A client's requests in turn: `out` is served, of the length asked for, and the source goes on.
pub data Serves {S : Type 0} (src : Source S) : List (Piece × ℕ × List ℕ) → S → S → Type 0 where
  done : (s : S) → Serves src [] s s
  served :
      (piece : Piece) (out : List ℕ) (requests : List (Piece × ℕ × List ℕ)) (s s' s'' : S)
      → src.read piece (length out) s ≡ ok (out, s')
      → Serves src requests s' s''
      → Serves src ((piece, length out, out) ∷ requests) s s''

drop-append : {A : Type 0} (xs ys : List A) → drop (length xs) (xs ++ ys) ≡ ys
drop-append [] ys = refl
drop-append (x ∷ xs) ys = drop-append xs ys

take-append : {A : Type 0} (xs ys : List A) → take (length xs) (xs ++ ys) ≡ xs
take-append [] ys = refl
take-append (x ∷ xs) ys = ap (λ t. x ∷ t) (take-append xs ys)

pub append-nil : {A : Type 0} (xs : List A) → xs ++ [] ≡ xs
append-nil [] = refl
append-nil (x ∷ xs) = ap (λ t. x ∷ t) (append-nil xs)

pub append_assoc : {A : Type 0} (xs ys zs : List A) → (xs ++ ys) ++ zs ≡ xs ++ (ys ++ zs)
append_assoc [] ys zs = refl
append_assoc (x ∷ xs) ys zs = ap (λ t. x ∷ t) (append_assoc xs ys zs)

-- No piece changes the recording until `read` appends what it served.
read_piece-bytes :
    (piece : Piece) (n : ℕ) (r r' : Recorder) (out : List ℕ)
    → Recorder.read_piece piece n r ≡ ok (out, r')
    → r'.bytes ≡ r.bytes
unfolding Recorder.read_piece
read_piece-bytes Piece.scalar n r r' out e =
    let (_, _, e1) =
      result-bind_ok (Recorder.get r.proof.stream r.scalar stream_exhausted) _ (out, r') e in
    sym (ap (λ p. p.1.bytes) (ok-inj e1))
read_piece-bytes Piece.batch n r r' out e =
    let m1 = Recorder.get r.proof.merkle (Recorder.next_batch r) stream_exhausted >>= λ _. ok tt in
    let (_, _, e1) = result-bind_ok m1 _ (out, r') e in
    let m2 = require (Recorder.previous_done r) stream_not_consumed in
    let (_, _, e2) = result-bind_ok m2 _ (out, r') e1 in sym (ap (λ p. p.1.bytes) (ok-inj e2))
read_piece-bytes Piece.row n r r' out e =
    let (b, _, e1) = result-bind_ok (Recorder.current r) _ (out, r') e in
    let (row, _, e2) =
      result-bind_ok (Recorder.get b.leaf_data r.row stream_exhausted) _ (out, r') e1 in
    let (_, _, e3) = result-bind_ok (require (n == 8 * length row) transport) _ (out, r') e2 in
    sym (ap (λ p. p.1.bytes) (ok-inj e3))
read_piece-bytes Piece.sibling n r r' out e =
    let (b, _, e1) = result-bind_ok (Recorder.current r) _ (out, r') e in
    let (_, _, e2) =
      result-bind_ok (Recorder.get b.sibling_hashes r.sibling stream_exhausted) _ (out, r') e1 in
    sym (ap (λ p. p.1.bytes) (ok-inj e2))

pub read-bytes :
    (piece : Piece) (n : ℕ) (r r' : Recorder) (out : List ℕ)
    → Recorder.read piece n r ≡ ok (out, r')
    → r'.bytes ≡ r.bytes ++ out
unfolding Recorder.read
read-bytes piece n r r' out e =
    let ((out', r1), e0, e1) = result-bind_ok (Recorder.read_piece piece n r) _ (out, r') e in
    let same : out' ≡ out = ap (λ p. p.0) (ok-inj e1) in
    sym (ap (λ p. p.1.bytes) (ok-inj e1))
    ∙ ap₂ (λ a b. a ++ b) (read_piece-bytes piece n r r1 out' e0) same

-- the recording only grows
grows :
    (requests : List (Piece × ℕ × List ℕ)) (r r' : Recorder)
    → Serves Recorder.recorder_source requests r r'
    → (later : List ℕ) × (r'.bytes ≡ r.bytes ++ later)
grows _ r _ (done _) = ([], sym (append-nil r.bytes))
grows _ r r'' (served piece out requests _ r' _ e rest) =
    let (later, p) = grows requests r' r'' rest in
    (
      out ++ later,
      p
          ∙ ap (λ t. t ++ later) (read-bytes piece (length out) r r' out e)
          ∙ append_assoc r.bytes out later,
    )

-- the bytes at the position after `before` are the ones that come next
pub bytes-read :
    (piece : Piece) (before out later whole : List ℕ)
    → whole ≡ before ++ (out ++ later)
    → Bytes.read piece (length out) (record { bytes = whole; at = length before })
      ≡ ok (out, record { bytes = whole; at = length (before ++ out) })
unfolding Bytes.read
bytes-read piece before out later whole e =
    let fits : leb (length before + length out) (length whole) ≡ true = le→leb _ _ (
      omega (
        arith,
        ap (λ xs. length xs) e,
        length-append before (out ++ later),
        length-append out later,
      )) in
    ap
      (λ b.
        if b
        then ok (
          take (length out) (drop (length before) whole),
          record { bytes = whole; at = length before + length out },
        )
        else err stream_exhausted)
      fits
    ∙ (λ i. ok (
      (ap (λ w. take (length out) (drop (length before) w)) e
            ∙ ap (λ t. take (length out) t) (drop-append before (out ++ later))
            ∙ take-append out later)
          i,
      record { bytes = whole; at = (sym (length-append before out)) i },
    ))

-- Requests that the recorder served, each with as many bytes as it asked for, are served the same
-- bytes by the finished recording, read back from the place that it had before the first of them.
pub replay-record :
    (requests : List (Piece × ℕ × List ℕ)) (r r' : Recorder)
    → Serves Recorder.recorder_source requests r r'
    → Serves Bytes.bytes_source requests
        (record { bytes = r'.bytes; at = length r.bytes })
        (record { bytes = r'.bytes; at = length r'.bytes })
replay-record _ r _ (done _) = done _
replay-record _ r r'' (served piece out requests _ r' _ e rest) =
    let (later, p) = grows requests r' r'' rest in
    let q : r'.bytes ≡ r.bytes ++ out = read-bytes piece (length out) r r' out e in
    let whole : r''.bytes ≡ r.bytes ++ (out ++ later) =
      p ∙ ap (λ t. t ++ later) q ∙ append_assoc r.bytes out later in
    served piece out requests _ (record { bytes = r''.bytes; at = length r'.bytes }) _
      (bytes-read piece r.bytes out later r''.bytes whole
        ∙ ap (λ t. ok (out, record { bytes = r''.bytes; at = length t })) (sym q))
      (replay-record requests r' r'' rest)
