-- ===== src/Host/Recorder.antt =====
-- `Recorder`: a proof served piece by piece, every byte recorded. The recording is the stream
-- that the device reads. leanVM's `Proof` is taken as what `Recorder` reads of it: the limbs of
-- its scalars, and the rows and sibling hashes of each Merkle batch, as words and bytes.
use hardware_wallet_benchmar.Prelude.{
  ℕ, List, [], ◌∷◌, ◌++◌, Option, none, some, Bool, ◌+◌, ◌==◌, true, get_elem?, to_le_bytes, length,
  ◌*◌, ◌&&◌,
}
use hardware_wallet_benchmar.Error.{
  Error, Result, ok, err, require, stream_exhausted, stream_not_consumed, transport, ◌>>=◌, ◌>>◌,
}
use hardware_wallet_benchmar.Field.E.{E}
use hardware_wallet_benchmar.Transcript.Source.{Source, Piece}

pub record Batch : Type 0 where
  pub leaf_data : List (List ℕ)
  pub sibling_hashes : List (List ℕ)

pub record Proof : Type 0 where
  pub stream : List E
  pub merkle : List Batch

pub record Recorder : Type 0 where
  pub proof : Proof
  pub scalar : ℕ
  pub batch : Option ℕ
  pub row : ℕ
  pub sibling : ℕ
  pub bytes : List ℕ

abbrev pub new : Proof → Recorder
new proof = record { proof = proof; scalar = 0; batch = none; row = 0; sibling = 0; bytes = [] }

-- `get(i).ok_or(error)`
abbrev pub get {ℓ} : {A : Type ℓ} → List A → ℕ → Error → Result A
get xs i error = elim (get_elem? xs i) [ some x ↦ ok x | none ↦ err error ]

abbrev pub words_bytes : List ℕ → List ℕ
words_bytes [] = []
words_bytes (w ∷ ws) = to_le_bytes 8 w ++ words_bytes ws

-- the batch under way; `merkle[batch]` is in range, since `Batch` was served from there
abbrev pub current : Recorder → Result Batch
current r = elim r.batch [
  | some b ↦ get r.proof.merkle b stream_exhausted
  | none ↦ err stream_exhausted
]

-- are the rows and siblings of batch `b` all read?
unfoldable pub batch_done : Recorder → Batch → Bool
batch_done r b = (r.row == length b.leaf_data) && (r.sibling == length b.sibling_hashes)

unfoldable pub next_batch : Recorder → ℕ
next_batch r = elim r.batch [ some b ↦ b + 1 | none ↦ 0 ]

unfoldable pub previous_done : Recorder → Bool
unfolding batch_done
previous_done r = elim (current r) [ ok b ↦ batch_done r b | err _ ↦ true ]

unfoldable pub read_piece : Piece → ℕ → Recorder → Result (List ℕ × Recorder)
unfolding next_batch previous_done
read_piece Piece.scalar n r = do
  value ← get r.proof.stream r.scalar stream_exhausted
  ok (words_bytes (value.c0 ∷ value.c1 ∷ value.c2 ∷ []), record r { scalar = r.scalar + 1 })
read_piece Piece.batch n r = do
  get r.proof.merkle (next_batch r) stream_exhausted >>= λ _. ok tt
  require (previous_done r) stream_not_consumed
  ok ([], record r { batch = some (next_batch r); row = 0; sibling = 0 })
read_piece Piece.row n r = do
  b ← current r
  row ← get b.leaf_data r.row stream_exhausted
  require (n == 8 * length row) transport
  ok (words_bytes row, record r { row = r.row + 1 })
read_piece Piece.sibling n r = do
  b ← current r
  sibling ← get b.sibling_hashes r.sibling stream_exhausted
  ok (sibling, record r { sibling = r.sibling + 1 })

unfoldable pub read : Piece → ℕ → Recorder → Result (List ℕ × Recorder)
unfolding read_piece
read piece n r = do
  (out, r') ← read_piece piece n r
  ok (out, record r' { bytes = r'.bytes ++ out })

unfoldable pub finish : Recorder → Result (Unit {0})
unfolding next_batch previous_done
finish r =
    require
      ((r.scalar == length r.proof.stream)
        && (next_batch r == length r.proof.merkle)
        && previous_done r)
      stream_not_consumed

abbrev pub recorder_source : Source Recorder
recorder_source = record { read = read; finish = finish }
