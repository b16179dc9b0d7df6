-- ===== src/Host/Tests.antt =====
-- The sources' theorems at concrete proofs.
use hardware_wallet_benchmar.Host.Tamper.{
  Tampered, tamper_check, Accepted, Resists, flip, tamper_check-Resists,
}
use hardware_wallet_benchmar.Host.Served.{Carries, leanvm_verify-verify}
use hardware_wallet_benchmar.Error.{◌>>=◌}
use hardware_wallet_benchmar.Prelude.{
  zero, suc, some, none, sym, ◌∙◌, ap, ℕ, ◌≡◌, refl, List, [], ◌∷◌, ◌↔◌, to_le_bytes, ◌+◌,
  replicate, length, if◌then◌else◌, leb, take, ◌≤◌, get_elem?, drop, le→leb, ◌==◌, Bool, arith, ◌<◌,
  false, ◌++◌, ◌^◌, get_or-replicate,
}
use hardware_wallet_benchmar.Error.{ok, err, gkr_layer, Result}
use hardware_wallet_benchmar.Host.Recorder
use hardware_wallet_benchmar.Host.Recorder.{Recorder, Proof, Batch}
use hardware_wallet_benchmar.Host.Bytes
use hardware_wallet_benchmar.Transcript.Source.{Piece}
use hardware_wallet_benchmar.Host.Bytes.{status, Device, bytes_source}
use hardware_wallet_benchmar.Field.E.{gen}
use hardware_wallet_benchmar.Host.Replay.{Serves, served, replay-record, done}
use hardware_wallet_benchmar.Host.Status.{status_correct}
use hardware_wallet_benchmar.Host.Recorded.{SiblingsFit, device_stream-verify}
use hardware_wallet_benchmar.Bytecode.{Program, evaluate}
use hardware_wallet_benchmar.Whir.Config.{device_limits}
use hardware_wallet_benchmar.Hash.Digest.{Digest}
use hardware_wallet_benchmar.Host.Device.{device_stream, leanvm_verify, verdict, from_start}
use hardware_wallet_benchmar.Verify.{verify}
use hardware_wallet_benchmar.Host.ProgramData.{
  program_data, program_iv, dictionary, nonzero_words, columns_loop, column_entries, entry_of,
  index_of,
}
use hardware_wallet_benchmar.Host.ProgramData.Entries.{table_word}
use hardware_wallet_benchmar.Host.ProgramData.RoundTrip.{program_data-table_word}
use hardware_wallet_benchmar.Transcript.Placement.{trailing_zeros, trailing_zeros_loop}
use hardware_wallet_benchmar.Whir.Merkle.{insert_positions, insert_position, partition_point}
use hardware_wallet_benchmar.Host.Prefix.{Accepted-append}
use hardware_wallet_benchmar.Transcript.Rounds.{AllElements, no_more, more}
use hardware_wallet_benchmar.Tables.Columns.{nat_at}
use hardware_wallet_benchmar.Host.ProgramData.Evaluate.{table_sum}
use hardware_wallet_benchmar.Host.ProgramData.Extension.{program_data-evaluate}

abbrev one_scalar : Proof
one_scalar = record { stream = gen ∷ []; merkle = [] }

abbrev served_bytes : List ℕ
served_bytes =
    2 ∷ 0 ∷ 0 ∷ 0 ∷ 0 ∷ 0 ∷ 0 ∷ 0 ∷ 0 ∷ 0 ∷ 0 ∷ 0 ∷ 0 ∷ 0 ∷ 0 ∷ 0 ∷ 0 ∷ 0 ∷ 0 ∷ 0 ∷ 0 ∷ 0 ∷ 0 ∷ 0
    ∷ []

abbrev after_scalar : Recorder
after_scalar = record (Recorder.new one_scalar) { scalar = 1; bytes = served_bytes }

scalar_served :
    Serves Recorder.recorder_source
      ((Piece.scalar, 24, served_bytes) ∷ [])
      (Recorder.new one_scalar)
      after_scalar
unfolding Recorder.read Recorder.read_piece to_le_bytes
scalar_served =
    served Piece.scalar served_bytes [] (Recorder.new one_scalar) after_scalar after_scalar refl
      (done after_scalar)

replay-record_example :
    Serves Bytes.bytes_source
      ((Piece.scalar, 24, served_bytes) ∷ [])
      (record { bytes = served_bytes; at = 0 })
      (record { bytes = served_bytes; at = 24 })
replay-record_example =
    replay-record ((Piece.scalar, 24, served_bytes) ∷ []) (Recorder.new one_scalar) after_scalar
      scalar_served

abbrev rejected : Result (Unit {0})
rejected = err gkr_layer

abbrev verified : Result (Unit {0})
verified = ok tt

status_correct_example :
    ((status rejected ≡ 0) ↔ (rejected ≡ ok tt))
    × (status rejected ≡ status verified → rejected ≡ verified)
status_correct_example = status_correct rejected verified

-- a batch with one row and one sibling
abbrev one_batch : Batch
one_batch = record { leaf_data = (1 ∷ []) ∷ []; sibling_hashes = replicate 32 7 ∷ [] }

abbrev opened_proof : Proof
opened_proof = record { stream = gen ∷ []; merkle = one_batch ∷ [] }

opened_proof-SiblingsFit : SiblingsFit opened_proof
unfolding SiblingsFit
opened_proof-SiblingsFit zero zero b sibling found at =
    ap (λ o. elim o [ some s ↦ length s | none ↦ 32 ])
      (sym at
        ∙ ap (λ o. elim o [ some b' ↦ get_elem? b'.sibling_hashes 0 | none ↦ none ]) (sym found))
opened_proof-SiblingsFit zero (suc j) b sibling found at = absurd (
    cc (
      sym at
      ∙ ap (λ o. elim o [ some b' ↦ get_elem? b'.sibling_hashes (suc j) | none ↦ none ])
          (sym found)))
opened_proof-SiblingsFit (suc i) j b sibling found at = absurd (cc found)

abbrev small_program : Program
small_program = record {
  log_len = 2;
  fiat_shamir_iv = replicate 32 1;
  column_start = 0 ∷ [];
  dict = [];
  entries = [];
}

abbrev statement : Digest
statement = record { bytes = replicate 32 5 }

device_stream-verify_example : device_stream device_limits small_program opened_proof statement ≡ (
    verify Recorder.recorder_source device_limits small_program statement
      (Recorder.new opened_proof)
    >>= λ r. ok r.bytes)
device_stream-verify_example =
    device_stream-verify device_limits small_program opened_proof statement opened_proof-SiblingsFit

-- a transport that holds its place in the stream
abbrev stream_device : Device ℕ
stream_device = record {
  leanvm_read = λ n c.
      if leb (c + n) (length served_bytes)
      then (take n (drop c served_bytes), c + n, 0)
      else ([], c, 1);
  leanvm_end = λ c. if c == length served_bytes then 0 else 1;
}

past : (a b : ℕ) → b < a → leb a b ≡ false
past a b h = ground arith

end_of : (a b : ℕ) → (◌≡◌ {A = ℕ} (if a == b then 0 else 1) 0) ↔ (a ≡ b)
end_of a b = ground arith

stream_device-Carries : Carries stream_device served_bytes (λ c. c)
stream_device-Carries = record {
  within = λ n c positive fits. (
    c + n,
    ap (λ b. if b then (take n (drop c served_bytes), c + n, 0) else ([], c, 1))
        (le→leb (c + n) (length served_bytes) fits),
    refl,
  );
  beyond = λ n c over p.
      let answer : Bool → List ℕ × ℕ × ℕ =
        λ b. if b then (take n (drop c served_bytes), c + n, 0) else ([], c, 1) in
      let failed : (answer (leb (c + n) (length served_bytes))).2 ≡ 1 =
        ap (λ b. (answer b).2) (past (c + n) (length served_bytes) over) in
      absurd (omega (arith, failed, p));
  at_end = λ c. end_of c (length served_bytes);
}

leanvm_verify-verify_example :
    (leanvm_verify stream_device device_limits small_program statement 0 ≡ 0) ↔ (
      verdict (verify bytes_source device_limits small_program statement (from_start served_bytes))
      ≡ ok tt)
leanvm_verify-verify_example =
    leanvm_verify-verify stream_device-Carries device_limits small_program statement 0 refl

abbrev recording : List ℕ
recording = replicate 40 3

abbrev flips : ℕ
flips = 2

tamper_check-Resists_example :
    (tamper_check device_limits small_program recording flips ≡ Tampered.rejected flips) ↔ (
      (flips ≡ flips)
      × (32 ≤ length recording)
      × Accepted device_limits small_program
          (record { bytes = take 32 recording })
          (drop 32 recording)
      × ¬ Accepted device_limits small_program
          (record { bytes = flip (take 32 recording) 0 0 })
          (drop 32 recording)
      × Resists device_limits small_program
          (record { bytes = take 32 recording })
          (drop 32 recording)
          flips
          flips
          0)
tamper_check-Resists_example =
    tamper_check-Resists device_limits small_program recording flips flips

Accepted-append_example : ¬ (
    Accepted device_limits small_program statement served_bytes
    × Accepted device_limits small_program statement (served_bytes ++ (0 ∷ [])))
Accepted-append_example = Accepted-append device_limits small_program statement served_bytes 0 []

-- two rows in each of the sixteen columns
abbrev small_table : List ℕ
small_table = 7 ∷ 0 ∷ 9 ∷ 7 ∷ replicate 28 0

abbrev same_bytes : List ℕ → List ℕ
same_bytes message = message

abbrev packed_program : Program
packed_program = record {
  log_len = 5;
  fiat_shamir_iv = program_iv same_bytes small_table;
  column_start = 0 ∷ 1 ∷ replicate 15 3;
  dict = 7 ∷ 9 ∷ [];
  entries = 0 ∷ 1 ∷ 0x10000 ∷ [];
}

small_table-program : program_data same_bytes small_table ≡ some packed_program
unfolding program_data trailing_zeros trailing_zeros_loop dictionary nonzero_words insert_positions
    insert_position partition_point columns_loop column_entries entry_of index_of
small_table-program = refl

program_data-table_word_example : table_word packed_program 1 1 ≡ 7
program_data-table_word_example =
    program_data-table_word same_bytes small_table packed_program 1 1 small_table-program
      (omega arith) (omega arith)

-- 32 rows in each of the sixteen columns, and the first bytes of a message for its hash
abbrev sparse_table : List ℕ
sparse_table = 7 ∷ 0 ∷ 9 ∷ replicate 509 0

abbrev first_bytes : List ℕ → List ℕ
first_bytes message = take 8 message

abbrev sparse_program : Program
sparse_program = record {
  log_len = 9;
  fiat_shamir_iv = 108 ∷ 101 ∷ 97 ∷ 110 ∷ 118 ∷ 109 ∷ 8 ∷ 0 ∷ [];
  column_start = 0 ∷ replicate 16 2;
  dict = 7 ∷ 9 ∷ [];
  entries = 0 ∷ 0x20001 ∷ [];
}

sparse_table-program : program_data first_bytes sparse_table ≡ some sparse_program
unfolding program_data trailing_zeros trailing_zeros_loop dictionary nonzero_words insert_positions
    insert_position partition_point columns_loop column_entries entry_of index_of program_iv
    to_le_bytes
sparse_table-program = refl

sparse_words : (j : ℕ) → nat_at sparse_table j < 2 ^ 64
sparse_words zero = omega arith
sparse_words (suc zero) = omega arith
sparse_words (suc (suc zero)) = omega arith
sparse_words (suc (suc (suc j))) = omega (arith, get_or-replicate {A = ℕ} 509 j 0)

gens-AllElements : (n : ℕ) → AllElements (replicate n gen)
gens-AllElements zero = no_more
gens-AllElements (suc n) =
    more (record { word0 = omega arith; word1 = omega arith; word2 = omega arith })
      (gens-AllElements n)

program_data-evaluate_example :
    evaluate sparse_program (replicate 9 gen)
    ≡ ok (table_sum sparse_table (replicate 9 gen) 0 (2 ^ 9))
program_data-evaluate_example =
    program_data-evaluate first_bytes sparse_table sparse_program 9 (replicate 9 gen)
      sparse_table-program refl (omega arith) (omega arith) sparse_words refl (gens-AllElements 9)
