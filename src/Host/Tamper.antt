-- ===== src/Host/Tamper.antt =====
-- `tamper_check` (leanvm-pow/pow/src/ledger.rs): a recorded stream is accepted, and each of the changes tried on
-- it is rejected.
use hardware_wallet_benchmar.Prelude.{
  ℕ, zero, suc, List, [], ◌∷◌, ◌+◌, ◌*◌, ◌/◌, ◌%◌, ◌^◌, set, get_or, length, take, drop, ltb, leb,
  if◌then◌else◌, ◌≡◌, ◌≢◌, ◌↔◌, refl, ap, true, false, Bool, ◌≤◌, ◌<◌, arith, ◌∙◌, sym, leb→le,
  ltb→lt, lt→ltb, le→leb,
}
use hardware_wallet_benchmar.Error.{Error, Result, ok, err, err_ne-ok}
use hardware_wallet_benchmar.Host.Device.{verdict, from_start}
use hardware_wallet_benchmar.Bits.Xor.{◌⊕◌, xor_assoc, xor_self, xor-zero}
use hardware_wallet_benchmar.Whir.Config.{Limits}
use hardware_wallet_benchmar.Bytecode.{Program}
use hardware_wallet_benchmar.Hash.Digest.{Digest}
use hardware_wallet_benchmar.Verify.{verify}
use hardware_wallet_benchmar.Host.Bytes.{bytes_source}

-- what a check ends with: the count of corruptions rejected, a reason (`Err`), or a panic
pub data Tampered : Type 0 where
  rejected : ℕ → Tampered
  rejects_honest : Error → Tampered
  accepts_changed_input : Tampered
  accepts_corruption : ℕ → ℕ → Tampered
  panics : Tampered

-- `bytes[at] ^= 1 << bit`
unfoldable pub flip : List ℕ → ℕ → ℕ → List ℕ
flip bytes at bit = set bytes at (get_or bytes at 0 ⊕ 2 ^ bit)

-- where flip `k` of `flips` goes, in a stream of `len` bytes
abbrev pub place : ℕ → ℕ → ℕ → ℕ
place len flips k = k * len / flips + k % 7

unfoldable pub tamper_loop : Limits → Program → Digest → ℕ → ℕ → ℕ → ℕ → List ℕ → ℕ → Tampered
unfolding flip
tamper_loop limits program statement len flips zero k copy count = Tampered.rejected count
tamper_loop limits program statement len flips (suc n) k copy count =
    let at = place len flips k in
    let changed = flip copy at (k % 8) in
    let rest =
      tamper_loop limits program statement len flips n (k + 1) (flip changed at (k % 8))
        (count + 1) in
    if ltb at (length copy)
    then elim (verify bytes_source limits program statement (from_start changed)) [
      | ok _ ↦ accepts_corruption at (k % 8)
      | err _ ↦ rest
    ]
    else panics

unfoldable pub tamper_check : Limits → Program → List ℕ → ℕ → Tampered
unfolding tamper_loop
tamper_check limits program recorded flips =
    let statement : Digest = record { bytes = take 32 recorded } in
    let stream = drop 32 recorded in
    let bad_statement : Digest = record { bytes = flip statement.bytes 0 0 } in
    if leb 32 (length recorded)
    then elim (verify bytes_source limits program statement (from_start stream)) [
      | err error ↦ rejects_honest error
      | ok _ ↦ elim (verify bytes_source limits program bad_statement (from_start stream)) [
        | ok _ ↦ accepts_changed_input
        | err _ ↦ tamper_loop limits program statement (length stream) flips flips 0 stream 0
      ]
    ]
    else panics

-- Flipping a bit twice gives the bytes back.
flip-flip : (bytes : List ℕ) (at bit : ℕ) → flip (flip bytes at bit) at bit ≡ bytes
unfolding flip
flip-flip [] at bit = refl
flip-flip (b ∷ bytes) zero bit =
    ap (λ x. x ∷ bytes)
      (xor_assoc b (2 ^ bit) (2 ^ bit) ∙ ap (λ x. b ⊕ x) (xor_self (2 ^ bit)) ∙ xor-zero b)
flip-flip (b ∷ bytes) (suc at) bit = ap (λ xs. b ∷ xs) (flip-flip bytes at bit)

-- is `stream` accepted for `statement`?
abbrev pub Accepted : Limits → Program → Digest → List ℕ → Type 0
Accepted limits program statement stream =
    verdict (verify bytes_source limits program statement (from_start stream)) ≡ ok tt

-- Each of `n` flips from flip `k` on falls into the stream, and the stream with that bit alone changed is not accepted.
unfoldable pub Resists : Limits → Program → Digest → List ℕ → ℕ → ℕ → ℕ → Type 0
Resists limits program statement stream flips zero k = Unit {0}
Resists limits program statement stream flips (suc n) k =
    (place (length stream) flips k < length stream)
    × ¬ Accepted limits program statement (flip stream (place (length stream) flips k) (k % 8))
    × Resists limits program statement stream flips n (k + 1)

rejected-inj : {a b : ℕ} → Tampered.rejected a ≡ Tampered.rejected b → a ≡ b
rejected-inj {a = a} p = ap (λ r. elim r [ Tampered.rejected n ↦ n | _ ↦ a ]) p

panics-apart : {n : ℕ} → Tampered.panics ≢ Tampered.rejected n
panics-apart p = cc

corrupted-apart : {at bit n : ℕ} → Tampered.accepts_corruption at bit ≢ Tampered.rejected n
corrupted-apart p = cc

input-apart : {n : ℕ} → Tampered.accepts_changed_input ≢ Tampered.rejected n
input-apart p = cc

honest-apart : {error : Error} {n : ℕ} → Tampered.rejects_honest error ≢ Tampered.rejected n
honest-apart p = cc

-- A count is reached only past a stream that is not accepted.
rest-of :
    {S : Type 0} (x : Result S) (other rest : Tampered) (n : ℕ)
    → (other ≢ Tampered.rejected n)
    → (◌≡◌ {A = Tampered} (elim x [ ok _ ↦ other | err _ ↦ rest ]) (Tampered.rejected n))
      ↔ (¬ (verdict x ≡ ok tt) × (rest ≡ Tampered.rejected n))
unfolding verdict
rest-of (ok s) other rest n differs =
    (λ e. absurd (differs e), λ (refused, _). absurd (refused refl))
rest-of (err error) other rest n differs = (λ e. (λ p. err_ne-ok p, e), λ (_, e). e)

past-honest :
    {S : Type 0} (x : Result S) (rest : Tampered) (n : ℕ)
    → (◌≡◌ {A = Tampered}
        (elim x [ err error ↦ rejects_honest error | ok _ ↦ rest ])
        (Tampered.rejected n))
      ↔ ((verdict x ≡ ok tt) × (rest ≡ Tampered.rejected n))
unfolding verdict
past-honest (ok s) rest n = (λ e. (refl, e), λ (_, e). e)
past-honest (err error) rest n = (λ e. absurd (honest-apart e), λ (p, _). absurd (err_ne-ok p))

guarded :
    (b : Bool) (x : Tampered) (n : ℕ)
    → ((if b then x else panics) ≡ Tampered.rejected n) ↔ ((b ≡ true) × (x ≡ Tampered.rejected n))
guarded true x n = (λ e. (refl, e), λ (_, e). e)
guarded false x n = (λ e. absurd (panics-apart e), λ (b, _). cc)

loop-Resists :
    (limits : Limits) (program : Program) (statement : Digest) (stream : List ℕ)
    (flips n k count total : ℕ)
    → (tamper_loop limits program statement (length stream) flips n k stream count
        ≡ Tampered.rejected total)
      ↔ (Resists limits program statement stream flips n k × (total ≡ count + n))
unfolding tamper_loop Resists
loop-Resists limits program statement stream flips zero k count total =
    (λ e. (tt, omega (arith, rejected-inj e)), λ (_, e). ap Tampered.rejected (omega (arith, e)))
loop-Resists limits program statement stream flips (suc n) k count total =
    let at = place (length stream) flips k in
    let changed = flip stream at (k % 8) in
    let loop = λ (copy : List ℕ).
      tamper_loop limits program statement (length stream) flips n (k + 1) copy (count + 1) in
    let restored = flip-flip stream at (k % 8) in
    let run = verify bytes_source limits program statement (from_start changed) in
    let later = loop-Resists limits program statement stream flips n (k + 1) (count + 1) total in
    let guard = guarded (ltb at (length stream)) _ total in
    let tried =
      rest-of run (accepts_corruption at (k % 8)) (loop (flip changed at (k % 8))) total
        corrupted-apart in
    (
      λ e.
          let (inside, e1) = guard.0 e in
          let (refused, e2) = tried.0 e1 in
          let (resists, e3) = later.0 (ap loop (sym restored) ∙ e2) in
          ((ltb→lt _ _ inside, refused, resists), omega (arith, e3)),
      λ ((inside, refused, resists), e). guard.1 (
        lt→ltb _ _ inside,
        tried.1 (refused, ap loop restored ∙ later.1 (resists, omega (arith, e))),
      ),
    )

-- tamper_check returns a count exactly where the count is the number of flips, the recording has
-- 32 bytes of statement at least, the stream after them is accepted for it and not for the
-- statement with its first bit changed, and each flip falls into the stream and the recorded
-- stream with that bit alone changed is not accepted.
pub tamper_check-Resists :
    (limits : Limits) (program : Program) (recorded : List ℕ) (flips total : ℕ)
    → (tamper_check limits program recorded flips ≡ Tampered.rejected total) ↔ (
        (total ≡ flips)
        × (32 ≤ length recorded)
        × Accepted limits program (record { bytes = take 32 recorded }) (drop 32 recorded)
        × ¬ Accepted limits program
            (record { bytes = flip (take 32 recorded) 0 0 })
            (drop 32 recorded)
        × Resists limits program
            (record { bytes = take 32 recorded })
            (drop 32 recorded)
            flips
            flips
            0)
unfolding tamper_check
tamper_check-Resists limits program recorded flips total =
    let statement : Digest = record { bytes = take 32 recorded } in
    let bad_statement : Digest = record { bytes = flip (take 32 recorded) 0 0 } in
    let stream = drop 32 recorded in
    let loop = tamper_loop limits program statement (length stream) flips flips 0 stream 0 in
    let later = loop-Resists limits program statement stream flips flips 0 0 total in
    let guard = guarded (leb 32 (length recorded)) _ total in
    let changed =
      rest-of (verify bytes_source limits program bad_statement (from_start stream))
        accepts_changed_input loop total input-apart in
    let honest =
      past-honest (verify bytes_source limits program statement (from_start stream)) _ total in
    (
      λ e.
          let (long, e1) = guard.0 e in
          let (accepted, e2) = honest.0 e1 in
          let (refused, e3) = changed.0 e2 in
          let (resists, count) = later.0 e3 in
          (omega (arith, count), leb→le _ _ long, accepted, refused, resists),
      λ (count, long, accepted, refused, resists). guard.1 (
        le→leb _ _ long,
        honest.1 (accepted, changed.1 (refused, later.1 (resists, omega (arith, count)))),
      ),
    )
