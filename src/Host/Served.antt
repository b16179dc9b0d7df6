-- ===== src/Host/Served.antt =====
-- The device's `Stream` (ffi/src/lib.rs) on a transport that carries a byte stream, and `Bytes` on that stream.
use hardware_wallet_benchmar.Prelude.{
  ℕ, ◌≡◌, ◌≢◌, ◌↔◌, refl, sym, ◌∙◌, ap, List, [], length, take, drop, ◌+◌, ◌≤◌, ◌<◌, arith, Bool,
  true, false, leb, ◌==◌, if◌then◌else◌, Bool-cases, leb→le, ==_iff, inl, inr, zero, suc, ==_apart,
  leb→gt,
}
use hardware_wallet_benchmar.Error.{
  Result, ok, err, ok-inj, err_ne-ok, require, stream_not_consumed, stream_exhausted, transport,
}
use hardware_wallet_benchmar.Transcript.Source.{Piece}
use hardware_wallet_benchmar.Simulation.{Simulation}
use hardware_wallet_benchmar.Host.Bytes.{Bytes, bytes_source, Device, stream_source, status}
use hardware_wallet_benchmar.Host.Bytes
use hardware_wallet_benchmar.Host.Device.{leanvm_verify, verdict, from_start}
use hardware_wallet_benchmar.Whir.Config.{Limits}
use hardware_wallet_benchmar.Bytecode.{Program}
use hardware_wallet_benchmar.Hash.Digest.{Digest}
use hardware_wallet_benchmar.Verify.{verify, verify-inv}
use hardware_wallet_benchmar.Host.Status.{status_correct}
use hardware_wallet_benchmar.Error.{require-true}
use hardware_wallet_benchmar.Simulation.Walk.{verify_transfer}

-- What the transport promises: from position `pos c` of `bytes`, a read takes the next `n` bytes (0), or fails
-- (nonzero) where fewer are left; the end is told (0) exactly at the end.
pub record Carries {C : Type 0} (device : Device C) (bytes : List ℕ) (pos : C → ℕ) : Type 0 where
  pub within :
      (n : ℕ) (c : C)
      → 0 < n
      → pos c + n ≤ length bytes
      → (c' : C) × (device.leanvm_read n c ≡ (take n (drop (pos c) bytes), c', 0))
        × (pos c' ≡ pos c + n)
  pub beyond : (n : ℕ) (c : C) → length bytes < pos c + n → (device.leanvm_read n c).2 ≢ 0
  pub at_end : (c : C) → (device.leanvm_end c ≡ 0) ↔ (pos c ≡ length bytes)

if_ok :
    (b : Bool)
    → ◌≡◌ {A = Result (Unit {0})} (if b then ok tt else err stream_not_consumed) (ok tt)
    → b ≡ true
if_ok true e = refl
if_ok false e = absurd (err_ne-ok e)

pub verdict_ok : {S : Type 0} (x : Result S) → verdict x ≡ ok tt → (s : S) × (x ≡ ok s)
unfolding verdict
verdict_ok (ok s) e = (s, refl)
verdict_ok (err error) e = absurd (err_ne-ok e)

module _ {C : Type 0} {device : Device C} {bytes : List ℕ} {pos : C → ℕ}
    (carries : Carries device bytes pos) where
  read_fits :
      (piece : Piece) (n : ℕ) (c : C)
      → pos c + n ≤ length bytes
      → (c' : C) × (Bytes.stream_read device piece n c ≡ ok (take n (drop (pos c) bytes), c'))
        × (pos c' ≡ pos c + n)
  unfolding Bytes.stream_read
  read_fits piece zero c fits = (c, refl, omega arith)
  read_fits piece (suc n) c fits =
      let (c', p, q) = carries.within (suc n) c (omega arith) fits in
      (
        c',
        ap
              (λ (x : List ℕ × C × ℕ).
                if suc n == 0
                then ok ([], c)
                else if x.2 == 0
                then ok (x.0, x.1)
                else err transport)
              p
            ∙ ap (λ b. if b then ok ([], c) else ok (take (suc n) (drop (pos c) bytes), c'))
                (==_apart (suc n) 0 (λ e. omega arith)),
        q,
      )

  read_fails :
      (piece : Piece) (n : ℕ) (c : C)
      → pos c ≤ length bytes
      → length bytes < pos c + n
      → Bytes.stream_read device piece n c ≡ err transport
  unfolding Bytes.stream_read
  read_fails piece n c inside over =
      ap
        (λ b.
          if b
          then ok ([], c)
          else if (device.leanvm_read n c).2 == 0
          then ok ((device.leanvm_read n c).0, (device.leanvm_read n c).1)
          else err transport)
        (==_apart n 0 (λ e. omega arith))
      ∙ ap
          (λ b.
            if b
            then ok ((device.leanvm_read n c).0, (device.leanvm_read n c).1)
            else err transport)
          (==_apart _ 0 (carries.beyond n c over))

  -- the device's place in the stream
  abbrev pub stream_place : C → Bytes
  stream_place c = record { bytes = bytes; at = pos c }

  abbrev later_place : C → ℕ → Bytes
  later_place c n = record { bytes = bytes; at = pos c + n }

  place_fits :
      (piece : Piece) (n : ℕ) (c : C)
      → leb (pos c + n) (length bytes) ≡ true
      → Bytes.read piece n (stream_place c) ≡ ok (take n (drop (pos c) bytes), later_place c n)
  unfolding Bytes.read
  place_fits piece n c fits =
      ap
        (λ b. if b then ok (take n (drop (pos c) bytes), later_place c n) else err stream_exhausted)
        fits

  place_fails :
      (piece : Piece) (n : ℕ) (c : C)
      → leb (pos c + n) (length bytes) ≡ false
      → Bytes.read piece n (stream_place c) ≡ err stream_exhausted
  unfolding Bytes.read
  place_fails piece n c over =
      ap
        (λ b. if b then ok (take n (drop (pos c) bytes), later_place c n) else err stream_exhausted)
        over

  -- `Bytes` first, then the device
  to_device : Simulation bytes_source (stream_source device)
  to_device = record {
    Valid = λ _. Unit {0};
    Rel = λ b c. b ≡ stream_place c;
    valid_before = λ request b b1 out e valid. tt;
    reads = λ {piece} {n} request b b1 out c e valid same.
        let e' = ap (λ x. Bytes.read piece n x) (sym same) ∙ e in
        elim (Bool-cases (leb (pos c + n) (length bytes))) [
          | inl fits ↦
              let (c', p, q) = read_fits piece n c (leb→le _ _ fits) in
              let read = ok-inj (sym (place_fits piece n c fits) ∙ e') in
              (
                c',
                p ∙ ap (λ x. ok (x.0, c')) read,
                sym (ap (λ x. x.1) read) ∙ ap (λ k. record { bytes = bytes; at = k }) (sym q),
              )
          | inr over ↦ absurd (err_ne-ok (sym (place_fails piece n c over) ∙ e'))
        ];
  }

  -- the device first
  from_device : Simulation (stream_source device) bytes_source
  from_device = record {
    Valid = λ _. Unit {0};
    Rel = λ c b. (pos c ≤ length bytes) × (b ≡ stream_place c);
    valid_before = λ request c c1 out e valid. tt;
    reads = λ {piece} {n} request c c1 out b e valid (inside, same).
        elim (Bool-cases (leb (pos c + n) (length bytes))) [
          | inl fits ↦
              let within = leb→le (pos c + n) (length bytes) fits in
              let (c', p, q) = read_fits piece n c within in
              let read = ok-inj (sym p ∙ e) in
              let moved : pos c1 ≡ pos c + n = sym (ap (λ x. pos x.1) read) ∙ q in
              (
                later_place c n,
                ap (λ x. Bytes.read piece n x) same
                    ∙ place_fits piece n c fits
                    ∙ ap (λ x. ok (x.0, later_place c n)) read,
                (
                  omega (arith, moved, within),
                  ap (λ k. record { bytes = bytes; at = k }) (sym moved),
                ),
              )
          | inr over ↦ absurd (
              err_ne-ok
                (sym (read_fails piece n c inside (leb→gt (pos c + n) (length bytes) over)) ∙ e))
        ];
  }

  ends_with :
      (c : C) → (Bytes.stream_finish device c ≡ ok tt) ↔ (Bytes.finish (stream_place c) ≡ ok tt)
  unfolding Bytes.stream_finish Bytes.finish
  ends_with c =
      let end = carries.at_end c in
      (
        λ e.
            ap (λ b. require b stream_not_consumed)
              ((==_iff (pos c) (length bytes)).1
                (end.0 ((==_iff (device.leanvm_end c) 0).0 (if_ok _ e)))),
        λ e.
            ap (λ b. if b then ok tt else err stream_not_consumed)
              ((==_iff (device.leanvm_end c) 0).1
                (end.1 ((==_iff (pos c) (length bytes)).0 (require-true _ _ e)))),
      )

  device_accepts :
      (limits : Limits) (program : Program) (statement : Digest) (c c1 : C)
      → pos c ≡ 0
      → verify (stream_source device) limits program statement c ≡ ok c1
      → verdict (verify bytes_source limits program statement (from_start bytes)) ≡ ok tt
  unfolding verdict from_device
  device_accepts limits program statement c c1 first e =
      let at_start : from_start bytes ≡ stream_place c =
        ap (λ k. record { bytes = bytes; at = k }) (sym first) in
      let (_, _, ended, _) = verify-inv (stream_source device) limits program statement c c1 e in
      let (b1, (_, place), accepts) =
        verify_transfer from_device limits program statement c (from_start bytes) c1 e tt
          (omega (arith, first), at_start) in
      ap verdict (accepts (ap (λ b. Bytes.finish b) place ∙ (ends_with c1).0 ended))

  bytes_accept :
      (limits : Limits) (program : Program) (statement : Digest) (c : C) (b1 : Bytes)
      → pos c ≡ 0
      → verify bytes_source limits program statement (from_start bytes) ≡ ok b1
      → verdict (verify (stream_source device) limits program statement c) ≡ ok tt
  unfolding verdict to_device
  bytes_accept limits program statement c b1 first e =
      let at_start : from_start bytes ≡ stream_place c =
        ap (λ k. record { bytes = bytes; at = k }) (sym first) in
      let (_, _, ended, _) =
        verify-inv bytes_source limits program statement (from_start bytes) b1 e in
      let (c1, place, accepts) =
        verify_transfer to_device limits program statement (from_start bytes) c b1 e tt at_start in
      ap verdict (accepts ((ends_with c1).1 (ap (λ b. Bytes.finish b) (sym place) ∙ ended)))

  -- On a transport that carries a byte stream (each read within it returns the next bytes and 0,
  -- one past its end a nonzero status, and the end call 0 exactly at the end), and that stands at
  -- its start, leanvm_verify returns 0 exactly where the verifier accepts the stream read as
  -- Bytes.
  pub leanvm_verify-verify :
      (limits : Limits) (program : Program) (statement : Digest) (c : C)
      → pos c ≡ 0
      → (leanvm_verify device limits program statement c ≡ 0)
        ↔ (verdict (verify bytes_source limits program statement (from_start bytes)) ≡ ok tt)
  unfolding leanvm_verify
  leanvm_verify-verify limits program statement c first =
      let accepted =
        status_correct (verdict (verify (stream_source device) limits program statement c))
          (ok tt) in
      (
        λ e.
            let (c1, run) = verdict_ok _ (accepted.0.0 e) in
            device_accepts limits program statement c c1 first run,
        λ e.
            let (b1, run) = verdict_ok _ e in
            accepted.0.1 (bytes_accept limits program statement c b1 first run),
      )
