-- ===== src/Host/Bytes.antt =====
-- `Bytes`: the recorded stream, read back as the device reads it; and the device's `Stream`
-- (ffi/src/lib.rs), whose C functions are a parameter.
use hardware_wallet_benchmar.Prelude.{
  ℕ, List, [], ◌==◌, ◌+◌, if◌then◌else◌, leb, length, take, drop,
}
use hardware_wallet_benchmar.Error.{
  Result, ok, err, require, stream_exhausted, stream_not_consumed, transport, code,
}
use hardware_wallet_benchmar.Transcript.Source.{Source, Piece}

pub record Bytes : Type 0 where
  pub bytes : List ℕ
  pub at : ℕ

unfoldable pub read : Piece → ℕ → Bytes → Result (List ℕ × Bytes)
read piece n b =
    let end = b.at + n in
    if leb end (length b.bytes)
    then ok (take n (drop b.at b.bytes), record b { at = end })
    else err stream_exhausted

unfoldable pub finish : Bytes → Result (Unit {0})
finish b = require (b.at == length b.bytes) stream_not_consumed

abbrev pub bytes_source : Source Bytes
bytes_source = record { read = read; finish = finish }

-- `leanvm_read` and `leanvm_end`, over the state `C` of the C side: what a call writes, the state
-- it leaves, and the value it returns
pub record Device (C : Type 0) : Type 0 where
  pub leanvm_read : ℕ → C → List ℕ × C × ℕ
  pub leanvm_end : C → ℕ

module _ {C : Type 0} (device : Device C) where
  unfoldable pub stream_read : Piece → ℕ → C → Result (List ℕ × C)
  stream_read piece n c =
      let (out, c', status) = device.leanvm_read n c in
      if n == 0 then ok ([], c) else if status == 0 then ok (out, c') else err transport

  unfoldable pub stream_finish : C → Result (Unit {0})
  stream_finish c = if device.leanvm_end c == 0 then ok tt else err stream_not_consumed

  abbrev pub stream_source : Source C
  stream_source = record { read = stream_read; finish = stream_finish }

-- the status of `leanvm_verify`
unfoldable pub status : Result (Unit {0}) → ℕ
status (ok _) = 0
status (err error) = code error
