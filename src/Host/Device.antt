-- ===== src/Host/Device.antt =====
-- `device_stream` and `tamper_check` (leanvm-pow/pow/src/ledger.rs), which record a proof for the device
-- and try changed streams; `leanvm_verify` (ffi/src/lib.rs), which the device calls.
use hardware_wallet_benchmar.Prelude.{ℕ, List}
use hardware_wallet_benchmar.Error.{Result, ok, err, ◌>>=◌, ◌>>◌}
use hardware_wallet_benchmar.Verify.{verify}
use hardware_wallet_benchmar.Host.Bytes.{Bytes, bytes_source, status, Device, stream_source}
use hardware_wallet_benchmar.Host.Recorder
use hardware_wallet_benchmar.Host.Recorder.{Proof, Recorder, recorder_source}
use hardware_wallet_benchmar.Whir.Config.{Limits}
use hardware_wallet_benchmar.Bytecode.{Program}
use hardware_wallet_benchmar.Hash.Digest.{Digest}

-- whether a source's proof was accepted, without the source
unfoldable pub verdict : {S : Type 0} → Result S → Result (Unit {0})
verdict (ok _) = ok tt
verdict (err error) = err error

unfoldable pub leanvm_verify : {C : Type 0} → Device C → Limits → Program → Digest → C → ℕ
unfolding verdict
leanvm_verify device limits program public_input c =
    status (verdict (verify (stream_source device) limits program public_input c))

-- a recorded stream, from its first byte
abbrev pub from_start : List ℕ → Bytes
from_start bytes = record { bytes = bytes; at = 0 }

-- the byte stream that the device reads
unfoldable pub device_stream : Limits → Program → Proof → Digest → Result (List ℕ)
device_stream limits program proof statement = do
  recorder ← verify recorder_source limits program statement (Recorder.new proof)
  verify bytes_source limits program statement (from_start recorder.bytes) >>= λ _. ok tt
  ok recorder.bytes
