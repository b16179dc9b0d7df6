-- ===== src/Bus/Slot.antt =====
-- leanvm-pow/ledger/verifier/src/bus.rs: `Slot`, where a column or a block lies in its stack.
use hardware_wallet_benchmar.Prelude.{ℕ, List, Bool, not, ◌==◌, drop, ◌>>>◌}
use hardware_wallet_benchmar.Field.E.{E}
use hardware_wallet_benchmar.Transcript.Multilinear.{eq_bits}

-- `variables` is 255 where nothing is committed
pub record Slot : Type 0 where
  pub variables : ℕ
  pub index : ℕ

abbrev pub no_slot : Slot
no_slot = record { variables = 255; index = 0 }

unfoldable pub is_some : Slot → Bool
is_some slot = not (slot.variables == 255)

unfoldable pub slot_eq_above : Slot → List E → E
slot_eq_above slot point = eq_bits (slot.index >>> slot.variables) (drop slot.variables point)
