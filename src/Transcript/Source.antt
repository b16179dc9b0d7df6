-- ===== src/Transcript/Source.antt =====
-- `enum Piece` and `trait Source`: where the proof comes from. On the device it is USB, which the
-- program does not contain, so a source is a parameter.
use hardware_wallet_benchmar.Prelude.{ℕ, List}
use hardware_wallet_benchmar.Error.{Result}

-- what the verifier asks the proof for next
pub data Piece : Type 0 where
  scalar batch row sibling : Piece

-- `read` is asked for the next `n` bytes; it returns them, with the source's new state.
pub record Source (S : Type 0) : Type 0 where
  pub read : Piece → ℕ → S → Result (List ℕ × S)
  pub finish : S → Result (Unit {0})
