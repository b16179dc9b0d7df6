-- ===== src/Prelude/Bytes.antt =====
-- `u64::from_le_bytes` and `u64::to_le_bytes`, at any count of bytes.
use Prim.Native.Nat.{ℕ, zero, suc, ◌+◌, ◌*◌, ◌/◌, ◌%◌}
use mathlib.Core.List.{List, [], ◌∷◌}
use mathlib.Core.Bool.{Bool, true, false, ◌&&◌}
use hardware_wallet_benchmar.Prelude.Tests.{◌==◌}

-- the number of which `bytes` are the digits, lowest first
unfoldable pub from_le_bytes : List ℕ → ℕ
from_le_bytes [] = 0
from_le_bytes (b ∷ bytes) = b + 256 * from_le_bytes bytes

-- its lowest `count` bytes
unfoldable pub to_le_bytes : ℕ → ℕ → List ℕ
to_le_bytes zero word = []
to_le_bytes (suc count) word = (word % 256) ∷ to_le_bytes count (word / 256)

-- `==` of byte arrays
unfoldable pub bytes_eq : List ℕ → List ℕ → Bool
bytes_eq [] [] = true
bytes_eq (a ∷ xs) (b ∷ ys) = (a == b) && bytes_eq xs ys
bytes_eq (a ∷ xs) [] = false
bytes_eq [] (b ∷ ys) = false
