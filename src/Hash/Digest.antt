-- ===== src/Hash/Digest.antt =====
-- `struct Digest`: 32 bytes, as four words, and as two field elements.
pub mod Bytes
pub mod RoundTrip
use hardware_wallet_benchmar.Prelude.{
  ℕ, List, [], ◌∷◌, from_le_bytes, ◌==◌, take, ◌&&◌, drop, to_le_bytes, ◌*◌, ◌++◌,
}
use hardware_wallet_benchmar.Error.{Error, digest_half, Result, ok, err, require, ◌>>=◌, ◌>>◌}
use hardware_wallet_benchmar.Field.E.{E, new}

pub record Digest : Type 0 where
  pub bytes : List ℕ

-- bytes `8 i` to `8 i + 8` as a word
abbrev pub word_at : List ℕ → ℕ → ℕ
word_at bytes i = from_le_bytes (take 8 (drop (8 * i) bytes))

unfoldable pub words : Digest → List ℕ
words d = word_at d.bytes 0 ∷ word_at d.bytes 1 ∷ word_at d.bytes 2 ∷ word_at d.bytes 3 ∷ []

unfoldable pub halves : Digest → E × E
halves d =
    (new (word_at d.bytes 0) (word_at d.bytes 1) 0, new (word_at d.bytes 2) (word_at d.bytes 3) 0)

unfoldable pub from_halves : E → E → Result Digest
from_halves low high = do
  require ((low.c2 == 0) && (high.c2 == 0)) digest_half
  ok (record {
    bytes =
        to_le_bytes 8 low.c0
        ++ (to_le_bytes 8 low.c1 ++ (to_le_bytes 8 high.c0 ++ to_le_bytes 8 high.c1));
  })
