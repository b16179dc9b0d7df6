-- ===== src/Pow.antt =====
-- leanvm-pow/pow/src/main.rs: the search for the proof of work, the public input, and the prover's advice.
-- Keccak-256 (the `sha3` crate) and `g_pow` (leanVM) are parameters.
pub mod Leading
pub mod Correct
mod Tests
use hardware_wallet_benchmar.Prelude.{
  ℕ, zero, suc, List, [], ◌∷◌, ◌++◌, ◌+◌, ◌-◌, ◌*◌, ◌/◌, ◌%◌, ◌^◌, Bool, true, false, if◌then◌else◌,
  Option, some, none, ◌==◌, ltb, ◌&&◌, ◌||◌, bit_and, bit_or, ◌>>>◌, ◌<<<◌, take, drop, replicate,
  reverse, from_le_bytes, to_le_bytes,
}
use hardware_wallet_benchmar.Field.E.{E, new, zero_e, one_e}

-- digests per fast block
abbrev pub block : ℕ
block = 16

-- where the guest's lookup table starts
abbrev pub table_base : ℕ
table_base = 2

abbrev pub lane_of : List ℕ → ℕ → ℕ
lane_of d k = from_le_bytes (take 8 (drop (8 * k) d))

-- the bits of lane 0 that are bits `k`, `k + 1`, ... of the digest, `n` of them, added to `m`
unfoldable pub mask_from : ℕ → ℕ → ℕ → ℕ
mask_from k zero m = m
mask_from k (suc n) m = mask_from (k + 1) n (bit_or m (1 <<< (8 * (k / 8) + 7 - k % 8)))

unfoldable pub mask : ℕ → ℕ
unfolding mask_from
mask difficulty = mask_from 0 difficulty 0

-- `find` on the `n` numbers from `j` on
unfoldable pub find_from : (ℕ → Bool) → ℕ → ℕ → Option ℕ
find_from hit zero j = none
find_from hit (suc n) j = let rest = find_from hit n (j + 1) in if hit j then some j else rest

unfoldable pub any_from : (ℕ → Bool) → ℕ → ℕ → Bool
any_from hit zero j = false
any_from hit (suc n) j = hit j || any_from hit n (j + 1)

unfoldable pub public_input : ℕ → List E
public_input i = new (bit_and i 0xffff) 0 0 ∷ new (i >>> 16) 0 0 ∷ []

module _ (keccak256 : List ℕ → List ℕ) where
  unfoldable pub digest : ℕ → List ℕ
  digest j = keccak256 (replicate 24 0 ++ reverse (to_le_bytes 8 j))

  -- does the digest start with `difficulty` zero bits?
  unfoldable pub is_hit : ℕ → ℕ → Bool
  is_hit difficulty j = bit_and (lane_of (digest j) 0) (mask difficulty) == 0

  -- `none` where the program panics: no hit below 2^24
  unfoldable pub find_smallest : ℕ → Option ℕ
  unfolding find_from
  find_smallest difficulty = find_from (is_hit difficulty) (2 ^ 24) 0

  module _ (g_pow : ℕ → E) where
    -- the address of chunk `c` of lane 0, in the guest's table
    abbrev pub chunk_address : ℕ → ℕ → E
    chunk_address l0 c = g_pow (table_base + bit_and (l0 >>> (16 * c)) 0xffff)

    unfoldable pub advice_entry : ℕ → List E
    advice_entry j =
        let d = digest j in
        let l0 = lane_of d 0 in
        chunk_address l0 0
        ∷ chunk_address l0 1
        ∷ chunk_address l0 2
        ∷ chunk_address l0 3
        ∷ new (lane_of d 1) 0 0
        ∷ []

    -- does the block from `j` on take the slow path?
    unfoldable pub slow_entry : ℕ → List E
    unfolding any_from
    slow_entry j =
        (if any_from (λ k. bit_and (lane_of (digest k) 0) 0xffff == 0) block j
          then one_e
          else zero_e)
        ∷ []

    -- the loop over the `n` digests from `j` on
    unfoldable pub advice_loop : ℕ → ℕ → ℕ → List (List E) × List (List E)
    advice_loop full_blocks zero j = ([], [])
    advice_loop full_blocks (suc n) j =
        let (w, slow) = advice_loop full_blocks n (j + 1) in
        (
          advice_entry j ∷ w,
          if (j % block == 0) && ltb (j / block) full_blocks then slow_entry j ∷ slow else slow,
        )

    unfoldable pub advice : ℕ → List (List E) × List (List E)
    unfolding advice_loop
    advice i = advice_loop (i / block) (i + 1) 0
