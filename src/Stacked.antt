-- ===== src/Stacked.antt =====
-- leanvm-pow/ledger/verifier/src/lib.rs: `each_claim` and `Stacked`, the claims on committed columns and
-- their weight at the terminal point.
use hardware_wallet_benchmar.Prelude.{
  ℕ, List, [], ◌∷◌, ◌++◌, Bool, true, false, if◌then◌else◌, set, ◌+◌, drop, take, get_or, replicate,
}
use hardware_wallet_benchmar.Field.E.{E, zero_e, one_e, ◌⊞◌, ◌⊠◌}
use hardware_wallet_benchmar.Hash.Digest.{Digest}
use hardware_wallet_benchmar.Transcript.Multilinear.{at, eq_eval}
use hardware_wallet_benchmar.Tables.Columns.{
  n_tables, memory_0, memory_final_counters, bytecode_final_counters, qkeccak, table_widths,
  global_column_bases, nat_at, numbers,
}
use hardware_wallet_benchmar.RingSwitch.{RingWeight, weight_at}
use hardware_wallet_benchmar.Bus.Slot.{no_slot, Slot, is_some, slot_eq_above}

-- the point that a claim is made at
pub data At : Type 0 where
  memory bytecode public keccak_output : At
  table : ℕ → At

-- the columns of table `t`, from `base` on
unfoldable pub table_claims : ℕ → List ℕ → List ℕ → List (ℕ × At)
table_claims t (base ∷ bases) (width ∷ widths) =
    claims (numbers base width) ++ table_claims (t + 1) bases widths
  where
    claims : List ℕ → List (ℕ × At)
    claims [] = []
    claims (column ∷ columns) = (column, table t) ∷ claims columns
table_claims t [] widths = []
table_claims t (base ∷ bases) [] = []

-- the calls of `visit`, in order
unfoldable pub each_claim : List (ℕ × At)
each_claim =
    (memory_0, memory)
    ∷ (memory_0 + 1, memory)
    ∷ (memory_0 + 2, memory)
    ∷ (memory_final_counters, memory)
    ∷ (bytecode_final_counters, bytecode)
    ∷ (table_claims 0 global_column_bases table_widths
        ++ ((memory_0, public)
            ∷ (memory_0 + 1, public)
            ∷ (memory_0 + 2, public)
            ∷ (qkeccak, keccak_output)
            ∷ []))

pub record Stacked : Type 0 where
  pub root : Digest
  pub log_inverse_rate : ℕ
  pub stack_log : ℕ
  pub placed : ℕ
  pub slots : List Slot
  pub target : E
  pub scale : E
  pub bus_point : List E
  pub log_memory : ℕ
  pub log_bytecode : ℕ
  pub table_point : List E
  pub heights : List ℕ
  pub public_challenge : E
  pub keccak_output : List E
  pub ring_weight : RingWeight

-- the loop of the public point: its coordinates but the first are zero
unfoldable pub public_product : E → List E → E
public_product product [] = product
public_product product (value ∷ x) = public_product (product ⊠ (one_e ⊞ value)) x

unfoldable pub eq_at : Stacked → At → List E → E
eq_at s memory x = eq_eval (take s.log_memory s.bus_point) x
eq_at s bytecode x = eq_eval (take s.log_bytecode s.bus_point) x
eq_at s (table t) x = eq_eval (take (nat_at s.heights t) s.table_point) x
eq_at s public x = public_product (one_e ⊞ s.public_challenge ⊞ at x 0) (drop 1 x)
eq_at s keccak_output x = eq_eval s.keccak_output x

-- where the eq product of a point is kept
unfoldable pub cache_index : At → ℕ
cache_index memory = 0
cache_index bytecode = 1
cache_index public = 2
cache_index keccak_output = 3
cache_index (table t) = 4 + t

-- the running sum and power of `basis`, with the eq products known so far
pub record Basis : Type 0 where
  pub total : E
  pub power : E
  pub point_eq : List E
  pub known : List Bool

-- the closure that `basis` gives to `each_claim`
unfoldable pub visit : Stacked → List E → ℕ → At → Basis → Basis
unfolding is_some cache_index slot_eq_above
visit s x column where_at b =
    let slot = get_or s.slots column no_slot in
    let i = cache_index where_at in
    let computed = record b {
      point_eq = set b.point_eq i (eq_at s where_at (take slot.variables x));
      known = set b.known i true;
    } in
    let b' = if get_or b.known i false then b else computed in
    let added = record b' {
      total = b'.total ⊞ b'.power ⊠ at b'.point_eq i ⊠ slot_eq_above slot x;
      power = b'.power ⊠ s.scale;
    } in
    if is_some slot then added else b

unfoldable pub visit_all : Stacked → List E → List (ℕ × At) → Basis → Basis
visit_all s x [] b = b
visit_all s x ((column, where_at) ∷ claims) b = visit_all s x claims (visit s x column where_at b)

unfoldable pub basis : Stacked → List E → E
basis s x =
    let slot = get_or s.slots qkeccak no_slot in
    (visit_all s x each_claim (record {
      total = slot_eq_above slot x ⊠ weight_at s.ring_weight (take slot.variables x);
      power = s.scale;
      point_eq = replicate (n_tables + 4) zero_e;
      known = replicate (n_tables + 4) false;
    })).total
