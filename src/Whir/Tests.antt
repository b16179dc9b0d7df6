-- ===== src/Whir/Tests.antt =====
-- The opening's theorems at concrete sizes.
mod Merkle
use hardware_wallet_benchmar.Prelude.{◌≡◌, arith, true, [], ◌∷◌, ℕ, List, ◌^◌, length}
use hardware_wallet_benchmar.Whir.Config.Capacity.{derive_config-host, derive_config-device, fits}
use hardware_wallet_benchmar.Whir.Config.{Config, derive_config, device_limits, host_limits}
use hardware_wallet_benchmar.Error.{ok}
use hardware_wallet_benchmar.Whir.Positions.{Ascending, contains, insert_positions-Ascending}
use hardware_wallet_benchmar.Whir.Merkle.{insert_positions}
use hardware_wallet_benchmar.Transcript.Monad.{Transcript}
use hardware_wallet_benchmar.Whir.Queries.{sample_queries}
use hardware_wallet_benchmar.Hash.State.{zero_state}
use hardware_wallet_benchmar.Whir.Sampled.{AllBelow, sample_queries-AllBelow}

derive_config-host_example :
    (c : Config) × (derive_config host_limits 24 1 ≡ ok c) × (fits host_limits 24 c ≡ true)
derive_config-host_example =
    derive_config-host 24 1 (omega arith) (omega arith) (omega arith) (omega arith)

derive_config-device_example :
    (c : Config) × (derive_config device_limits 24 2 ≡ ok c) × (fits device_limits 24 c ≡ true)
derive_config-device_example =
    derive_config-device 24 2 (omega arith) (omega arith) (omega arith) (omega arith)

insert_positions-Ascending_example :
    Ascending 0 (insert_positions [] (5 ∷ 3 ∷ 5 ∷ []))
    × ((x : ℕ) → contains x (insert_positions [] (5 ∷ 3 ∷ 5 ∷ [])) ≡ contains x (5 ∷ 3 ∷ 5 ∷ []))
insert_positions-Ascending_example = insert_positions-Ascending (5 ∷ 3 ∷ 5 ∷ [])

abbrev idle : Transcript (Unit {0})
idle = record { source = tt; sponge = record { state = zero_state; pending = [] } }

sample_queries-AllBelow_example :
    (qs : List ℕ) × (u : Transcript (Unit {0})) × (sample_queries (2 ^ 12) 30 idle ≡ ok (qs, u))
    × (length qs ≡ 30)
    × AllBelow (2 ^ 12) qs
sample_queries-AllBelow_example = sample_queries-AllBelow 12 30 idle (omega arith) (omega arith)
