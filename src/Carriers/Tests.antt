-- ===== src/Carriers/Tests.antt =====
-- Single carriers and cells of a 2K symbol, and the theorems there.
use dvbt_rx.Base.{ℕ, ◌<◌, ◌≡◌, ◌%◌, ◌||◌, refl, arith, some}
use dvbt_rx.Carriers.{
  Role, carrier_role, is_tps_carrier, is_scattered_pilot, is_continual_pilot, list_contains,
  data_carrier, pilot_sign, symbol_interleaver, symbol_deinterleaver,
}
use dvbt_rx.Carriers.Roles.{data_carriers_listed}
use dvbt_rx.Carriers.Pilots.{
  ℤ, logical, is_scattered_pilot_logical, is_continual_pilot_logical, ref_sign,
}
use dvbt_rx.Carriers.Pilots.Agree.{is_pilot, pilots_agree}
use dvbt_rx.Carriers.Permutation.{interleavers_undo}

roles :
    (carrier_role 0 0 ≡ Role.scattered_pilot)
    × (carrier_role 1 0 ≡ Role.continual_pilot)
    × (carrier_role 1 3 ≡ Role.scattered_pilot)
    × (carrier_role 0 34 ≡ Role.tps)
    × (carrier_role 5 1705 ≡ Role.unused)
unfolding carrier_role is_tps_carrier is_scattered_pilot is_continual_pilot list_contains
roles = (refl, refl, refl, refl, refl)

second_is_data : carrier_role 6 2 ≡ Role.carrier_data
unfolding carrier_role is_tps_carrier is_scattered_pilot is_continual_pilot list_contains
second_is_data = refl

interleavers_undo_example :
    ((j : ℕ) × (symbol_interleaver 700 ≡ some j) × (j < 1512) × (symbol_deinterleaver j ≡ some 700))
    × ((j : ℕ) × (symbol_deinterleaver 700 ≡ some j)
        × (j < 1512)
        × (symbol_interleaver j ≡ some 700))
interleavers_undo_example = interleavers_undo 700 (omega arith)

data_carriers_listed_example :
    ((k : ℕ) × (l : ℕ) × (data_carrier 6 0 ≡ some k)
      × (data_carrier 6 1511 ≡ some l)
      × (k < l)
      × (l < 1705)
      × (carrier_role 6 k ≡ Role.carrier_data)
      × (carrier_role 6 l ≡ Role.carrier_data))
    × ((i : ℕ) × (i < 1512) × (data_carrier 6 i ≡ some 2))
data_carriers_listed_example =
    data_carriers_listed 6 0 1511 2 (omega arith) (omega arith) second_is_data

-- The pilot at the edge of a symbol.
pilots_agree_example :
    ((is_scattered_pilot_logical (logical 1704) (8 % 4)
        || is_continual_pilot_logical (logical 1704))
      ≡ is_pilot (carrier_role 8 1704))
    × (some (ref_sign (logical 1704) (ℤ.pos 0)) ≡ pilot_sign 1704)
pilots_agree_example = pilots_agree 8 1704 (omega arith)
