-- ===== src/Tests/Issues.antt =====
-- The repair issues at concrete inputs.
use meltem_ha.Const.Groups.{ReadGroup}
use meltem_ha.MissingSensors.{SensorKey-discrete}
use meltem_ha.MissingSensors.Runs.{placeholder_run}
use meltem_ha.ModbusHelpers.Discovery.{has_address}
use meltem_ha.Models.Config.{ReadJobOutcome, RoomConfig}
use meltem_ha.NewUnits.{unchecked, update_units}
use meltem_ha.NewUnits.Latest.{addresses_shown, addresses_shown-update_units, check_all}
use meltem_ha.Prelude.{List, [], not, refl, true, ◌&&◌, ◌∷◌, ◌≡◌}
use meltem_ha.Prelude.Assoc.{string_discrete}
use meltem_ha.Tests.Samples.{room, small_room}

abbrev no_values : ReadJobOutcome
no_values = record {
  attempted_groups = ReadGroup.air_quality ∷ [];
  recorded_groups = ReadGroup.air_quality ∷ [];
  errors = [];
  answered = true;
  value_groups = [];
  unit_success_groups = [];
  missing_sensor_values = "co2_extract_air" ∷ [];
  sensor_values = "humidity_extract_air" ∷ [];
}

-- A read without a CO₂ value, and one with it
abbrev co2_value : ReadJobOutcome
co2_value = record no_values { missing_sensor_values = []; sensor_values = "co2_extract_air" ∷ [] }

abbrev reads_sample : List (RoomConfig × ReadJobOutcome)
reads_sample =
    (room, no_values)
    ∷ (room, co2_value)
    ∷ (room, no_values)
    ∷ (small_room, co2_value)
    ∷ (room, no_values)
    ∷ (room, no_values)
    ∷ []

three_in_a_row : placeholder_run ("slave_2", "co2_extract_air") reads_sample 0 ≡ 3
unfolding string_discrete SensorKey-discrete
three_in_a_row = refl

new_units_example :
    has_address 5 (
      addresses_shown
        (9 ∷ [])
        (update_units
          (2 ∷ 5 ∷ 3 ∷ [])
          (2 ∷ 3 ∷ [])
          (check_all ((5 ∷ [], []) ∷ []) unchecked)).calls)
    ≡ (has_address 5 (2 ∷ 5 ∷ 3 ∷ []) && not (has_address 5 (2 ∷ 3 ∷ [])))
new_units_example =
    addresses_shown-update_units (9 ∷ []) ((5 ∷ [], []) ∷ []) (2 ∷ 5 ∷ 3 ∷ []) (2 ∷ 3 ∷ []) 5
