-- ===== src/Tests/Modes.antt =====
-- The mode codec at concrete inputs.
use meltem_ha.Const.Modes.{OperationMode, PresetMode}
use meltem_ha.Const.Profiles.{profile_max_airflow, profile_metadata}
use meltem_ha.Device.{ModeField, ModeRead, RegisterWrites}
use meltem_ha.ModeCodec.{
  apply_mode_read, mode_status_reports_intensive, operating_mode_writes, preset_mode_writes,
  scale_airflow_to_raw, scale_raw_level_to_airflow,
}
use meltem_ha.ModeCodec.Reads.{apply_reads, apply_reads_intensive, without_override}
use meltem_ha.ModeCodec.Scaling.{scale_raw_level_to_airflow-scale_airflow_to_raw}
use meltem_ha.ModeCodec.Writes.{
  IsQuick, apply_mode_read-operating_mode_writes, apply_mode_read-preset_mode_writes, apply_writes,
  read_back,
}
use meltem_ha.Prelude.{
  [], arith, false, modbus_error, ok, raise, refl, round_div, some, ◌∷◌, ◌≡◌, ◌≢◌, ◌⊎◌,
}
use meltem_ha.Tests.Samples.{idle_block, manual_state, room, small_room}

scaled : scale_airflow_to_raw small_room 50 ≡ 103
unfolding scale_airflow_to_raw round_div profile_max_airflow profile_metadata
scaled = refl

-- A tie goes to the even number.
tie_to_even : scale_raw_level_to_airflow small_room 100 ≡ 48
unfolding scale_raw_level_to_airflow round_div profile_max_airflow profile_metadata
tie_to_even = refl

scale_example : scale_raw_level_to_airflow small_room (scale_airflow_to_raw small_room 50) ≡ 50
unfolding profile_max_airflow profile_metadata
scale_example = scale_raw_level_to_airflow-scale_airflow_to_raw small_room 50 (omega arith)

abbrev unbalanced_writes : RegisterWrites
unbalanced_writes =
    (ModeField.mode, 4) ∷ (ModeField.current_level, 82) ∷ (ModeField.extract_target_level, 124) ∷ []

mode_example :
    ((read_back small_room manual_state idle_block unbalanced_writes).operation_mode
      ≡ some OperationMode.unbalanced)
    × ((read_back small_room manual_state idle_block unbalanced_writes).target_level ≡ some 40)
    × ((read_back small_room manual_state idle_block unbalanced_writes).extract_target_level
        ≡ some 60)
    × ((read_back small_room manual_state idle_block unbalanced_writes).intensive_active
        ≡ some false)
unfolding profile_max_airflow profile_metadata operating_mode_writes scale_airflow_to_raw round_div
mode_example =
    apply_mode_read-operating_mode_writes small_room manual_state idle_block
      OperationMode.unbalanced 40 60 unbalanced_writes (omega arith) (omega arith) refl

high_differs : PresetMode.high ≢ PresetMode.intensive
high_differs e = ground arith

preset_example :
    ((w : RegisterWrites) × (preset_mode_writes PresetMode.high ≡ ok w)
      × (((read_back room manual_state idle_block w).preset_mode ≡ some PresetMode.high)
          × ((read_back room manual_state idle_block w).operation_mode ≡ some OperationMode.manual)
          × ((read_back room manual_state idle_block w).intensive_active ≡ some false)
          × ((apply_writes w idle_block).preset_mode ≡ 0)
          × ((apply_writes w idle_block).preset_value ≡ 0)))
    ⊎ ((preset_mode_writes PresetMode.high ≡ raise modbus_error) × ¬ IsQuick PresetMode.high)
preset_example =
    apply_mode_read-preset_mode_writes room manual_state idle_block PresetMode.high high_differs

abbrev intensive_read : ModeRead
intensive_read = record { mode = 3; current_level = 227; extract_target_level = 0 }

abbrev manual_read : ModeRead
manual_read = record { mode = 3; current_level = 100; extract_target_level = 0 }

override_example :
    (without_override (apply_reads room manual_state (intensive_read ∷ intensive_read ∷ []))
      ≡ without_override manual_state)
    × (apply_mode_read room
          (apply_reads room manual_state (intensive_read ∷ intensive_read ∷ []))
          (some manual_read)
        ≡ apply_mode_read room manual_state (some manual_read))
unfolding mode_status_reports_intensive
override_example =
    apply_reads_intensive room manual_state (intensive_read ∷ intensive_read ∷ []) manual_read
      (refl, (refl, tt))
