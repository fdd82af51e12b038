-- ===== src/ModeCodec/Writes.antt =====
-- mode_codec.py: a status read that shows the registers a command wrote decodes to the command.
use meltem_ha.Const.Modes.{OperationMode, PresetMode}
use meltem_ha.Const.Profiles.{profile_max_airflow}
use meltem_ha.Device.{ModeBlock, ModeField, ModeRead, RegisterWrites}
use meltem_ha.ModeCodec.{
  apply_mode_read, decode_operation_mode, decode_preset_mode, decode_target_level,
  derive_balanced_airflow, mode_status_reports_intensive, operating_mode_writes, preset_mode_writes,
}
use meltem_ha.ModeCodec.Scaling.{
  scale_airflow_to_raw-le, scale_raw_level_to_airflow-scale_airflow_to_raw,
  scale_raw_level_to_airflow-zero,
}
use meltem_ha.Models.Config.{RoomConfig}
use meltem_ha.Models.Room.{RoomState}
use meltem_ha.Prelude.{
  Option, [], arith, false, inl, inr, modbus_error, none, ok, raise, refl, some, ℕ, ◌↔◌, ◌∷◌, ◌≡◌,
  ◌≢◌, ◌≤◌, ◌⊎◌,
}

-- The mode block after a list of register writes, in their order.
unfoldable pub apply_writes : RegisterWrites → ModeBlock → ModeBlock
apply_writes [] b = b
apply_writes ((ModeField.mode, v) ∷ w) b = apply_writes w (record b { mode = v })
apply_writes ((ModeField.current_level, v) ∷ w) b = apply_writes w (record b { current_level = v })
apply_writes ((ModeField.extract_target_level, v) ∷ w) b =
    apply_writes w (record b { extract_target_level = v })
apply_writes ((ModeField.preset_mode, v) ∷ w) b = apply_writes w (record b { preset_mode = v })
apply_writes ((ModeField.preset_value, v) ∷ w) b = apply_writes w (record b { preset_value = v })

-- The status read of a unit whose status registers show the set registers.
abbrev pub shown : ModeBlock → Option ModeRead
shown b = some (record {
  mode = b.mode;
  current_level = b.current_level;
  extract_target_level = b.extract_target_level;
})

-- The levels that a command asks for, as a status read reports them.
abbrev pub requested_target : OperationMode → ℕ → Option ℕ → Option ℕ
requested_target OperationMode.off level measured = some 0
requested_target OperationMode.manual level measured = some level
requested_target OperationMode.unbalanced level measured = some level
requested_target _ level measured = measured

abbrev pub requested_extract : OperationMode → ℕ → Option ℕ
requested_extract OperationMode.unbalanced level = some level
requested_extract _ level = none

-- The state after a status read that shows what the writes left.
abbrev pub read_back : RoomConfig → RoomState → ModeBlock → RegisterWrites → RoomState
read_back room state b w = apply_mode_read room state (shown (apply_writes w b))

-- A status read that shows the written registers decodes to the commanded mode and levels, for
-- levels that the unit can run, whatever the registers and the state were before; in a sensor
-- mode the target is the measured airflow, if the two directions match.
pub apply_mode_read-operating_mode_writes :
    (room : RoomConfig) (state : RoomState) (b : ModeBlock) (mode : OperationMode)
    (balanced extract : ℕ) (w : RegisterWrites)
    → balanced ≤ profile_max_airflow room.profile
    → extract ≤ profile_max_airflow room.profile
    → operating_mode_writes room mode balanced extract ≡ ok w
    → ((read_back room state b w).operation_mode ≡ some mode)
      × ((read_back room state b w).target_level
          ≡ requested_target mode balanced
              (derive_balanced_airflow state.extract_air_flow state.supply_air_flow))
      × ((read_back room state b w).extract_target_level ≡ requested_extract mode extract)
      × ((read_back room state b w).intensive_active ≡ some false)
unfolding apply_mode_read operating_mode_writes apply_writes decode_operation_mode
    mode_status_reports_intensive decode_target_level
apply_mode_read-operating_mode_writes room state b OperationMode.unbalanced balanced extract w p q
      h =
    ground (
      arith,
      scale_raw_level_to_airflow-scale_airflow_to_raw room balanced,
      scale_raw_level_to_airflow-scale_airflow_to_raw room extract,
      scale_airflow_to_raw-le room balanced,
      scale_airflow_to_raw-le room extract,
    )
apply_mode_read-operating_mode_writes room state b OperationMode.off balanced extract w p q h =
    ground (arith, scale_raw_level_to_airflow-zero room)
apply_mode_read-operating_mode_writes room state b mode balanced extract w p q h = ground (
  arith,
  scale_raw_level_to_airflow-scale_airflow_to_raw room balanced,
  scale_airflow_to_raw-le room balanced,
)

-- The commands that are refused are exactly those of a mode that the unit does not have.
pub operating_mode_writes-raises :
    (room : RoomConfig) (mode : OperationMode) (balanced extract : ℕ)
    → (operating_mode_writes room mode balanced extract ≡ raise modbus_error)
      ↔ (mode ≡ OperationMode.inactive)
unfolding operating_mode_writes
operating_mode_writes-raises room OperationMode.off balanced extract = ground arith
operating_mode_writes-raises room mode balanced extract = ground arith

-- The quick modes that a command can select.
abbrev pub IsQuick : PresetMode → Type 0
IsQuick p = (p ≡ PresetMode.low) ⊎ (p ≡ PresetMode.medium) ⊎ (p ≡ PresetMode.high)

-- A quick-mode command ends a running intensive override, and a status read that shows the
-- written registers reports the quick mode, manual operation and no intensive; the command of
-- any other preset but intensive is refused.
pub apply_mode_read-preset_mode_writes :
    (room : RoomConfig) (state : RoomState) (b : ModeBlock) (preset : PresetMode)
    → preset ≢ PresetMode.intensive
    → ((w : RegisterWrites) × (preset_mode_writes preset ≡ ok w)
        × (((read_back room state b w).preset_mode ≡ some preset)
            × ((read_back room state b w).operation_mode ≡ some OperationMode.manual)
            × ((read_back room state b w).intensive_active ≡ some false)
            × ((apply_writes w b).preset_mode ≡ 0)
            × ((apply_writes w b).preset_value ≡ 0)))
      ⊎ ((preset_mode_writes preset ≡ raise modbus_error) × ¬ IsQuick preset)
unfolding apply_mode_read preset_mode_writes apply_writes decode_operation_mode decode_preset_mode
    mode_status_reports_intensive
apply_mode_read-preset_mode_writes room state b PresetMode.low h = inl (_, refl, ground arith)
apply_mode_read-preset_mode_writes room state b PresetMode.medium h = inl (_, refl, ground arith)
apply_mode_read-preset_mode_writes room state b PresetMode.high h = inl (_, refl, ground arith)
apply_mode_read-preset_mode_writes room state b PresetMode.intensive h = absurd (h refl)
apply_mode_read-preset_mode_writes room state b _ h = inr (ground arith, ground arith)
