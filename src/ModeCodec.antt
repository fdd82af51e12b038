-- ===== src/ModeCodec.antt =====
-- mode_codec.py: the register writes of a mode or preset command, the airflow scaling of the set
-- registers, and the decoding of the status registers 41100..41102, which are unsigned words.
pub mod Scaling
pub mod Writes
pub mod Reads
use meltem_ha.Const.Modes.{
  OperationMode, PresetMode, app_unbalanced_preset_base, mode_manual, mode_off, mode_sensor_control,
  mode_status_sensor_mode_to_raw_value, mode_unbalanced, preset_mode_code_intensive,
  preset_mode_to_raw_code, raw_code_to_preset_mode, raw_value_to_sensor_mode,
  sensor_mode_to_raw_value,
}
use meltem_ha.Const.Profiles.{profile_max_airflow}
use meltem_ha.Device.{ModeField, ModeRead, RegisterWrites}
use meltem_ha.Models.Config.{RoomConfig}
use meltem_ha.Models.Room.{RoomState}
use meltem_ha.Prelude.{
  Bool, Option, Result, [], dist, false, if◌then◌else◌, is_some, leb, ltb, max, min, modbus_error,
  none, not, ok, or_else, raise, round_div, some, true, ℕ, ◌&&◌, ◌*◌, ◌++◌, ◌+◌, ◌-◌, ◌==◌, ◌||◌,
  ◌∷◌,
}

-- CLEAR_INTENSIVE
abbrev pub clear_intensive : RegisterWrites
clear_intensive = (ModeField.preset_mode, 0) ∷ (ModeField.preset_value, 0) ∷ []

unfoldable pub scale_airflow_to_raw : RoomConfig → ℕ → ℕ
scale_airflow_to_raw room level =
    max 0 (min 200 (round_div (level * 200) (profile_max_airflow room.profile)))

unfoldable pub scale_raw_level_to_airflow : RoomConfig → ℕ → ℕ
scale_raw_level_to_airflow room raw_level =
    round_div (raw_level * profile_max_airflow room.profile) 200

sensor_control_writes : Option ℕ → Result RegisterWrites
sensor_control_writes none = raise modbus_error
sensor_control_writes (some value) =
    ok ((ModeField.mode, mode_sensor_control) ∷ (ModeField.current_level, value) ∷ [])

unfoldable pub operating_mode_writes : RoomConfig → OperationMode → ℕ → ℕ → Result RegisterWrites
unfolding sensor_control_writes sensor_mode_to_raw_value
operating_mode_writes room OperationMode.off balanced_level extract_level =
    ok (clear_intensive ++ (ModeField.mode, mode_off) ∷ (ModeField.current_level, 0) ∷ [])
operating_mode_writes room OperationMode.manual balanced_level extract_level = ok (
    (ModeField.mode, mode_manual)
    ∷ (ModeField.current_level, scale_airflow_to_raw room balanced_level)
    ∷ [])
operating_mode_writes room OperationMode.unbalanced balanced_level extract_level = ok (
    (ModeField.mode, mode_unbalanced)
    ∷ (ModeField.current_level, scale_airflow_to_raw room balanced_level)
    ∷ (ModeField.extract_target_level, scale_airflow_to_raw room extract_level)
    ∷ [])
operating_mode_writes room operation_mode balanced_level extract_level =
    sensor_control_writes (sensor_mode_to_raw_value operation_mode)

preset_writes : PresetMode → Option ℕ → Result RegisterWrites
preset_writes preset_mode none = raise modbus_error
preset_writes PresetMode.intensive (some raw_code) =
    ok ((ModeField.preset_mode, mode_manual) ∷ (ModeField.preset_value, raw_code) ∷ [])
preset_writes preset_mode (some raw_code) =
    ok (clear_intensive ++ (ModeField.mode, mode_manual) ∷ (ModeField.current_level, raw_code) ∷ [])

unfoldable pub preset_mode_writes : PresetMode → Result RegisterWrites
unfolding preset_writes preset_mode_to_raw_code
preset_mode_writes preset_mode = preset_writes preset_mode (preset_mode_to_raw_code preset_mode)

-- modbus_helpers.derive_balanced_airflow
unfoldable pub derive_balanced_airflow : Option ℕ → Option ℕ → Option ℕ
derive_balanced_airflow none supply_air_flow = supply_air_flow
derive_balanced_airflow (some extract_air_flow) none = some extract_air_flow
derive_balanced_airflow (some extract_air_flow) (some supply_air_flow) =
    if leb (dist extract_air_flow supply_air_flow) 1
    then some (round_div (extract_air_flow + supply_air_flow) 2)
    else none

-- A register holds no negative number, so `0 <= raw_level` holds.
unfoldable pub decode_target_level : RoomConfig → Option ℕ → Option ℕ
decode_target_level room none = none
decode_target_level room (some raw_level) =
    if leb raw_level 200
    then some (scale_raw_level_to_airflow room raw_level)
    else if leb ((raw_level - app_unbalanced_preset_base) * 10) (profile_max_airflow room.profile)
    then some ((raw_level - app_unbalanced_preset_base) * 10)
    else none

-- _DIRECT_OPERATION_MODES.get
unfoldable pub direct_operation_mode : ℕ → Option OperationMode
direct_operation_mode mode_value =
    if mode_value == mode_off
    then some OperationMode.off
    else if mode_value == mode_manual
    then some OperationMode.manual
    else if mode_value == mode_unbalanced
    then some OperationMode.unbalanced
    else none

unfoldable pub decode_operation_mode : ℕ → ℕ → Option OperationMode
unfolding direct_operation_mode raw_value_to_sensor_mode
decode_operation_mode mode_value current_value =
    if mode_value == mode_sensor_control
    then raw_value_to_sensor_mode current_value
    else direct_operation_mode mode_value

unfoldable pub decode_preset_mode : Option ModeRead → Option PresetMode → Option PresetMode
unfolding raw_code_to_preset_mode
decode_preset_mode none previous = previous
decode_preset_mode (some block) previous =
    if block.mode == mode_unbalanced
      && (block.current_level == 0 && ltb app_unbalanced_preset_base block.extract_target_level)
    then some PresetMode.extract_only
    else if block.mode == mode_unbalanced
        && (block.extract_target_level == 0 && ltb app_unbalanced_preset_base block.current_level)
    then some PresetMode.supply_only
    else if not (block.mode == mode_manual)
    then none
    else raw_code_to_preset_mode block.current_level

unfoldable pub mode_status_reports_intensive : ModeRead → Bool
mode_status_reports_intensive block =
    block.mode == mode_manual && block.current_level == preset_mode_code_intensive
    || (block.mode == 0 && block.current_level == 0)

-- The read-side sensor subcode of a sensor-control block, replaced by the selector it stands for.
unfoldable pub normalized_block : ModeRead → ModeRead
unfolding mode_status_sensor_mode_to_raw_value
normalized_block block =
    if block.mode == mode_sensor_control
    then record block { current_level = mode_status_sensor_mode_to_raw_value block.current_level }
    else block

-- What a status read without intensive, or no read, decodes to: the raw current level, the raw
-- extract target, and the operation mode.
decoded_state :
    RoomConfig
    → RoomState
    → Option ModeRead
    → Option ℕ
    → Option ℕ
    → Option OperationMode
    → Option ℕ × Option ℕ
decoded_state room state block raw_current raw_extract (some OperationMode.unbalanced) = (
  (if is_some block then decode_target_level room raw_current else state.target_level),
  (if is_some block then decode_target_level room raw_extract else state.extract_target_level),
)
decoded_state room state block raw_current raw_extract (some OperationMode.off) = (
  or_else (decode_target_level room raw_current)
      (derive_balanced_airflow state.extract_air_flow state.supply_air_flow),
  none,
)
decoded_state room state block raw_current raw_extract (some OperationMode.manual) = (
  or_else (decode_target_level room raw_current)
      (derive_balanced_airflow state.extract_air_flow state.supply_air_flow),
  none,
)
decoded_state room state block raw_current raw_extract operation_mode =
    (derive_balanced_airflow state.extract_air_flow state.supply_air_flow, none)

-- The state after a read that does not report intensive: mode, levels, and flag.
apply_decoded :
    RoomState
    → Option ModeRead
    → Option OperationMode
    → Option ℕ × Option ℕ
    → Option Bool
    → Option (ℕ × ℕ × ℕ)
    → RoomState
apply_decoded state block operation_mode levels intensive raw_status = record state {
  operation_mode = operation_mode;
  target_level = levels.0;
  balanced_target_readback = none;
  extract_target_level = levels.1;
  preset_mode = decode_preset_mode block state.preset_mode;
  intensive_active = intensive;
  mode_status_raw = raw_status;
}

-- The raw registers, as they were read.
abbrev raw_status_of : ModeRead → ℕ × ℕ × ℕ
raw_status_of block = (block.mode, block.current_level, block.extract_target_level)

apply_block : RoomConfig → RoomState → ModeRead → ℕ × ℕ × ℕ → RoomState
unfolding apply_decoded decoded_state
apply_block room state block raw_status =
    let operation_mode = decode_operation_mode block.mode block.current_level in
    if mode_status_reports_intensive block
    then record state { intensive_active = some true; mode_status_raw = some raw_status }
    else apply_decoded state (some block) operation_mode
        (decoded_state room state (some block) (some block.current_level)
          (some block.extract_target_level) operation_mode)
        (some false) (some raw_status)

unfoldable pub apply_mode_read : RoomConfig → RoomState → Option ModeRead → RoomState
unfolding apply_block apply_decoded decoded_state normalized_block
apply_mode_read room state none =
    apply_decoded state none state.operation_mode
      (decoded_state room state none none none state.operation_mode) state.intensive_active
      state.mode_status_raw
apply_mode_read room state (some block) =
    apply_block room state (normalized_block block) (raw_status_of block)
