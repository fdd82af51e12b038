-- ===== src/Const/Modes.antt =====
-- const.py: operating and preset modes with their raw register codes, and the directions and
-- sources of an airflow level. A mode that the source spells as a text is a constructor here.
use meltem_ha.Prelude.{Bool, Option, false, if◌then◌else◌, none, some, true, ℕ, ◌==◌, ◌||◌}

pub data OperationMode : Type 0 where
  inactive off manual unbalanced humidity_control co2_control automatic : OperationMode

pub data PresetMode : Type 0 where
  inactive low medium high intensive extract_only supply_only : PresetMode

pub data Direction : Type 0 where
  supply extract : Direction

pub data LevelSource : Type 0 where
  pending target measured : LevelSource

pub data LevelWriteFallback : Type 0 where
  both_directions_balanced_manual unknown_mode_overridden : LevelWriteFallback

unfoldable pub OperationMode-discrete : Discrete OperationMode
OperationMode-discrete = hlevel

unfoldable pub PresetMode-discrete : Discrete PresetMode
PresetMode-discrete = hlevel

abbrev pub mode_off : ℕ
mode_off = 1

abbrev pub mode_sensor_control : ℕ
mode_sensor_control = 2

abbrev pub mode_manual : ℕ
mode_manual = 3

abbrev pub mode_unbalanced : ℕ
mode_unbalanced = 4

abbrev pub mode_humidity_control_value : ℕ
mode_humidity_control_value = 112

abbrev pub mode_co2_control_value : ℕ
mode_co2_control_value = 144

abbrev pub mode_automatic_value : ℕ
mode_automatic_value = 16

abbrev pub app_unbalanced_preset_base : ℕ
app_unbalanced_preset_base = 200

abbrev pub preset_mode_code_intensive : ℕ
preset_mode_code_intensive = 227

-- PRESET_MODE_TO_RAW_CODE.get
unfoldable pub preset_mode_to_raw_code : PresetMode → Option ℕ
preset_mode_to_raw_code PresetMode.low = some 228
preset_mode_to_raw_code PresetMode.medium = some 229
preset_mode_to_raw_code PresetMode.high = some 230
preset_mode_to_raw_code PresetMode.intensive = some preset_mode_code_intensive
preset_mode_to_raw_code PresetMode.inactive = none
preset_mode_to_raw_code PresetMode.extract_only = none
preset_mode_to_raw_code PresetMode.supply_only = none

-- RAW_CODE_TO_PRESET_MODE.get
unfoldable pub raw_code_to_preset_mode : ℕ → Option PresetMode
raw_code_to_preset_mode code =
    if code == 228
    then some PresetMode.low
    else if code == 229
    then some PresetMode.medium
    else if code == 230
    then some PresetMode.high
    else if code == preset_mode_code_intensive
    then some PresetMode.intensive
    else none

-- SENSOR_MODE_TO_RAW_VALUE.get
unfoldable pub sensor_mode_to_raw_value : OperationMode → Option ℕ
sensor_mode_to_raw_value OperationMode.humidity_control = some mode_humidity_control_value
sensor_mode_to_raw_value OperationMode.co2_control = some mode_co2_control_value
sensor_mode_to_raw_value OperationMode.automatic = some mode_automatic_value
sensor_mode_to_raw_value OperationMode.inactive = none
sensor_mode_to_raw_value OperationMode.off = none
sensor_mode_to_raw_value OperationMode.manual = none
sensor_mode_to_raw_value OperationMode.unbalanced = none

-- RAW_VALUE_TO_SENSOR_MODE.get
unfoldable pub raw_value_to_sensor_mode : ℕ → Option OperationMode
raw_value_to_sensor_mode value =
    if value == mode_humidity_control_value
    then some OperationMode.humidity_control
    else if value == mode_co2_control_value
    then some OperationMode.co2_control
    else if value == mode_automatic_value
    then some OperationMode.automatic
    else none

-- MODE_STATUS_SENSOR_MODE_TO_RAW_VALUE.get(value, value)
unfoldable pub mode_status_sensor_mode_to_raw_value : ℕ → ℕ
mode_status_sensor_mode_to_raw_value value =
    if value == 48 || value == 80
    then mode_automatic_value
    else if value == mode_humidity_control_value
    then mode_humidity_control_value
    else if value == mode_co2_control_value || (value == 176 || value == 208)
    then mode_co2_control_value
    else value

-- `mode in SENSOR_OPERATION_MODES`, for a mode that may be `None`
unfoldable pub is_sensor_mode : Option OperationMode → Bool
is_sensor_mode (some OperationMode.humidity_control) = true
is_sensor_mode (some OperationMode.co2_control) = true
is_sensor_mode (some OperationMode.automatic) = true
is_sensor_mode _ = false
