-- ===== src/ModbusHelpers.antt =====
-- modbus_helpers.py: control settings, plausibility, and the entities of a profile.
pub mod Settings
pub mod Discovery
pub mod Probe
use mathlib.Core.List.{flat_map}
use meltem_ha.Const.Groups.{control_setting_limits, control_setting_names}
use meltem_ha.Const.Profiles.{ProfileMetadata, profile_metadata}
use meltem_ha.Prelude.{
  Bool, List, Option, Result, String, [], contains, false, if◌then◌else◌, leb, max, min,
  modbus_error, none, not, ok, raise, some, str_eq, ℕ, ◌&&◌, ◌*◌, ◌++◌, ◌+◌, ◌-◌, ◌/◌, ◌||◌, ◌∷◌,
}

-- PLAUSIBLE_RANGES
unfoldable pub plausible_range : String → Option (ℕ × ℕ)
plausible_range key =
    if str_eq key "humidity_extract_air" || str_eq key "humidity_supply_air"
    then some (0, 100)
    else if str_eq key "co2_extract_air" || str_eq key "co2_supply_air"
    then some (250, 10000)
    else if str_eq key "voc_extract_air" || str_eq key "voc_supply_air"
    then some (0, 10000)
    else none

in_range : Option (ℕ × ℕ) → Option ℕ → Bool
in_range none value = false
in_range (some (low, high)) none = false
in_range (some (low, high)) (some value) = leb low value && leb value high

-- The source raises KeyError on a key without a range, which no caller passes.
unfoldable pub is_plausible : String → Option ℕ → Bool
unfolding in_range plausible_range
is_plausible key value = in_range (plausible_range key) value

-- Clamp to the limits and round to the register step.
unfoldable pub rounded_setting : Option (ℕ × ℕ × ℕ) → ℕ → Result ℕ
rounded_setting none value = raise modbus_error
rounded_setting (some (min_val, max_val, step)) value =
    let clamped = max min_val (min max_val value) in
    ok (min_val + (clamped - min_val + step / 2) / step * step)

-- A setting is a value of a number entity, which has no negative ones.
unfoldable pub normalize_control_setting : String → ℕ → Result ℕ
unfolding rounded_setting
normalize_control_setting setting_key value =
    if not (contains setting_key control_setting_names)
    then raise modbus_error
    else rounded_setting (control_setting_limits setting_key) value

-- BASE_SUPPORTED_ENTITY_KEYS
abbrev pub base_supported_entity_keys : List String
base_supported_entity_keys =
    "exhaust_temperature" ∷ "extract_air_flow" ∷ "supply_air_flow" ∷ "days_until_filter_change"
    ∷ "operating_hours" ∷ "fan_motor_hours" ∷ "rf_last_seen_age_seconds" ∷ "rf_signal_strength"
    ∷ "app_setup_code" ∷ "modbus_slave_id" ∷ "error_status" ∷ "frost_protection_active"
    ∷ "filter_change_due" ∷ "intensive" ∷ "rf_comm_status" ∷ "device_fault" ∷ "value_error_status"
    ∷ "operation_mode" ∷ "preset_mode" ∷ "supply_level" ∷ "extract_level" ∷ "airflow_balance"
    ∷ "connectivity" ∷ "last_successful_update" ∷ "external_input_level" ∷ "external_input_on_delay"
    ∷ "external_input_run_on" ∷ []

-- _SUFFIX_ENTITY_KEYS
abbrev pub suffix_entity_keys : List String
suffix_entity_keys = "outdoor_air_temperature" ∷ "extract_air_temperature" ∷ []

-- _CAPABILITY_ENTITY_KEYS.get(capability, frozenset())
unfoldable pub capability_entity_keys : String → List String
capability_entity_keys capability =
    if str_eq capability "humidity"
    then "supply_air_temperature" ∷ "humidity_extract_air" ∷ "humidity_supply_air"
      ∷ "absolute_humidity_extract_air" ∷ "absolute_humidity_supply_air" ∷ "humidity_starting_point"
      ∷ "humidity_min_level" ∷ "humidity_max_level" ∷ []
    else if str_eq capability "co2"
    then "co2_extract_air" ∷ "co2_starting_point" ∷ "co2_min_level" ∷ "co2_max_level" ∷ []
    else if str_eq capability "voc"
    then "co2_supply_air" ∷ "voc_extract_air" ∷ "voc_supply_air" ∷ []
    else []

capabilities_of : Option ProfileMetadata → List String
capabilities_of none = []
capabilities_of (some metadata) = metadata.capabilities

keys_for : List String → List String
keys_for [] = base_supported_entity_keys
keys_for (c ∷ capabilities) =
    base_supported_entity_keys
    ++ (suffix_entity_keys ++ flat_map capability_entity_keys (c ∷ capabilities))

-- The keys of the set, which the source returns sorted; callers make a set of them again.
unfoldable pub supported_entity_keys_for_profile : String → List String
unfolding keys_for capabilities_of
supported_entity_keys_for_profile profile = keys_for (capabilities_of (profile_metadata profile))
