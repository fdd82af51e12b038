-- ===== src/Const/Groups.antt =====
-- const.py: the control settings with their limits, and the entities of each read group. A read
-- group or a control setting that the source spells as a text is a constructor here.
use meltem_ha.Prelude.{
  Bool, List, Option, String, [], false, if◌then◌else◌, none, some, str_eq, true, ℕ, ◌∷◌,
}

pub data ReadGroup : Type 0 where
  flow flow_control intensive status temperature air_quality filter hours fan_hours : ReadGroup
  rf_last_seen rf_signal device_fault value_error control_settings : ReadGroup

unfoldable pub ReadGroup-discrete : Discrete ReadGroup
ReadGroup-discrete = hlevel

-- The place of a group's name in the order of texts, which `sorted` goes by.
unfoldable pub group_rank : ReadGroup → ℕ
group_rank ReadGroup.air_quality = 0
group_rank ReadGroup.control_settings = 1
group_rank ReadGroup.device_fault = 2
group_rank ReadGroup.fan_hours = 3
group_rank ReadGroup.filter = 4
group_rank ReadGroup.flow = 5
group_rank ReadGroup.flow_control = 6
group_rank ReadGroup.hours = 7
group_rank ReadGroup.intensive = 8
group_rank ReadGroup.rf_last_seen = 9
group_rank ReadGroup.rf_signal = 10
group_rank ReadGroup.status = 11
group_rank ReadGroup.temperature = 12
group_rank ReadGroup.value_error = 13

pub data Setting : Type 0 where
  humidity_starting_point humidity_min_level humidity_max_level : Setting
  co2_starting_point co2_min_level co2_max_level : Setting

unfoldable pub Setting-discrete : Discrete Setting
Setting-discrete = hlevel

unfoldable pub setting_name : Setting → String
setting_name Setting.humidity_starting_point = "humidity_starting_point"
setting_name Setting.humidity_min_level = "humidity_min_level"
setting_name Setting.humidity_max_level = "humidity_max_level"
setting_name Setting.co2_starting_point = "co2_starting_point"
setting_name Setting.co2_min_level = "co2_min_level"
setting_name Setting.co2_max_level = "co2_max_level"

abbrev pub control_setting_names : List String
control_setting_names =
    "humidity_starting_point" ∷ "humidity_min_level" ∷ "humidity_max_level" ∷ "co2_starting_point"
    ∷ "co2_min_level" ∷ "co2_max_level" ∷ []

-- CONTROL_SETTING_LIMITS: minimum, maximum and step
unfoldable pub control_setting_limits : String → Option (ℕ × ℕ × ℕ)
control_setting_limits key =
    if str_eq key "humidity_starting_point"
    then some (40, 80, 1)
    else if str_eq key "humidity_min_level"
    then some (0, 100, 10)
    else if str_eq key "humidity_max_level"
    then some (10, 100, 10)
    else if str_eq key "co2_starting_point"
    then some (500, 1200, 1)
    else if str_eq key "co2_min_level"
    then some (0, 100, 10)
    else if str_eq key "co2_max_level"
    then some (10, 100, 10)
    else none

-- CONTROL_LEVEL_RANGES
abbrev pub control_level_ranges : List (Setting × Setting)
control_level_ranges =
    (Setting.humidity_min_level, Setting.humidity_max_level)
    ∷ (Setting.co2_min_level, Setting.co2_max_level)
    ∷ []

-- READ_GROUP_ENTITY_KEYS
unfoldable pub read_group_entity_keys : ReadGroup → List String
read_group_entity_keys ReadGroup.flow =
    "extract_air_flow" ∷ "supply_air_flow" ∷ "airflow_balance" ∷ []
read_group_entity_keys ReadGroup.flow_control =
    "operation_mode" ∷ "preset_mode" ∷ "supply_level" ∷ "extract_level" ∷ []
read_group_entity_keys ReadGroup.intensive = "intensive" ∷ []
read_group_entity_keys ReadGroup.status =
    "error_status" ∷ "frost_protection_active" ∷ "rf_comm_status" ∷ []
read_group_entity_keys ReadGroup.temperature =
    "exhaust_temperature" ∷ "outdoor_air_temperature" ∷ "extract_air_temperature"
    ∷ "supply_air_temperature" ∷ []
read_group_entity_keys ReadGroup.air_quality =
    "humidity_extract_air" ∷ "humidity_supply_air" ∷ "absolute_humidity_extract_air"
    ∷ "absolute_humidity_supply_air" ∷ "co2_extract_air" ∷ "co2_supply_air" ∷ "voc_extract_air"
    ∷ "voc_supply_air" ∷ []
read_group_entity_keys ReadGroup.filter = "filter_change_due" ∷ "days_until_filter_change" ∷ []
read_group_entity_keys ReadGroup.hours = "operating_hours" ∷ []
read_group_entity_keys ReadGroup.fan_hours = "fan_motor_hours" ∷ []
read_group_entity_keys ReadGroup.rf_last_seen = "rf_last_seen_age_seconds" ∷ []
read_group_entity_keys ReadGroup.rf_signal = "rf_signal_strength" ∷ []
read_group_entity_keys ReadGroup.device_fault = "device_fault" ∷ []
read_group_entity_keys ReadGroup.value_error = "value_error_status" ∷ []
read_group_entity_keys ReadGroup.control_settings = control_setting_names

-- The keys of READ_GROUP_ENTITY_KEYS, in the order of the dictionary.
abbrev pub read_groups_in_order : List ReadGroup
read_groups_in_order =
    ReadGroup.flow ∷ ReadGroup.flow_control ∷ ReadGroup.intensive ∷ ReadGroup.status
    ∷ ReadGroup.temperature ∷ ReadGroup.air_quality ∷ ReadGroup.filter ∷ ReadGroup.hours
    ∷ ReadGroup.fan_hours ∷ ReadGroup.rf_last_seen ∷ ReadGroup.rf_signal ∷ ReadGroup.device_fault
    ∷ ReadGroup.value_error ∷ ReadGroup.control_settings ∷ []

-- `group in OPTIONAL_DIAGNOSTIC_READ_GROUPS`
unfoldable pub is_optional_group : ReadGroup → Bool
is_optional_group ReadGroup.rf_last_seen = true
is_optional_group ReadGroup.rf_signal = true
is_optional_group ReadGroup.device_fault = true
is_optional_group ReadGroup.value_error = true
is_optional_group ReadGroup.fan_hours = true
is_optional_group _ = false
