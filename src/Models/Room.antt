-- ===== src/Models/Room.antt =====
-- models.py: RoomState. A `float` of a room is the bit pattern of its register: no modelled code
-- computes with it.
pub mod Recorded
use meltem_ha.Const.Groups.{ReadGroup, ReadGroup-discrete, Setting, group_rank}
use meltem_ha.Const.Modes.{OperationMode, OperationMode-discrete, PresetMode, PresetMode-discrete}
use meltem_ha.Models.Health.{ReadHealth, ReadHealth-discrete, empty_read_health}
use meltem_ha.Prelude.{Bool, List, Option, [], any, if◌then◌else◌, is_some, ltb, none, some, ℕ, ◌∷◌}
use meltem_ha.Prelude.Assoc.{fill, insert, lookup}
use native.Mathlib.Decide.{ℕ_discrete}

pub record RoomState : Type 0 where
  pub exhaust_temperature : Option ℕ
  pub outdoor_air_temperature : Option ℕ
  pub extract_air_temperature : Option ℕ
  pub supply_air_temperature : Option ℕ
  pub humidity_extract_air : Option ℕ
  pub humidity_supply_air : Option ℕ
  pub absolute_humidity_extract_air : Option ℕ
  pub absolute_humidity_supply_air : Option ℕ
  pub co2_extract_air : Option ℕ
  pub co2_supply_air : Option ℕ
  pub voc_extract_air : Option ℕ
  pub voc_supply_air : Option ℕ
  pub extract_air_flow : Option ℕ
  pub supply_air_flow : Option ℕ
  pub error_status : Option Bool
  pub filter_change_due : Option Bool
  pub frost_protection_active : Option Bool
  pub rf_comm_status : Option Bool
  pub device_fault : Option Bool
  pub value_error_status : Option Bool
  pub operation_mode : Option OperationMode
  pub preset_mode : Option PresetMode
  pub intensive_active : Option Bool
  pub mode_status_raw : Option (ℕ × ℕ × ℕ)
  pub target_level : Option ℕ
  pub balanced_target_readback : Option ℕ
  pub extract_target_level : Option ℕ
  pub days_until_filter_change : Option ℕ
  pub operating_hours : Option ℕ
  pub fan_motor_hours : Option ℕ
  pub rf_last_seen_age_seconds : Option ℕ
  pub rf_signal_strength : Option ℕ
  pub software_version : Option ℕ
  pub humidity_starting_point : Option ℕ
  pub humidity_min_level : Option ℕ
  pub humidity_max_level : Option ℕ
  pub co2_starting_point : Option ℕ
  pub co2_min_level : Option ℕ
  pub co2_max_level : Option ℕ
  pub group_read_health : List (ReadGroup × ReadHealth)

abbrev pub empty_room_state : RoomState
empty_room_state = record {
  exhaust_temperature = none;
  outdoor_air_temperature = none;
  extract_air_temperature = none;
  supply_air_temperature = none;
  humidity_extract_air = none;
  humidity_supply_air = none;
  absolute_humidity_extract_air = none;
  absolute_humidity_supply_air = none;
  co2_extract_air = none;
  co2_supply_air = none;
  voc_extract_air = none;
  voc_supply_air = none;
  extract_air_flow = none;
  supply_air_flow = none;
  error_status = none;
  filter_change_due = none;
  frost_protection_active = none;
  rf_comm_status = none;
  device_fault = none;
  value_error_status = none;
  operation_mode = none;
  preset_mode = none;
  intensive_active = none;
  mode_status_raw = none;
  target_level = none;
  balanced_target_readback = none;
  extract_target_level = none;
  days_until_filter_change = none;
  operating_hours = none;
  fan_motor_hours = none;
  rf_last_seen_age_seconds = none;
  rf_signal_strength = none;
  software_version = none;
  humidity_starting_point = none;
  humidity_min_level = none;
  humidity_max_level = none;
  co2_starting_point = none;
  co2_min_level = none;
  co2_max_level = none;
  group_read_health = [];
}

-- `==` of two states: a dataclass compares field by field.
unfoldable pub RoomState-discrete : Discrete RoomState
RoomState-discrete = hlevel (
  ℕ_discrete, ReadHealth-discrete, ReadGroup-discrete, OperationMode-discrete, PresetMode-discrete,
)

-- getattr(state, setting_key)
unfoldable pub setting_value : RoomState → Setting → Option ℕ
setting_value s Setting.humidity_starting_point = s.humidity_starting_point
setting_value s Setting.humidity_min_level = s.humidity_min_level
setting_value s Setting.humidity_max_level = s.humidity_max_level
setting_value s Setting.co2_starting_point = s.co2_starting_point
setting_value s Setting.co2_min_level = s.co2_min_level
setting_value s Setting.co2_max_level = s.co2_max_level

-- The values that `has_data` looks at: every field but the read health and the raw mode status.
value_fields : RoomState → List Bool
value_fields s =
    is_some s.exhaust_temperature
    ∷ is_some s.outdoor_air_temperature
    ∷ is_some s.extract_air_temperature
    ∷ is_some s.supply_air_temperature
    ∷ is_some s.humidity_extract_air
    ∷ is_some s.humidity_supply_air
    ∷ is_some s.absolute_humidity_extract_air
    ∷ is_some s.absolute_humidity_supply_air
    ∷ is_some s.co2_extract_air
    ∷ is_some s.co2_supply_air
    ∷ is_some s.voc_extract_air
    ∷ is_some s.voc_supply_air
    ∷ is_some s.extract_air_flow
    ∷ is_some s.supply_air_flow
    ∷ is_some s.error_status
    ∷ is_some s.filter_change_due
    ∷ is_some s.frost_protection_active
    ∷ is_some s.rf_comm_status
    ∷ is_some s.device_fault
    ∷ is_some s.value_error_status
    ∷ is_some s.operation_mode
    ∷ is_some s.preset_mode
    ∷ is_some s.intensive_active
    ∷ is_some s.target_level
    ∷ is_some s.balanced_target_readback
    ∷ is_some s.extract_target_level
    ∷ is_some s.days_until_filter_change
    ∷ is_some s.operating_hours
    ∷ is_some s.fan_motor_hours
    ∷ is_some s.rf_last_seen_age_seconds
    ∷ is_some s.rf_signal_strength
    ∷ is_some s.software_version
    ∷ is_some s.humidity_starting_point
    ∷ is_some s.humidity_min_level
    ∷ is_some s.humidity_max_level
    ∷ is_some s.co2_starting_point
    ∷ is_some s.co2_min_level
    ∷ is_some s.co2_max_level
    ∷ []

-- RoomState.has_data
unfoldable pub has_data : RoomState → Bool
unfolding value_fields
has_data s = any (λ b. b) (value_fields s)

unfoldable pub health_or_empty : Option ReadHealth → ReadHealth
health_or_empty none = empty_read_health
health_or_empty (some health) = health

-- RoomState.read_health_for
unfoldable pub read_health_for : RoomState → ReadGroup → ReadHealth
unfolding health_or_empty
read_health_for s group =
    health_or_empty
      (lookup ReadGroup-discrete group (fill ReadGroup-discrete [] s.group_read_health))

-- `sorted` on pairs whose keys differ: by the name of the group.
insert_sorted :
    ReadGroup → ReadHealth → List (ReadGroup × ReadHealth) → List (ReadGroup × ReadHealth)
insert_sorted group health [] = (group, health) ∷ []
insert_sorted group health ((g, h) ∷ l) =
    if ltb (group_rank group) (group_rank g)
    then (group, health) ∷ (g, h) ∷ l
    else (g, h) ∷ insert_sorted group health l

unfoldable pub sorted : List (ReadGroup × ReadHealth) → List (ReadGroup × ReadHealth)
unfolding insert_sorted
sorted [] = []
sorted ((group, health) ∷ l) = insert_sorted group health (sorted l)

-- RoomState.with_read_health
unfoldable pub with_read_health : RoomState → ReadGroup → ReadHealth → RoomState
unfolding sorted
with_read_health s group health = record s {
  group_read_health =
      sorted
        (insert ReadGroup-discrete group health (fill ReadGroup-discrete [] s.group_read_health));
}
