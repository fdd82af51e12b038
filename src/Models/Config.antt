-- ===== src/Models/Config.antt =====
-- models.py: RoomConfig and ReadJobOutcome.
use meltem_ha.Const.Groups.{ReadGroup}
use meltem_ha.Prelude.{Bool, List, Option, String, any, contains, none, some, true, ℕ}

pub record RoomConfig : Type 0 where
  pub key : String
  pub name : String
  pub profile : String
  pub slave : ℕ
  pub preview : Option String
  pub supported_entity_keys : Option (List String)
  pub product_id : Option ℕ
  pub app_setup_code : Option String
  pub subentry_id : Option String
  pub name_is_device_name : Bool

supports_in : Option (List String) → String → Bool
supports_in none entity_key = true
supports_in (some keys) entity_key = contains entity_key keys

-- RoomConfig.supports
unfoldable pub supports : RoomConfig → String → Bool
unfolding supports_in
supports room entity_key = supports_in room.supported_entity_keys entity_key

-- RoomConfig.supports_any
unfoldable pub supports_any : RoomConfig → List String → Bool
supports_any room entity_keys = any (supports room) entity_keys

pub record ReadJobOutcome : Type 0 where
  pub attempted_groups : List ReadGroup
  pub recorded_groups : List ReadGroup
  pub errors : List (ReadGroup × String)
  pub answered : Bool
  pub value_groups : List ReadGroup
  pub unit_success_groups : List ReadGroup
  pub missing_sensor_values : List String
  pub sensor_values : List String
