-- ===== src/Tests/Samples.antt =====
-- Rooms and states that the tests share.

use meltem_ha.Const.Groups.{ReadGroup}
use meltem_ha.Const.Modes.{OperationMode}
use meltem_ha.Device.{ModeBlock}
use meltem_ha.Models.Config.{RoomConfig}
use meltem_ha.Models.Health.{Clock, ReadHealth}
use meltem_ha.Models.Room.{RoomState, empty_room_state}
use meltem_ha.Prelude.{[], false, none, some, ℕ, ◌∷◌}

abbrev pub room : RoomConfig
room = record {
  key = "slave_2";
  name = "Bedroom";
  profile = "ii_fc";
  slave = 2;
  preview = none;
  supported_entity_keys = none;
  product_id = none;
  app_setup_code = none;
  subentry_id = none;
  name_is_device_name = false;
}

-- A unit of the smaller family.
abbrev pub small_room : RoomConfig
small_room = record room { key = "slave_3"; profile = "s_plain"; slave = 3 }

abbrev pub clock_at : ℕ → Clock
clock_at t = record { monotonic = t; utcnow = t }

-- A group whose last read succeeded.
abbrev pub healthy_at : ℕ → ReadHealth
healthy_at t = record {
  last_attempt = some t;
  last_successful_read = some t;
  consecutive_failures = 0;
  last_error = none;
  last_error_timed_out = false;
  last_success_monotonic = some t;
}

-- A room in manual mode at 50 m³/h, read at 2 s.
abbrev pub manual_state : RoomState
manual_state = record empty_room_state {
  operation_mode = some OperationMode.manual;
  target_level = some 50;
  balanced_target_readback = some 50;
  intensive_active = some false;
  supply_air_flow = some 50;
  extract_air_flow = some 52;
  group_read_health =
      (ReadGroup.flow, healthy_at 2000) ∷ (ReadGroup.flow_control, healthy_at 2000) ∷ [];
}

-- Register contents that a status read returns before any command.
abbrev pub idle_block : ModeBlock
idle_block = record {
  mode = 0;
  current_level = 0;
  extract_target_level = 0;
  preset_mode = 7;
  preset_value = 9;
}
