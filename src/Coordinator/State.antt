-- ===== src/Coordinator/State.antt =====
-- room_runtime.py and coordinator.py: the state that the coordinator keeps. Calls that another
-- part receives are lists of their arguments, in order; listener calls are counted.
pub mod Runtimes
use meltem_ha.Const.Groups.{ReadGroup, Setting}
use meltem_ha.Const.Modes.{LevelWriteFallback, OperationMode, PresetMode, PresetMode-discrete}
use meltem_ha.Coordinator.Poller.{Poller, new_poller}
use meltem_ha.Levels.{LevelPair, levels_reached}
use meltem_ha.Models.Config.{ReadJobOutcome, RoomConfig}
use meltem_ha.Models.Health.{Clock, ReadHealth, RoomReadError}
use meltem_ha.Models.Plan.{read_groups}
use meltem_ha.Models.Room.{RoomState, empty_room_state, read_health_for}
use meltem_ha.Models.Writes.{WriteKey, WriteValue}
use meltem_ha.Overlay.{Overlay, Settings, active, clear, empty_overlay, set}
use meltem_ha.Prelude.{
  Bool, List, Option, String, [], bool_eq, decb, false, none, or_else, some, true, ℕ, ◌++◌, ◌+◌,
  ◌∷◌,
}
use meltem_ha.Prelude.Assoc.{fill, insert, lookup, string_discrete}
use meltem_ha.WriteConfirmation.Store.{WriteConfirmations, empty_write_confirmations}

pub record RoomRuntime : Type 0 where
  pub room : RoomConfig
  pub read_failures : ℕ
  pub last_read_error : Option RoomReadError
  pub unavailable_logged : Bool
  pub target_read_failing : Bool
  pub uncertain_flow : Option (ReadHealth × ReadHealth)
  pub level_fallback : Option (LevelWriteFallback × ReadHealth)

-- RoomRuntime(room)
unfoldable pub new_runtime : RoomConfig → RoomRuntime
new_runtime room = record {
  room = room;
  read_failures = 0;
  last_read_error = none;
  unavailable_logged = false;
  target_read_failing = false;
  uncertain_flow = none;
  level_fallback = none;
}

-- A call of a write method of the client
pub data ClientWrite : Type 0 where
  write_level : ℕ → ClientWrite
  write_unbalanced_levels : ℕ → ℕ → ClientWrite
  write_operating_mode : OperationMode → ℕ → ℕ → ClientWrite
  write_preset_mode : PresetMode → ClientWrite
  -- client.clear_intensive
  stop_intensive : ClientWrite
  write_control_setting : Setting → ℕ → ClientWrite

-- The scheduler and the other fields. `safe_data` is empty before the first poll.
pub record Coordinator : Type 0 where
  pub poller : Poller
  pub rooms : List RoomConfig
  pub runtimes : List (String × RoomRuntime)
  pub safe_data : List (String × RoomState)
  pub startup_states : List (String × RoomState)
  pub presets : Overlay PresetMode
  pub intensive : Overlay Bool
  pub levels : Overlay (ℕ × ℕ)
  pub write_confirmations : WriteConfirmations
  pub last_update_success : Bool
  pub updates : ℕ
  pub last_job_error : Option String
  pub last_job_link_failure : Bool
  pub last_job_attempted : Bool
  -- The calls of the client's write methods, missing_sensors.record, and
  -- cumulative_diagnostics.record_read_failure
  pub sent : List (String × ClientWrite)
  pub sensors_recorded : List (String × ReadJobOutcome)
  pub failures_recorded : List (String × ReadGroup)

runtimes_of : List RoomConfig → List (String × RoomRuntime)
runtimes_of [] = []
runtimes_of (room ∷ rooms) = (room.key, new_runtime room) ∷ runtimes_of rooms

unfoldable pub new_coordinator : List RoomConfig → ℕ → ℕ → Coordinator
unfolding runtimes_of
new_coordinator rooms tick now = record {
  poller = new_poller rooms tick now;
  rooms = rooms;
  runtimes = fill string_discrete [] (runtimes_of rooms);
  safe_data = [];
  startup_states = [];
  presets = empty_overlay;
  intensive = empty_overlay;
  levels = empty_overlay;
  write_confirmations = empty_write_confirmations;
  last_update_success = true;
  updates = 0;
  last_job_error = none;
  last_job_link_failure = false;
  last_job_attempted = false;
  sent = [];
  sensors_recorded = [];
  failures_recorded = [];
}

-- _room_state
unfoldable pub room_state : Coordinator → String → Option RoomState
room_state c room_key = lookup string_discrete room_key c.safe_data

unfoldable pub state_or : Option RoomState → RoomState → RoomState
state_or none fallback = fallback
state_or (some state) fallback = state

-- self.safe_data.get(room_key, EMPTY_ROOM_STATE)
unfoldable pub cached_state : Coordinator → String → RoomState
cached_state c room_key = state_or (room_state c room_key) empty_room_state

-- self.safe_data.get(room_key) or self._startup_states.get(room_key)
unfoldable pub known_state : Coordinator → String → Option RoomState
known_state c room_key =
    or_else (room_state c room_key) (lookup string_discrete room_key c.startup_states)

-- _group_health
unfoldable pub group_health : Coordinator → String → ReadGroup → ReadHealth
group_health c room_key group =
    read_health_for (state_or (known_state c room_key) empty_room_state) group

unfoldable pub runtime_or : Option RoomRuntime → RoomRuntime → RoomRuntime
runtime_or none fallback = fallback
runtime_or (some runtime) fallback = runtime

-- self._runtimes[room.key], which holds every room
unfoldable pub runtime_of : Coordinator → RoomConfig → RoomRuntime
unfolding runtime_or
runtime_of c room = runtime_or (lookup string_discrete room.key c.runtimes) (new_runtime room)

-- An assignment to a field of the runtime
unfoldable pub set_runtime : RoomConfig → RoomRuntime → Coordinator → Coordinator
set_runtime room runtime c = record c {
  runtimes = insert string_discrete room.key runtime c.runtimes;
}

-- The call of `write_method`
unfoldable pub send : RoomConfig → ClientWrite → Coordinator → Coordinator
send room call c = record c { sent = c.sent ++ (room.key, call) ∷ [] }

-- async_update_listeners
unfoldable pub update_listeners : Coordinator → Coordinator
update_listeners c = record c { updates = c.updates + 1 }

abbrev pub preset_optimistic : ℕ
preset_optimistic = 15000

abbrev pub target_optimistic : ℕ
target_optimistic = 15000

abbrev pub preset_settings : Coordinator → Settings PresetMode PresetMode
preset_settings c = record {
  ttl = preset_optimistic;
  matches = λ a b. decb (PresetMode-discrete a b);
  read_groups = ReadGroup.flow_control ∷ [];
  state_fn = room_state c;
}

abbrev pub intensive_settings : Coordinator → Settings Bool Bool
intensive_settings c = record {
  ttl = preset_optimistic;
  matches = bool_eq;
  read_groups = ReadGroup.intensive ∷ [];
  state_fn = room_state c;
}

abbrev pub level_settings : Coordinator → Settings (ℕ × ℕ) LevelPair
level_settings c = record {
  ttl = target_optimistic;
  matches = levels_reached;
  read_groups = ReadGroup.flow ∷ ReadGroup.flow_control ∷ [];
  state_fn = room_state c;
}

-- `if overlay := self._overlays.get(write_key): overlay.clear(room_key)`
unfoldable pub clear_overlay : WriteKey → String → Coordinator → Coordinator
clear_overlay WriteKey.airflow_levels room_key c = record c { levels = clear room_key c.levels }
clear_overlay WriteKey.preset_mode room_key c = record c { presets = clear room_key c.presets }
clear_overlay WriteKey.intensive room_key c = record c { intensive = clear room_key c.intensive }
clear_overlay _ room_key c = c

-- The overlays of the given write keys are cleared.
unfoldable pub clear_overlays : List WriteKey → String → Coordinator → Coordinator
clear_overlays [] room_key c = c
clear_overlays (write_key ∷ keys) room_key c =
    clear_overlays keys room_key (clear_overlay write_key room_key c)

-- A pending value of the type that the overlay holds
unfoldable pub show_levels : Clock → String → WriteValue → Coordinator → Coordinator
show_levels clock room_key (WriteValue.pair supply extract) c = record c {
  levels = set (level_settings c) clock room_key (supply, extract) c.levels;
}
show_levels clock room_key _ c = c

unfoldable pub show_preset : Clock → String → WriteValue → Coordinator → Coordinator
show_preset clock room_key (WriteValue.preset preset_mode) c = record c {
  presets = set (preset_settings c) clock room_key preset_mode c.presets;
}
show_preset clock room_key _ c = c

unfoldable pub show_intensive : Clock → String → WriteValue → Coordinator → Coordinator
show_intensive clock room_key (WriteValue.flag active) c = record c {
  intensive = set (intensive_settings c) clock room_key active c.intensive;
}
show_intensive clock room_key _ c = c

-- `overlay.set(room.key, expected_value)`, or the listener call of a key without an overlay
unfoldable pub show_pending : Clock → WriteKey → String → WriteValue → Coordinator → Coordinator
unfolding show_levels show_preset show_intensive
show_pending clock WriteKey.airflow_levels room_key value c = show_levels clock room_key value c
show_pending clock WriteKey.preset_mode room_key value c = show_preset clock room_key value c
show_pending clock WriteKey.intensive room_key value c = show_intensive clock room_key value c
show_pending clock WriteKey.operation_mode room_key value c = update_listeners c
show_pending clock (WriteKey.control_setting _) room_key value c = update_listeners c
