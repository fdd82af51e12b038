-- ===== src/Coordinator/Requests.antt =====
-- coordinator.py: the commands of a room, each holding the gateway lock.
pub mod Sent
pub mod Pending
use meltem_ha.Const.Groups.{ReadGroup, Setting}
use meltem_ha.Const.Modes.{Direction, LevelSource, LevelWriteFallback, OperationMode, PresetMode}
use meltem_ha.Coordinator.Commands.{CommandEnd, Exchange, write_with_confirmation}
use meltem_ha.Coordinator.Resolved.{
  after_uncertain, apply_level_fallback, effective_levels, flow_write_uncertain,
  optimistic_preset_mode, pending_pair, resolve_levels,
}
use meltem_ha.Coordinator.State.{
  ClientWrite, Coordinator, cached_state, clear_overlay, level_settings,
}
use meltem_ha.Levels.{DirectionWrite, LevelPair, mode_write_levels, plan_direction_write}
use meltem_ha.Models.Config.{RoomConfig}
use meltem_ha.Models.Health.{Clock}
use meltem_ha.Models.Writes.{WriteKey, WriteValue}
use meltem_ha.Overlay.{get}
use meltem_ha.Prelude.{
  Bool, Option, Result, false, home_assistant_error, if◌then◌else◌, is_some, none, not, ok, or_else,
  raise, some, true, ℕ, ◌&&◌, ◌==◌,
}
use meltem_ha.ReadHealth.{group_fresh}

-- async_set_level
unfoldable pub set_level : Exchange → RoomConfig → ℕ → Coordinator → Coordinator × CommandEnd
set_level x room level c =
    let c' = clear_overlay WriteKey.preset_mode room.key c in
    let c'' = if level == 0 then clear_overlay WriteKey.intensive room.key c' else c' in
    write_with_confirmation x room WriteKey.airflow_levels (WriteValue.pair level level)
      (ClientWrite.write_level level) false false c''

-- async_set_unbalanced_levels
unfoldable pub set_unbalanced_levels :
    Exchange → RoomConfig → ℕ → ℕ → Coordinator → Coordinator × CommandEnd
set_unbalanced_levels x room supply_level extract_level c =
    write_with_confirmation x room WriteKey.airflow_levels
      (WriteValue.pair supply_level extract_level)
      (ClientWrite.write_unbalanced_levels supply_level extract_level) false false
      (clear_overlay WriteKey.preset_mode room.key c)

-- `if (pending := self._optimistic_levels.get(room_key, None)) is not None`
unfoldable pub pending_or_resolved :
    Option (ℕ × ℕ) → LevelPair × Option LevelSource → LevelPair × Option LevelSource
pending_or_resolved none resolved = resolved
pending_or_resolved (some pending) resolved = (pending_pair pending, some LevelSource.pending)

unfoldable pub command_levels : Clock → RoomConfig → Coordinator → LevelPair × Option LevelSource
unfolding pending_or_resolved
command_levels clock room c =
    pending_or_resolved (get (level_settings c) clock room.key none c.levels)
      (resolve_levels clock room c)

unfoldable pub write_planned :
    Exchange → RoomConfig → DirectionWrite → Coordinator → Coordinator × CommandEnd
write_planned x room (DirectionWrite.balanced level) c = set_level x room level c
write_planned x room (DirectionWrite.pair supply_level extract_level) c =
    set_unbalanced_levels x room supply_level extract_level c

-- The fallback is recorded when the write was accepted.
unfoldable pub fallback_after :
    RoomConfig → Option LevelWriteFallback → Coordinator × CommandEnd → Coordinator × CommandEnd
fallback_after room fallback (c, CommandEnd.returned) =
    (apply_level_fallback room fallback c, CommandEnd.returned)
fallback_after room fallback done = done

unfoldable pub direction_planned :
    Exchange
    → RoomConfig
    → Result (DirectionWrite × Option LevelWriteFallback)
    → Coordinator
    → Coordinator × CommandEnd
unfolding write_planned fallback_after
direction_planned x room (raise e) c = (c, CommandEnd.raised e)
direction_planned x room (ok (planned, fallback)) c =
    fallback_after room fallback (write_planned x room planned c)

abbrev pub airflow_unknown : CommandEnd
airflow_unknown = CommandEnd.raised (home_assistant_error "airflow_unknown")

-- async_set_direction_level
unfoldable pub set_direction_level :
    Exchange → RoomConfig → Direction → ℕ → Coordinator → Coordinator × CommandEnd
unfolding direction_planned
set_direction_level x room direction level c =
    let c' = after_uncertain x.clock room c in
    if flow_write_uncertain x.clock room c
    then (c', airflow_unknown)
    else (let levels = command_levels x.clock room c' in
        direction_planned x room
          (plan_direction_write (cached_state c' room.key) levels.0 levels.1 direction level) c')

unfoldable pub off_requested : OperationMode → Bool
off_requested OperationMode.off = true
off_requested _ = false

unfoldable pub inactive_requested : OperationMode → Bool
inactive_requested OperationMode.inactive = true
inactive_requested _ = false

-- `operation_mode in (OPERATION_MODE_MANUAL, OPERATION_MODE_UNBALANCED)`
unfoldable pub needs_airflow : OperationMode → Bool
needs_airflow OperationMode.manual = true
needs_airflow OperationMode.unbalanced = true
needs_airflow _ = false

-- `mode in DIRECT_OPERATION_MODES`
unfoldable pub is_direct_mode : Option OperationMode → Bool
is_direct_mode (some OperationMode.off) = true
is_direct_mode (some OperationMode.manual) = true
is_direct_mode (some OperationMode.unbalanced) = true
is_direct_mode _ = false

-- `int(level or 0)`
unfoldable pub level_or_zero : Option ℕ → ℕ
level_or_zero none = 0
level_or_zero (some level) = level

-- The mode is written with the airflow that was found.
unfoldable pub write_mode :
    Exchange → RoomConfig → OperationMode → LevelPair → Coordinator → Coordinator × CommandEnd
unfolding off_requested needs_airflow level_or_zero
write_mode x room mode levels c =
    if not (is_some levels.0) && needs_airflow mode
    then (c, airflow_unknown)
    else (let c' = if off_requested mode then clear_overlay WriteKey.intensive room.key c else c in
        write_with_confirmation x room WriteKey.operation_mode (WriteValue.operation mode)
          (ClientWrite.write_operating_mode mode (level_or_zero levels.0) (level_or_zero levels.1))
          true false (clear_overlay WriteKey.airflow_levels room.key c'))

-- async_set_operation_mode
unfoldable pub set_operation_mode :
    Exchange → RoomConfig → OperationMode → Coordinator → Coordinator × CommandEnd
unfolding write_mode inactive_requested
set_operation_mode x room mode c =
    let c' = after_uncertain x.clock room c in
    let state = cached_state c room.key in
    let levels = mode_write_levels state (effective_levels x.clock room c') in
    if flow_write_uncertain x.clock room c
    then (c', airflow_unknown)
    else if inactive_requested mode
    then if is_direct_mode state.operation_mode && group_fresh x.clock state ReadGroup.flow_control
      then (c', CommandEnd.returned)
      else write_mode x room OperationMode.manual levels c'
    else write_mode x room mode levels c'

-- async_set_preset_mode
unfoldable pub set_preset_mode :
    Exchange → RoomConfig → PresetMode → Coordinator → Coordinator × CommandEnd
set_preset_mode x room preset_mode c =
    write_with_confirmation x room WriteKey.preset_mode (WriteValue.preset preset_mode)
      (ClientWrite.write_preset_mode preset_mode) true false
      (clear_overlay WriteKey.airflow_levels room.key c)

-- The mode that keeps the airflow when a preset is left, or nothing when none is active.
unfoldable pub mode_after_preset : Option PresetMode → Option OperationMode
mode_after_preset none = none
mode_after_preset (some PresetMode.inactive) = none
mode_after_preset (some PresetMode.extract_only) = some OperationMode.unbalanced
mode_after_preset (some PresetMode.supply_only) = some OperationMode.unbalanced
mode_after_preset (some _) = some OperationMode.manual

unfoldable pub preset_left : RoomConfig → Coordinator × CommandEnd → Coordinator × CommandEnd
preset_left room (c, CommandEnd.returned) =
    (clear_overlay WriteKey.preset_mode room.key c, CommandEnd.returned)
preset_left room ended = ended

unfoldable pub leave_preset :
    Exchange → RoomConfig → Option OperationMode → Coordinator → Coordinator × CommandEnd
unfolding preset_left
leave_preset x room none c = (clear_overlay WriteKey.preset_mode room.key c, CommandEnd.returned)
leave_preset x room (some mode) c = preset_left room (set_operation_mode x room mode c)

-- async_clear_preset_mode
unfoldable pub clear_preset_mode : Exchange → RoomConfig → Coordinator → Coordinator × CommandEnd
unfolding leave_preset
clear_preset_mode x room c =
    leave_preset x room
      (mode_after_preset
        (or_else (optimistic_preset_mode x.clock room.key c) (cached_state c room.key).preset_mode))
      c

-- async_activate_intensive and async_deactivate_intensive
unfoldable pub set_intensive : Exchange → RoomConfig → Bool → Coordinator → Coordinator × CommandEnd
set_intensive x room active_override c =
    write_with_confirmation x room WriteKey.intensive (WriteValue.flag active_override)
      (if active_override
        then ClientWrite.write_preset_mode PresetMode.intensive
        else ClientWrite.stop_intensive)
      true false c

-- async_set_control_setting
unfoldable pub set_control_setting :
    Exchange → RoomConfig → Setting → ℕ → Coordinator → Coordinator × CommandEnd
set_control_setting x room setting value c =
    write_with_confirmation x room (WriteKey.control_setting setting) (WriteValue.level value)
      (ClientWrite.write_control_setting setting value) true true c

-- The commands that a room accepts
pub data Command : Type 0 where
  level : ℕ → Command
  unbalanced_levels : ℕ → ℕ → Command
  direction_level : Direction → ℕ → Command
  operating_mode : OperationMode → Command
  preset : PresetMode → Command
  no_preset : Command
  intensive_override : Bool → Command
  setting : Setting → ℕ → Command

abbrev pub run_command : Exchange → RoomConfig → Command → Coordinator → Coordinator × CommandEnd
run_command x room (Command.level n) c = set_level x room n c
run_command x room (Command.unbalanced_levels s e) c = set_unbalanced_levels x room s e c
run_command x room (Command.direction_level d n) c = set_direction_level x room d n c
run_command x room (Command.operating_mode m) c = set_operation_mode x room m c
run_command x room (Command.preset p) c = set_preset_mode x room p c
run_command x room Command.no_preset c = clear_preset_mode x room c
run_command x room (Command.intensive_override b) c = set_intensive x room b c
run_command x room (Command.setting s v) c = set_control_setting x room s v c
