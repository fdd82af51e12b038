-- ===== src/Coordinator/Resolved.antt =====
-- coordinator.py: the airflow that a command of a room builds on, and what is shown of it.
use meltem_ha.Const.Groups.{ReadGroup}
use meltem_ha.Const.Modes.{LevelSource, LevelWriteFallback, PresetMode}
use meltem_ha.Coordinator.State.{
  Coordinator, RoomRuntime, group_health, intensive_settings, level_settings, preset_settings,
  room_state, runtime_of, set_runtime, update_listeners,
}
use meltem_ha.Levels.{LevelPair, reported_levels}
use meltem_ha.Models.Config.{RoomConfig}
use meltem_ha.Models.Health.{Clock, ReadHealth}
use meltem_ha.Models.Room.{RoomState}
use meltem_ha.Overlay.{active}
use meltem_ha.Prelude.{
  Bool, Option, String, false, if◌then◌else◌, is_some, none, not, some, true, ℕ, ◌&&◌,
}
use meltem_ha.ReadHealth.{group_fresh, mode_read_since, read_since}
use meltem_ha.WriteConfirmation.Store.{reported}

-- _levels_reported_since
unfoldable pub levels_reported_since : Clock → RoomState → ReadHealth → ReadHealth → Bool
levels_reported_since clock state flow_control_baseline flow_baseline =
    if read_since clock state ReadGroup.flow_control flow_control_baseline
    then true
    else not (group_fresh clock state ReadGroup.flow_control)
      && read_since clock state ReadGroup.flow flow_baseline

unfoldable pub reported_since : Clock → Option RoomState → ReadHealth × ReadHealth → Bool
reported_since clock none baselines = false
reported_since clock (some state) baselines =
    levels_reported_since clock state baselines.0 baselines.1

-- _flow_write_uncertain on the mark of the runtime: whether it stands.
unfoldable pub mark_stands : Clock → Option RoomState → Option (ReadHealth × ReadHealth) → Bool
unfolding reported_since
mark_stands clock state none = false
mark_stands clock state (some baselines) = not (reported_since clock state baselines)

unfoldable pub flow_write_uncertain : Clock → RoomConfig → Coordinator → Bool
flow_write_uncertain clock room c =
    mark_stands clock (room_state c room.key) (runtime_of c room).uncertain_flow

-- The state after _flow_write_uncertain: a later read clears the mark.
unfoldable pub after_uncertain : Clock → RoomConfig → Coordinator → Coordinator
after_uncertain clock room c =
    if flow_write_uncertain clock room c
    then c
    else set_runtime room (record (runtime_of c room) { uncertain_flow = none }) c

unfoldable pub reported_of : Clock → Option RoomState → Option LevelPair × Option LevelSource
reported_of clock none = (none, none)
reported_of clock (some state) = reported_levels clock state

unfoldable pub pair_or_none : Option LevelPair → LevelPair
pair_or_none none = (none, none)
pair_or_none (some levels) = levels

abbrev pub pending_pair : ℕ × ℕ → LevelPair
pending_pair levels = (some levels.0, some levels.1)

unfoldable pub resolved_with :
    Option (ℕ × ℕ) → Option LevelPair × Option LevelSource → LevelPair × Option LevelSource
unfolding pair_or_none
resolved_with (some pending) reported = (pending_pair pending, some LevelSource.pending)
resolved_with none reported = (pair_or_none reported.0, reported.1)

-- _resolve_levels
unfoldable pub resolve_levels : Clock → RoomConfig → Coordinator → LevelPair × Option LevelSource
unfolding reported_of resolved_with
resolve_levels clock room c =
    if flow_write_uncertain clock room c
    then ((none, none), none)
    else (let state = room_state c room.key in
        let reported = reported_of clock state in
        resolved_with (active (level_settings c) clock room.key state reported.0 c.levels) reported)

-- effective_levels and level_source
unfoldable pub effective_levels : Clock → RoomConfig → Coordinator → LevelPair
effective_levels clock room c = (resolve_levels clock room c).0

unfoldable pub level_source : Clock → RoomConfig → Coordinator → Option LevelSource
level_source clock room c = (resolve_levels clock room c).1

unfoldable pub preset_of : Option RoomState → Option PresetMode
preset_of none = none
preset_of (some state) = state.preset_mode

unfoldable pub intensive_of : Option RoomState → Option Bool
intensive_of none = none
intensive_of (some state) = state.intensive_active

unfoldable pub optimistic_preset_mode : Clock → String → Coordinator → Option PresetMode
unfolding preset_of
optimistic_preset_mode clock room_key c =
    let state = room_state c room_key in
    active (preset_settings c) clock room_key state (preset_of state) c.presets

unfoldable pub optimistic_intensive : Clock → String → Coordinator → Option Bool
unfolding intensive_of
optimistic_intensive clock room_key c =
    let state = room_state c room_key in
    active (intensive_settings c) clock room_key state (intensive_of state) c.intensive

unfoldable pub fallback_shown :
    Option RoomState → Option (LevelWriteFallback × ReadHealth) → Option LevelWriteFallback
fallback_shown state none = none
fallback_shown none (some fallback) = some fallback.0
fallback_shown (some state) (some fallback) =
    if mode_read_since state fallback.1 then none else some fallback.0

unfoldable pub level_write_fallback : RoomConfig → Coordinator → Option LevelWriteFallback
unfolding fallback_shown
level_write_fallback room c =
    fallback_shown (room_state c room.key) (runtime_of c room).level_fallback

unfoldable pub with_fallback :
    RoomConfig → Option LevelWriteFallback → RoomRuntime → Coordinator → Coordinator
with_fallback room none runtime c =
    if is_some runtime.level_fallback
    then update_listeners (set_runtime room (record runtime { level_fallback = none }) c)
    else c
with_fallback room (some fallback) runtime c = update_listeners (
    set_runtime room
      (record runtime {
        level_fallback = some (fallback, group_health c room.key ReadGroup.flow_control);
      })
      c)

-- _apply_level_fallback
unfoldable pub apply_level_fallback :
    RoomConfig → Option LevelWriteFallback → Coordinator → Coordinator
unfolding with_fallback
apply_level_fallback room fallback c = with_fallback room fallback (runtime_of c room) c
