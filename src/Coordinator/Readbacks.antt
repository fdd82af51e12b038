-- ===== src/Coordinator/Readbacks.antt =====
-- coordinator.py: what a readback of a room changes: the pending writes that it confirms, the
-- read of the exact airflow target, and the refresh after a write. The client's replies are
-- arguments; log calls are left out.
pub mod Preserved
use meltem_ha.Const.Modes.{LevelWriteFallback}
use meltem_ha.Coordinator.Poller.{claim_read_slot}
use meltem_ha.Coordinator.State.{
  Coordinator, RoomRuntime, cached_state, intensive_settings, level_settings, preset_settings,
  runtime_of, set_runtime, update_listeners,
}
use meltem_ha.Levels.{reported_levels}
use meltem_ha.Models.Config.{ReadJobOutcome, RoomConfig}
use meltem_ha.Models.Health.{Clock, ReadHealth, failed}
use meltem_ha.Models.Plan.{RefreshPlan}
use meltem_ha.Models.Room.{RoomState, RoomState-discrete}
use meltem_ha.Overlay.{settle_if_read}
use meltem_ha.Prelude.{
  Bool, List, Option, String, [], decb, false, if◌then◌else◌, none, not, some, true, ℕ, ◌&&◌, ◌||◌,
  ◌∷◌,
}
use meltem_ha.Prelude.Assoc.{insert, lookup, string_discrete}
use meltem_ha.ReadHealth.{mode_read_since, record_read_failures}
use meltem_ha.WriteConfirmation.Balanced.{prepare_balanced_target_readback}
use meltem_ha.WriteConfirmation.Rounds.{confirm}
use meltem_ha.WriteConfirmation.Store.{outcome}

-- How `read_room` and `read_balanced_target_readback` ended; a failure is a MeltemModbusError.
pub data RoomReply : Type 0 where
  room_read : RoomState → ReadJobOutcome → RoomReply
  room_failed : String → RoomReply

pub data TargetReply : Type 0 where
  target_read : Option ℕ → TargetReply
  target_failed : TargetReply

unfoldable pub settle_levels : Clock → String → RoomState → Coordinator → Coordinator × Bool
settle_levels clock room_key state c =
    let settled_levels =
      settle_if_read (level_settings c) clock room_key (some state) (reported_levels clock state).0
        c.levels in
    (record c { levels = settled_levels.0 }, settled_levels.1)

unfoldable pub settle_presets : Clock → String → RoomState → Coordinator → Coordinator × Bool
settle_presets clock room_key state c =
    let settled_presets =
      settle_if_read (preset_settings c) clock room_key (some state) state.preset_mode c.presets in
    (record c { presets = settled_presets.0 }, settled_presets.1)

unfoldable pub settle_intensive : Clock → String → RoomState → Coordinator → Coordinator × Bool
settle_intensive clock room_key state c =
    let settled_intensive =
      settle_if_read (intensive_settings c) clock room_key (some state) state.intensive_active
        c.intensive in
    (record c { intensive = settled_intensive.0 }, settled_intensive.1)

-- Whether a read since a fan write ends its fallback.
unfoldable pub fallback_over : RoomState → Option (LevelWriteFallback × ReadHealth) → Bool
fallback_over state none = false
fallback_over state (some fallback) = mode_read_since state fallback.1

unfoldable pub drop_fallback :
    String → RoomState → Option RoomRuntime → Coordinator → Coordinator × Bool
unfolding fallback_over
drop_fallback room_key state none c = (c, false)
drop_fallback room_key state (some runtime) c =
    if fallback_over state runtime.level_fallback
    then (
      record c {
        runtimes =
            insert string_discrete room_key (record runtime { level_fallback = none }) c.runtimes;
      },
      true,
    )
    else (c, false)

-- The body of the loop for one room
unfoldable pub settle_room : Clock → String → RoomState → Coordinator → Coordinator × Bool
unfolding settle_levels settle_presets settle_intensive drop_fallback
settle_room clock room_key state c =
    let one = settle_levels clock room_key state c in
    let two = settle_presets clock room_key state one.0 in
    let three = settle_intensive clock room_key state two.0 in
    let four =
      drop_fallback room_key state (lookup string_discrete room_key three.0.runtimes) three.0 in
    (four.0, one.1 || (two.1 || (three.1 || four.1)))

unfoldable pub settle_rooms : Clock → List (String × RoomState) → Coordinator → Coordinator × Bool
settle_rooms clock [] c = (c, false)
settle_rooms clock ((room_key, state) ∷ states) c =
    let one = settle_room clock room_key state c in
    let rest = settle_rooms clock states one.0 in (rest.0, one.1 || rest.1)

-- _confirm_pending_writes
unfoldable pub confirm_pending_writes :
    Clock → List (String × RoomState) → Bool → Coordinator → Coordinator
confirm_pending_writes clock states notify_listeners c =
    let judged_writes = confirm clock states c.write_confirmations in
    let rooms = settle_rooms clock states (record c { write_confirmations = judged_writes.0 }) in
    if (judged_writes.1 || rooms.1) && notify_listeners then update_listeners rooms.0 else rooms.0

-- _async_wait_for_read_slot, at the time that the slot is free
unfoldable pub claim_slot : Clock → Coordinator → Coordinator
claim_slot clock c = record c { poller = claim_read_slot clock.monotonic c.poller }

unfoldable pub set_target_failing : Bool → RoomConfig → Coordinator → Coordinator
set_target_failing failing room c =
    set_runtime room (record (runtime_of c room) { target_read_failing = failing }) c

unfoldable pub target_applied :
    RoomConfig → RoomState → TargetReply → Coordinator → Coordinator × RoomState
unfolding set_target_failing
target_applied room state TargetReply.target_failed c = (set_target_failing true room c, state)
target_applied room state (TargetReply.target_read none) c =
    (set_target_failing false room c, state)
target_applied room state (TargetReply.target_read (some target)) c =
    (set_target_failing false room c, record state { balanced_target_readback = some target })

-- _read_balanced_target_if_pending
unfoldable pub read_balanced_target_if_pending :
    Clock → RoomConfig → RoomState → RoomState → TargetReply → Coordinator → Coordinator × RoomState
unfolding target_applied
read_balanced_target_if_pending clock room state previous target c =
    let prepared =
      prepare_balanced_target_readback clock c.write_confirmations room.key state previous in
    let c' = record c { write_confirmations = prepared.tracker } in
    if prepared.must_read
    then target_applied room prepared.state target (claim_slot clock c')
    else (c', prepared.state)

-- What the refresh reads: the state, and whether the read failed.
pub record Refreshed : Type 0 where
  pub coordinator : Coordinator
  pub state : RoomState
  pub failed : Bool

unfoldable pub refreshed_by :
    Clock → RoomConfig → RefreshPlan → RoomState → RoomReply → TargetReply → Coordinator → Refreshed
refreshed_by clock room plan previous (RoomReply.room_failed error) target c = record {
  coordinator = c;
  state = record_read_failures clock previous room plan error;
  failed = true;
}
refreshed_by clock room plan previous (RoomReply.room_read state outcome) target c =
    let read =
      if plan.refresh_airflow
      then read_balanced_target_if_pending clock room state previous target c
      else (c, state) in
    record { coordinator = read.0; state = read.1; failed = false }

-- async_set_updated_data, or the assignment after a failed update
unfoldable pub set_updated_data : Bool → List (String × RoomState) → Coordinator → Coordinator
set_updated_data failed states c = update_listeners (record c {
  safe_data = states;
  last_update_success = if failed && not c.last_update_success then false else true;
})

-- The end of the refresh, which publishes a state that differs.
unfoldable pub publish : Clock → RoomConfig → RoomState → Refreshed → Coordinator
publish clock room previous r =
    let states = insert string_discrete room.key r.state r.coordinator.safe_data in
    if decb (RoomState-discrete r.state previous)
    then confirm_pending_writes clock states true r.coordinator
    else set_updated_data r.failed states (confirm_pending_writes clock states false r.coordinator)

-- _async_refresh_room_after_write
unfoldable pub refresh_room_after_write :
    Clock → RoomConfig → RefreshPlan → RoomReply → TargetReply → Coordinator → Coordinator
unfolding refreshed_by publish
refresh_room_after_write clock room plan reply target c =
    let previous = cached_state c room.key in
    publish clock room previous
      (refreshed_by clock room plan previous reply target (claim_slot clock c))
