-- ===== src/Coordinator/Availability.antt =====
-- coordinator.py: whether a room still delivers data. `silent_for` is what the client's
-- `seconds_since_successful_read` returns for the unit of the room.
use meltem_ha.Const.Groups.{ReadGroup, read_group_entity_keys}
use meltem_ha.Coordinator.Poller.{room_silent_after}
use meltem_ha.Coordinator.State.{
  Coordinator, RoomRuntime, cached_state, known_state, room_state, runtime_of,
}
use meltem_ha.Models.Config.{RoomConfig, supports_any}
use meltem_ha.Models.Health.{Clock, ReadHealth}
use meltem_ha.Models.Room.{RoomState, has_data}
use meltem_ha.Prelude.{
  Bool, List, Option, String, [], any, false, if◌then◌else◌, is_some, leb, ltb, max, none, not,
  some, true, ℕ, ◌&&◌, ◌∷◌,
}
use meltem_ha.ReadHealth.{data_health_stale, group_available, group_fresh, group_stale}
use meltem_ha.WriteConfirmation.Store.{has_any, unhealthy}

abbrev pub room_unavailable_after : ℕ
room_unavailable_after = 3

pub data UnavailableReason : Type 0 where
  read_failures : ℕ → UnavailableReason
  silence : UnavailableReason

unfoldable pub silence_reason : Option ℕ → Option UnavailableReason
silence_reason none = none
silence_reason (some silent_for) =
    if ltb room_silent_after silent_for then some UnavailableReason.silence else none

unfoldable pub room_unavailable_reason : Option ℕ → RoomRuntime → Option UnavailableReason
unfolding silence_reason
room_unavailable_reason silent_for runtime =
    if leb room_unavailable_after runtime.read_failures
    then some (UnavailableReason.read_failures runtime.read_failures)
    else silence_reason silent_for

unfoldable pub usable : Option RoomState → Bool
usable none = false
usable (some state) = has_data state

unfoldable pub room_available : Option ℕ → RoomConfig → Coordinator → Bool
unfolding usable
room_available silent_for room c =
    not (is_some (room_unavailable_reason silent_for (runtime_of c room)))
    && usable (room_state c room.key)

-- `any(health.last_attempt for _, health in state.group_read_health)`
unfoldable pub any_attempt : List (ReadGroup × ReadHealth) → Bool
any_attempt healths = any (λ e. is_some e.1.last_attempt) healths

unfoldable pub attempted : Option RoomState → Bool
unfolding any_attempt
attempted none = false
attempted (some state) = any_attempt state.group_read_health

unfoldable pub room_connectivity : Option ℕ → RoomConfig → Coordinator → Option Bool
unfolding attempted
room_connectivity silent_for room c =
    if not (attempted (known_state c room.key))
    then none
    else some (room_available silent_for room c)

unfoldable pub latest : Option ℕ → Option ℕ → Option ℕ
latest none b = b
latest (some a) none = some a
latest (some a) (some b) = some (max a b)

-- The successful reads of the groups that the room supports.
unfoldable pub latest_read : RoomConfig → List (ReadGroup × ReadHealth) → Option ℕ
unfolding latest
latest_read room [] = none
latest_read room ((group, health) ∷ healths) =
    let rest = latest_read room healths in
    if supports_any room (read_group_entity_keys group)
    then latest health.last_successful_read rest
    else rest

unfoldable pub last_successful_room_update : RoomConfig → Coordinator → Option ℕ
unfolding latest_read
last_successful_room_update room c = latest_read room (cached_state c room.key).group_read_health

-- _log_room_availability: the flag that lets each change be logged once.
unfoldable pub log_room_availability : Option ℕ → RoomState → RoomRuntime → RoomRuntime
log_room_availability silent_for state runtime =
    if is_some (room_unavailable_reason silent_for runtime)
    then record runtime { unavailable_logged = true }
    else if has_data state
    then record runtime { unavailable_logged = false }
    else runtime

-- read_group_available, read_group_stale and read_group_fresh
unfoldable pub room_group_available : Clock → Coordinator → String → ReadGroup → Bool
room_group_available clock c room_key group = elim (room_state c room_key) [
  | none ↦ false
  | some state ↦ group_available clock state group
]

unfoldable pub room_group_stale : Clock → Coordinator → String → ReadGroup → Option Bool
room_group_stale clock c room_key group = elim (room_state c room_key) [
  | none ↦ none
  | some state ↦ group_stale clock state group
]

unfoldable pub room_group_fresh : Clock → Coordinator → String → ReadGroup → Bool
room_group_fresh clock c room_key group = elim (room_state c room_key) [
  | none ↦ false
  | some state ↦ group_fresh clock state group
]

-- MeltemDataUpdateCoordinator.data_health_stale
unfoldable pub room_health_stale : Clock → Coordinator → String → Option Bool
room_health_stale clock c room_key =
    data_health_stale clock (room_state c room_key) (unhealthy clock c.write_confirmations room_key)
      (has_any c.write_confirmations room_key)
