-- ===== src/Overlay.antt =====
-- overlay.py: a pending write that is shown until a readback confirms it or its window expires.
-- The scheduled expiry calls are a dictionary of their times, the calls of `on_change` a count.
pub mod Pairing
pub mod Shown
use meltem_ha.Const.Groups.{ReadGroup}
use meltem_ha.Models.Health.{Clock, ReadHealth}
use meltem_ha.Models.Plan.{read_groups}
use meltem_ha.Models.Room.{RoomState, empty_room_state, read_health_for}
use meltem_ha.Prelude.{
  Bool, List, Option, String, [], false, if◌then◌else◌, is_some, leb, map, none, some, true, ℕ, ◌+◌,
  ◌||◌, ◌∷◌,
}
use meltem_ha.Prelude.Assoc.{insert, lookup, remove, string_discrete}
use meltem_ha.ReadHealth.{read_since}

-- `T` is the type of the pending value.
pub record Overlay (T : Type 0) : Type 0 where
  pub pending : List (String × (T × ℕ))
  pub baseline : List (String × List ReadHealth)
  pub expiries : List (String × ℕ)
  pub changes : ℕ

-- What the constructor takes: `C` is the type of the value that a readback reports.
pub record Settings (T C : Type 0) : Type 0 where
  pub ttl : ℕ
  pub matches : C → T → Bool
  pub read_groups : List ReadGroup
  pub state_fn : String → Option RoomState

unfoldable pub empty_overlay : {T : Type 0} → Overlay T
empty_overlay = record { pending = []; baseline = []; expiries = []; changes = 0 }

-- self._state_fn(room_key) or EMPTY_ROOM_STATE
state_or_empty : Option RoomState → RoomState
state_or_empty none = empty_room_state
state_or_empty (some state) = state

-- _stop_expiry
unfoldable pub stop_expiry : {T : Type 0} → String → Overlay T → Overlay T
stop_expiry room_key o = record o { expiries = remove string_discrete room_key o.expiries }

-- `if self._pending.pop(room_key, None) is not None: self._on_change()`
unfoldable pub drop_pending : {T : Type 0} → String → Overlay T → Overlay T
drop_pending room_key o = record o {
  pending = remove string_discrete room_key o.pending;
  changes =
      if is_some (lookup string_discrete room_key o.pending) then o.changes + 1 else o.changes;
}

unfoldable pub drop_baseline : {T : Type 0} → String → Overlay T → Overlay T
drop_baseline room_key o = record o { baseline = remove string_discrete room_key o.baseline }

unfoldable pub set : {T C : Type 0} → Settings T C → Clock → String → T → Overlay T → Overlay T
unfolding stop_expiry state_or_empty
set s clock room_key value o =
    let state = state_or_empty (s.state_fn room_key) in
    let o' = stop_expiry room_key o in
    record {
      pending = insert string_discrete room_key (value, clock.monotonic + s.ttl) o'.pending;
      baseline =
          insert string_discrete room_key (map (read_health_for state) s.read_groups) o'.baseline;
      expiries = insert string_discrete room_key (clock.monotonic + s.ttl) o'.expiries;
      changes = o'.changes + 1;
    }

unfoldable pub clear : {T : Type 0} → String → Overlay T → Overlay T
unfolding drop_baseline
clear room_key o = drop_pending room_key (drop_baseline room_key (stop_expiry room_key o))

-- The scheduled call.
unfoldable pub expire : {T : Type 0} → String → Overlay T → Overlay T
unfolding drop_baseline
expire room_key o = drop_pending room_key (drop_baseline room_key (stop_expiry room_key o))

unfoldable pub any_read_since : Clock → RoomState → List ReadGroup → List ReadHealth → Bool
any_read_since clock state (g ∷ groups) (health ∷ baseline) =
    if read_since clock state g health then true else any_read_since clock state groups baseline
any_read_since clock state _ _ = false

read_since_baseline : Clock → List ReadGroup → Option RoomState → Option (List ReadHealth) → Bool
read_since_baseline clock groups (some state) (some baseline) =
    any_read_since clock state groups baseline
read_since_baseline clock groups _ _ = false

unfoldable pub read_since_set :
    {T C : Type 0} → Settings T C → Clock → String → Option RoomState → Overlay T → Bool
unfolding read_since_baseline
read_since_set s clock room_key state o =
    read_since_baseline clock s.read_groups state (lookup string_discrete room_key o.baseline)

-- `confirmed is not None and self._matches(confirmed, value)`
unfoldable pub confirms : {T C : Type 0} → Settings T C → Option C → T → Bool
confirms s none value = false
confirms s (some confirmed) value = s.matches confirmed value

unfoldable pub pending_shown :
    {T C : Type 0} → Settings T C → Clock → Option C → Option (T × ℕ) → Option T
pending_shown s clock confirmed none = none
pending_shown s clock confirmed (some (value, expires_at)) =
    if leb expires_at clock.monotonic || confirms s confirmed value then none else some value

unfoldable pub get :
    {T C : Type 0} → Settings T C → Clock → String → Option C → Overlay T → Option T
unfolding pending_shown
get s clock room_key confirmed o =
    pending_shown s clock confirmed (lookup string_discrete room_key o.pending)

unfoldable pub active :
    {T C : Type 0}
    → Settings T C
    → Clock
    → String
    → Option RoomState
    → Option C
    → Overlay T
    → Option T
active s clock room_key state confirmed o =
    get s clock room_key (if read_since_set s clock room_key state o then confirmed else none) o

unfoldable pub settles : {T C : Type 0} → Settings T C → Option C → Option (T × ℕ) → Bool
settles s confirmed none = false
settles s confirmed (some (value, expires_at)) = confirms s confirmed value

-- What `settle` leaves when it drops the value.
unfoldable pub settled : {T : Type 0} → String → Overlay T → Overlay T
unfolding drop_baseline
settled room_key o = record (drop_baseline room_key (stop_expiry room_key o)) {
  pending = remove string_discrete room_key o.pending;
}

unfoldable pub settle :
    {T C : Type 0} → Settings T C → String → Option C → Overlay T → Overlay T × Bool
unfolding settles
settle s room_key confirmed o =
    if settles s confirmed (lookup string_discrete room_key o.pending)
    then (settled room_key o, true)
    else (o, false)

unfoldable pub settle_if_read :
    {T C : Type 0}
    → Settings T C
    → Clock
    → String
    → Option RoomState
    → Option C
    → Overlay T
    → Overlay T × Bool
settle_if_read s clock room_key state confirmed o =
    if read_since_set s clock room_key state o then settle s room_key confirmed o else (o, false)

-- Every scheduled call is cancelled.
unfoldable pub shutdown : {T : Type 0} → Overlay T → Overlay T
shutdown o = record { pending = []; baseline = []; expiries = []; changes = o.changes }
