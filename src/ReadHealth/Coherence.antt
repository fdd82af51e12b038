-- ===== src/ReadHealth/Coherence.antt =====
-- read_health.py: fresh, available and stale agree with each other, and fail together.

use meltem_ha.Const.Groups.{ReadGroup, is_optional_group}
use meltem_ha.Models.Health.{Clock, ReadHealth, failed}
use meltem_ha.Models.Room.{RoomState, with_read_health}
use meltem_ha.Models.Room.Recorded.{read_health_for-with_read_health_self}
use meltem_ha.Prelude.{
  Bool, String, arith, false, if◌then◌else◌, is_some, none, not, some, true, ℕ, ◌&&◌, ◌≡◌, ◌≢◌,
}
use meltem_ha.ReadHealth.{
  group_available, group_fresh, group_stale, last_attempt_succeeded, unsupported_optional_group,
}

-- A fresh group is available, and is reported not stale.
pub group_fresh_lem :
    (clock : Clock) (state : RoomState) (g : ReadGroup)
    → group_fresh clock state g ≡ true
    → (group_available clock state g ≡ true) × (group_stale clock state g ≡ some false)
unfolding group_fresh group_available group_stale last_attempt_succeeded unsupported_optional_group
group_fresh_lem clock state g h = ground arith

-- An available group is never reported stale.
pub group_available-group_stale :
    (clock : Clock) (state : RoomState) (g : ReadGroup)
    → group_available clock state g ≡ true
    → group_stale clock state g ≢ some true
unfolding group_available group_stale unsupported_optional_group
group_available-group_stale clock state g h = ground arith

-- Three failed reads in a row, whatever was recorded before.
abbrev pub failed_three : ReadHealth → ℕ → String → Bool → ReadHealth
failed_three h at error timed_out =
    failed (failed (failed h at error timed_out) at error timed_out) at error timed_out

-- After three failed reads in a row a group is neither fresh nor available, and it is reported
-- stale, unless it is an optional diagnostic group that the unit never delivered and refused.
pub failed_three_lem :
    (clock : Clock) (state : RoomState) (g : ReadGroup) (h : ReadHealth) (at : ℕ) (error : String)
    (timed_out : Bool)
    → let after = with_read_health state g (failed_three h at error timed_out) in
      (group_fresh clock after g ≡ false)
      × (group_available clock after g ≡ false)
      × (group_stale clock after g ≡ (
          if is_optional_group g && (not (is_some h.last_successful_read) && not timed_out)
          then none
          else some true))
unfolding group_fresh group_available group_stale last_attempt_succeeded unsupported_optional_group
    failed
failed_three_lem clock state g h at error timed_out =
    rw (read_health_for-with_read_health_self state g (failed_three h at error timed_out))
      (ground arith)
