-- ===== src/WriteConfirmation/Balanced.antt =====
-- write_confirmation.py: whether register 41121 must be read to confirm a balanced airflow write,
-- and how long its last readback stands.
use meltem_ha.Const.Groups.{ReadGroup}
use meltem_ha.Const.Modes.{OperationMode, OperationMode-discrete}
use meltem_ha.Levels.{levels_reached, measured_pair}
use meltem_ha.Models.Health.{Clock}
use meltem_ha.Models.Room.{RoomState}
use meltem_ha.Models.Writes.{WriteKey}
use meltem_ha.Prelude.{
  Bool, Option, String, contains, decb, false, if◌then◌else◌, is_some, none, not, option_eq, some,
  true, ℕ, ◌&&◌, ◌==◌, ◌||◌, ◌∷◌,
}
use meltem_ha.ReadHealth.{group_fresh}
use meltem_ha.WriteConfirmation.Judging.{is_true}
use meltem_ha.WriteConfirmation.Store.{
  WriteConfirmations, discard, has_recent_write, needs_confirmation,
}

unfoldable pub flow_reached_readback : Clock → RoomState → RoomState → ℕ → Bool
flow_reached_readback clock state previous readback =
    group_fresh clock state ReadGroup.flow
    && (levels_reached (measured_pair state) (readback, readback)
        || levels_reached (measured_pair previous) (readback, readback))

-- The airflow has left the readback and reached the coarse target.
left_for_target : RoomState → ℕ → Option ℕ → Bool
left_for_target state readback none = false
left_for_target state readback (some target) =
    is_some state.supply_air_flow
    && (is_some state.extract_air_flow
        && (not (levels_reached (measured_pair state) (readback, readback))
            && levels_reached (measured_pair state) (target, target)))

unfoldable pub balanced_readback_superseded_by_flow :
    Clock → RoomState → RoomState → ℕ → Bool → Bool
unfolding left_for_target
balanced_readback_superseded_by_flow clock state previous readback recent_write =
    group_fresh clock state ReadGroup.flow
    && (left_for_target state readback state.target_level
        && (not recent_write || levels_reached (measured_pair previous) (readback, readback)))

-- `state.operation_mode not in (MANUAL, OFF)`
unfoldable pub is_balanced_mode : Option OperationMode → Bool
is_balanced_mode (some OperationMode.manual) = true
is_balanced_mode (some OperationMode.off) = true
is_balanced_mode _ = false

abbrev mode_eq : Option OperationMode → Option OperationMode → Bool
mode_eq = option_eq (λ a b. decb (OperationMode-discrete a b))

-- Whether the last readback still describes the room.
unfoldable pub readback_stands :
    Clock → WriteConfirmations → String → RoomState → RoomState → ℕ → Bool
readback_stands clock w room_key state previous readback =
    mode_eq state.operation_mode previous.operation_mode
    && (not (is_some state.preset_mode)
        && (option_eq ◌==◌ state.target_level previous.target_level
            && not (
                balanced_readback_superseded_by_flow clock state previous readback (
                  has_recent_write clock w room_key WriteKey.airflow_levels
                  && not (contains room_key w.balanced_flow_converged)))))

-- What `prepare_balanced_target_readback` leaves: the tracker, the state, and whether to read.
pub record Prepared : Type 0 where
  pub tracker : WriteConfirmations
  pub state : RoomState
  pub must_read : Bool

-- self._balanced_flow_converged.add(room_key), a set
unfoldable pub add_converged : String → WriteConfirmations → WriteConfirmations
add_converged room_key w = record w {
  balanced_flow_converged =
      if contains room_key w.balanced_flow_converged
      then w.balanced_flow_converged
      else room_key ∷ w.balanced_flow_converged;
}

unfoldable pub drop_converged : String → WriteConfirmations → WriteConfirmations
drop_converged room_key w = record w {
  balanced_flow_converged = discard room_key w.balanced_flow_converged;
}

-- The branch without a write to confirm.
unfoldable pub without_write :
    Clock → WriteConfirmations → String → RoomState → RoomState → Option ℕ → Prepared
unfolding readback_stands add_converged drop_converged
without_write clock w room_key state previous none = record {
  tracker = drop_converged room_key w;
  state = state;
  must_read = false;
}
without_write clock w room_key state previous (some readback) =
    let w' =
      if flow_reached_readback clock state previous readback then add_converged room_key w else w in
    if readback_stands clock w' room_key state previous readback
    then record {
      tracker = w';
      state = record state { balanced_target_readback = some readback };
      must_read = false;
    }
    else record { tracker = drop_converged room_key w'; state = state; must_read = false }

unfoldable pub prepare_balanced_target_readback :
    Clock → WriteConfirmations → String → RoomState → RoomState → Prepared
unfolding without_write is_balanced_mode
prepare_balanced_target_readback clock w room_key state previous =
    if not (group_fresh clock state ReadGroup.flow_control)
      || (is_true state.intensive_active || not (is_balanced_mode state.operation_mode))
    then record { tracker = w; state = state; must_read = false }
    else if not (needs_confirmation clock w room_key WriteKey.airflow_levels)
    then without_write clock w room_key state previous previous.balanced_target_readback
    else record { tracker = w; state = state; must_read = true }
