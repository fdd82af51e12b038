-- ===== src/WriteConfirmation/Judging.antt =====
-- write_confirmation.py: how one readback judges one write.
use mathlib.Core.Option
use meltem_ha.Const.{write_confirmation_timeout, write_health_retention}
use meltem_ha.Const.Groups.{ReadGroup}
use meltem_ha.Const.Modes.{OperationMode, OperationMode-discrete, PresetMode-discrete}
use meltem_ha.Levels.{LevelPair, levels_reached, target_levels}
use meltem_ha.Models.Health.{Clock, health_eq}
use meltem_ha.Models.Room.{RoomState, read_health_for, setting_value}
use meltem_ha.Models.Writes.{WriteConfirmation, WriteKey, WriteStatus, WriteValue}
use meltem_ha.Prelude.{
  Bool, Option, String, bool_eq, decb, false, if◌then◌else◌, is_some, leb, ltb, none, not,
  option_eq, some, true, ◌&&◌, ◌-◌, ◌==◌, ◌||◌,
}

-- `write_key in _BASE_MODE_WRITES`
unfoldable pub is_base_mode_write : WriteKey → Bool
is_base_mode_write WriteKey.airflow_levels = true
is_base_mode_write WriteKey.operation_mode = true
is_base_mode_write WriteKey.preset_mode = true
is_base_mode_write _ = false

-- `write_key in _WRITES_HIDDEN_BY_INTENSIVE`
unfoldable pub is_hidden_by_intensive : WriteKey → Bool
is_hidden_by_intensive WriteKey.airflow_levels = true
is_hidden_by_intensive WriteKey.operation_mode = true
is_hidden_by_intensive _ = false

-- `status in _FINAL_STATUSES`
unfoldable pub is_final : WriteStatus → Bool
is_final WriteStatus.failed = true
is_final WriteStatus.confirmed = true
is_final WriteStatus.superseded = true
is_final _ = false

-- `status in _CONFIRMABLE_STATUSES`
unfoldable pub is_confirmable : WriteStatus → Bool
is_confirmable WriteStatus.pending = true
is_confirmable WriteStatus.unconfirmed = true
is_confirmable WriteStatus.mismatch = true
is_confirmable WriteStatus.unverifiable = true
is_confirmable _ = false

-- `status in _UNHEALTHY_STATUSES`
unfoldable pub is_unhealthy : WriteStatus → Bool
is_unhealthy WriteStatus.unconfirmed = true
is_unhealthy WriteStatus.mismatch = true
is_unhealthy WriteStatus.failed = true
is_unhealthy _ = false

abbrev pub is_pending : WriteStatus → Bool
is_pending WriteStatus.pending = true
is_pending _ = false

abbrev pub is_unverifiable : WriteStatus → Bool
is_unverifiable WriteStatus.unverifiable = true
is_unverifiable _ = false

-- The keys are those that this module knows, so the ValueError of another key does not arise.
unfoldable pub write_group : WriteKey → ReadGroup
write_group (WriteKey.control_setting _) = ReadGroup.control_settings
write_group _ = ReadGroup.flow_control

-- Whether a write has been awaiting its readback for too long.
unfoldable pub timed_out : Clock → WriteConfirmation → Bool
timed_out clock c = ltb write_confirmation_timeout (clock.utcnow - c.started_at)

unfoldable pub confirmation_status : Clock → WriteConfirmation → WriteStatus
unfolding timed_out
confirmation_status clock c =
    if is_pending c.status && timed_out clock c then WriteStatus.unconfirmed else c.status

-- _recent
unfoldable pub recent : Clock → WriteConfirmation → Bool
recent clock c = leb (clock.utcnow - c.started_at) write_health_retention

-- `==` of two write values: those of one key have one kind.
unfoldable pub value_eq : WriteValue → WriteValue → Bool
value_eq (WriteValue.operation a) (WriteValue.operation b) = decb (OperationMode-discrete a b)
value_eq (WriteValue.preset a) (WriteValue.preset b) = decb (PresetMode-discrete a b)
value_eq (WriteValue.level a) (WriteValue.level b) = a == b
value_eq (WriteValue.flag a) (WriteValue.flag b) = bool_eq a b
value_eq (WriteValue.pair a b) (WriteValue.pair c d) = a == c && b == d
value_eq _ _ = false

-- _values_match
unfoldable pub values_match : WriteKey → WriteValue → WriteValue → Bool
unfolding value_eq
values_match WriteKey.airflow_levels (WriteValue.pair supply extract) (WriteValue.pair s e) =
    levels_reached (some s, some e) (supply, extract)
values_match write_key expected actual = value_eq actual expected

pair_of : LevelPair → Option WriteValue
pair_of (some supply, some extract) = some (WriteValue.pair supply extract)
pair_of _ = none

airflow_readback : RoomState → Option OperationMode → Option WriteValue
unfolding pair_of
airflow_readback state (some OperationMode.manual) =
    pair_of (state.balanced_target_readback, state.balanced_target_readback)
airflow_readback state (some OperationMode.off) =
    pair_of (state.balanced_target_readback, state.balanced_target_readback)
airflow_readback state (some OperationMode.unbalanced) = pair_of (target_levels state false)
airflow_readback state _ = none

-- _readback_value
unfoldable pub readback_value : RoomState → WriteKey → Option WriteValue
unfolding airflow_readback
readback_value state WriteKey.airflow_levels = airflow_readback state state.operation_mode
readback_value state WriteKey.operation_mode = Option.map WriteValue.operation state.operation_mode
readback_value state WriteKey.preset_mode = Option.map WriteValue.preset state.preset_mode
readback_value state WriteKey.intensive = Option.map WriteValue.flag state.intensive_active
readback_value state (WriteKey.control_setting setting) =
    Option.map WriteValue.level (setting_value state setting)

-- `if state.intensive_active`
abbrev pub is_true : Option Bool → Bool
is_true (some true) = true
is_true _ = false

-- The status of a write whose group was read with this value.
unfoldable pub judged : WriteKey → WriteConfirmation → WriteValue → WriteStatus
judged write_key c actual =
    if values_match write_key c.expected_value actual
    then WriteStatus.confirmed
    else WriteStatus.mismatch

unfoldable pub same_status : WriteStatus → WriteStatus → Bool
same_status WriteStatus.confirmed WriteStatus.confirmed = true
same_status WriteStatus.mismatch WriteStatus.mismatch = true
same_status _ _ = false

-- The judgement by a readback; `none` where the outcome does not change.
unfoldable pub by_readback :
    WriteKey → WriteConfirmation → Option WriteValue → Option WriteConfirmation
unfolding judged same_status
by_readback write_key c none = none
by_readback write_key c (some actual) =
    if same_status c.status (judged write_key c actual)
      && option_eq value_eq c.actual_value (some actual)
    then none
    else some (record c {
      status = judged write_key c actual;
      actual_value = some actual;
      last_error = none;
    })

-- The judgement by a group that was read since the write.
unfoldable pub by_health :
    RoomState → WriteKey → WriteConfirmation → Option String → Option WriteConfirmation
unfolding by_readback
by_health state write_key c (some error) =
    if not (is_pending c.status)
    then none
    else some (record c { status = WriteStatus.unconfirmed; last_error = some error })
by_health state write_key c none =
    if is_hidden_by_intensive write_key && is_true state.intensive_active
    then if is_unverifiable c.status
      then none
      else some (record c { status = WriteStatus.unverifiable; last_error = none })
    else by_readback write_key c (readback_value state write_key)

-- _checked_confirmation
unfoldable pub checked_confirmation :
    RoomState → WriteKey → WriteConfirmation → Option WriteConfirmation
unfolding by_health is_final write_group
checked_confirmation state write_key c =
    let read_health = read_health_for state (write_group write_key) in
    if is_final c.status
    then none
    else if not (is_some read_health.last_attempt) || health_eq read_health c.baseline
    then none
    else by_health state write_key c read_health.last_error

-- A write after a round of `confirm`, the issue that the round reports for it, and whether the
-- round changed it.
pub record Round : Type 0 where
  pub confirmation : WriteConfirmation
  pub issue : Option WriteStatus
  pub changed : Bool

unfoldable pub counted : WriteConfirmation → WriteConfirmation → Round
unfolding is_unhealthy
counted c checked =
    if is_unhealthy checked.status && not c.issue_counted
    then record {
      confirmation = record checked { issue_counted = true };
      issue = some checked.status;
      changed = true;
    }
    else record { confirmation = checked; issue = none; changed = true }

unfoldable pub overdue : Clock → WriteConfirmation → Round
unfolding timed_out
overdue clock c =
    if is_pending c.status && (not c.issue_counted && timed_out clock c)
    then record {
      confirmation = record c { issue_counted = true };
      issue = some WriteStatus.unconfirmed;
      changed = true;
    }
    else record { confirmation = c; issue = none; changed = false }

unfoldable pub round_of : Clock → WriteConfirmation → Option WriteConfirmation → Round
unfolding counted overdue
round_of clock c (some checked) = counted c checked
round_of clock c none = overdue clock c

-- The body of `confirm` for one write.
unfoldable pub confirm_one : Clock → RoomState → WriteKey → WriteConfirmation → Round
unfolding round_of
confirm_one clock state write_key c = round_of clock c (checked_confirmation state write_key c)
