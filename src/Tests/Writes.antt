-- ===== src/Tests/Writes.antt =====
-- The write confirmations at concrete inputs.
use mathlib.Core.Option
use meltem_ha.Const.Groups.{
  ReadGroup-discrete, Setting, Setting-discrete, control_setting_limits, setting_name,
}
use meltem_ha.Const.Modes.{OperationMode, OperationMode-discrete}
use meltem_ha.ModbusHelpers.{normalize_control_setting, rounded_setting}
use meltem_ha.Models.Health.{health_eq}
use meltem_ha.Models.Room.{RoomState, read_health_for, setting_value}
use meltem_ha.Models.Writes.{
  WriteConfirmation, WriteKey, WriteKey-discrete, WriteStatus, WriteValue,
}
use meltem_ha.Prelude.{List, [], arith, inl, inr, none, refl, some, true, ◌∷◌, ◌≡◌, ◌≢◌, ◌≤◌}
use meltem_ha.Prelude.Assoc.{fill, insert, lookup, string_discrete}
use meltem_ha.Tests.Samples.{clock_at, healthy_at, manual_state, room}
use meltem_ha.WriteConfirmation.Judging.{
  by_health, by_readback, checked_confirmation, confirm_one, counted, is_base_mode_write, is_final,
  is_hidden_by_intensive, is_unhealthy, judged, readback_value, round_of, same_status, value_eq,
  values_match,
}
use meltem_ha.WriteConfirmation.Rounds.{confirm}
use meltem_ha.WriteConfirmation.Rounds.Settled.{after_round, outcome-confirm}
use meltem_ha.WriteConfirmation.Store.{
  WriteConfirmations, above, check_control_level_range, check_range, check_ranges,
  effective_setting, empty_write_confirmations, is_replaced, new_confirmation, of_room, outcome,
  refuse_above, status_set, supersede, supersede_all, supersede_room, unconfirmed_control_setting,
  unconfirmed_value,
}
use meltem_ha.WriteConfirmation.Store.Final.{Matched, checked_confirmation-Matched}
use meltem_ha.WriteConfirmation.Store.Issues.{
  Event, event_round, issues_reported, issues_reported-le,
}
use meltem_ha.WriteConfirmation.Store.Ranges.{InOrder, accepted, check_control_level_range-InOrder}
use meltem_ha.WriteConfirmation.Store.Superseding.{supersede-final}

abbrev manual_write : WriteConfirmation
manual_write =
    new_confirmation (clock_at 1000) (WriteValue.operation OperationMode.manual) (healthy_at 500)

readback_example : Matched manual_state WriteKey.operation_mode manual_write
unfolding checked_confirmation by_health by_readback judged same_status read_health_for values_match
    value_eq lookup readback_value health_eq is_final is_hidden_by_intensive fill insert
    ReadGroup-discrete OperationMode-discrete
readback_example =
    checked_confirmation-Matched manual_state WriteKey.operation_mode manual_write
      (record manual_write {
        status = WriteStatus.confirmed;
        actual_value = some (WriteValue.operation OperationMode.manual);
      })
      refl refl

-- A failed read, a readback of another mode and a status that is set.
abbrev events : List Event
events =
    Event.judged_by (clock_at 3000)
      (record manual_state { operation_mode = some OperationMode.off })
    ∷ Event.set_to WriteStatus.failed (some "busy") none
    ∷ []

one_issue : issues_reported WriteKey.operation_mode events manual_write ≡ 1
unfolding issues_reported event_round confirm_one round_of counted checked_confirmation by_health
    by_readback judged same_status read_health_for values_match value_eq lookup readback_value
    health_eq status_set is_final is_unhealthy fill insert ReadGroup-discrete is_hidden_by_intensive
    OperationMode-discrete
one_issue = refl

issues_example : issues_reported WriteKey.operation_mode events manual_write ≤ 1
issues_example = issues_reported-le WriteKey.operation_mode events manual_write

abbrev tracker : WriteConfirmations
tracker = record empty_write_confirmations {
  by_room = ("slave_2", (WriteKey.operation_mode, manual_write) ∷ []) ∷ [];
}

preset_differs : WriteKey.operation_mode ≢ WriteKey.preset_mode
preset_differs e = ground arith

superseded_example : is_final WriteStatus.superseded ≡ true
unfolding outcome of_room supersede supersede_room supersede_all is_replaced insert lookup
    is_base_mode_write is_final string_discrete WriteKey-discrete
superseded_example =
    supersede-final tracker "slave_2" WriteKey.preset_mode WriteKey.operation_mode
      (record manual_write { status = WriteStatus.superseded }) refl refl preset_differs refl

abbrev levels_state : RoomState
levels_state = record manual_state { co2_min_level = some 20; co2_max_level = some 80 }

ranges_example :
    InOrder
      (effective_setting
        (accepted (clock_at 3000) tracker room Setting.co2_min_level 60 (healthy_at 2000))
        "slave_2"
        levels_state
        Setting.co2_min_level)
      (effective_setting
        (accepted (clock_at 3000) tracker room Setting.co2_min_level 60 (healthy_at 2000))
        "slave_2"
        levels_state
        Setting.co2_max_level)
unfolding check_control_level_range check_ranges check_range normalize_control_setting
    rounded_setting control_setting_limits setting_name effective_setting
    unconfirmed_control_setting unconfirmed_value outcome of_room lookup refuse_above above
    setting_value Setting-discrete string_discrete WriteKey-discrete
ranges_example =
    check_control_level_range-InOrder (clock_at 3000) tracker room levels_state 60 60
      (healthy_at 2000) Setting.co2_min_level Setting.co2_min_level Setting.co2_max_level refl refl
      (inr (inl refl)) (inl refl)

confirm_example :
    outcome
      (confirm (clock_at 3000) (("slave_2", manual_state) ∷ []) tracker).0
      "slave_2"
      WriteKey.operation_mode
    ≡ Option.map
        (after_round
          (clock_at 3000)
          (lookup string_discrete "slave_2" (("slave_2", manual_state) ∷ []))
          WriteKey.operation_mode)
        (outcome tracker "slave_2" WriteKey.operation_mode)
confirm_example =
    outcome-confirm (clock_at 3000) (("slave_2", manual_state) ∷ []) tracker "slave_2"
      WriteKey.operation_mode
