-- ===== src/Tests/Coordination.antt =====
-- The coordinator at concrete inputs.
use meltem_ha.Const.Groups.{ReadGroup, ReadGroup-discrete, read_group_entity_keys}
use meltem_ha.Const.Modes.{Direction, PresetMode}
use meltem_ha.Coordinator.Availability.{room_available}
use meltem_ha.Coordinator.Commands.{
  CommandEnd, Exchange, WriteReply, checked_write, confirmed_expected, range_checked, write_ended,
  write_with_confirmation,
}
use meltem_ha.Coordinator.Commands.Judged.{failure_of_write, write_with_confirmation_failed}
use meltem_ha.Coordinator.Commands.ReadBack.{
  ReadInto, finished_outcome, write_with_confirmation_judged,
}
use meltem_ha.Coordinator.Jobs.{TickInput}
use meltem_ha.Coordinator.Jobs.Failures.{Missed, run_jobs, run_jobs-Unanswered}
use meltem_ha.Coordinator.Readbacks.{RoomReply, TargetReply}
use meltem_ha.Coordinator.Requests.{
  Command, command_levels, direction_planned, fallback_after, pending_or_resolved, run_command,
  set_direction_level, set_level, write_planned,
}
use meltem_ha.Coordinator.Requests.Sent.{sent_level, set_direction_level-Sends}
use meltem_ha.Coordinator.Resolved.{
  after_uncertain, flow_write_uncertain, mark_stands, pair_or_none, reported_of, resolve_levels,
  resolved_with,
}
use meltem_ha.Coordinator.State.{
  ClientWrite, Coordinator, cached_state, group_health, new_coordinator, new_runtime, room_state,
  runtime_of, runtime_or, set_runtime, state_or,
}
use meltem_ha.Coordinator.Unfinished.{unfinished_writes}
use meltem_ha.Coordinator.Unfinished.Steps.{Running, Running-unfinished_writes}
use meltem_ha.Levels.{plan_direction_write, plan_other}
use meltem_ha.Models.Config.{supports, supports_any}
use meltem_ha.Models.Plan.{RefreshPlan}
use meltem_ha.Models.Writes.{WriteKey, WriteValue}
use meltem_ha.Overlay.{active, empty_overlay, get, pending_shown, read_since_set}
use meltem_ha.Polling.{airflow_refresh_plan}
use meltem_ha.Prelude.{
  [], arith, false, home_assistant_error, none, refl, some, true, ◌++◌, ◌∷◌, ◌≡◌, ◌≤◌,
}
use meltem_ha.Prelude.Assoc.{fill, insert, lookup, string_discrete}
use meltem_ha.ReadHealth.{has_error, job_read_failure, job_read_groups, job_read_received_values}
use meltem_ha.Tests.Samples.{clock_at, manual_state, room, small_room}
use meltem_ha.WriteConfirmation.Judging.{confirm_one, write_group}
use meltem_ha.WriteConfirmation.Store.{new_confirmation, outcome}

abbrev start : Coordinator
start = record (new_coordinator (room ∷ small_room ∷ []) 100 0) {
  safe_data = ("slave_2", manual_state) ∷ [];
}

abbrev exchange : WriteReply → Exchange
exchange reply = record {
  clock = clock_at 3000;
  write = reply;
  later = clock_at 3500;
  refresh = RoomReply.room_failed "no answer";
  target = TargetReply.target_failed;
}

no_two_writes_example :
    unfinished_writes
      (run_command
        (exchange (WriteReply.written none))
        room
        (Command.level 50)
        (new_coordinator (room ∷ []) 100 0)).0.write_confirmations
      "slave_2"
    ≤ 1
no_two_writes_example =
    Running-unfinished_writes
      (run_command (exchange (WriteReply.written none)) room (Command.level 50)
        (new_coordinator (room ∷ []) 100 0)).0
      "slave_2"
      (Running.commanded (new_coordinator (room ∷ []) 100 0) (exchange (WriteReply.written none))
        room (Command.level 50) (Running.created (room ∷ []) 100 0))

refusal_example :
    let r =
      write_with_confirmation
        (exchange (WriteReply.write_failed "busy"))
        room
        WriteKey.airflow_levels
        (WriteValue.pair 40 50)
        (ClientWrite.write_unbalanced_levels 40 50)
        false
        false
        start in
    (r.1 ≡ CommandEnd.raised (home_assistant_error "write_failed"))
    × (outcome r.0.write_confirmations "slave_2" WriteKey.airflow_levels
        ≡ some (
            failure_of_write
              (clock_at 3000)
              (WriteValue.pair 40 50)
              (group_health start "slave_2" ReadGroup.flow_control)
              "busy"))
unfolding range_checked write_group
refusal_example =
    write_with_confirmation_failed (exchange (WriteReply.write_failed "busy")) room
      WriteKey.airflow_levels (WriteValue.pair 40 50) (ClientWrite.write_unbalanced_levels 40 50)
      false false start "busy" refl refl

readback_result_example :
    let x = exchange (WriteReply.written none) in
    let r =
      write_with_confirmation x room WriteKey.preset_mode
        (WriteValue.preset PresetMode.low)
        (ClientWrite.write_preset_mode PresetMode.low)
        true
        false
        start in
    (r.1 ≡ CommandEnd.returned)
    × (outcome r.0.write_confirmations "slave_2" WriteKey.preset_mode
        ≡ some (
            finished_outcome
              (confirm_one (clock_at 3500) (cached_state r.0 "slave_2") WriteKey.preset_mode (
                new_confirmation
                  (clock_at 3000)
                  (confirmed_expected false none (WriteValue.preset PresetMode.low))
                  (group_health start "slave_2" (write_group WriteKey.preset_mode)))).confirmation))
    × ReadInto
        (RoomReply.room_failed "no answer")
        (cached_state start "slave_2")
        (cached_state r.0 "slave_2")
unfolding range_checked
readback_result_example =
    write_with_confirmation_judged (exchange (WriteReply.written none)) room WriteKey.preset_mode
      (WriteValue.preset PresetMode.low) (ClientWrite.write_preset_mode PresetMode.low) false start
      none refl refl

abbrev unread : Coordinator
unread = new_coordinator (room ∷ []) 100 0

direction_returns :
    (set_direction_level (exchange (WriteReply.written none)) room Direction.supply 30 unread).1
    ≡ CommandEnd.returned
unfolding set_direction_level flow_write_uncertain mark_stands runtime_of runtime_or room_state
    cached_state state_or after_uncertain command_levels pending_or_resolved get pending_shown
    resolve_levels resolved_with reported_of plan_direction_write plan_other direction_planned
    write_planned fallback_after set_level write_with_confirmation checked_write range_checked
    write_ended new_coordinator lookup pair_or_none set_runtime active read_since_set empty_overlay
    fill insert string_discrete new_runtime
direction_returns = refl

direction_example :
    (call : ClientWrite) × (((set_direction_level
          (exchange (WriteReply.written none))
          room
          Direction.supply
          30
          unread).0.sent
        ≡ unread.sent ++ ("slave_2", call) ∷ [])
      × (sent_level Direction.supply call ≡ some 30))
direction_example =
    set_direction_level-Sends (exchange (WriteReply.written none)) room Direction.supply 30 unread
      direction_returns

abbrev silent_job : TickInput × RefreshPlan
silent_job = (
  record {
    clock = clock_at 4000;
    silent_before = none;
    reply = RoomReply.room_failed "no answer";
    target = TargetReply.target_failed;
    later = clock_at 4500;
    silent_after = none;
    optional_read = false;
    dues = [];
  },
  airflow_refresh_plan,
)

-- A job whose requests timed out, without a raised error
abbrev timed_out_job : TickInput × RefreshPlan
timed_out_job = (
  record silent_job.0 {
    reply = RoomReply.room_read manual_state (record {
      attempted_groups = ReadGroup.flow ∷ [];
      recorded_groups = ReadGroup.flow ∷ [];
      errors = (ReadGroup.flow, "no answer") ∷ [];
      answered = false;
      value_groups = [];
      unit_success_groups = [];
      missing_sensor_values = [];
      sensor_values = [];
    });
  },
  airflow_refresh_plan,
)

timed_out_job-Missed : Missed room timed_out_job.1 timed_out_job.0.reply
unfolding job_read_failure job_read_groups supports_any read_group_entity_keys supports
    ReadGroup-discrete has_error lookup job_read_received_values
timed_out_job-Missed = (record { error = "no answer"; link_failure = true }, refl, refl, refl)

silent_room_example :
    room_available
      (some 0)
      room
      (run_jobs room (silent_job ∷ timed_out_job ∷ silent_job ∷ []) (start, start.safe_data)).0
    ≡ false
silent_room_example =
    run_jobs-Unanswered room (silent_job ∷ timed_out_job ∷ silent_job ∷ []) (start, start.safe_data)
      (some 0) (tt, (timed_out_job-Missed, (tt, tt))) (omega arith)
