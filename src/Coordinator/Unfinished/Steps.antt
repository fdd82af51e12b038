-- ===== src/Coordinator/Unfinished/Steps.antt =====
-- coordinator.py: a room never has two unfinished base mode writes, whatever happens.
use meltem_ha.Const.Modes.{PresetMode}
use meltem_ha.Coordinator.Commands.{Exchange}
use meltem_ha.Coordinator.Jobs.{
  TickInput, error_of, failures_after_answer, finish_job, job_answered, job_ended, job_unanswered,
  read_one_job, target_of_job,
}
use meltem_ha.Coordinator.Poller.{
  Poller, Selection, move_job, next_interval, on_transport_failure, on_transport_success,
  schedule_next_tick, select_poll_job,
}
use meltem_ha.Coordinator.Readbacks.{
  RoomReply, claim_slot, confirm_pending_writes, read_balanced_target_if_pending,
}
use meltem_ha.Coordinator.Requests.{Command, run_command}
use meltem_ha.Coordinator.State.{Coordinator, new_coordinator, runtime_of, set_runtime, state_or}
use meltem_ha.Coordinator.Unfinished.{OneUnfinished-Finishes, unfinished, unfinished_writes}
use meltem_ha.Coordinator.Unfinished.Readbacks.{
  Ends, confirm_pending_writes-Ends, ends_refl, ends_trans, read_balanced_target-Ends,
}
use meltem_ha.Coordinator.Unfinished.Requests.{run_command-KeepsOne}
use meltem_ha.Coordinator.Unfinished.Writes.{KeepsOne}
use meltem_ha.Coordinator.Updates.{
  UpdateEnd, after_update, any_data, begin_job, failed_update, idle_update, is_empty_dict,
  judge_transport, room_of_job, run_found, run_job, settle_job, states_to_read, take_data,
  update_data, update_with, with_poller,
}
use meltem_ha.Models.Config.{RoomConfig}
use meltem_ha.Models.Plan.{RefreshPlan}
use meltem_ha.Models.Room.{RoomState, empty_room_state}
use meltem_ha.Overlay.{Overlay}
use meltem_ha.Polling.{PollJob, never_read}
use meltem_ha.Prelude.{
  Bool, List, Option, String, [], arith, false, if_both, if◌then◌else◌, is_some, none, not, some, ℕ,
  ◌&&◌, ◌++◌, ◌+◌, ◌||◌, ◌∷◌, ◌≤◌,
}
use meltem_ha.Prelude.Assoc.{lookup, string_discrete}
use meltem_ha.ReadHealth.{
  job_read_attempted, job_read_failure, job_read_succeeded, job_read_unanswered,
}
use meltem_ha.WriteConfirmation.Store.{confirmations_or_empty, of_room, outcome}

-- The coordinators that commands, ticks and the expiry calls of the overlays lead to.
pub data Running : Coordinator → Type 0 where
  created : (rooms : List RoomConfig) (tick now : ℕ) → Running (new_coordinator rooms tick now)
  commanded :
      (c : Coordinator) (x : Exchange) (room : RoomConfig) (command : Command)
      → Running c
      → Running (run_command x room command c).0
  ticked : (c : Coordinator) (x : TickInput) → Running c → Running (update_data x c).0
  expired :
      (c : Coordinator) (presets : Overlay PresetMode) (intensive : Overlay Bool)
      (levels : Overlay (ℕ × ℕ))
      → Running c
      → Running (record c { presets = presets; intensive = intensive; levels = levels })
  rescheduled :
      (c : Coordinator) (poller : Poller) → Running c → Running (record c { poller = poller })

ended_job-Ends :
    (x : TickInput) (room : RoomConfig) (plan : RefreshPlan) (previous : RoomState)
    (reply : RoomReply) (c : Coordinator)
    → Ends c (job_ended x room plan previous reply c).coordinator
unfolding job_ended job_unanswered job_answered target_of_job set_runtime
ended_job-Ends x room plan previous (RoomReply.room_failed e) c = ends_refl c.write_confirmations
ended_job-Ends x room plan previous (RoomReply.room_read state outcome) c =
    let c' =
      set_runtime room
        (record (runtime_of c room) {
          read_failures = failures_after_answer room outcome plan (runtime_of c room).read_failures;
        })
        (record c {
          last_job_error = error_of (job_read_failure room outcome plan);
          last_job_link_failure = job_read_unanswered room outcome plan;
          last_job_attempted = job_read_attempted room outcome plan;
          sensors_recorded = c.sensors_recorded ++ (room.key, outcome) ∷ [];
        }) in
    if_both (λ (r : Coordinator × RoomState). Ends c r.0)
      (not (is_some (job_read_failure room outcome plan))
        && (job_read_succeeded room outcome plan && plan.refresh_airflow))
      (read_balanced_target_if_pending x.later room state previous x.target c') (c', state)
      (λ _. read_balanced_target-Ends x.later room state previous x.target c')
      (λ _. ends_refl c.write_confirmations)

read_one_job-Ends :
    (x : TickInput) (room : RoomConfig) (plan : RefreshPlan) (states : List (String × RoomState))
    (c : Coordinator)
    → Ends c (read_one_job x room plan states c).0
unfolding read_one_job finish_job set_runtime
read_one_job-Ends x room plan states c =
    ended_job-Ends x room plan (state_or (lookup string_discrete room.key states) empty_room_state)
      x.reply c

judge_transport-Ends : (x : TickInput) (c : Coordinator) → Ends c (judge_transport x c)
unfolding judge_transport with_poller
judge_transport-Ends x c =
    let failed = with_poller on_transport_failure c in
    let succeeded = with_poller (on_transport_success x.later.monotonic x.dues) c in
    if_both (Ends c) c.last_job_link_failure failed (if c.last_job_attempted then succeeded else c)
      (λ _. ends_refl c.write_confirmations)
      (λ _.
        if_both (Ends c) c.last_job_attempted succeeded c (λ _. ends_refl c.write_confirmations)
          (λ _. ends_refl c.write_confirmations))

take_data-Ends :
    (x : TickInput) (states : List (String × RoomState)) (c : Coordinator)
    → Ends c (take_data x states c).0
unfolding take_data failed_update with_poller
take_data-Ends x states c =
    let started : Coordinator = record c { startup_states = states } in
    let c' = judge_transport x (record c { startup_states = [] }) in
    let c'' = confirm_pending_writes x.later states false c' in
    if_both (λ (r : Coordinator × UpdateEnd). Ends c r.0) (not (any_data states))
      (failed_update x started)
      (
        with_poller (schedule_next_tick x.later.monotonic x.dues)
            (record c'' { safe_data = states }),
        UpdateEnd.updated,
      )
      (λ _. judge_transport-Ends x started)
      (λ _.
        ends_trans _ c'.write_confirmations _
          (judge_transport-Ends x (record c { startup_states = [] }))
          (confirm_pending_writes-Ends x.later states false c'))

settle_job-Ends :
    (x : TickInput) (room : RoomConfig) (job : PollJob) (startup : Bool)
    (states : List (String × RoomState)) (c : Coordinator)
    → Ends c (settle_job x room job startup states c)
unfolding settle_job with_poller claim_slot
settle_job-Ends x room job startup states c =
    let never =
      never_read job room (state_or (lookup string_discrete room.key states) empty_room_state) in
    let claims = x.optional_read && not c.last_job_link_failure in
    let c' = if claims then claim_slot x.later c else c in
    let h : Ends c c' =
      if_both (Ends c) claims (claim_slot x.later c) c (λ _. ends_refl c.write_confirmations)
        (λ _. ends_refl c.write_confirmations) in
    if_both (Ends c) (startup || never)
      (with_poller
        (move_job job
          (x.later.monotonic + next_interval x.later.monotonic x.silent_after never job c'.poller))
        c')
      c' (λ _. h) (λ _. h)

run_job-Ends :
    (x : TickInput) (room : RoomConfig) (s : Selection) (job : PollJob) (c : Coordinator)
    → Ends c (run_job x room s job c).0
unfolding run_job begin_job
run_job-Ends x room s job c =
    let c' = begin_job x s job c in
    let read = read_one_job x room job.refresh_plan (states_to_read c') c' in
    let settled_c = settle_job x room job s.startup read.1 read.0 in
    ends_trans _ read.0.write_confirmations _
      (read_one_job-Ends x room job.refresh_plan (states_to_read c') c')
      (ends_trans _ settled_c.write_confirmations _
        (settle_job-Ends x room job s.startup read.1 read.0) (take_data-Ends x read.1 settled_c))

found_job-Ends :
    (x : TickInput) (s : Selection) (job : PollJob) (room : Option RoomConfig) (c : Coordinator)
    → Ends c (run_found x s job room c).0
unfolding run_found
found_job-Ends x s job none c = ends_refl c.write_confirmations
found_job-Ends x s job (some room) c = run_job-Ends x room s job c

update_with-Ends :
    (x : TickInput) (s : Selection) (job : Option PollJob) (c : Coordinator)
    → Ends c (update_with x s job c).0
unfolding update_with idle_update with_poller
update_with-Ends x s none c = ends_refl c.write_confirmations
update_with-Ends x s (some job) c = found_job-Ends x s job (room_of_job c.rooms job) c

after_update-Ends : (u : Coordinator × UpdateEnd) → Ends u.0 (after_update u).0
unfolding after_update
after_update-Ends (c, UpdateEnd.updated) = ends_refl c.write_confirmations
after_update-Ends (c, UpdateEnd.update_failed) = ends_refl c.write_confirmations

update_data-Ends : (x : TickInput) (c : Coordinator) → Ends c (update_data x c).0
unfolding update_data
update_data-Ends x c =
    let s = select_poll_job x.clock.monotonic (not (is_empty_dict c.safe_data)) c.poller in
    let u = update_with x s s.job c in
    ends_trans _ u.0.write_confirmations _ (update_with-Ends x s s.job c) (after_update-Ends u)

created-KeepsOne :
    (rooms : List RoomConfig) (tick now : ℕ) → KeepsOne (new_coordinator rooms tick now)
unfolding new_coordinator outcome of_room confirmations_or_empty lookup unfinished
created-KeepsOne rooms tick now room = omega arith

Running-KeepsOne : (c : Coordinator) → Running c → KeepsOne c
Running-KeepsOne c (Running.created rooms tick now) = created-KeepsOne rooms tick now
Running-KeepsOne c (Running.commanded b x room command r) =
    run_command-KeepsOne x room command b (Running-KeepsOne b r)
Running-KeepsOne c (Running.ticked b x r) =
    OneUnfinished-Finishes _ _ (Running-KeepsOne b r) (update_data-Ends x b)
Running-KeepsOne c (Running.expired b presets intensive levels r) = Running-KeepsOne b r
Running-KeepsOne c (Running.rescheduled b poller r) = Running-KeepsOne b r

-- Whatever commands were given to a new coordinator, with whatever replies of the client (errors
-- and cancelled writes included), and whatever was read meanwhile: at most one of the airflow,
-- mode and preset writes of a room is unfinished.
pub Running-unfinished_writes :
    (c : Coordinator) (room : String) → Running c → unfinished_writes c.write_confirmations room ≤ 1
Running-unfinished_writes c room r = Running-KeepsOne c r room
