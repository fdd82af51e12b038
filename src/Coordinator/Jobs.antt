-- ===== src/Coordinator/Jobs.antt =====
-- coordinator.py: one scheduled read job. The client's replies and the clocks are arguments.
pub mod Failures
use meltem_ha.Const.Groups.{ReadGroup, is_optional_group}
use meltem_ha.Coordinator.Availability.{log_room_availability}
use meltem_ha.Coordinator.Readbacks.{RoomReply, TargetReply, read_balanced_target_if_pending}
use meltem_ha.Coordinator.State.{Coordinator, RoomRuntime, runtime_of, set_runtime, state_or}
use meltem_ha.Models.Config.{ReadJobOutcome, RoomConfig}
use meltem_ha.Models.Health.{Clock}
use meltem_ha.Models.Plan.{RefreshPlan, read_groups}
use meltem_ha.Models.Room.{RoomState, RoomState-discrete, empty_room_state}
use meltem_ha.Polling.{supported_groups}
use meltem_ha.Prelude.{
  Bool, List, Option, String, [], any, decb, if◌then◌else◌, is_some, map, none, not, some, true, ℕ,
  ◌&&◌, ◌++◌, ◌+◌, ◌∷◌,
}
use meltem_ha.Prelude.Assoc.{insert, lookup, string_discrete}
use meltem_ha.ReadHealth.{
  JobReadFailure, job_read_attempted, job_read_failure, job_read_received_values,
  job_read_succeeded, job_read_unanswered, record_read_failures,
}
use meltem_ha.WriteConfirmation.Store.{outcome}

-- What a tick gets from its surroundings, in the order of use. `silent_for` is what the client's
-- `seconds_since_successful_read` returns for the unit of the job, before and after its read;
-- `dues` are the due times of the optional reads once those that were due have been read.
pub record TickInput : Type 0 where
  pub clock : Clock
  pub silent_before : Option ℕ
  pub reply : RoomReply
  pub target : TargetReply
  pub later : Clock
  pub silent_after : Option ℕ
  -- Whether an optional read was started after the job.
  pub optional_read : Bool
  pub dues : List (Option ℕ)

-- The groups of a plan that a room has an entity of, all of them optional
unfoldable pub only_optional : RoomConfig → RefreshPlan → Bool
only_optional room plan =
    not (any (λ g. not (is_optional_group g)) (supported_groups room (read_groups plan)))

-- The count of failed jobs in a row after a job that the unit answered
unfoldable pub failures_after_answer : RoomConfig → ReadJobOutcome → RefreshPlan → ℕ → ℕ
unfolding only_optional
failures_after_answer room outcome plan failures = elim (job_read_failure room outcome plan) [
  | none ↦ if job_read_succeeded room outcome plan then 0 else failures
  | some failure ↦
      if job_read_received_values room outcome plan
      then 0
      else if not failure.link_failure && only_optional room plan
      then failures
      else failures + 1
]

-- The groups whose failures the counters receive
unfoldable pub failed_pairs : String → List ReadGroup → List (String × ReadGroup)
failed_pairs room_key groups = map (λ g. (room_key, g)) groups

unfoldable pub first_groups : List (ReadGroup × String) → List ReadGroup
first_groups errors = map (λ e. e.0) errors

-- A job ends: what the reply leaves, before the end that both branches share.
pub record JobEnd : Type 0 where
  pub coordinator : Coordinator
  pub state : RoomState
  pub error : Option String
  pub failed_groups : List ReadGroup

unfoldable pub error_of : Option JobReadFailure → Option String
error_of none = none
error_of (some failure) = some failure.error

-- The exception of `read_room`: the whole job got no answer.
unfoldable pub job_unanswered :
    Clock → RoomConfig → RefreshPlan → RoomState → String → Coordinator → JobEnd
job_unanswered clock room plan previous error c =
    let runtime = runtime_of c room in
    record {
      coordinator =
          set_runtime room (record runtime { read_failures = runtime.read_failures + 1 })
            (record c {
              last_job_error = some error;
              last_job_link_failure = true;
              last_job_attempted = true;
            });
      state = record_read_failures clock previous room plan error;
      error = some error;
      failed_groups = supported_groups room (read_groups plan);
    }

-- The exact target is read after a job that succeeded.
unfoldable pub target_of_job :
    Clock
    → RoomConfig
    → RefreshPlan
    → RoomState
    → RoomState
    → ReadJobOutcome
    → TargetReply
    → Coordinator
    → Coordinator × RoomState
target_of_job clock room plan previous state outcome target c =
    if not (is_some (job_read_failure room outcome plan))
      && (job_read_succeeded room outcome plan && plan.refresh_airflow)
    then read_balanced_target_if_pending clock room state previous target c
    else (c, state)

-- The `else` of the read: the reply of the unit
unfoldable pub job_answered :
    Clock
    → RoomConfig
    → RefreshPlan
    → RoomState
    → RoomState
    → ReadJobOutcome
    → TargetReply
    → Coordinator
    → JobEnd
unfolding error_of first_groups
job_answered clock room plan previous state outcome target c =
    let failure = job_read_failure room outcome plan in
    let runtime = runtime_of c room in
    let c' =
      set_runtime room
        (record runtime {
          read_failures = failures_after_answer room outcome plan runtime.read_failures;
        })
        (record c {
          last_job_error = error_of failure;
          last_job_link_failure = job_read_unanswered room outcome plan;
          last_job_attempted = job_read_attempted room outcome plan;
          sensors_recorded = c.sensors_recorded ++ (room.key, outcome) ∷ [];
        }) in
    let read = target_of_job clock room plan previous state outcome target c' in
    record {
      coordinator = read.0;
      state = read.1;
      error = error_of failure;
      failed_groups = first_groups outcome.errors;
    }

unfoldable pub job_ended :
    TickInput → RoomConfig → RefreshPlan → RoomState → RoomReply → Coordinator → JobEnd
job_ended x room plan previous (RoomReply.room_failed error) c =
    job_unanswered x.later room plan previous error c
job_ended x room plan previous (RoomReply.room_read state outcome) c =
    job_answered x.later room plan previous state outcome x.target c

unfoldable pub with_read_error : Clock → Option String → RoomRuntime → RoomRuntime
with_read_error clock none runtime = runtime
with_read_error clock (some error) runtime = record runtime {
  last_read_error = some (record { message = error; at = clock.utcnow });
}

-- The end of _read_one_job: the flags of the room, the counters and the merged states
unfoldable pub finish_job :
    TickInput
    → RoomConfig
    → List (String × RoomState)
    → RoomState
    → JobEnd
    → Coordinator × List (String × RoomState)
unfolding with_read_error failed_pairs
finish_job x room states previous e =
    let runtime =
      with_read_error x.later e.error
        (log_room_availability x.silent_after e.state (runtime_of e.coordinator room)) in
    (
      set_runtime room runtime (record e.coordinator {
        failures_recorded =
            e.coordinator.failures_recorded ++ failed_pairs room.key e.failed_groups;
      }),
      if decb (RoomState-discrete e.state previous)
          then states
          else insert string_discrete room.key e.state states,
    )

-- _read_one_job
unfoldable pub read_one_job :
    TickInput
    → RoomConfig
    → RefreshPlan
    → List (String × RoomState)
    → Coordinator
    → Coordinator × List (String × RoomState)
unfolding job_ended
read_one_job x room plan states c =
    let previous = state_or (lookup string_discrete room.key states) empty_room_state in
    finish_job x room states previous (job_ended x room plan previous x.reply c)
