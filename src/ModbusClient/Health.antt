-- ===== src/ModbusClient/Health.antt =====
-- modbus_client.py: _ReadJob, the errors of one room read, and the read health that it leaves.
pub mod Updated
use meltem_ha.Const.Groups.{ReadGroup, ReadGroup-discrete, read_group_entity_keys}
use meltem_ha.Models.Config.{RoomConfig, supports_any}
use meltem_ha.Models.Health.{Clock, ReadHealth, failed}
use meltem_ha.Models.Plan.{RefreshPlan, read_groups}
use meltem_ha.Models.Room.{RoomState, read_health_for, sorted}
use meltem_ha.Prelude.{
  Bool, List, Option, String, [], false, if◌then◌else◌, is_some, none, some, ◌&&◌, ◌++◌, ◌∷◌,
}
use meltem_ha.Prelude.Assoc.{fill, insert, lookup}
use meltem_ha.ReadHealth.{has_group}

-- An error of a read: its text, and which of the source's classes of errors it belongs to
-- (NO_ANSWER_ERRORS, ReadQuarantinedError, ModbusExceptionError, AcknowledgeError).
pub record ReadFault : Type 0 where
  pub text : String
  pub no_answer : Bool
  pub quarantined : Bool
  pub modbus_exception : Bool
  pub acknowledge : Bool

-- The sets and dictionaries of the job, by read group
pub record ReadJob : Type 0 where
  pub errors : List (ReadGroup × String)
  pub skipped_groups : List ReadGroup
  pub timeouts : List ReadGroup
  pub silent_error : Option ReadFault
  pub had_answer : Bool
  pub attempted_groups : List ReadGroup
  pub value_groups : List ReadGroup
  pub unit_success_groups : List ReadGroup
  pub missing_sensor_values : List String
  pub sensor_values : List String

abbrev pub new_job : ReadJob
new_job = record {
  errors = [];
  skipped_groups = [];
  timeouts = [];
  silent_error = none;
  had_answer = false;
  attempted_groups = [];
  value_groups = [];
  unit_success_groups = [];
  missing_sensor_values = [];
  sensor_values = [];
}

-- _ReadJob.skip
unfoldable pub skip_groups : List ReadGroup → ReadJob → ReadJob
skip_groups groups job = record job { skipped_groups = groups ++ job.skipped_groups }

-- `self.errors.setdefault(group, str(error))`
unfoldable pub default_error :
    ReadGroup → String → List (ReadGroup × String) → List (ReadGroup × String)
default_error group text errors =
    if is_some (lookup ReadGroup-discrete group errors)
    then errors
    else insert ReadGroup-discrete group text errors

-- _ReadJob.record_error
unfoldable pub record_error : List ReadGroup → ReadFault → ReadJob → ReadJob
record_error [] fault job = job
record_error (group ∷ groups) fault job = record_error groups fault (record job {
  errors = default_error group fault.text job.errors;
  timeouts = if fault.no_answer then group ∷ job.timeouts else job.timeouts;
})

-- A read that succeeded
unfoldable pub succeeded_at : Clock → ReadHealth
succeeded_at clock = record {
  last_attempt = some clock.utcnow;
  last_successful_read = some clock.utcnow;
  consecutive_failures = 0;
  last_error = none;
  last_error_timed_out = false;
  last_success_monotonic = some clock.monotonic;
}

unfoldable pub health_with :
    Clock → RoomState → ReadJob → ReadGroup → Option String → Option ReadHealth
health_with clock previous job group (some error) =
    some (failed (read_health_for previous group) clock.utcnow error (has_group group job.timeouts))
health_with clock previous job group none =
    if has_group group job.skipped_groups then none else some (succeeded_at clock)

-- The health that a read records for a group, or nothing for a group that it skipped.
unfoldable pub health_after : Clock → RoomState → ReadJob → ReadGroup → Option ReadHealth
health_after clock previous job group =
    health_with clock previous job group (lookup ReadGroup-discrete group job.errors)

with_health :
    ReadGroup → Option ReadHealth → List (ReadGroup × ReadHealth) → List (ReadGroup × ReadHealth)
with_health group none healths = healths
with_health group (some health) healths = insert ReadGroup-discrete group health healths

-- The loop over the groups of the plan, on the dictionary
unfoldable pub update_groups :
    Clock
    → RoomConfig
    → RoomState
    → ReadJob
    → List ReadGroup
    → List (ReadGroup × ReadHealth)
    → List (ReadGroup × ReadHealth)
unfolding with_health
update_groups clock room previous job [] healths = healths
update_groups clock room previous job (group ∷ groups) healths =
    update_groups clock room previous job groups (
      if supports_any room (read_group_entity_keys group)
      then with_health group (health_after clock previous job group) healths
      else healths)

-- The groups whose health the loop records
unfoldable pub groups_recorded :
    Clock → RoomConfig → RoomState → ReadJob → List ReadGroup → List ReadGroup
groups_recorded clock room previous job [] = []
groups_recorded clock room previous job (group ∷ groups) =
    let rest = groups_recorded clock room previous job groups in
    if supports_any room (read_group_entity_keys group)
      && is_some (health_after clock previous job group)
    then group ∷ rest
    else rest

-- _updated_read_health
unfoldable pub updated_read_health :
    Clock
    → RoomConfig
    → RoomState
    → RefreshPlan
    → ReadJob
    → List (ReadGroup × ReadHealth) × List ReadGroup
updated_read_health clock room previous plan job = (
  sorted (
      update_groups clock room previous job (read_groups plan)
        (fill ReadGroup-discrete [] previous.group_read_health)),
  groups_recorded clock room previous job (read_groups plan),
)
