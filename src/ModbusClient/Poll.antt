-- ===== src/ModbusClient/Poll.antt =====
-- modbus_client.py: _poll and _read_mode_block, the reads of a room and what an error of one does.
pub mod Marked
pub mod Held
pub mod Paused
use meltem_ha.Const.Groups.{ReadGroup}
use meltem_ha.Device.{ModeRead}
use meltem_ha.ModbusClient.Backoff.{
  BackoffKey, ReadBackoff, clear_failures, is_active, mark_failure,
}
use meltem_ha.ModbusClient.Health.{ReadFault, ReadJob, record_error, skip_groups}
use meltem_ha.Models.Config.{RoomConfig, supports_any}
use meltem_ha.Models.Health.{failed}
use meltem_ha.Prelude.{
  Bool, List, Option, String, [], contains, false, if◌then◌else◌, none, not, some, true, ℕ, ◌&&◌,
  ◌++◌, ◌||◌, ◌∷◌,
}
use meltem_ha.Prelude.Assoc.{lookup, string_discrete}
use meltem_ha.WriteConfirmation.Judging.{judged}

-- What `device.async_poll` comes to: the link is lost, the unit does not answer, or a report of the
-- components that were read and of those that failed.
pub data PollReply : Type 0 where
  link_lost : PollReply
  poll_unanswered : ReadFault → PollReply
  report : List String → List (String × ReadFault) → PollReply

-- The loop over the due components that leaves out the paused ones
pub record Active : Type 0 where
  pub backoff : ReadBackoff
  pub job : ReadJob
  pub active_reads : List (String × List ReadGroup)

unfoldable pub active_reads_of :
    ℕ → ℕ → List (String × List ReadGroup) → ReadBackoff → ReadJob → Active
active_reads_of slave now [] b job = record { backoff = b; job = job; active_reads = [] }
active_reads_of slave now ((component, groups) ∷ reads) b job =
    let asked = is_active (slave, component) now b in
    let rest =
      active_reads_of slave now reads asked.0 (if asked.1 then skip_groups groups job else job) in
    if asked.1 then rest else record rest { active_reads = (component, groups) ∷ rest.active_reads }

-- `job.attempted_groups.update(groups)`
unfoldable pub attempt_groups : List (String × List ReadGroup) → ReadJob → ReadJob
attempt_groups [] job = job
attempt_groups ((component, groups) ∷ reads) job =
    attempt_groups reads (record job { attempted_groups = groups ++ job.attempted_groups })

unfoldable pub clear_components : ℕ → List (String × List ReadGroup) → ReadBackoff → ReadBackoff
clear_components slave [] b = b
clear_components slave ((component, groups) ∷ reads) b =
    clear_components slave reads (clear_failures (slave, component) b)

unfoldable pub record_silence : List (String × List ReadGroup) → ReadFault → ReadJob → ReadJob
record_silence [] fault job = job
record_silence ((component, groups) ∷ reads) fault job =
    record_silence reads fault (record_error groups fault job)

-- _BRIDGE_RF_COMPONENTS
abbrev pub bridge_rf_components : List String
bridge_rf_components =
    "rf_comm_status" ∷ "device_fault" ∷ "value_error_status" ∷ "rf_last_seen_age"
    ∷ "rf_signal_strength" ∷ []

-- _OPTIONAL_DIAGNOSTIC_COMPONENTS
abbrev pub optional_diagnostic_components : List String
optional_diagnostic_components =
    "device_fault" ∷ "value_error_status" ∷ "rf_last_seen_age" ∷ "rf_signal_strength"
    ∷ "fan_motor_hours" ∷ []

-- An error after which a component is paused
unfoldable pub pauses : String → ReadFault → Bool
pauses component fault =
    fault.acknowledge || contains component optional_diagnostic_components && fault.modbus_exception

-- A component of the report
unfoldable pub component_failed :
    ℕ → ℕ → String → List ReadGroup → ReadFault → ReadBackoff → ReadJob → ReadBackoff × ReadJob
component_failed slave started_at component groups fault b job =
    if fault.quarantined then (b, skip_groups groups job) else (
      (if pauses component fault
          then mark_failure (slave, component) started_at b
          else clear_failures (slave, component) b),
      record (record_error groups fault job) {
        silent_error = if fault.no_answer then some fault else job.silent_error;
      },
    )

unfoldable pub component_updated :
    ℕ → String → List ReadGroup → ReadBackoff → ReadJob → ReadBackoff × ReadJob
component_updated slave component groups b job = (
  clear_failures (slave, component) b,
  (if contains component bridge_rf_components
      then job
      else record job { unit_success_groups = groups ++ job.unit_success_groups }),
)

unfoldable pub component_read :
    ℕ
    → ℕ
    → List String
    → Option ReadFault
    → String
    → List ReadGroup
    → ReadBackoff
    → ReadJob
    → ReadBackoff × ReadJob
component_read slave started_at updated none component groups b job =
    if contains component updated then component_updated slave component groups b job else (b, job)
component_read slave started_at updated (some fault) component groups b job =
    component_failed slave started_at component groups fault b job

unfoldable pub judge_components :
    ℕ
    → ℕ
    → List String
    → List (String × ReadFault)
    → List (String × List ReadGroup)
    → ReadBackoff
    → ReadJob
    → ReadBackoff × ReadJob
judge_components slave started_at updated failed [] b job = (b, job)
judge_components slave started_at updated failed ((component, groups) ∷ reads) b job =
    let next =
      component_read slave started_at updated (lookup string_discrete component failed) component
        groups b job in
    judge_components slave started_at updated failed reads next.0 next.1

-- The backoff and the job after a poll, and the components that were read, or nothing when the
-- lost link is raised.
unfoldable pub poll_active :
    ℕ → ℕ → Active → PollReply → ReadBackoff × ReadJob × Option (List String)
poll_active slave now a PollReply.link_lost =
    (clear_components slave a.active_reads a.backoff, attempt_groups a.active_reads a.job, none)
poll_active slave now a (PollReply.poll_unanswered fault) = (
  clear_components slave a.active_reads a.backoff,
  record_silence a.active_reads fault
      (record (attempt_groups a.active_reads a.job) { silent_error = some fault }),
  some [],
)
poll_active slave now a (PollReply.report updated failed) =
    let judged =
      judge_components slave now updated failed a.active_reads a.backoff
        (attempt_groups a.active_reads a.job) in
    (judged.0, judged.1, some updated)

unfoldable pub poll_or_nothing :
    ℕ
    → ℕ
    → List (String × List ReadGroup)
    → Active
    → PollReply
    → ReadBackoff × ReadJob × Option (List String)
poll_or_nothing slave now [] a reply = (a.backoff, a.job, some [])
poll_or_nothing slave now (read ∷ reads) a reply = poll_active slave now a reply

-- _poll
unfoldable pub poll :
    ℕ
    → ℕ
    → List (String × List ReadGroup)
    → PollReply
    → ReadBackoff
    → ReadJob
    → ReadBackoff × ReadJob × Option (List String)
poll slave now reads reply b job =
    let a = active_reads_of slave now reads b job in
    poll_or_nothing slave now a.active_reads a reply

-- What `status.async_update` comes to
pub data ModeReply : Type 0 where
  mode_link_lost : ModeReply
  mode_failed : ReadFault → ModeReply
  mode_answer : ModeRead → ModeReply

abbrev pub mode_groups : List ReadGroup
mode_groups = ReadGroup.flow_control ∷ ReadGroup.intensive ∷ []

abbrev pub mode_entity_keys : List String
mode_entity_keys = "operation_mode" ∷ "preset_mode" ∷ "intensive" ∷ []

-- The backoff and the job after a read of the mode status, whether it raised the lost link, and
-- what it read.
pub record ModeEnd : Type 0 where
  pub backoff : ReadBackoff
  pub job : ReadJob
  pub raised : Bool
  pub block : Option ModeRead

abbrev no_block : ReadBackoff → ReadJob → ModeEnd
no_block b job = record { backoff = b; job = job; raised = false; block = none }

unfoldable pub ask_mode_block : BackoffKey → ℕ → ModeReply → ReadBackoff → ReadJob → ModeEnd
ask_mode_block key now ModeReply.mode_link_lost b job = record (no_block b job) { raised = true }
ask_mode_block key now (ModeReply.mode_failed fault) b job =
    no_block (if not fault.no_answer && fault.modbus_exception then mark_failure key now b else b) (
      record_error mode_groups fault
        (record job { silent_error = if fault.no_answer then some fault else job.silent_error }))
ask_mode_block key now (ModeReply.mode_answer read) b job = record {
  backoff = clear_failures key b;
  job = record job { unit_success_groups = mode_groups ++ job.unit_success_groups };
  raised = false;
  block = some read;
}

unfoldable pub mode_block_unless_silent :
    BackoffKey → ℕ → Option ReadFault → ModeReply → ReadBackoff → ReadJob → ModeEnd
mode_block_unless_silent key now (some fault) reply b job =
    no_block b (record_error mode_groups fault job)
mode_block_unless_silent key now none reply b job =
    ask_mode_block key now reply b
      (record job { attempted_groups = mode_groups ++ job.attempted_groups })

-- _read_mode_block
unfoldable pub read_mode_block : RoomConfig → ℕ → ModeReply → ReadBackoff → ReadJob → ModeEnd
read_mode_block room now reply b job =
    let key : BackoffKey = (room.slave, "mode_status") in
    let asked = is_active key now b in
    if not (supports_any room mode_entity_keys)
    then no_block b job
    else if asked.1
    then no_block asked.0 (skip_groups mode_groups job)
    else mode_block_unless_silent key now job.silent_error reply asked.0 job
