-- ===== src/Tests/Client.antt =====
-- The Modbus client at concrete inputs.
use meltem_ha.Const.Groups.{ReadGroup, ReadGroup-discrete}
use meltem_ha.Const.Profiles.{is_plain_profile, profile_has, profile_metadata}
use meltem_ha.Device.{ModeField}
use meltem_ha.ModbusClient.Backoff.{
  component_backoff, is_active, mark_failure, mode_backoff, paused,
}
use meltem_ha.ModbusClient.Backoff.Pauses.{is_active-mark_failure}
use meltem_ha.ModbusClient.Due.{
  FieldRead, add_field, add_fields, add_read, add_reads, air_quality_calls, due_fields, due_reads,
  field_calls, groups_or_empty, setting_calls,
}
use meltem_ha.ModbusClient.Due.Grouped.{groups_of, groups_of-due_reads, reads_field}
use meltem_ha.ModbusClient.Health.{
  ReadFault, ReadJob, new_job, record_error, skip_groups, updated_read_health,
}
use meltem_ha.ModbusClient.Health.Updated.{health_found, read_health_for-updated_read_health}
use meltem_ha.ModbusClient.Poll.{PollReply, active_reads_of, pauses, poll}
use meltem_ha.ModbusClient.Poll.Held.{PollStep, poll_all}
use meltem_ha.ModbusClient.Poll.Paused.{poll_refused}
use meltem_ha.ModbusClient.Staged.{
  Marks, Script, WriteAnswer, staged_of, write_all, write_mode_registers,
}
use meltem_ha.ModbusClient.Staged.Covered.{Commanded, Commanded-In, unit_after}
use meltem_ha.Models.Config.{supports}
use meltem_ha.Models.Plan.{RefreshPlan, empty_refresh_plan, full_refresh_plan}
use meltem_ha.Models.Room.{read_health_for}
use meltem_ha.Prelude.{
  In, List, String, [], any, ap, arith, false, inl, ltb, none, refl, true, ℕ, ◌+◌, ◌∷◌, ◌≡◌, ◌≤◌,
}
use meltem_ha.Prelude.Assoc.{insert, lookup, string_discrete}
use meltem_ha.ReadHealth.{has_group}
use meltem_ha.Tests.Samples.{clock_at, manual_state, room}

-- A refused status read of unit 2 at 100 s
refused_read_example :
    (pause : ℕ) × (30000 ≤ pause)
    × (pause ≤ 300000)
    × ((later : ℕ)
        → (is_active
            (2, "mode_status")
            later
            (mark_failure (2, "mode_status") 100000 mode_backoff)).1
          ≡ ltb later (100000 + pause))
    × ((later : ℕ)
        → (is_active
            (3, "mode_status")
            later
            (mark_failure (2, "mode_status") 100000 mode_backoff)).1
          ≡ (is_active (3, "mode_status") later mode_backoff).1)
refused_read_example =
    is_active-mark_failure mode_backoff (2, "mode_status") (3, "mode_status") 100000 (omega arith)
      (λ e. absurd (omega (arith, ap (λ k. k.0) e)))

-- The second write of a command gets no response, but reached the unit.
abbrev interrupted : Script
interrupted =
    (ModeField.mode, WriteAnswer.taken)
    ∷ (ModeField.current_level, WriteAnswer.no_response true)
    ∷ []

abbrev marks_then : Marks
marks_then = (write_mode_registers 2 interrupted WriteAnswer.taken []).0

staged_example :
    In ModeField.current_level
      (staged_of 2 (write_mode_registers 3 interrupted WriteAnswer.refused marks_then).0)
unfolding write_all
staged_example =
    Commanded-In 2 (write_mode_registers 3 interrupted WriteAnswer.refused marks_then).0
      (unit_after interrupted WriteAnswer.taken []) ModeField.current_level
      (Commanded.foreign marks_then (unit_after interrupted WriteAnswer.taken []) 3 interrupted
        WriteAnswer.refused (λ e. absurd (omega (arith, e)))
        (Commanded.own [] [] interrupted WriteAnswer.taken Commanded.fresh))
      (inl refl)

abbrev busy_fault : ReadFault
busy_fault = record {
  text = "busy";
  no_answer = false;
  quarantined = false;
  modbus_exception = true;
  acknowledge = true;
}

-- The flow registers failed, the temperatures were read, and the rest was skipped.
abbrev failed_job : ReadJob
failed_job =
    record_error (ReadGroup.flow ∷ []) busy_fault
      (skip_groups (ReadGroup.flow_control ∷ ReadGroup.intensive ∷ []) new_job)

updated_health_example :
    read_health_for
      (record manual_state {
        group_read_health =
            (updated_read_health (clock_at 9000) room manual_state full_refresh_plan failed_job).0;
      })
      ReadGroup.flow
    ≡ health_found (clock_at 9000) room manual_state full_refresh_plan failed_job ReadGroup.flow
updated_health_example =
    read_health_for-updated_read_health (clock_at 9000) room manual_state manual_state
      full_refresh_plan failed_job ReadGroup.flow

-- The flow registers and the fan hours of a unit
abbrev due_sample : List (String × FieldRead)
due_sample =
    (
      "extract_air_flow",
      record { component = "airflow"; attribute = "extract_air_flow"; group = ReadGroup.flow },
    )
    ∷ (
      "operating_hours",
      record {
        component = "operating_hours";
        attribute = "operating_hours";
        group = ReadGroup.hours;
      },
    )
    ∷ []

-- Between the two polls, the unit answers nothing.
abbrev silent_poll : PollStep
silent_poll = record {
  slave = 2;
  now = 5000;
  reads = due_reads due_sample;
  reply = PollReply.poll_unanswered busy_fault;
  job = new_job;
}

refused_poll_example :
    lookup string_discrete "airflow"
      (active_reads_of 2 9000
        (due_reads due_sample)
        (poll_all
          (silent_poll ∷ [])
          (poll 2 1000
            (due_reads due_sample)
            (PollReply.report ("operating_hours" ∷ []) (("airflow", busy_fault) ∷ []))
            component_backoff
            new_job).0)
        new_job).active_reads
    ≡ none
unfolding active_reads_of is_active due_reads add_reads add_read lookup has_group groups_or_empty
    insert string_discrete paused pauses
refused_poll_example =
    poll_refused 2 1000 9000 due_sample (silent_poll ∷ []) (due_reads due_sample)
      ("operating_hours" ∷ []) (("airflow", busy_fault) ∷ []) "airflow" (ReadGroup.flow ∷ [])
      busy_fault component_backoff new_job new_job refl refl refl refl (omega arith) (omega arith)
      (omega arith, tt)

-- A plan that reads the temperatures of a unit without sensors
abbrev temperature_plan : RefreshPlan
temperature_plan = record full_refresh_plan { refresh_airflow = false }

due_reads_example :
    has_group ReadGroup.temperature
      (groups_of "temperatures" (due_reads (due_fields room temperature_plan)))
    ≡ any (reads_field "temperatures" ReadGroup.temperature) (due_fields room temperature_plan)
due_reads_example =
    groups_of-due_reads "temperatures" ReadGroup.temperature (due_fields room temperature_plan)

-- What a unit with every sensor reads for its air quality
abbrev air_plan : RefreshPlan
air_plan = record empty_refresh_plan { refresh_environment = true }

air_quality_reads :
    due_reads (due_fields room air_plan)
    ≡ ("extract_air_quality", ReadGroup.air_quality ∷ [])
      ∷ ("supply_air_quality", ReadGroup.air_quality ∷ [])
      ∷ []
unfolding due_fields due_reads add_reads add_read add_fields add_field field_calls air_quality_calls
    setting_calls profile_has profile_metadata is_plain_profile supports has_group lookup insert
    groups_or_empty empty_refresh_plan string_discrete ReadGroup-discrete
air_quality_reads = refl
