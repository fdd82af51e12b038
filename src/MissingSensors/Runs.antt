-- ===== src/MissingSensors/Runs.antt =====
-- missing_sensors.py: the issue of a sensor against its readings.
use meltem_ha.MissingSensors.{
  IssueCall, MissingSensorIssues, SensorKey, SensorKey-discrete, has_key, profile_sensors,
  record_outcome,
}
use meltem_ha.ModbusClient.Backoff.{count_or_zero}
use meltem_ha.Models.Config.{ReadJobOutcome, RoomConfig}
use meltem_ha.Prelude.{
  Bool, List, String, [], contains, decb, false, if◌then◌else◌, leb, true, ℕ, ◌&&◌, ◌+◌, ◌∷◌, ◌≡◌,
}
use meltem_ha.Prelude.Assoc.{lookup}
use meltem_ha.WriteConfirmation.Store.{outcome}

-- The reads of a run, in their order
abbrev pub record_all :
    List (RoomConfig × ReadJobOutcome) → MissingSensorIssues → MissingSensorIssues
record_all [] s = s
record_all ((room, outcome) ∷ reads) s = record_all reads (record_outcome room outcome s)

-- Whether the registry shows an issue after the calls
abbrev pub issue_shown : SensorKey → List IssueCall → Bool
issue_shown key [] = false
issue_shown key (IssueCall.create_issue k ∷ calls) =
    if decb (SensorKey-discrete k key) then true else issue_shown key calls
issue_shown key (IssueCall.delete_issue k ∷ calls) =
    if decb (SensorKey-discrete k key) then false else issue_shown key calls

-- The placeholders of a sensor in a row, after the values and the placeholders of one read
abbrev pub run_after : SensorKey → String → List String → List String → ℕ → ℕ
run_after key room_key [] [] n = n
run_after key room_key [] (sensor ∷ sensors) n = run_after key room_key [] sensors (
    if contains sensor profile_sensors && decb (SensorKey-discrete (room_key, sensor) key)
    then n + 1
    else n)
run_after key room_key (sensor ∷ sensors) missing n = run_after key room_key sensors missing (
    if contains sensor profile_sensors && decb (SensorKey-discrete (room_key, sensor) key)
    then 0
    else n)

abbrev pub placeholder_run : SensorKey → List (RoomConfig × ReadJobOutcome) → ℕ → ℕ
placeholder_run key [] n = n
placeholder_run key ((room, outcome) ∷ reads) n =
    placeholder_run key reads
      (run_after key room.key outcome.sensor_values outcome.missing_sensor_values n)

-- The state holds the run of a sensor, and shows its issue from the third placeholder on.
abbrev Holds : SensorKey → ℕ → MissingSensorIssues → Type 0
Holds key n s =
    (count_or_zero (lookup SensorKey-discrete key s.missing_reads) ≡ n)
    × (has_key key s.raised ≡ leb 3 n)
    × (issue_shown key s.calls ≡ leb 3 n)
