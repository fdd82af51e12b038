-- ===== src/MissingSensors.antt =====
-- missing_sensors.py: the issues of sensors that a unit's profile expects but the unit never
-- reports, and placeholder_sensors of modbus_client.py.
pub mod Runs
use meltem_ha.ModbusClient.Backoff.{count_or_zero}
use meltem_ha.Models.Config.{ReadJobOutcome, RoomConfig}
use meltem_ha.Prelude.{
  Bool, List, String, [], any, contains, decb, if◌then◌else◌, leb, not, ℕ, ◌&&◌, ◌+◌, ◌∷◌,
}
use meltem_ha.Prelude.Assoc.{insert, lookup, remove, string_discrete}
use meltem_ha.WriteConfirmation.Judging.{counted}
use meltem_ha.WriteConfirmation.Store.{outcome}

-- A room's key and a sensor
abbrev pub SensorKey : Type 0
SensorKey = String × String

unfoldable pub SensorKey-discrete : Discrete SensorKey
SensorKey-discrete = hlevel (string_discrete, string_discrete)

-- A call that creates or deletes an issue
pub data IssueCall : Type 0 where
  create_issue delete_issue : SensorKey → IssueCall

-- The counts of the placeholders, the sensors with an issue, and the calls made, the last one first
pub record MissingSensorIssues : Type 0 where
  pub missing_reads : List (SensorKey × ℕ)
  pub raised : List SensorKey
  pub calls : List IssueCall

abbrev pub no_issues : MissingSensorIssues
no_issues = record { missing_reads = []; raised = []; calls = [] }

-- MISSING_SENSOR_ISSUE_AFTER_READS
abbrev pub issue_after_reads : ℕ
issue_after_reads = 3

-- PROFILE_SENSORS
abbrev pub profile_sensors : List String
profile_sensors =
    "humidity_extract_air" ∷ "humidity_supply_air" ∷ "co2_extract_air" ∷ "voc_supply_air" ∷ []

unfoldable pub has_key : SensorKey → List SensorKey → Bool
has_key key keys = any (λ k. decb (SensorKey-discrete k key)) keys

unfoldable pub discard_key : SensorKey → List SensorKey → List SensorKey
discard_key key [] = []
discard_key key (k ∷ keys) =
    let rest = discard_key key keys in if decb (SensorKey-discrete k key) then rest else k ∷ rest

-- A value of the sensor was read.
unfoldable pub value_seen : SensorKey → MissingSensorIssues → MissingSensorIssues
value_seen key s =
    let counted = remove SensorKey-discrete key s.missing_reads in
    if has_key key s.raised
    then record {
      missing_reads = counted;
      raised = discard_key key s.raised;
      calls = IssueCall.delete_issue key ∷ s.calls;
    }
    else record s { missing_reads = counted }

-- The sensor reported its placeholder.
unfoldable pub placeholder_seen : SensorKey → MissingSensorIssues → MissingSensorIssues
placeholder_seen key s =
    let count = count_or_zero (lookup SensorKey-discrete key s.missing_reads) + 1 in
    let counted = insert SensorKey-discrete key count s.missing_reads in
    if leb issue_after_reads count && not (has_key key s.raised)
    then record {
      missing_reads = counted;
      raised = key ∷ s.raised;
      calls = IssueCall.create_issue key ∷ s.calls;
    }
    else record s { missing_reads = counted }

unfoldable pub values_seen : String → List String → MissingSensorIssues → MissingSensorIssues
values_seen room_key [] s = s
values_seen room_key (sensor ∷ sensors) s =
    values_seen room_key sensors
      (if contains sensor profile_sensors then value_seen (room_key, sensor) s else s)

unfoldable pub placeholders_seen : String → List String → MissingSensorIssues → MissingSensorIssues
placeholders_seen room_key [] s = s
placeholders_seen room_key (sensor ∷ sensors) s =
    placeholders_seen room_key sensors
      (if contains sensor profile_sensors then placeholder_seen (room_key, sensor) s else s)

-- MissingSensorIssues.record
unfoldable pub record_outcome :
    RoomConfig → ReadJobOutcome → MissingSensorIssues → MissingSensorIssues
record_outcome room outcome s =
    placeholders_seen room.key outcome.missing_sensor_values
      (values_seen room.key outcome.sensor_values s)
