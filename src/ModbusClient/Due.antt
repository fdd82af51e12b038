-- ===== src/ModbusClient/Due.antt =====
-- modbus_client.py: _due_fields and _due_reads, what a read plan reads from a unit.
pub mod Grouped
use meltem_ha.Const.Groups.{ReadGroup, control_setting_names}
use meltem_ha.Const.Profiles.{is_plain_profile, profile_has}
use meltem_ha.Models.Config.{RoomConfig, supports}
use meltem_ha.Models.Plan.{RefreshPlan}
use meltem_ha.Prelude.{
  Bool, List, Option, String, [], false, if◌then◌else◌, none, not, some, starts_with, true, ◌&&◌,
  ◌++◌, ◌||◌, ◌∷◌,
}
use meltem_ha.Prelude.Assoc.{insert, lookup, string_discrete}
use meltem_ha.ReadHealth.{has_group}

pub record FieldRead : Type 0 where
  pub component : String
  pub attribute : String
  pub group : ReadGroup

-- A call of `add`
pub record FieldCall : Type 0 where
  pub name : String
  pub source : FieldRead
  pub when : Bool
  pub gated : Bool

abbrev field_of : String → String → ReadGroup → Bool → FieldCall
field_of name component group when = record {
  name = name;
  source = record { component = component; attribute = name; group = group };
  when = when;
  gated = true;
}

-- A field that the component holds as its only `value`
abbrev value_of : String → String → ReadGroup → Bool → FieldCall
value_of name component group when = record {
  name = name;
  source = record { component = component; attribute = "value"; group = group };
  when = when;
  gated = true;
}

-- add
unfoldable pub add_field :
    RoomConfig → FieldCall → List (String × FieldRead) → List (String × FieldRead)
add_field room c due =
    if c.when && (not c.gated || supports room c.name)
    then insert string_discrete c.name c.source due
    else due

unfoldable pub add_fields :
    RoomConfig → List FieldCall → List (String × FieldRead) → List (String × FieldRead)
add_fields room [] due = due
add_fields room (c ∷ calls) due = add_fields room calls (add_field room c due)

-- _AIR_QUALITY_FIELDS: the field, the component of the -F and -FC profiles, the capability
abbrev pub air_quality_fields : List (String × String × String)
air_quality_fields =
    ("humidity_extract_air", "extract_air_quality", "humidity")
    ∷ ("co2_extract_air", "extract_air_quality", "co2")
    ∷ ("voc_extract_air", "air_quality", "voc")
    ∷ ("co2_supply_air", "air_quality", "voc")
    ∷ ("humidity_supply_air", "supply_air_quality", "humidity")
    ∷ ("voc_supply_air", "air_quality", "voc")
    ∷ []

unfoldable pub air_quality_calls : String → Bool → List (String × String × String) → List FieldCall
air_quality_calls profile environment [] = []
air_quality_calls profile environment ((name, component, capability) ∷ fields) =
    field_of name (if profile_has "voc" profile then "air_quality" else component)
      ReadGroup.air_quality (environment && profile_has capability profile)
    ∷ air_quality_calls profile environment fields

unfoldable pub setting_calls : String → Bool → List String → List FieldCall
setting_calls profile control_settings [] = []
setting_calls profile control_settings (key ∷ keys) =
    field_of key "control_settings" ReadGroup.control_settings (
      control_settings
      && profile_has (if starts_with key "humidity_" then "humidity" else "co2") profile)
    ∷ setting_calls profile control_settings keys

-- The calls of `add`, in their order
unfoldable pub field_calls : RoomConfig → RefreshPlan → List FieldCall
field_calls room plan =
    let extended = not (is_plain_profile room.profile) && plan.refresh_temperatures in
    let hours = plan.refresh_operating_hours in
    let rf = plan.refresh_rf_diagnostics in
    (field_of "extract_air_flow" "airflow" ReadGroup.flow plan.refresh_airflow
      ∷ field_of "supply_air_flow" "airflow" ReadGroup.flow plan.refresh_airflow
      ∷ field_of "exhaust_temperature" "temperatures" ReadGroup.temperature
          plan.refresh_temperatures
      ∷ field_of "outdoor_air_temperature" "temperatures" ReadGroup.temperature extended
      ∷ field_of "extract_air_temperature" "temperatures" ReadGroup.temperature extended
      ∷ field_of "supply_air_temperature" "supply_temperature" ReadGroup.temperature extended
      ∷ [])
    ++ (air_quality_calls room.profile plan.refresh_environment air_quality_fields
        ++ ((field_of "error_status" "status" ReadGroup.status plan.refresh_status
              ∷ field_of "frost_protection_active" "status" ReadGroup.status plan.refresh_status
              ∷ field_of "filter_change_due" "status" ReadGroup.filter
                  plan.refresh_filter_change_due
              ∷ value_of "days_until_filter_change" "days_until_filter_change" ReadGroup.filter
                  plan.refresh_filter_days
              ∷ field_of "operating_hours" "operating_hours" ReadGroup.hours hours
              ∷ value_of "fan_motor_hours" "fan_motor_hours" ReadGroup.fan_hours hours
              ∷ record (value_of "software_version" "software_version" ReadGroup.hours hours) {
                gated = false;
              }
              ∷ [])
            ++ (setting_calls room.profile plan.refresh_control_settings control_setting_names
                ++ (value_of "rf_comm_status" "rf_comm_status" ReadGroup.status plan.refresh_status
                    ∷ value_of "device_fault" "device_fault" ReadGroup.device_fault rf
                    ∷ value_of "value_error_status" "value_error_status" ReadGroup.value_error rf
                    ∷ value_of "rf_last_seen_age_seconds" "rf_last_seen_age" ReadGroup.rf_last_seen
                        rf
                    ∷ value_of "rf_signal_strength" "rf_signal_strength" ReadGroup.rf_signal rf
                    ∷ []))))

-- _due_fields
unfoldable pub due_fields : RoomConfig → RefreshPlan → List (String × FieldRead)
due_fields room plan = add_fields room (field_calls room plan) []

-- `reads.get(source.component, ())`
unfoldable pub groups_or_empty : Option (List ReadGroup) → List ReadGroup
groups_or_empty none = []
groups_or_empty (some groups) = groups

unfoldable pub add_read :
    FieldRead → List (String × List ReadGroup) → List (String × List ReadGroup)
add_read source reads =
    let groups = groups_or_empty (lookup string_discrete source.component reads) in
    if has_group source.group groups
    then reads
    else insert string_discrete source.component (groups ++ source.group ∷ []) reads

unfoldable pub add_reads :
    List (String × FieldRead) → List (String × List ReadGroup) → List (String × List ReadGroup)
add_reads [] reads = reads
add_reads ((name, source) ∷ due) reads = add_reads due (add_read source reads)

-- _due_reads
unfoldable pub due_reads : List (String × FieldRead) → List (String × List ReadGroup)
due_reads due = add_reads due []
