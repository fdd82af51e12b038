-- ===== src/Models/Plan.antt =====
-- models.py: RefreshPlan, and GatewayRfStatistics and UnitProbeResult.
use meltem_ha.Const.Groups.{ReadGroup}
use meltem_ha.Prelude.{
  Bool, List, Option, String, [], false, if◌then◌else◌, true, ℕ, ◌++◌, ◌||◌, ◌∷◌,
}

-- The two loads are percentages, or `None` where the register held none.
pub record GatewayRfStatistics : Type 0 where
  pub messages_current_hour : ℕ
  pub messages_previous_hour : ℕ
  pub load_current_hour : Option ℕ
  pub load_previous_hour : Option ℕ

pub record UnitProbeResult : Type 0 where
  pub profile : String
  pub preview : Option String
  pub product_id : Option ℕ
  pub app_setup_code : Option String

pub record RefreshPlan : Type 0 where
  pub refresh_airflow : Bool
  pub refresh_temperatures : Bool
  pub refresh_environment : Bool
  pub refresh_status : Bool
  pub refresh_filter_change_due : Bool
  pub refresh_filter_days : Bool
  pub refresh_operating_hours : Bool
  pub refresh_rf_diagnostics : Bool
  pub refresh_control_settings : Bool

every_group : Bool → RefreshPlan
every_group b = record {
  refresh_airflow = b;
  refresh_temperatures = b;
  refresh_environment = b;
  refresh_status = b;
  refresh_filter_change_due = b;
  refresh_filter_days = b;
  refresh_operating_hours = b;
  refresh_rf_diagnostics = b;
  refresh_control_settings = b;
}

-- RefreshPlan(): the defaults
unfoldable pub full_refresh_plan : RefreshPlan
unfolding every_group
full_refresh_plan = every_group true

-- _EMPTY_REFRESH_PLAN
unfoldable pub empty_refresh_plan : RefreshPlan
unfolding every_group
empty_refresh_plan = every_group false

abbrev when : Bool → List ReadGroup → List ReadGroup
when b groups = if b then groups else []

-- RefreshPlan.read_groups
unfoldable pub read_groups : RefreshPlan → List ReadGroup
read_groups plan =
    when plan.refresh_airflow (ReadGroup.flow ∷ ReadGroup.flow_control ∷ ReadGroup.intensive ∷ [])
    ++ (when plan.refresh_status (ReadGroup.status ∷ [])
        ++ (when plan.refresh_temperatures (ReadGroup.temperature ∷ [])
            ++ (when plan.refresh_environment (ReadGroup.air_quality ∷ [])
                ++ (when (plan.refresh_filter_change_due || plan.refresh_filter_days)
                      (ReadGroup.filter ∷ [])
                    ++ (when plan.refresh_operating_hours
                          (ReadGroup.hours ∷ ReadGroup.fan_hours ∷ [])
                        ++ (when plan.refresh_rf_diagnostics (
                              ReadGroup.rf_last_seen ∷ ReadGroup.rf_signal ∷ ReadGroup.device_fault
                              ∷ ReadGroup.value_error ∷ [])
                            ++ when plan.refresh_control_settings
                                (ReadGroup.control_settings ∷ [])))))))
