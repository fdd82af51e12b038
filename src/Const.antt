-- ===== src/Const.antt =====
-- const.py: fixed facts of the integration. Times are in milliseconds, those of the source in
-- seconds; where the source has a fraction of a second, it is exact here.
pub mod Modes
pub mod Profiles
pub mod Groups
use meltem_ha.Prelude.{ℕ}

abbrev pub transport_read_recovery : ℕ
transport_read_recovery = 5000

abbrev pub read_failure_threshold : ℕ
read_failure_threshold = 3

abbrev pub airflow_stale_after : ℕ
airflow_stale_after = 30000

abbrev pub write_confirmation_timeout : ℕ
write_confirmation_timeout = 30000

abbrev pub write_health_retention : ℕ
write_health_retention = 600000

-- FLOW_REFRESH_SECONDS
abbrev pub flow_refresh : ℕ
flow_refresh = 10000

-- STATUS_REFRESH_SECONDS and TEMPERATURE_REFRESH_SECONDS
abbrev pub status_refresh : ℕ
status_refresh = 60000

-- OPERATING_HOURS_, CONTROL_SETTINGS_ and FILTER_REFRESH_SECONDS
abbrev pub hourly_refresh : ℕ
hourly_refresh = 3600000
