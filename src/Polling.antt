-- ===== src/Polling.antt =====
-- polling.py: the poll jobs of a gateway's rooms, and when each is due. Times are in milliseconds;
-- the spread of a group over its rooms is rounded down to one.
pub mod Schedule
pub mod Spread
pub mod Backoff
pub mod Intervals
use mathlib.Core.List.{flat_map}
use meltem_ha.Const.{flow_refresh, hourly_refresh, status_refresh}
use meltem_ha.Const.Groups.{ReadGroup, is_optional_group, read_group_entity_keys}
use meltem_ha.Models.Config.{RoomConfig, supports_any}
use meltem_ha.Models.Plan.{RefreshPlan, empty_refresh_plan, read_groups}
use meltem_ha.Models.Room.{RoomState, read_health_for}
use meltem_ha.Prelude.{
  Bool, List, Option, String, [], any, if◌then◌else◌, is_some, leb, length, ltb, map, max, min,
  none, not, some, suc, true, ℕ, ◌&&◌, ◌*◌, ◌++◌, ◌+◌, ◌-◌, ◌/◌, ◌^◌, ◌||◌, ◌∷◌,
}

-- FULL_REFRESH_PLAN is RefreshPlan(); the other plans are RefreshPlan.only(...)
abbrev pub airflow_refresh_plan : RefreshPlan
airflow_refresh_plan = record empty_refresh_plan { refresh_airflow = true }

abbrev pub control_settings_refresh_plan : RefreshPlan
control_settings_refresh_plan = record empty_refresh_plan { refresh_control_settings = true }

abbrev pub transport_backoff_after_failures : ℕ
transport_backoff_after_failures = 3

abbrev pub transport_backoff_start : ℕ
transport_backoff_start = 5000

abbrev pub transport_backoff_max : ℕ
transport_backoff_max = 60000

abbrev pub silent_room_poll : ℕ
silent_room_poll = 60000

abbrev pub unread_group_retry : ℕ
unread_group_retry = 60000

abbrev pub idle_tick : ℕ
idle_tick = 60000

pub data JobKey : Type 0 where
  flow status rf temperature filter hours control_settings : JobKey

unfoldable pub JobKey-discrete : Discrete JobKey
JobKey-discrete = hlevel

pub record JobGroup : Type 0 where
  pub key : JobKey
  pub interval : ℕ
  pub refresh_plan : RefreshPlan

-- JobGroup.entity_keys
unfoldable pub entity_keys : JobGroup → List String
entity_keys group = flat_map read_group_entity_keys (read_groups group.refresh_plan)

-- JOB_GROUPS
unfoldable pub job_groups : List JobGroup
unfolding empty_refresh_plan
job_groups =
    record { key = JobKey.flow; interval = flow_refresh; refresh_plan = airflow_refresh_plan }
    ∷ record {
      key = JobKey.status;
      interval = status_refresh;
      refresh_plan = record empty_refresh_plan { refresh_status = true };
    }
    ∷ record {
      key = JobKey.rf;
      interval = status_refresh;
      refresh_plan = record empty_refresh_plan { refresh_rf_diagnostics = true };
    }
    ∷ record {
      key = JobKey.temperature;
      interval = status_refresh;
      refresh_plan = record empty_refresh_plan {
        refresh_temperatures = true;
        refresh_environment = true;
      };
    }
    ∷ record {
      key = JobKey.filter;
      interval = hourly_refresh;
      refresh_plan = record empty_refresh_plan {
        refresh_filter_change_due = true;
        refresh_filter_days = true;
      };
    }
    ∷ record {
      key = JobKey.hours;
      interval = hourly_refresh;
      refresh_plan = record empty_refresh_plan { refresh_operating_hours = true };
    }
    ∷ record {
      key = JobKey.control_settings;
      interval = hourly_refresh;
      refresh_plan = control_settings_refresh_plan;
    }
    ∷ []

-- READ_GROUP_INTERVAL_SECONDS, the dictionary: each group of each job with the job's interval.
unfoldable pub read_group_intervals : List JobGroup → List (ReadGroup × ℕ)
read_group_intervals [] = []
read_group_intervals (group ∷ groups) =
    map (λ g. (g, group.interval)) (read_groups group.refresh_plan) ++ read_group_intervals groups

-- READ_GROUP_INTERVAL_SECONDS[group_key]
unfoldable pub read_group_interval : ReadGroup → ℕ
read_group_interval ReadGroup.flow = flow_refresh
read_group_interval ReadGroup.flow_control = flow_refresh
read_group_interval ReadGroup.intensive = flow_refresh
read_group_interval ReadGroup.filter = hourly_refresh
read_group_interval ReadGroup.hours = hourly_refresh
read_group_interval ReadGroup.fan_hours = hourly_refresh
read_group_interval ReadGroup.control_settings = hourly_refresh
read_group_interval _ = status_refresh

pub record PollJob : Type 0 where
  pub key : JobKey
  pub room_key : String
  pub refresh_plan : RefreshPlan
  pub interval : ℕ
  pub next_due : ℕ

-- The groups of a plan that a room has an entity of.
unfoldable pub supported_groups : RoomConfig → List ReadGroup → List ReadGroup
supported_groups room [] = []
supported_groups room (g ∷ groups) =
    let rest = supported_groups room groups in
    if supports_any room (read_group_entity_keys g) then g ∷ rest else rest

primary_groups : List ReadGroup → List ReadGroup
primary_groups [] = []
primary_groups (g ∷ groups) =
    let rest = primary_groups groups in if is_optional_group g then rest else g ∷ rest

primary_never_read : RoomState → ReadGroup → Bool
primary_never_read state g = not (is_some (read_health_for state g).last_successful_read)

optional_never_read : RoomState → ReadGroup → Bool
optional_never_read state g =
    not (is_some (read_health_for state g).last_successful_read)
    && (not (is_some (read_health_for state g).last_attempt)
        || (read_health_for state g).last_error_timed_out)

never_read_groups : RoomState → List ReadGroup → List ReadGroup → Bool
unfolding primary_never_read optional_never_read
never_read_groups state groups [] = any (optional_never_read state) groups
never_read_groups state groups (g ∷ primary) = any (primary_never_read state) (g ∷ primary)

-- PollJob.never_read, at the state of the job's room or the empty one
unfoldable pub never_read : PollJob → RoomConfig → RoomState → Bool
unfolding never_read_groups primary_groups
never_read job room state =
    let groups = supported_groups room (read_groups job.refresh_plan) in
    never_read_groups state groups (primary_groups groups)

-- PollJob.interval
unfoldable pub job_interval : PollJob → ℕ → Bool → Bool → ℕ
job_interval job elapsed_since_start never room_silent =
    let interval =
      if never
      then min job.interval (max unread_group_retry elapsed_since_start)
      else job.interval in
    if room_silent then max interval silent_room_poll else interval

unfoldable pub room_needs_job : RoomConfig → JobGroup → Bool
unfolding entity_keys
room_needs_job room group = supports_any room (entity_keys group)

-- [room for room in rooms if room_needs_job(room, group)]
unfoldable pub rooms_needing : JobGroup → List RoomConfig → List RoomConfig
rooms_needing group [] = []
rooms_needing group (room ∷ rooms) =
    let rest = rooms_needing group rooms in if room_needs_job room group then room ∷ rest else rest

-- The jobs of one group for the rooms from `index` on, spread over the interval.
unfoldable pub group_jobs : JobGroup → ℕ → ℕ → ℕ → List RoomConfig → List PollJob
group_jobs group now count index [] = []
group_jobs group now count index (room ∷ rooms) =
    record {
      key = group.key;
      room_key = room.key;
      refresh_plan = group.refresh_plan;
      interval = group.interval;
      next_due = now + index * group.interval / count;
    }
    ∷ group_jobs group now count (suc index) rooms

jobs_of_groups : List JobGroup → List RoomConfig → ℕ → List PollJob
jobs_of_groups [] rooms now = []
jobs_of_groups (group ∷ groups) rooms now =
    group_jobs group now (length (rooms_needing group rooms)) 0 (rooms_needing group rooms)
    ++ jobs_of_groups groups rooms now

unfoldable pub build_jobs : List RoomConfig → ℕ → List PollJob
unfolding jobs_of_groups
build_jobs rooms now = jobs_of_groups job_groups rooms now

-- `min` by `next_due`: the first of the earliest.
unfoldable pub earliest : PollJob → List PollJob → PollJob
earliest best [] = best
earliest best (job ∷ jobs) = earliest (if ltb job.next_due best.next_due then job else best) jobs

unfoldable pub due_jobs : List PollJob → ℕ → List PollJob
due_jobs [] now = []
due_jobs (job ∷ jobs) now =
    let rest = due_jobs jobs now in if leb job.next_due now then job ∷ rest else rest

min_job : List PollJob → Option PollJob
min_job [] = none
min_job (job ∷ jobs) = some (earliest job jobs)

unfoldable pub select_due_job : List PollJob → ℕ → Option PollJob
unfolding min_job
select_due_job jobs now = min_job (due_jobs jobs now)

unfoldable pub next_tick_seconds : List PollJob → Bool → ℕ → ℕ → ℕ
next_tick_seconds [] startup_pending tick now = idle_tick
next_tick_seconds (job ∷ jobs) startup_pending tick now =
    max tick ((if startup_pending then now else (earliest job jobs).next_due) - now)

-- The largest exponent is ⌈log2(60 / 5)⌉ = 4.
unfoldable pub backoff_seconds : ℕ → Option ℕ
backoff_seconds consecutive_failures =
    if ltb consecutive_failures transport_backoff_after_failures
    then none
    else some (
        min transport_backoff_max (
          transport_backoff_start
          * 2 ^ min (consecutive_failures - transport_backoff_after_failures) 4))
