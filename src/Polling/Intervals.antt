-- ===== src/Polling/Intervals.antt =====
-- polling.py: how long a job waits for its next run, and the interval of each read group.
use meltem_ha.Const.Groups.{ReadGroup, ReadGroup-discrete}
use meltem_ha.Models.Plan.{empty_refresh_plan, read_groups}
use meltem_ha.Polling.{
  PollJob, job_groups, job_interval, read_group_interval, read_group_intervals, silent_room_poll,
  unread_group_retry,
}
use meltem_ha.Prelude.{Bool, [], arith, if◌then◌else◌, max, not, some, ℕ, ◌&&◌, ◌≡◌, ◌≤◌}
use meltem_ha.Prelude.Assoc.{fill, insert, lookup}

-- The interval of a read group is the entry of the dictionary that JOB_GROUPS makes, so every
-- read group has one.
pub lookup-read_group_intervals :
    (g : ReadGroup)
    → lookup ReadGroup-discrete g (fill ReadGroup-discrete [] (read_group_intervals job_groups))
      ≡ some (read_group_interval g)
unfolding lookup fill insert read_group_intervals job_groups read_groups read_group_interval
    empty_refresh_plan
lookup-read_group_intervals ReadGroup.flow = ground arith
lookup-read_group_intervals _ = ground arith

-- The next run of a job comes no later than its interval, but for a silent unit, which waits a
-- minute at least. A job with a group that was never read waits as long as the integration has
-- been running, a minute at least; any other waits its full interval.
pub job_interval_bounds :
    (job : PollJob) (elapsed : ℕ) (never silent : Bool)
    → (job_interval job elapsed never silent
        ≤ max job.interval (if silent then silent_room_poll else 0))
      × ((if silent then silent_room_poll else 0) ≤ job_interval job elapsed never silent)
      × (job_interval job elapsed never silent ≤ (
          if never && not silent
          then max unread_group_retry elapsed
          else max job.interval silent_room_poll))
      × ((if never then 0 else job.interval) ≤ job_interval job elapsed never silent)
unfolding job_interval
job_interval_bounds job elapsed never silent = ground arith
