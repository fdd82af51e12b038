-- ===== src/Tests/Schedules.antt =====
-- The polling schedule at concrete inputs.
use meltem_ha.Models.Plan.{empty_refresh_plan}
use meltem_ha.Polling.{JobKey, PollJob, due_jobs, earliest, next_tick_seconds, select_due_job}
use meltem_ha.Polling.Schedule.{
  InTime, IsSelected, next_tick_seconds-select_due_job, select_due_job-IsSelected,
}
use meltem_ha.Prelude.{[], false, none, refl, some, ℕ, ◌+◌, ◌∷◌, ◌≡◌, ◌≢◌, ◌≤◌}

abbrev flow_job : ℕ → PollJob
flow_job due = record {
  key = JobKey.flow;
  room_key = "slave_2";
  refresh_plan = empty_refresh_plan;
  interval = 10000;
  next_due = due;
}

later_is_passed_over :
    select_due_job (flow_job 900 ∷ flow_job 400 ∷ flow_job 2000 ∷ []) 1000 ≡ some (flow_job 400)
unfolding select_due_job due_jobs earliest
later_is_passed_over = refl

due_example :
    IsSelected
      (flow_job 900 ∷ flow_job 400 ∷ [])
      1000
      (select_due_job (flow_job 900 ∷ flow_job 400 ∷ []) 1000)
due_example = select_due_job-IsSelected (flow_job 900 ∷ flow_job 400 ∷ []) 1000

tick_example :
    (100 ≤ next_tick_seconds (flow_job 900 ∷ flow_job 700 ∷ []) false 100 200)
    × (select_due_job
          (flow_job 900 ∷ flow_job 700 ∷ [])
          (200 + next_tick_seconds (flow_job 900 ∷ flow_job 700 ∷ []) false 100 200)
        ≢ none)
    × InTime 100
        (flow_job 900 ∷ flow_job 700 ∷ [])
        200
        (next_tick_seconds (flow_job 900 ∷ flow_job 700 ∷ []) false 100 200)
tick_example = next_tick_seconds-select_due_job (flow_job 900) (flow_job 700 ∷ []) 100 200
