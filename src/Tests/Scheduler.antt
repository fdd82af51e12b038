-- ===== src/Tests/Scheduler.antt =====
-- The scheduler of the poll ticks at concrete inputs.
use meltem_ha.Coordinator.Poller.{
  Poller, claim_read_slot, has_job, move_job, moved_in, new_poller, read_spacing_remaining,
  same_job, select_from, select_poll_job, start_job, startup_selection, warmed_jobs,
  with_startup_jobs,
}
use meltem_ha.Coordinator.Poller.Backoff.{
  FollowsFailures, PollerEvent, backoff-poller_after, poller_after,
}
use meltem_ha.Coordinator.Poller.Startup.{WarmUp, WarmUp-complete, refs_left}
use meltem_ha.Models.Plan.{empty_refresh_plan}
use meltem_ha.Polling.{JobKey, JobKey-discrete, PollJob, due_jobs, select_due_job}
use meltem_ha.Prelude.{[], arith, refl, some, true, ℕ, ◌+◌, ◌∷◌, ◌≡◌}
use meltem_ha.Tests.Samples.{room}

failing_events_example : FollowsFailures 3 (
    poller_after
      (PollerEvent.link_failed ∷ PollerEvent.link_failed ∷ PollerEvent.link_failed ∷ [])
      (new_poller (room ∷ []) 100 0))
failing_events_example =
    backoff-poller_after (room ∷ []) 100 0
      (PollerEvent.link_failed ∷ PollerEvent.link_failed ∷ PollerEvent.link_failed ∷ [])

abbrev poll_job : JobKey → PollJob
poll_job key = record {
  key = key;
  room_key = "slave_2";
  refresh_plan = empty_refresh_plan;
  interval = 10000;
  next_due = 0;
}

-- One job to start up, and no other.
abbrev warming : Poller
warming = record (new_poller [] 100 0) {
  poll_jobs = poll_job JobKey.flow ∷ [];
  startup_jobs = some (poll_job JobKey.flow ∷ []);
}

abbrev tick_at : ℕ → Poller → Poller
tick_at now p = start_job now (now + 10000) (select_poll_job now true p)

three_ticks :
    WarmUp 3 ((JobKey.flow, "slave_2") ∷ []) warming (tick_at 400 (tick_at 200 (tick_at 0 warming)))
unfolding select_poll_job select_from with_startup_jobs startup_selection start_job move_job
    moved_in select_due_job due_jobs warmed_jobs claim_read_slot read_spacing_remaining new_poller
    has_job same_job JobKey-discrete
three_ticks = WarmUp.ticked 2 [] warming _ 0 10000 true refl (
    WarmUp.ticked 1 [] _ _ 200 10200 true refl
      (WarmUp.ticked 0 [] _ _ 400 10400 true refl (WarmUp.unticked _)))

warmed_example :
    ((JobKey.flow, "slave_2") ∷ [] ≡ refs_left warming.startup_jobs)
    × (refs_left (tick_at 400 (tick_at 200 (tick_at 0 warming))).startup_jobs ≡ [])
warmed_example =
    WarmUp-complete 3 ((JobKey.flow, "slave_2") ∷ []) warming
      (tick_at 400 (tick_at 200 (tick_at 0 warming))) refl (omega arith) three_ticks
