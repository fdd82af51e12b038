-- ===== src/Coordinator/Poller.antt =====
-- coordinator.py: which job a poll tick runs, when the next tick comes, and the backoff of a
-- gateway whose link fails. Log calls are left out.
pub mod Backoff
pub mod Startup
use meltem_ha.GatewayReads.{started}
use meltem_ha.Models.Config.{RoomConfig}
use meltem_ha.Polling.{
  JobKey-discrete, PollJob, backoff_seconds, build_jobs, job_interval, next_tick_seconds,
  select_due_job, transport_backoff_start,
}
use meltem_ha.Prelude.{
  Bool, List, Option, [], any, decb, false, if◌then◌else◌, is_some, ltb, max, min, none, not,
  option_eq, some, str_eq, true, ℕ, ◌&&◌, ◌+◌, ◌-◌, ◌==◌, ◌||◌, ◌∷◌,
}

-- The fields that the scheduling of polls uses. `poll_timer` is the delay of the scheduled call.
pub record Poller : Type 0 where
  pub poll_jobs : List PollJob
  pub startup_jobs : Option (List PollJob)
  pub startup_turn : Bool
  pub last_read_started : Option ℕ
  pub tick : ℕ
  pub started_at : ℕ
  pub consecutive_transport_failures : ℕ
  pub backoff : Option ℕ
  pub next_poll_delay : ℕ
  pub poll_timer : Option ℕ
  pub poll_running : Bool
  pub polling_stopped : Bool
  -- hass.is_stopping and the preference of the entry
  pub is_stopping : Bool
  pub pref_disable_polling : Bool

unfoldable pub new_poller : List RoomConfig → ℕ → ℕ → Poller
new_poller rooms tick now = record {
  poll_jobs = build_jobs rooms now;
  startup_jobs = none;
  startup_turn = true;
  last_read_started = none;
  tick = tick;
  started_at = now;
  consecutive_transport_failures = 0;
  backoff = none;
  next_poll_delay = tick;
  poll_timer = none;
  poll_running = false;
  polling_stopped = false;
  is_stopping = false;
  pref_disable_polling = false;
}

-- _async_schedule_poll
unfoldable pub schedule_poll : ℕ → Poller → Poller
schedule_poll delay p = record p {
  poll_timer =
      if p.polling_stopped || (p.is_stopping || p.pref_disable_polling) then none else some delay;
}

-- _async_set_next_poll_delay
unfoldable pub set_next_poll_delay : ℕ → Poller → Poller
unfolding schedule_poll
set_next_poll_delay seconds p =
    let p' = record p { next_poll_delay = seconds } in
    if not p.poll_running && is_some p.poll_timer then schedule_poll seconds p' else p'

-- async_poll up to its refresh, which it skips when the polling has stopped
unfoldable pub begin_poll : Poller → Option Poller
begin_poll p =
    if p.polling_stopped || p.is_stopping
    then none
    else some (record p { poll_timer = none; poll_running = true })

-- The `finally` of async_poll
unfoldable pub end_poll : Poller → Poller
unfolding schedule_poll
end_poll p = schedule_poll p.next_poll_delay (record p { poll_running = false })

-- _async_poll_due
unfoldable pub poll_due : Poller → Poller
poll_due p = record p { poll_timer = none }

-- The polling part of async_shutdown
unfoldable pub stop_polling : Poller → Poller
stop_polling p = record p { polling_stopped = true; poll_timer = none }

-- The two loops over the optional reads: `dues` are their `seconds_until_due()`.
unfoldable pub soonest : ℕ → List (Option ℕ) → ℕ → ℕ
soonest tick [] seconds = seconds
soonest tick (none ∷ dues) seconds = soonest tick dues seconds
soonest tick (some due_in ∷ dues) seconds = soonest tick dues (min seconds (max tick due_in))

-- `bool(self._startup_jobs)`
unfoldable pub startup_pending : Option (List PollJob) → Bool
startup_pending (some (_ ∷ _)) = true
startup_pending _ = false

-- The delay that _schedule_next_tick finds
unfoldable pub tick_delay : ℕ → List (Option ℕ) → Poller → ℕ
tick_delay now dues p =
    soonest p.tick dues (next_tick_seconds p.poll_jobs (startup_pending p.startup_jobs) p.tick now)

unfoldable pub schedule_next_tick : ℕ → List (Option ℕ) → Poller → Poller
schedule_next_tick now dues p =
    if is_some p.backoff then p else set_next_poll_delay (tick_delay now dues p) p

-- _on_transport_success
unfoldable pub on_transport_success : ℕ → List (Option ℕ) → Poller → Poller
on_transport_success now dues p =
    let p' = record p { consecutive_transport_failures = 0 } in
    if is_some p.backoff then schedule_next_tick now dues (record p' { backoff = none }) else p'

backed_off : Option ℕ → Poller → Poller
backed_off none p = p
backed_off (some seconds) p =
    if option_eq ◌==◌ (some seconds) p.backoff
    then p
    else set_next_poll_delay seconds (record p { backoff = some seconds })

-- _apply_transport_backoff
unfoldable pub apply_transport_backoff : Poller → Poller
unfolding backed_off
apply_transport_backoff p = backed_off (backoff_seconds p.consecutive_transport_failures) p

-- _on_transport_failure
unfoldable pub on_transport_failure : Poller → Poller
on_transport_failure p =
    apply_transport_backoff
      (record p { consecutive_transport_failures = p.consecutive_transport_failures + 1 })

-- The end of a failed update: `if self._backoff_seconds is None`
unfoldable pub delay_failed_update : Poller → Poller
delay_failed_update p =
    if is_some p.backoff then p else set_next_poll_delay transport_backoff_start p

-- update_request_rate, with the tick of the new rate
unfoldable pub update_request_rate : ℕ → ℕ → List (Option ℕ) → Poller → Poller
update_request_rate tick now dues p =
    let p' = record p { tick = tick } in
    if is_some p.backoff then p' else schedule_next_tick now dues p'

-- _read_spacing_remaining
unfoldable pub read_spacing_remaining : Poller → ℕ → ℕ
read_spacing_remaining p now = elim p.last_read_started [
  | none ↦ 0
  | some started ↦ started + p.tick - now
]

-- The claim of _async_wait_for_read_slot, and the start of a job or of an optional read.
unfoldable pub claim_read_slot : ℕ → Poller → Poller
claim_read_slot now p = record p { last_read_started = some now }

-- Jobs are objects that both lists share: a job is known by its key and its room.
unfoldable pub same_job : PollJob → PollJob → Bool
same_job a b = decb (JobKey-discrete a.key b.key) && str_eq a.room_key b.room_key

-- `job in self._startup_jobs`
unfoldable pub has_job : PollJob → List PollJob → Bool
has_job job jobs = any (same_job job) jobs

-- `job for job in self.poll_jobs if job not in self._startup_jobs`
unfoldable pub warmed_jobs : List PollJob → List PollJob → List PollJob
warmed_jobs startup [] = []
warmed_jobs startup (job ∷ jobs) =
    let rest = warmed_jobs startup jobs in if has_job job startup then rest else job ∷ rest

-- The job that a tick runs, if any, and whether it is one of the start-up.
pub record Selection : Type 0 where
  pub poller : Poller
  pub job : Option PollJob
  pub startup : Bool

-- The branch with start-up jobs left: the next of them, or a job that is due.
unfoldable pub startup_selection : Poller → PollJob → List PollJob → Option PollJob → Selection
startup_selection p first rest none = record {
  poller = record p { startup_turn = false; startup_jobs = some rest };
  job = some first;
  startup = true;
}
startup_selection p first rest (some due) =
    if p.startup_turn
    then record {
      poller = record p { startup_turn = false; startup_jobs = some rest };
      job = some first;
      startup = true;
    }
    else record { poller = record p { startup_turn = true }; job = some due; startup = false }

unfoldable pub select_from : Poller → ℕ → Option (List PollJob) → Selection
unfolding startup_selection
select_from p now (some (first ∷ rest)) =
    startup_selection p first rest (select_due_job (warmed_jobs (first ∷ rest) p.poll_jobs) now)
select_from p now _ = record { poller = p; job = select_due_job p.poll_jobs now; startup = false }

-- `if self._startup_jobs is None and not self.safe_data`
unfoldable pub with_startup_jobs : Bool → Poller → Poller
with_startup_jobs has_states p =
    if not (is_some p.startup_jobs) && not has_states
    then record p { startup_jobs = some p.poll_jobs }
    else p

-- _select_poll_job
unfoldable pub select_poll_job : ℕ → Bool → Poller → Selection
unfolding with_startup_jobs select_from
select_poll_job now has_states p =
    let p' = with_startup_jobs has_states p in
    if ltb 0 (read_spacing_remaining p' now)
    then record { poller = p'; job = none; startup = false }
    else select_from p' now p'.startup_jobs

-- `job.next_due = due` in a list that holds the job
unfoldable pub moved_in : PollJob → ℕ → List PollJob → List PollJob
moved_in job due [] = []
moved_in job due (j ∷ jobs) =
    (if same_job job j then record j { next_due = due } else j) ∷ moved_in job due jobs

moved_startup : PollJob → ℕ → Option (List PollJob) → Option (List PollJob)
moved_startup job due none = none
moved_startup job due (some jobs) = some (moved_in job due jobs)

unfoldable pub move_job : PollJob → ℕ → Poller → Poller
unfolding moved_startup
move_job job due p = record p {
  poll_jobs = moved_in job due p.poll_jobs;
  startup_jobs = moved_startup job due p.startup_jobs;
}

started_job : ℕ → ℕ → Poller → Option PollJob → Poller
started_job now due p none = p
started_job now due p (some job) = claim_read_slot now (move_job job due p)

-- A tick moves its job forward before it runs: a failing read cannot stay at the front.
unfoldable pub start_job : ℕ → ℕ → Selection → Poller
unfolding started_job
start_job now due s = started_job now due s.poller s.job

abbrev pub room_silent_after : ℕ
room_silent_after = 120000

-- _room_silent: a unit that never answered is silent since the start.
unfoldable pub room_silent : ℕ → Option ℕ → Bool
room_silent elapsed none = ltb room_silent_after elapsed
room_silent elapsed (some silent_for) = ltb room_silent_after silent_for

-- MeltemDataUpdateCoordinator._job_interval, at what `seconds_since_successful_read` returns
unfoldable pub next_interval : ℕ → Option ℕ → Bool → PollJob → Poller → ℕ
next_interval now silent_for never job p =
    job_interval job (now - p.started_at) never (room_silent (now - p.started_at) silent_for)
