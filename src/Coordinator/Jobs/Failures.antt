-- ===== src/Coordinator/Jobs/Failures.antt =====
-- coordinator.py: the read jobs that a unit leaves unanswered.
use meltem_ha.Const.Groups.{ReadGroup, read_group_entity_keys}
use meltem_ha.Coordinator.Availability.{
  log_room_availability, room_available, room_unavailable_after, room_unavailable_reason,
}
use meltem_ha.Coordinator.Jobs.{
  JobEnd, TickInput, failures_after_answer, finish_job, job_answered, job_ended, job_unanswered,
  read_one_job, target_of_job, with_read_error,
}
use meltem_ha.Coordinator.Readbacks.{RoomReply}
use meltem_ha.Coordinator.State.{Coordinator, RoomRuntime, runtime_of, state_or}
use meltem_ha.Coordinator.State.Runtimes.{runtime_of-set_runtime}
use meltem_ha.Models.Config.{ReadJobOutcome, RoomConfig, supports_any}
use meltem_ha.Models.Health.{Clock, failed}
use meltem_ha.Models.Plan.{RefreshPlan}
use meltem_ha.Models.Room.{RoomState, empty_room_state, has_data, read_health_for, with_read_health}
use meltem_ha.Prelude.{
  All, List, Option, String, [], ap, arith, false, if_both, if◌then◌else◌, is_some, leb, length,
  none, refl, some, true, ℕ, ◌+◌, ◌∙◌, ◌∷◌, ◌≡◌, ◌≤◌,
}
use meltem_ha.Prelude.Assoc.{lookup, string_discrete}
use meltem_ha.ReadHealth.{JobReadFailure, fail_groups, job_read_failure, job_read_received_values}
use meltem_ha.WriteConfirmation.Store.{outcome}

-- A state without its read health
abbrev pub values_of : RoomState → RoomState
values_of state = record state { group_read_health = [] }

pub failed_values :
    (room : RoomConfig) (at : ℕ) (error : String) (groups : List ReadGroup) (state : RoomState)
    → values_of (fail_groups room at error groups state) ≡ values_of state
unfolding fail_groups with_read_health
failed_values room at error [] state = refl
failed_values room at error (g ∷ groups) state =
    let health = failed (read_health_for state g) at error false in
    let next =
      if supports_any room (read_group_entity_keys g)
      then with_read_health state g health
      else state in
    failed_values room at error groups next
    ∙ if_both (λ (s : RoomState). values_of s ≡ values_of state)
        (supports_any room (read_group_entity_keys g)) (with_read_health state g health) state
        (λ _. refl) (λ _. refl)

logged_failures :
    (silent_for : Option ℕ) (state : RoomState) (runtime : RoomRuntime)
    → (log_room_availability silent_for state runtime).read_failures ≡ runtime.read_failures
unfolding log_room_availability
logged_failures silent_for state runtime =
    let P = λ (r : RoomRuntime). r.read_failures ≡ runtime.read_failures in
    let logged : RoomRuntime = record runtime { unavailable_logged = true } in
    let unlogged : RoomRuntime = record runtime { unavailable_logged = false } in
    if_both P (is_some (room_unavailable_reason silent_for runtime)) logged
      (if has_data state then unlogged else runtime) (λ _. refl)
      (λ _. if_both P (has_data state) unlogged runtime (λ _. refl) (λ _. refl))

-- A job without an answer: the read raised an error, or no request of it was answered and every
-- recorded group that decides about the job failed, without a value.
abbrev pub Missed : RoomConfig → RefreshPlan → RoomReply → Type 0
Missed room plan (RoomReply.room_failed error) = Unit {0}
Missed room plan (RoomReply.room_read state outcome) =
    (failure : JobReadFailure) × (job_read_failure room outcome plan ≡ some failure)
    × (failure.link_failure ≡ true)
    × (job_read_received_values room outcome plan ≡ false)

with_read_error-failures :
    (clock : Clock) (error : Option String) (runtime : RoomRuntime)
    → (with_read_error clock error runtime).read_failures ≡ runtime.read_failures
unfolding with_read_error
with_read_error-failures clock none runtime = refl
with_read_error-failures clock (some error) runtime = refl

finish_job-failures :
    (x : TickInput) (room : RoomConfig) (states : List (String × RoomState)) (previous : RoomState)
    (e : JobEnd)
    → (runtime_of (finish_job x room states previous e).0 room).read_failures
      ≡ (runtime_of e.coordinator room).read_failures
unfolding finish_job
finish_job-failures x room states previous e =
    ap (λ (r : RoomRuntime). r.read_failures) (runtime_of-set_runtime room _ _)
    ∙ with_read_error-failures x.later e.error _
    ∙ logged_failures x.silent_after e.state _

link_failure_counts :
    (room : RoomConfig) (plan : RefreshPlan) (outcome : ReadJobOutcome) (failure : JobReadFailure)
    (n : ℕ)
    → job_read_failure room outcome plan ≡ some failure
    → failure.link_failure ≡ true
    → job_read_received_values room outcome plan ≡ false
    → failures_after_answer room outcome plan n ≡ n + 1
unfolding failures_after_answer
link_failure_counts room plan outcome failure n f l v =
    rw (f, failures_after_answer) (rw (v, l) refl)

job_ended-Missed :
    (x : TickInput) (room : RoomConfig) (plan : RefreshPlan) (previous : RoomState)
    (reply : RoomReply) (c : Coordinator)
    → Missed room plan reply
    → (runtime_of (job_ended x room plan previous reply c).coordinator room).read_failures
      ≡ (runtime_of c room).read_failures + 1
unfolding job_ended job_unanswered job_answered target_of_job
job_ended-Missed x room plan previous (RoomReply.room_failed error) c h =
    ap (λ (r : RoomRuntime). r.read_failures) (runtime_of-set_runtime room _ _)
job_ended-Missed x room plan previous (RoomReply.room_read state outcome) c (failure, f, l, v) =
    rw f (
      ap (λ (r : RoomRuntime). r.read_failures) (runtime_of-set_runtime room _ _)
      ∙ link_failure_counts room plan outcome failure (runtime_of c room).read_failures f l v)

read_one_job-Missed :
    (x : TickInput) (room : RoomConfig) (plan : RefreshPlan) (states : List (String × RoomState))
    (c : Coordinator)
    → Missed room plan x.reply
    → (runtime_of (read_one_job x room plan states c).0 room).read_failures
      ≡ (runtime_of c room).read_failures + 1
unfolding read_one_job
read_one_job-Missed x room plan states c h =
    let previous = state_or (lookup string_discrete room.key states) empty_room_state in
    finish_job-failures x room states previous (job_ended x room plan previous x.reply c)
    ∙ job_ended-Missed x room plan previous x.reply c h

-- Jobs of a room, each with what it got from its surroundings.
abbrev pub run_jobs :
    RoomConfig
    → List (TickInput × RefreshPlan)
    → Coordinator × List (String × RoomState)
    → Coordinator × List (String × RoomState)
run_jobs room [] r = r
run_jobs room ((x, plan) ∷ jobs) r = run_jobs room jobs (read_one_job x room plan r.1 r.0)

abbrev pub Unanswered : RoomConfig → List (TickInput × RefreshPlan) → Type 0
Unanswered room jobs = All (λ j. Missed room j.1 j.0.reply) jobs

failures_of_jobs :
    (room : RoomConfig) (jobs : List (TickInput × RefreshPlan))
    (r : Coordinator × List (String × RoomState))
    → Unanswered room jobs
    → (runtime_of (run_jobs room jobs r).0 room).read_failures
      ≡ (runtime_of r.0 room).read_failures + length jobs
failures_of_jobs room [] r h = omega arith
failures_of_jobs room ((x, plan) ∷ jobs) r h =
    let one = read_one_job x room plan r.1 r.0 in
    let first = read_one_job-Missed x room plan r.1 r.0 h.0 in
    omega (arith, first, failures_of_jobs room jobs one h.1)

enough_failures :
    (silent_for : Option ℕ) (runtime : RoomRuntime)
    → room_unavailable_after ≤ runtime.read_failures
    → is_some (room_unavailable_reason silent_for runtime) ≡ true
unfolding room_unavailable_reason
enough_failures silent_for runtime h =
    let t : leb room_unavailable_after runtime.read_failures ≡ true = ground arith in rw t refl

-- Three jobs of a room in a row without an answer make it unavailable, whatever its states hold
-- and however recently its unit answered another request. A job is without an answer if its read
-- raised an error, or if no request of it was answered and every recorded group that decides about
-- it failed, without a value.
pub run_jobs-Unanswered :
    (room : RoomConfig) (jobs : List (TickInput × RefreshPlan))
    (r : Coordinator × List (String × RoomState)) (silent_for : Option ℕ)
    → Unanswered room jobs
    → 3 ≤ length jobs
    → room_available silent_for room (run_jobs room jobs r).0 ≡ false
unfolding room_available
run_jobs-Unanswered room jobs r silent_for h k =
    let e =
      enough_failures silent_for (runtime_of (run_jobs room jobs r).0 room)
        (omega (arith, failures_of_jobs room jobs r h, k)) in
    rw e refl
