-- ===== src/ReadHealth.antt =====
-- read_health.py: how fresh the values of each read group of a unit are, and how a read job fared.
-- The clock is an argument; a difference of times stops at 0, which no test here tells from a
-- negative one.
pub mod Coherence
pub mod Failures
pub mod Entities
pub mod Jobs
use meltem_ha.Const.{airflow_stale_after, read_failure_threshold}
use meltem_ha.Const.Groups.{
  ReadGroup, ReadGroup-discrete, is_optional_group, read_group_entity_keys, read_groups_in_order,
}
use meltem_ha.Models.Config.{ReadJobOutcome, RoomConfig, supports_any}
use meltem_ha.Models.Health.{Clock, ReadHealth, failed, health_eq}
use meltem_ha.Models.Plan.{RefreshPlan, read_groups}
use meltem_ha.Models.Room.{RoomState, read_health_for, with_read_health}
use meltem_ha.Polling.{read_group_interval, supported_groups}
use meltem_ha.Prelude.{
  Bool, List, Option, String, [], any, bool_eq, contains, decb, false, if◌then◌else◌, is_some, leb,
  ltb, none, not, option_eq, some, true, ℕ, ◌&&◌, ◌*◌, ◌-◌, ◌==◌, ◌||◌, ◌∷◌,
}
use meltem_ha.Prelude.Assoc.{lookup}

first_group_of : String → List ReadGroup → Option ReadGroup
first_group_of entity_key [] = none
first_group_of entity_key (g ∷ groups) =
    if contains entity_key (read_group_entity_keys g)
    then some g
    else first_group_of entity_key groups

unfoldable pub read_group_for_entity : String → Option ReadGroup
unfolding first_group_of
read_group_for_entity entity_key = first_group_of entity_key read_groups_in_order

-- The stale limit of a group.
unfoldable pub stale_after : ReadGroup → ℕ
stale_after ReadGroup.flow = airflow_stale_after
stale_after group = read_group_interval group * 3

older_than : ℕ → Option ℕ → Option ℕ → Clock → Bool
older_than limit (some read_at) wall clock = ltb limit (clock.monotonic - read_at)
older_than limit none none clock = true
older_than limit none (some read_at) clock = ltb limit (clock.utcnow - read_at)

unfoldable pub read_too_old : Clock → ReadGroup → ReadHealth → Bool
unfolding older_than
read_too_old clock group health =
    older_than (stale_after group) health.last_success_monotonic health.last_successful_read clock

-- Whether the most recent attempt of a health succeeded.
unfoldable pub last_attempt_succeeded : ReadHealth → Bool
last_attempt_succeeded health =
    is_some health.last_successful_read
    && (option_eq ◌==◌ health.last_successful_read health.last_attempt
        && (health.consecutive_failures == 0 && not (is_some health.last_error)))

unfoldable pub group_fresh : Clock → RoomState → ReadGroup → Bool
group_fresh clock state group =
    let health = read_health_for state group in
    last_attempt_succeeded health && not (read_too_old clock group health)

unfoldable pub group_available : Clock → RoomState → ReadGroup → Bool
group_available clock state group =
    let health = read_health_for state group in
    is_some health.last_successful_read
    && (ltb health.consecutive_failures read_failure_threshold
        && not (read_too_old clock group health))

unfoldable pub unsupported_optional_group : ReadGroup → ReadHealth → Bool
unsupported_optional_group group health =
    is_optional_group group
    && (not (is_some health.last_successful_read)
        && (is_some health.last_attempt && not health.last_error_timed_out))

stale_health : Clock → ReadGroup → ReadHealth → Option Bool
stale_health clock group health =
    if not (is_some health.last_attempt) || unsupported_optional_group group health
    then none
    else if leb read_failure_threshold health.consecutive_failures
    then some true
    else if not (is_some health.last_successful_read)
    then if is_some health.last_error && not health.last_error_timed_out then some true else none
    else some (read_too_old clock group health)

unfoldable pub group_stale : Clock → RoomState → ReadGroup → Option Bool
unfolding stale_health
group_stale clock state group = stale_health clock group (read_health_for state group)

unfoldable pub fail_groups : RoomConfig → ℕ → String → List ReadGroup → RoomState → RoomState
fail_groups room attempted_at error [] state = state
fail_groups room attempted_at error (g ∷ groups) state =
    fail_groups room attempted_at error groups (
      if supports_any room (read_group_entity_keys g)
      then with_read_health state g (failed (read_health_for state g) attempted_at error false)
      else state)

unfoldable pub record_read_failures :
    Clock → RoomState → RoomConfig → RefreshPlan → String → RoomState
unfolding fail_groups
record_read_failures clock state room refresh_plan error =
    fail_groups room clock.utcnow error (read_groups refresh_plan) state

unfoldable pub mode_read_since : RoomState → ReadHealth → Bool
mode_read_since state baseline =
    let health = read_health_for state ReadGroup.flow_control in
    not (is_some health.last_error)
    && (is_some health.last_successful_read
        && not (option_eq ◌==◌ health.last_successful_read baseline.last_successful_read))

unfoldable pub read_since : Clock → RoomState → ReadGroup → ReadHealth → Bool
read_since clock state group baseline =
    group_fresh clock state group && not (health_eq (read_health_for state group) baseline)

pub record JobReadFailure : Type 0 where
  pub error : String
  pub link_failure : Bool

-- `group in groups`
unfoldable pub has_group : ReadGroup → List ReadGroup → Bool
has_group g groups = any (λ x. decb (ReadGroup-discrete g x)) groups

unfoldable pub job_read_groups : RoomConfig → RefreshPlan → List ReadGroup
job_read_groups room refresh_plan =
    if refresh_plan.refresh_airflow && supports_any room (read_group_entity_keys ReadGroup.flow)
    then ReadGroup.flow ∷ []
    else supported_groups room (read_groups refresh_plan)

recorded_of : ReadJobOutcome → List ReadGroup → List ReadGroup
unfolding has_group
recorded_of outcome [] = []
recorded_of outcome (g ∷ groups) =
    let rest = recorded_of outcome groups in
    if has_group g outcome.recorded_groups then g ∷ rest else rest

-- `group in outcome.errors`
unfoldable pub has_error : ReadJobOutcome → ReadGroup → Bool
has_error outcome g = is_some (lookup ReadGroup-discrete g outcome.errors)

failure_with : Bool → Option String → Option JobReadFailure
failure_with link_failure none = none
failure_with link_failure (some error) =
    some (record { error = error; link_failure = link_failure })

-- `outcome.errors[recorded[0]]` is there, as every recorded group has an error.
failure_of : ReadJobOutcome → List ReadGroup → Option JobReadFailure
unfolding failure_with
failure_of outcome [] = none
failure_of outcome (g ∷ recorded) =
    if any (λ x. not (has_error outcome x)) (g ∷ recorded)
    then none
    else failure_with (not outcome.answered) (lookup ReadGroup-discrete g outcome.errors)

unfoldable pub job_read_failure : RoomConfig → ReadJobOutcome → RefreshPlan → Option JobReadFailure
unfolding recorded_of failure_of
job_read_failure room outcome refresh_plan =
    failure_of outcome (recorded_of outcome (job_read_groups room refresh_plan))

unfoldable pub job_read_attempted : RoomConfig → ReadJobOutcome → RefreshPlan → Bool
job_read_attempted room outcome refresh_plan =
    any (λ g. has_group g outcome.attempted_groups && supports_any room (read_group_entity_keys g))
      (read_groups refresh_plan)

unfoldable pub job_read_unanswered : RoomConfig → ReadJobOutcome → RefreshPlan → Bool
job_read_unanswered room outcome refresh_plan =
    job_read_attempted room outcome refresh_plan && not outcome.answered

unfoldable pub job_read_received_values : RoomConfig → ReadJobOutcome → RefreshPlan → Bool
job_read_received_values room outcome refresh_plan =
    any (λ g. has_group g outcome.value_groups) (job_read_groups room refresh_plan)

unfoldable pub job_read_succeeded : RoomConfig → ReadJobOutcome → RefreshPlan → Bool
job_read_succeeded room outcome refresh_plan =
    job_read_received_values room outcome refresh_plan
    || any
        (λ g.
          has_group g outcome.unit_success_groups
          && (has_group g outcome.recorded_groups && not (has_error outcome g)))
        (job_read_groups room refresh_plan)

-- `group_stale(...) is value` for some recorded group
any_stale : Clock → RoomState → Bool → Bool
any_stale clock state value =
    any (λ e. option_eq bool_eq (group_stale clock state e.0) (some value)) state.group_read_health

unfoldable pub data_health_stale : Clock → Option RoomState → Bool → Bool → Option Bool
unfolding any_stale
data_health_stale clock none writes_unhealthy has_writes = none
data_health_stale clock (some state) writes_unhealthy has_writes =
    if any_stale clock state true
    then some true
    else if writes_unhealthy
    then some true
    else if any_stale clock state false || has_writes
    then some false
    else none
