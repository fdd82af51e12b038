-- ===== src/ReadHealth/Jobs.antt =====
-- read_health.py: the outcome of a job, as a failure, as unanswered and as succeeded.
use meltem_ha.Const.Groups.{ReadGroup}
use meltem_ha.Models.Config.{ReadJobOutcome, RoomConfig}
use meltem_ha.Models.Plan.{RefreshPlan}
use meltem_ha.Prelude.{All, List, [], any, arith, false, not, refl, some, true, ◌&&◌, ◌∷◌, ◌≡◌}
use meltem_ha.ReadHealth.{
  JobReadFailure, failure_of, has_error, has_group, job_read_failure, job_read_groups,
  job_read_received_values, job_read_succeeded, recorded_of,
}

-- All groups have an error.
abbrev AllFailed : ReadJobOutcome → List ReadGroup → Type 0
AllFailed outcome groups = All (λ g. has_error outcome g ≡ true) groups

no_success :
    (outcome : ReadJobOutcome) (groups : List ReadGroup)
    → any (λ x. not (has_error outcome x)) (recorded_of outcome groups) ≡ false
    → any
        (λ g.
          has_group g outcome.unit_success_groups
          && (has_group g outcome.recorded_groups && not (has_error outcome g)))
        groups
      ≡ false
unfolding recorded_of
no_success outcome [] h = refl
no_success outcome (g ∷ groups) h = ground (arith, no_success outcome groups)

failure_all_failed :
    (outcome : ReadJobOutcome) (recorded : List ReadGroup) (f : JobReadFailure)
    → failure_of outcome recorded ≡ some f
    → (any (λ x. not (has_error outcome x)) recorded ≡ false)
      × (f.link_failure ≡ not outcome.answered)
unfolding failure_of
failure_all_failed outcome [] f h = cc
failure_all_failed outcome (g ∷ recorded) f h = ground arith

-- A job with a failure counts as succeeded only if a group yielded a value, and its failure is
-- the link's exactly when no request was answered.
pub job_read_failure_lem :
    (room : RoomConfig) (outcome : ReadJobOutcome) (plan : RefreshPlan) (f : JobReadFailure)
    → job_read_failure room outcome plan ≡ some f
    → (job_read_succeeded room outcome plan ≡ job_read_received_values room outcome plan)
      × (f.link_failure ≡ not outcome.answered)
unfolding job_read_failure job_read_succeeded
job_read_failure_lem room outcome plan f h =
    let (all_failed, link) =
      failure_all_failed outcome (recorded_of outcome (job_read_groups room plan)) f h in
    (ground (arith, no_success outcome (job_read_groups room plan) all_failed), link)
