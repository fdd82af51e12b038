-- ===== src/Polling/Schedule.antt =====
-- polling.py: which job runs next, when the scheduler wakes up, and how the jobs are spread.
use meltem_ha.Polling.{PollJob, due_jobs, earliest, min_job, next_tick_seconds, select_due_job}
use meltem_ha.Prelude.{
  All, All_In, Bool-cases, In, List, Option, [], arith, false, if◌then◌else◌, inl, inr, leb, ltb,
  max, none, refl, some, true, ℕ, ◌+◌, ◌-◌, ◌<◌, ◌∙◌, ◌∷◌, ◌≡◌, ◌≢◌, ◌≤◌, ◌⊎◌,
}

-- The earlier of two jobs; the first of the two, if neither is.
abbrev earlier : PollJob → PollJob → PollJob
earlier best job = if ltb job.next_due best.next_due then job else best

earlier-In : (best job : PollJob) → (earlier best job ≡ best) ⊎ (earlier best job ≡ job)
earlier-In best job = elim (Bool-cases (ltb job.next_due best.next_due)) [
  | inl e ↦ rw e (inr refl)
  | inr e ↦ rw e (inl refl)
]

earlier-le :
    (best job : PollJob)
    → ((earlier best job).next_due ≤ best.next_due) × ((earlier best job).next_due ≤ job.next_due)
earlier-le best job = elim (Bool-cases (ltb job.next_due best.next_due)) [
  | inl e ↦ rw e (ground arith)
  | inr e ↦ rw e (ground arith)
]

among :
    (best job e : PollJob) (jobs : List PollJob)
    → In e (earlier best job ∷ jobs)
    → In e (best ∷ job ∷ jobs)
among best job e jobs (inl p) = elim (earlier-In best job) [
  | inl q ↦ inl (p ∙ q)
  | inr q ↦ inr (inl (p ∙ q))
]
among best job e jobs (inr i) = inr (inr i)

earliest-In : (best : PollJob) (jobs : List PollJob) → In (earliest best jobs) (best ∷ jobs)
unfolding earliest
earliest-In best [] = inl refl
earliest-In best (job ∷ jobs) =
    among best job (earliest (earlier best job) jobs) jobs (earliest-In (earlier best job) jobs)

earliest-le :
    (best : PollJob) (jobs : List PollJob)
    → ((earliest best jobs).next_due ≤ best.next_due)
      × All (λ k. (earliest best jobs).next_due ≤ k.next_due) jobs
unfolding earliest
earliest-le best [] = (omega arith, tt)
earliest-le best (job ∷ jobs) =
    let (a, b) = earliest-le (earlier best job) jobs in
    let (c, d) = earlier-le best job in (omega (arith, a, c), (omega (arith, a, d), b))

-- What is at least as early as every due job is at least as early as every job.
before_each :
    (due now : ℕ) (jobs : List PollJob)
    → due ≤ now
    → All (λ k. due ≤ k.next_due) (due_jobs jobs now)
    → All (λ k. due ≤ k.next_due) jobs
unfolding due_jobs
before_each due now [] h a = tt
before_each due now (job ∷ jobs) h a = elim (Bool-cases (leb job.next_due now)) [
  | inl e ↦ let b = rw (e, due_jobs) at a in (b.0, before_each due now jobs h b.1)
  | inr e ↦ (ground arith, before_each due now jobs h (rw (e, due_jobs) at a))
]

due_jobs-In :
    (now : ℕ) (jobs : List PollJob) (job : PollJob)
    → In job (due_jobs jobs now)
    → In job jobs × (job.next_due ≤ now)
unfolding due_jobs
due_jobs-In now [] job i = absurd i
due_jobs-In now (k ∷ jobs) job i = elim (Bool-cases (leb k.next_due now)) [
  | inl e ↦ after_due e (rw (e, due_jobs) at i) (due_jobs-In now jobs job)
  | inr e ↦ let (a, b) = due_jobs-In now jobs job (rw (e, due_jobs) at i) in (inr a, b)
]
  where
    after_due :
        leb k.next_due now ≡ true
        → (job ≡ k) ⊎ In job (due_jobs jobs now)
        → (In job (due_jobs jobs now) → In job jobs × (job.next_due ≤ now))
        → In job (k ∷ jobs) × (job.next_due ≤ now)
    after_due e (inl p) ih = (inl p, ground arith)
    after_due e (inr q) ih = let (a, b) = ih q in (inr a, b)

none_due :
    (now : ℕ) (jobs : List PollJob) → due_jobs jobs now ≡ [] → All (λ k. now < k.next_due) jobs
unfolding due_jobs
none_due now [] h = tt
none_due now (job ∷ jobs) h = ground (arith, none_due now jobs)

-- What `select_due_job` promises of its answer.
abbrev pub IsSelected : List PollJob → ℕ → Option PollJob → Type 0
IsSelected jobs now none = All (λ k. now < k.next_due) jobs
IsSelected jobs now (some job) =
    In job jobs × (job.next_due ≤ now) × All (λ k. job.next_due ≤ k.next_due) jobs

min_job-IsSelected :
    (jobs : List PollJob) (now : ℕ) (due : List PollJob)
    → due_jobs jobs now ≡ due
    → IsSelected jobs now (min_job due)
unfolding min_job
min_job-IsSelected jobs now [] e = none_due now jobs e
min_job-IsSelected jobs now (job ∷ due) e =
    let (member, on_time) = due_jobs-In now jobs (earliest job due) (rw e (earliest-In job due)) in
    (
      member,
      on_time,
      before_each (earliest job due).next_due now jobs on_time (rw e (earliest-le job due)),
    )

-- The selected job is one of the jobs, it is due, and no job has been due longer; no job is
-- selected exactly when none is due.
pub select_due_job-IsSelected :
    (jobs : List PollJob) (now : ℕ) → IsSelected jobs now (select_due_job jobs now)
unfolding select_due_job
select_due_job-IsSelected jobs now = min_job-IsSelected jobs now (due_jobs jobs now) refl

none-select_due_job :
    (jobs : List PollJob) (now : ℕ) (job : PollJob)
    → In job jobs
    → job.next_due ≤ now
    → select_due_job jobs now ≢ none
none-select_due_job jobs now job i h none_selected =
    let selected = select_due_job-IsSelected jobs now in
    let later = All_In (λ k. now < k.next_due) job jobs (rw none_selected at selected) i in
    omega arith

none_before :
    (due end : ℕ) (jobs : List PollJob)
    → end ≤ due
    → All (λ k. due ≤ k.next_due) jobs
    → All (λ k. end ≤ k.next_due) jobs
none_before due end [] h a = tt
none_before due end (job ∷ jobs) h a = (omega (arith, a.0, h), none_before due end jobs h a.1)

-- Either the delay is a tick, or no job is due before its end.
abbrev pub InTime : ℕ → List PollJob → ℕ → ℕ → Type 0
InTime tick jobs now delay = (delay ≡ tick) ⊎ All (λ k. now + delay ≤ k.next_due) jobs

next_tick-InTime :
    (job : PollJob) (jobs : List PollJob) (tick now : ℕ)
    → InTime tick (job ∷ jobs) now (max tick ((earliest job jobs).next_due - now))
next_tick-InTime job jobs tick now =
    let due = (earliest job jobs).next_due in
    elim (Bool-cases (leb (due - now) tick)) [
      | inl short ↦ inl (ground arith)
      | inr long ↦ inr (
          none_before due (now + max tick (due - now)) (job ∷ jobs) (ground arith)
            (earliest-le job jobs))
    ]

-- With jobs to run and no start-up pending, the scheduler wakes up in time: after the delay that it
-- asks for, a job is due, and unless the delay is a tick, no job is due before. The delay is never
-- less than a tick.
pub next_tick_seconds-select_due_job :
    (job : PollJob) (jobs : List PollJob) (tick now : ℕ)
    → (tick ≤ next_tick_seconds (job ∷ jobs) false tick now)
      × (select_due_job (job ∷ jobs) (now + next_tick_seconds (job ∷ jobs) false tick now) ≢ none)
      × InTime tick (job ∷ jobs) now (next_tick_seconds (job ∷ jobs) false tick now)
unfolding next_tick_seconds
next_tick_seconds-select_due_job job jobs tick now = (
  omega arith,
  none-select_due_job (job ∷ jobs) _ (earliest job jobs) (earliest-In job jobs) (omega arith),
  next_tick-InTime job jobs tick now,
)
