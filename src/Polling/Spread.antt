-- ===== src/Polling/Spread.antt =====
-- polling.py: the jobs that `build_jobs` makes, and how they are spread over their interval.
use meltem_ha.Models.Config.{RoomConfig}
use meltem_ha.Polling.{
  JobGroup, PollJob, build_jobs, group_jobs, job_groups, jobs_of_groups, room_needs_job,
  rooms_needing,
}
use meltem_ha.Prelude.{
  All, All-append, Bool-cases, In, In-append_left, In-append_right, List, [], ap, arith, inl, inr,
  length, refl, share-lt, suc, sym, true, ℕ, ◌+◌, ◌<◌, ◌∷◌, ◌≡◌, ◌≤◌,
}

-- The jobs of one group for a list of rooms, all within one interval from now.
group_jobs_spread :
    (group : JobGroup) (now count index : ℕ) (rooms : List RoomConfig)
    → 0 < group.interval
    → index + length rooms ≤ count
    → All
        (λ j. (now ≤ j.next_due) × (j.next_due < now + j.interval))
        (group_jobs group now count index rooms)
unfolding group_jobs
group_jobs_spread group now count index [] pos h = tt
group_jobs_spread group now count index (room ∷ rooms) pos h = (
  (omega arith, omega (arith, share-lt index count group.interval (omega arith) pos)),
  group_jobs_spread group now count (suc index) rooms pos (omega arith),
)

-- The property of every job of some groups, from that of each group.
jobs_of_groups_spread :
    (groups : List JobGroup) (rooms : List RoomConfig) (now : ℕ)
    → All (λ g. 0 < g.interval) groups
    → All
        (λ j. (now ≤ j.next_due) × (j.next_due < now + j.interval))
        (jobs_of_groups groups rooms now)
unfolding jobs_of_groups
jobs_of_groups_spread [] rooms now h = tt
jobs_of_groups_spread (group ∷ groups) rooms now h =
    let needing = rooms_needing group rooms in
    All-append (λ (j : PollJob). (now ≤ j.next_due) × (j.next_due < now + j.interval))
      (group_jobs group now (length needing) 0 needing) (jobs_of_groups groups rooms now)
      (group_jobs_spread group now (length needing) 0 needing h.0 (omega arith))
      (jobs_of_groups_spread groups rooms now h.1)

-- Every job is due for the first time within one interval of its group from the start.
pub build_jobs_spread :
    (rooms : List RoomConfig) (now : ℕ)
    → All (λ j. (now ≤ j.next_due) × (j.next_due < now + j.interval)) (build_jobs rooms now)
unfolding build_jobs job_groups
build_jobs_spread rooms now = jobs_of_groups_spread job_groups rooms now (omega arith)

-- A room that a group refreshes is among the rooms of the group.
rooms_needing-In :
    (group : JobGroup) (room : RoomConfig) (rooms : List RoomConfig)
    → In room rooms
    → room_needs_job room group ≡ true
    → In room (rooms_needing group rooms)
unfolding rooms_needing
rooms_needing-In group room [] i h = absurd i
rooms_needing-In group room (r ∷ rooms) (inl p) h = rw (rw p at h, rooms_needing) (inl p)
rooms_needing-In group room (r ∷ rooms) (inr i) h = elim (Bool-cases (room_needs_job r group)) [
  | inl e ↦ rw (e, rooms_needing) (inr (rooms_needing-In group room rooms i h))
  | inr e ↦ rw (e, rooms_needing) (rooms_needing-In group room rooms i h)
]

-- A job of this group for this room.
abbrev pub IsJobOf : JobGroup → RoomConfig → PollJob → Type 0
IsJobOf group room job =
    (job.key ≡ group.key)
    × (job.room_key ≡ room.key)
    × (job.interval ≡ group.interval)
    × (job.refresh_plan ≡ group.refresh_plan)

group_jobs-In :
    (group : JobGroup) (now count index : ℕ) (room : RoomConfig) (rooms : List RoomConfig)
    → In room rooms
    → (job : PollJob) × In job (group_jobs group now count index rooms) × IsJobOf group room job
unfolding group_jobs
group_jobs-In group now count index room [] i = absurd i
group_jobs-In group now count index room (r ∷ rooms) (inl p) =
    (_, inl refl, (refl, ap (λ (x : RoomConfig). x.key) (sym p), refl, refl))
group_jobs-In group now count index room (r ∷ rooms) (inr i) =
    let (job, j, h) = group_jobs-In group now count (suc index) room rooms i in (job, inr j, h)

jobs_of_groups-In :
    (groups : List JobGroup) (group : JobGroup) (room : RoomConfig) (rooms : List RoomConfig)
    (now : ℕ)
    → In group groups
    → In room rooms
    → room_needs_job room group ≡ true
    → (job : PollJob) × In job (jobs_of_groups groups rooms now) × IsJobOf group room job
unfolding jobs_of_groups
jobs_of_groups-In [] group room rooms now g i h = absurd g
jobs_of_groups-In (x ∷ groups) group room rooms now (inl p) i h =
    let needing = rooms_needing x rooms in
    let member = rooms_needing-In x room rooms i (rw (← p) h) in
    let (job, j, of) = group_jobs-In x now (length needing) 0 room needing member in
    (job, In-append_left job _ (jobs_of_groups groups rooms now) j, rw p of)
jobs_of_groups-In (x ∷ groups) group room rooms now (inr g) i h =
    let (job, j, of) = jobs_of_groups-In groups group room rooms now g i h in
    let needing = rooms_needing x rooms in
    (job, In-append_right job (group_jobs x now (length needing) 0 needing) _ j, of)

-- Every room that has an entity of a job group gets a job of that group, with its interval and
-- its plan.
pub build_jobs-In :
    (group : JobGroup) (room : RoomConfig) (rooms : List RoomConfig) (now : ℕ)
    → In group job_groups
    → In room rooms
    → room_needs_job room group ≡ true
    → (job : PollJob) × In job (build_jobs rooms now) × IsJobOf group room job
unfolding build_jobs
build_jobs-In group room rooms now = jobs_of_groups-In job_groups group room rooms now
