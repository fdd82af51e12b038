-- ===== src/Coordinator/Poller/Startup.antt =====
-- coordinator.py: the start-up jobs of _select_poll_job, over every sequence of ticks.
use mathlib.Core.List.{append-nil, append_assoc}
use mathlib.Core.Path.{subst}
use meltem_ha.Coordinator.Poller.{
  Poller, Selection, claim_read_slot, move_job, moved_in, moved_startup, read_spacing_remaining,
  same_job, select_from, select_poll_job, start_job, started_job, startup_selection,
  with_startup_jobs,
}
use meltem_ha.GatewayReads.{started}
use meltem_ha.Polling.{JobKey, PollJob}
use meltem_ha.Prelude.{
  Bool, List, Option, String, [], ap, arith, false, if_both, if◌then◌else◌, is_some, length, ltb,
  none, refl, some, suc, sym, true, ℕ, ◌*◌, ◌++◌, ◌+◌, ◌-◌, ◌<◌, ◌∙◌, ◌∷◌, ◌≡◌, ◌≤◌,
}

abbrev pub JobRef : Type 0
JobRef = JobKey × String

abbrev pub refs : List PollJob → List JobRef
refs [] = []
refs (job ∷ jobs) = (job.key, job.room_key) ∷ refs jobs

-- The start-up jobs that are left, in order.
abbrev pub refs_left : Option (List PollJob) → List JobRef
refs_left none = []
refs_left (some jobs) = refs jobs

abbrev refs_of : Option PollJob → List JobRef
refs_of none = []
refs_of (some job) = (job.key, job.room_key) ∷ []

-- The start-up job that a tick starts, if it starts one.
abbrev pub started_refs : Selection → List JobRef
started_refs s = if s.startup then refs_of s.job else []

-- Ticks, of which the request rate let `n` through and held the others back, with the start-up jobs
-- that they started. Between two ticks any job may be moved, as the end of a tick does.
pub data WarmUp : ℕ → List JobRef → Poller → Poller → Type 0 where
  unticked : (p : Poller) → WarmUp 0 [] p p
  ticked :
      (n : ℕ) (started : List JobRef) (p q : Poller) (now due : ℕ) (has_states : Bool)
      → read_spacing_remaining p now ≡ 0
      → WarmUp n started (start_job now due (select_poll_job now has_states p)) q
      → WarmUp (suc n) (started_refs (select_poll_job now has_states p) ++ started) p q
  held_back :
      (n : ℕ) (started : List JobRef) (p q : Poller) (now due : ℕ) (has_states : Bool)
      → 0 < read_spacing_remaining p now
      → WarmUp n started (start_job now due (select_poll_job now has_states p)) q
      → WarmUp n (started_refs (select_poll_job now has_states p) ++ started) p q
  moved :
      (n : ℕ) (started : List JobRef) (p q : Poller) (job : PollJob) (due : ℕ)
      → WarmUp n started (move_job job due p) q
      → WarmUp n started p q

-- A bound on the ticks that the start-up still needs: a job that is due takes every other turn.
abbrev pub ticks_left : Bool → List JobRef → ℕ
ticks_left turn [] = 0
ticks_left turn (ref ∷ refs) = 2 * suc (length refs) + (if turn then 0 else 1)

refs-moved_in :
    (job : PollJob) (due : ℕ) (jobs : List PollJob) → refs (moved_in job due jobs) ≡ refs jobs
unfolding moved_in
refs-moved_in job due [] = refl
refs-moved_in job due (j ∷ jobs) =
    if_both (λ (i : PollJob). (i.key, i.room_key) ∷ refs (moved_in job due jobs) ≡ refs (j ∷ jobs))
      (same_job job j) (record j { next_due = due }) j
      (λ _. ap (λ l. (j.key, j.room_key) ∷ l) (refs-moved_in job due jobs))
      (λ _. ap (λ l. (j.key, j.room_key) ∷ l) (refs-moved_in job due jobs))

-- Moving a job leaves the start-up as it is.
abbrev SameStartup : Poller → Poller → Type 0
SameStartup p q =
    (is_some q.startup_jobs ≡ is_some p.startup_jobs)
    × (refs_left q.startup_jobs ≡ refs_left p.startup_jobs)
    × (q.startup_turn ≡ p.startup_turn)

moved_startup-same :
    (job : PollJob) (due : ℕ) (o : Option (List PollJob))
    → (is_some (moved_startup job due o) ≡ is_some o)
      × (refs_left (moved_startup job due o) ≡ refs_left o)
unfolding moved_startup
moved_startup-same job due none = (refl, refl)
moved_startup-same job due (some jobs) = (refl, refs-moved_in job due jobs)

move_job-SameStartup : (job : PollJob) (due : ℕ) (p : Poller) → SameStartup p (move_job job due p)
unfolding move_job
move_job-SameStartup job due p =
    let h = moved_startup-same job due p.startup_jobs in (h.0, h.1, refl)

started_SameStartup :
    (now due : ℕ) (s : Selection) (o : Option PollJob)
    → SameStartup s.poller (started_job now due s.poller o)
unfolding started_job claim_read_slot
started_SameStartup now due s none = (refl, refl, refl)
started_SameStartup now due s (some job) = move_job-SameStartup job due s.poller

start_job-SameStartup : (now due : ℕ) (s : Selection) → SameStartup s.poller (start_job now due s)
unfolding start_job claim_read_slot
start_job-SameStartup now due s = started_SameStartup now due s s.job

-- What one tick makes of the start-up.
abbrev Advances : Poller → Selection → Type 0
Advances p s =
    (is_some s.poller.startup_jobs ≡ true)
    × (refs_left p.startup_jobs ≡ started_refs s ++ refs_left s.poller.startup_jobs)
    × (ticks_left s.poller.startup_turn (refs_left s.poller.startup_jobs)
        ≤ ticks_left p.startup_turn (refs_left p.startup_jobs) - 1)

turn_left : (turn : Bool) (l : List JobRef) → ticks_left turn l ≤ 2 * length l + 1
turn_left turn [] = omega arith
turn_left turn (r ∷ l) = ground arith

popped : (l : List JobRef) (e : ℕ) → ticks_left false l ≤ 2 * suc (length l) + e - 1
popped l e = omega (arith, turn_left false l)

startup_selection-Advances :
    (p : Poller) (first : PollJob) (rest : List PollJob) (due : Option PollJob)
    → p.startup_jobs ≡ some (first ∷ rest)
    → Advances p (startup_selection p first rest due)
unfolding startup_selection
startup_selection-Advances p first rest none h = rw h (refl, refl, popped (refs rest) _)
startup_selection-Advances p first rest (some due) h =
    if_both (Advances p) p.startup_turn _ _ (λ _. rw h (refl, refl, popped (refs rest) _))
      (λ f. rw (h, f) (refl, refl, omega arith))

select_from-Advances :
    (p : Poller) (now : ℕ) (o : Option (List PollJob))
    → p.startup_jobs ≡ o
    → is_some o ≡ true
    → Advances p (select_from p now o)
unfolding select_from
select_from-Advances p now none h i = absurd (ground arith)
select_from-Advances p now (some []) h i = rw h (refl, refl, omega arith)
select_from-Advances p now (some (first ∷ rest)) h i = startup_selection-Advances p first rest _ h

with_startup_jobs-some :
    (has_states : Bool) (p : Poller)
    → is_some p.startup_jobs ≡ true
    → with_startup_jobs has_states p ≡ p
unfolding with_startup_jobs
with_startup_jobs-some has_states p h = rw h refl

select_poll_job-Advances :
    (p : Poller) (now : ℕ) (has_states : Bool)
    → is_some p.startup_jobs ≡ true
    → read_spacing_remaining p now ≡ 0
    → Advances p (select_poll_job now has_states p)
unfolding select_poll_job
select_poll_job-Advances p now has_states h k =
    rw (with_startup_jobs-some has_states p h, k) (select_from-Advances p now p.startup_jobs refl h)

-- A tick that the request rate holds back starts nothing.
select_poll_job_held :
    (p : Poller) (now : ℕ) (has_states : Bool)
    → is_some p.startup_jobs ≡ true
    → 0 < read_spacing_remaining p now
    → select_poll_job now has_states p ≡ record { poller = p; job = none; startup = false }
unfolding select_poll_job
select_poll_job_held p now has_states h k =
    let late : ltb 0 (read_spacing_remaining p now) ≡ true = ground arith in
    rw (with_startup_jobs-some has_states p h, late) refl

same_left :
    (p q : Poller)
    → SameStartup p q
    → ticks_left q.startup_turn (refs_left q.startup_jobs)
      ≡ ticks_left p.startup_turn (refs_left p.startup_jobs)
same_left p q h = rw (h.1, h.2) refl

-- The start-up after a number of ticks that started some of its jobs.
abbrev pub Warms : ℕ → List JobRef → Poller → Poller → Type 0
Warms n started p q =
    (refs_left p.startup_jobs ≡ started ++ refs_left q.startup_jobs)
    × (ticks_left q.startup_turn (refs_left q.startup_jobs)
        ≤ ticks_left p.startup_turn (refs_left p.startup_jobs) - n)

-- The start-up jobs are started one after the other, each once and in their order: those that
-- ticks started, followed by those that are left, are those that were left before. Every tick
-- that the request rate lets through brings the end nearer by one.
pub WarmUp-Warms :
    (n : ℕ) (started : List JobRef) (p q : Poller)
    → is_some p.startup_jobs ≡ true
    → WarmUp n started p q
    → Warms n started p q
unfolding start_job started_job
WarmUp-Warms n started p q h (WarmUp.unticked _) = (refl, omega arith)
WarmUp-Warms n started p q h (WarmUp.ticked m later _ _ now due has_states free w) =
    let s = select_poll_job now has_states p in
    let a = select_poll_job-Advances p now has_states h free in
    let same = start_job-SameStartup now due s in
    let r = WarmUp-Warms m later (start_job now due s) q (same.0 ∙ a.0) w in
    let e = same_left s.poller (start_job now due s) same in
    (
      a.1
          ∙ ap (λ l. started_refs s ++ l) (sym same.1 ∙ r.0)
          ∙ sym (append_assoc (started_refs s) later (refs_left q.startup_jobs)),
      omega (arith, a.2, r.1, e),
    )
WarmUp-Warms n _ p q h (WarmUp.held_back _ later _ _ now due has_states late w) =
    let e = select_poll_job_held p now has_states h late in
    let r =
      WarmUp-Warms n later (start_job now due (select_poll_job now has_states p)) q
        (ap (λ (s : Selection). is_some (start_job now due s).startup_jobs) e ∙ h) w in
    subst (λ (s : Selection). Warms n (started_refs s ++ later) p q) (sym e)
      (subst (λ (s : Selection). Warms n later (start_job now due s) q) e r)
WarmUp-Warms n started p q h (WarmUp.moved _ _ _ _ job due w) =
    let s = move_job-SameStartup job due p in
    let r = WarmUp-Warms n started (move_job job due p) q (s.0 ∙ h) w in
    (sym s.1 ∙ r.0, omega (arith, r.1, same_left p (move_job job due p) s))

nothing_left : (turn : Bool) (l : List JobRef) → ticks_left turn l ≤ 0 → l ≡ []
nothing_left turn [] h = refl
nothing_left turn (r ∷ l) h = absurd (omega arith)

-- Once the start-up has begun, let the request rate let through at least two ticks for each start-up
-- job and one more, and hold back any others, which start nothing. Then all start-up jobs have been
-- started, in their order, and none is left, whatever other jobs were due meanwhile.
pub WarmUp-complete :
    (n : ℕ) (started : List JobRef) (p q : Poller)
    → is_some p.startup_jobs ≡ true
    → 2 * length (refs_left p.startup_jobs) + 1 ≤ n
    → WarmUp n started p q
    → (started ≡ refs_left p.startup_jobs) × (refs_left q.startup_jobs ≡ [])
WarmUp-complete n started p q h k w =
    let r = WarmUp-Warms n started p q h w in
    let e =
      nothing_left q.startup_turn (refs_left q.startup_jobs)
        (omega (arith, r.1, k, turn_left p.startup_turn (refs_left p.startup_jobs))) in
    (sym (r.0 ∙ ap (λ l. started ++ l) e ∙ append-nil started), e)
