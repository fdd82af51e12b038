-- ===== src/Coordinator/Poller/Backoff.antt =====
-- coordinator.py: the polling backoff over every sequence of what happens to the scheduler.
use mathlib.Core.Path.{subst}
use meltem_ha.Coordinator.Poller.{
  Poller, Selection, apply_transport_backoff, backed_off, begin_poll, claim_read_slot,
  delay_failed_update, end_poll, move_job, new_poller, on_transport_failure, on_transport_success,
  poll_due, read_spacing_remaining, schedule_next_tick, schedule_poll, select_from, select_poll_job,
  set_next_poll_delay, startup_selection, stop_polling, update_request_rate, with_startup_jobs,
}
use meltem_ha.Models.Config.{RoomConfig}
use meltem_ha.Polling.{PollJob, backoff_seconds}
use meltem_ha.Prelude.{
  Bool, List, Option, [], ap, arith, eqb→eq, false, if_both, is_some, ltb, none, not, option_eq,
  refl, some, sym, true, ℕ, ◌&&◌, ◌+◌, ◌==◌, ◌||◌, ◌∙◌, ◌∷◌, ◌≡◌,
}

-- What happens to the scheduler, one constructor per method that changes it.
pub data PollerEvent : Type 0 where
  link_succeeded : ℕ → List (Option ℕ) → PollerEvent
  link_failed : PollerEvent
  tick_planned : ℕ → List (Option ℕ) → PollerEvent
  rate_changed : ℕ → ℕ → List (Option ℕ) → PollerEvent
  update_failed : PollerEvent
  job_selected : ℕ → Bool → PollerEvent
  job_moved : PollJob → ℕ → PollerEvent
  slot_claimed : ℕ → PollerEvent
  poll_started : PollerEvent
  poll_ended : PollerEvent
  timer_due : PollerEvent
  polling_stopped : PollerEvent

-- A poll that was asked for when the polling has stopped changes nothing.
unfoldable pub polled : Poller → Option Poller → Poller
polled p none = p
polled p (some p') = p'

unfoldable pub poller_step : PollerEvent → Poller → Poller
poller_step (PollerEvent.link_succeeded now dues) p = on_transport_success now dues p
poller_step PollerEvent.link_failed p = on_transport_failure p
poller_step (PollerEvent.tick_planned now dues) p = schedule_next_tick now dues p
poller_step (PollerEvent.rate_changed tick now dues) p = update_request_rate tick now dues p
poller_step PollerEvent.update_failed p = delay_failed_update p
poller_step (PollerEvent.job_selected now has_states) p = (select_poll_job now has_states p).poller
poller_step (PollerEvent.job_moved job due) p = move_job job due p
poller_step (PollerEvent.slot_claimed now) p = claim_read_slot now p
poller_step PollerEvent.poll_started p = polled p (begin_poll p)
poller_step PollerEvent.poll_ended p = end_poll p
poller_step PollerEvent.timer_due p = poll_due p
poller_step PollerEvent.polling_stopped p = stop_polling p

unfoldable pub poller_after : List PollerEvent → Poller → Poller
poller_after [] p = p
poller_after (event ∷ events) p = poller_after events (poller_step event p)

-- The abstract view: how many failures of the link have followed each other.
abbrev pub failures_step : PollerEvent → ℕ → ℕ
failures_step (PollerEvent.link_succeeded _ _) n = 0
failures_step PollerEvent.link_failed n = n + 1
failures_step _ n = n

abbrev pub failures_after : List PollerEvent → ℕ → ℕ
failures_after [] n = n
failures_after (event ∷ events) n = failures_after events (failures_step event n)

-- The delay that a backoff asks for, or else the planned one.
abbrev pub delay_of : Option ℕ → ℕ → ℕ
delay_of none planned = planned
delay_of (some seconds) planned = seconds

-- The scheduler after `n` failures in a row.
abbrev pub FollowsFailures : ℕ → Poller → Type 0
FollowsFailures n p =
    (p.consecutive_transport_failures ≡ n)
    × (p.backoff ≡ backoff_seconds n)
    × (delay_of p.backoff p.next_poll_delay ≡ p.next_poll_delay)

-- What a new delay leaves as it was.
set_next_poll_delay-keeps :
    (seconds : ℕ) (p : Poller)
    → ((set_next_poll_delay seconds p).consecutive_transport_failures
        ≡ p.consecutive_transport_failures)
      × ((set_next_poll_delay seconds p).backoff ≡ p.backoff)
      × ((set_next_poll_delay seconds p).next_poll_delay ≡ seconds)
unfolding set_next_poll_delay schedule_poll
set_next_poll_delay-keeps seconds p =
    if_both
      (λ (q : Poller).
        (q.consecutive_transport_failures ≡ p.consecutive_transport_failures)
        × (q.backoff ≡ p.backoff)
        × (q.next_poll_delay ≡ seconds))
      (not p.poll_running && is_some p.poll_timer) _ _ (λ _. (refl, refl, refl))
      (λ _. (refl, refl, refl))

-- A new delay for a scheduler that asks for this delay or for none.
delayed-FollowsFailures :
    (n seconds : ℕ) (p : Poller)
    → p.consecutive_transport_failures ≡ n
    → p.backoff ≡ backoff_seconds n
    → delay_of p.backoff seconds ≡ seconds
    → FollowsFailures n (set_next_poll_delay seconds p)
delayed-FollowsFailures n seconds p h k d =
    let (a, b, c) = set_next_poll_delay-keeps seconds p in (a ∙ h, b ∙ k, rw (b, c) d)

no_backoff : (backoff_seconds 0 ≡ none)
unfolding backoff_seconds
no_backoff = refl

-- Below the threshold nothing backs off, so an earlier count did not either.
backoff_seconds-none : (n : ℕ) → backoff_seconds (n + 1) ≡ none → backoff_seconds n ≡ none
unfolding backoff_seconds
backoff_seconds-none n h = ground arith

same_option : (x : ℕ) (o : Option ℕ) → option_eq ◌==◌ (some x) o ≡ true → some x ≡ o
same_option x none h = absurd (ground arith)
same_option x (some y) h = ap some (eqb→eq x y h)

no_delay : (o : Option ℕ) (d : ℕ) → is_some o ≡ false → delay_of o d ≡ d
no_delay none d h = refl
no_delay (some x) d h = absurd (ground arith)

schedule_next_tick-FollowsFailures :
    (n now : ℕ) (dues : List (Option ℕ)) (p : Poller)
    → FollowsFailures n p
    → FollowsFailures n (schedule_next_tick now dues p)
unfolding schedule_next_tick
schedule_next_tick-FollowsFailures n now dues p h =
    if_both (FollowsFailures n) (is_some p.backoff) _ _ (λ _. h)
      (λ f. delayed-FollowsFailures n _ p h.0 h.1 (no_delay p.backoff _ f))

on_transport_success-FollowsFailures :
    (n now : ℕ) (dues : List (Option ℕ)) (p : Poller)
    → FollowsFailures n p
    → FollowsFailures 0 (on_transport_success now dues p)
unfolding on_transport_success
on_transport_success-FollowsFailures n now dues p h =
    if_both (FollowsFailures 0) (is_some p.backoff) _ _
      (λ _.
        schedule_next_tick-FollowsFailures 0 now dues
          (record p { consecutive_transport_failures = 0; backoff = none })
          (refl, sym no_backoff, refl))
      (λ f. (refl, ground (arith, no_backoff), h.2))

backed_off-FollowsFailures :
    (n : ℕ) (o : Option ℕ) (p : Poller)
    → p.consecutive_transport_failures ≡ n + 1
    → p.backoff ≡ backoff_seconds n
    → delay_of p.backoff p.next_poll_delay ≡ p.next_poll_delay
    → o ≡ backoff_seconds (n + 1)
    → FollowsFailures (n + 1) (backed_off o p)
unfolding backed_off
backed_off-FollowsFailures n none p h k d e = (h, k ∙ backoff_seconds-none n (sym e) ∙ e, d)
backed_off-FollowsFailures n (some seconds) p h k d e =
    if_both (FollowsFailures (n + 1)) (option_eq ◌==◌ (some seconds) p.backoff) _ _
      (λ t. (h, sym (same_option seconds p.backoff t) ∙ e, d))
      (λ _. delayed-FollowsFailures (n + 1) seconds (record p { backoff = some seconds }) h e refl)

apply_transport_backoff-FollowsFailures :
    (n : ℕ) (p : Poller)
    → p.consecutive_transport_failures ≡ n + 1
    → p.backoff ≡ backoff_seconds n
    → delay_of p.backoff p.next_poll_delay ≡ p.next_poll_delay
    → FollowsFailures (n + 1) (apply_transport_backoff p)
unfolding apply_transport_backoff backed_off
apply_transport_backoff-FollowsFailures n p h k d =
    subst (λ m. FollowsFailures (n + 1) (backed_off (backoff_seconds m) p)) (sym h)
      (backed_off-FollowsFailures n (backoff_seconds (n + 1)) p h k d refl)

on_transport_failure-FollowsFailures :
    (n : ℕ) (p : Poller) → FollowsFailures n p → FollowsFailures (n + 1) (on_transport_failure p)
unfolding on_transport_failure
on_transport_failure-FollowsFailures n p h =
    apply_transport_backoff-FollowsFailures n
      (record p { consecutive_transport_failures = p.consecutive_transport_failures + 1 })
      (ap (λ m. m + 1) h.0) h.1 h.2

end_poll-FollowsFailures :
    (n : ℕ) (p : Poller) → FollowsFailures n p → FollowsFailures n (end_poll p)
unfolding end_poll schedule_poll
end_poll-FollowsFailures n p h = h

poll_started-FollowsFailures :
    (n : ℕ) (p : Poller) → FollowsFailures n p → FollowsFailures n (polled p (begin_poll p))
unfolding polled begin_poll
poll_started-FollowsFailures n p h =
    if_both (λ (o : Option Poller). FollowsFailures n (polled p o))
      (p.polling_stopped || p.is_stopping) none _ (λ _. h) (λ _. h)

delay_failed_update-FollowsFailures :
    (n : ℕ) (p : Poller) → FollowsFailures n p → FollowsFailures n (delay_failed_update p)
unfolding delay_failed_update
delay_failed_update-FollowsFailures n p h =
    if_both (FollowsFailures n) (is_some p.backoff) _ _ (λ _. h)
      (λ f. delayed-FollowsFailures n _ p h.0 h.1 (no_delay p.backoff _ f))

update_request_rate-FollowsFailures :
    (n tick now : ℕ) (dues : List (Option ℕ)) (p : Poller)
    → FollowsFailures n p
    → FollowsFailures n (update_request_rate tick now dues p)
unfolding update_request_rate
update_request_rate-FollowsFailures n tick now dues p h =
    if_both (FollowsFailures n) (is_some p.backoff) _ _ (λ _. h)
      (λ _. schedule_next_tick-FollowsFailures n now dues (record p { tick = tick }) h)

startup_selection-FollowsFailures :
    (n : ℕ) (p : Poller) (first : PollJob) (rest : List PollJob) (due : Option PollJob)
    → FollowsFailures n p
    → FollowsFailures n (startup_selection p first rest due).poller
unfolding startup_selection
startup_selection-FollowsFailures n p first rest none h = h
startup_selection-FollowsFailures n p first rest (some due) h =
    if_both (λ (s : Selection). FollowsFailures n s.poller) p.startup_turn _ _ (λ _. h) (λ _. h)

select_from-FollowsFailures :
    (n now : ℕ) (p : Poller) (jobs : Option (List PollJob))
    → FollowsFailures n p
    → FollowsFailures n (select_from p now jobs).poller
unfolding select_from
select_from-FollowsFailures n now p none h = h
select_from-FollowsFailures n now p (some []) h = h
select_from-FollowsFailures n now p (some (first ∷ rest)) h =
    startup_selection-FollowsFailures n p first rest _ h

select_poll_job-FollowsFailures :
    (n now : ℕ) (has_states : Bool) (p : Poller)
    → FollowsFailures n p
    → FollowsFailures n (select_poll_job now has_states p).poller
unfolding select_poll_job with_startup_jobs
select_poll_job-FollowsFailures n now has_states p h =
    let with_jobs =
      if_both (FollowsFailures n) (not (is_some p.startup_jobs) && not has_states)
        (record p { startup_jobs = some p.poll_jobs }) p (λ _. h) (λ _. h) in
    if_both (λ (s : Selection). FollowsFailures n s.poller)
      (ltb 0 (read_spacing_remaining (with_startup_jobs has_states p) now)) _ _ (λ _. with_jobs)
      (λ _. select_from-FollowsFailures n now _ _ with_jobs)

poller_step-FollowsFailures :
    (n : ℕ) (event : PollerEvent) (p : Poller)
    → FollowsFailures n p
    → FollowsFailures (failures_step event n) (poller_step event p)
unfolding poller_step poll_due stop_polling claim_read_slot move_job
poller_step-FollowsFailures n (PollerEvent.link_succeeded now dues) p h =
    on_transport_success-FollowsFailures n now dues p h
poller_step-FollowsFailures n PollerEvent.link_failed p h =
    on_transport_failure-FollowsFailures n p h
poller_step-FollowsFailures n (PollerEvent.tick_planned now dues) p h =
    schedule_next_tick-FollowsFailures n now dues p h
poller_step-FollowsFailures n (PollerEvent.rate_changed tick now dues) p h =
    update_request_rate-FollowsFailures n tick now dues p h
poller_step-FollowsFailures n PollerEvent.update_failed p h =
    delay_failed_update-FollowsFailures n p h
poller_step-FollowsFailures n (PollerEvent.job_selected now has_states) p h =
    select_poll_job-FollowsFailures n now has_states p h
poller_step-FollowsFailures n (PollerEvent.job_moved job due) p h = h
poller_step-FollowsFailures n (PollerEvent.slot_claimed now) p h = h
poller_step-FollowsFailures n PollerEvent.poll_started p h = poll_started-FollowsFailures n p h
poller_step-FollowsFailures n PollerEvent.poll_ended p h = end_poll-FollowsFailures n p h
poller_step-FollowsFailures n PollerEvent.timer_due p h = h
poller_step-FollowsFailures n PollerEvent.polling_stopped p h = h

poller_after-FollowsFailures :
    (n : ℕ) (events : List PollerEvent) (p : Poller)
    → FollowsFailures n p
    → FollowsFailures (failures_after events n) (poller_after events p)
unfolding poller_after
poller_after-FollowsFailures n [] p h = h
poller_after-FollowsFailures n (event ∷ events) p h =
    poller_after-FollowsFailures (failures_step event n) events (poller_step event p)
      (poller_step-FollowsFailures n event p h)

-- Whatever happens to a new scheduler, in whatever order: its backoff is the one of the failures
-- of the link since the last success, and while it backs off, the planned delay is this backoff.
pub backoff-poller_after :
    (rooms : List RoomConfig) (tick now : ℕ) (events : List PollerEvent)
    → FollowsFailures (failures_after events 0) (poller_after events (new_poller rooms tick now))
unfolding new_poller
backoff-poller_after rooms tick now events =
    poller_after-FollowsFailures 0 events _ (refl, sym no_backoff, refl)
