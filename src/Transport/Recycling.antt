-- ===== src/Transport/Recycling.antt =====
-- device/transport.py: when the gateway link is recycled.
use meltem_ha.Prelude.{
  Option, arith, false, if_both, inl, inr, ltb, none, or_false, refl, some, true, zero, ℕ, ◌+◌, ◌-◌,
  ◌||◌, ◌≡◌, ◌≤◌, ◌⊎◌,
}
use meltem_ha.Transport.{
  Attempt, PolicyLimits, Request, RequestError, RequestReply, RunResult, TransportPolicy, attempt,
  by_reply, count_timeout, finish, judge_link, leave_uncertain, link_answered, notify, quarantine,
  request_outcome,
}

abbrev pub error_of_reply : {A : Type 0} → RequestReply A → Option RequestError
error_of_reply (RequestReply.failure e) = some e
error_of_reply _ = none

-- The error of a request that timed out: it got no answer, and no exception response.
abbrev pub TimedOut : Option RequestError → Type 0
TimedOut (some e) = (e.no_answer ≡ true) × (e.modbus_exception ≡ false)
TimedOut none = ⊥

-- The link was recycled at most once, and only by a timeout, after enough timeouts in a row and
-- quiet enough.
abbrev pub Recycles :
    PolicyLimits → TransportPolicy → ℕ → Option RequestError → TransportPolicy → Type 0
Recycles limits p now error after =
    (after.link_recycles ≡ p.link_recycles)
    ⊎ (TimedOut error
        × (after.link_recycles ≡ p.link_recycles + 1)
        × ((limits.disconnect_after_timeouts ≤ p.consecutive_timeouts + 1)
            × ((limits.link_quiet ≤ now - p.quiet_since) × (after.consecutive_timeouts ≡ 0))))

-- The link counters of two policies are the same.
abbrev SameLink : TransportPolicy → TransportPolicy → Type 0
SameLink p q =
    (q.link_recycles ≡ p.link_recycles)
    × ((q.consecutive_timeouts ≡ p.consecutive_timeouts) × (q.quiet_since ≡ p.quiet_since))

enough :
    (limits : PolicyLimits) (now : ℕ) (p q : TransportPolicy)
    → SameLink p q
    → (ltb (q.consecutive_timeouts + 1) limits.disconnect_after_timeouts
        || ltb (now - q.quiet_since) limits.link_quiet)
      ≡ false
    → (limits.disconnect_after_timeouts ≤ p.consecutive_timeouts + 1)
      × ((limits.link_quiet ≤ now - p.quiet_since) × (0 ≡ zero))
enough limits now p q h k =
    let tests =
      or_false (ltb (q.consecutive_timeouts + 1) limits.disconnect_after_timeouts)
        (ltb (now - q.quiet_since) limits.link_quiet) k in
    (rw (← h.1.0) (ground (arith, tests.0)), (rw (← h.1.1) (ground (arith, tests.1)), refl))

judge_link-Recycles :
    (limits : PolicyLimits) (now : ℕ) (e : RequestError) (p q : TransportPolicy)
    → SameLink p q
    → Recycles limits p now (some e) (judge_link limits now e q)
unfolding judge_link link_answered count_timeout
judge_link-Recycles limits now e p q h =
    if_both (Recycles limits p now (some e)) e.modbus_exception _ _ (λ i. inl h.0)
      (λ i.
        if_both (Recycles limits p now (some e)) e.no_answer _ _
          (λ j.
            if_both (Recycles limits p now (some e)) _ _ _ (λ k. inl h.0)
              (λ k. inr ((j, i), omega (arith, h.0), enough limits now p q h k)))
          (λ j. inl h.0))

leave_uncertain-SameLink :
    (req : Request) (now : ℕ) (e : RequestError) (p : TransportPolicy)
    → SameLink p (leave_uncertain req now e p)
unfolding leave_uncertain quarantine
leave_uncertain-SameLink req now e p =
    if_both (SameLink p) _ (quarantine req.unit_id now p) p (λ i. (refl, (refl, refl)))
      (λ i. (refl, (refl, refl)))

by_reply-Recycles :
    {A : Type 0} (limits : PolicyLimits) (p : TransportPolicy) (req : Request) (now : ℕ)
    (reply : RequestReply A)
    → Recycles limits p now (error_of_reply reply) (by_reply limits p req now reply).0
unfolding by_reply link_answered quarantine
by_reply-Recycles limits p req now (RequestReply.response v) = inl refl
by_reply-Recycles limits p req now RequestReply.cancelled = inl (
    if_both (λ q. q.link_recycles ≡ p.link_recycles) req.is_read (quarantine req.unit_id now p) p
      (λ i. refl) (λ i. refl))
by_reply-Recycles {A} limits p req now (RequestReply.failure e) =
    if_both (λ (r : TransportPolicy × RunResult A). Recycles limits p now (some e) r.0)
      e.client_closed (judge_link limits now e (finish req now p), RunResult.failed_with e)
      (
        judge_link limits now e
            (finish req now (notify (request_outcome e) (leave_uncertain req now e p))),
        RunResult.failed_with e,
      )
      (λ i. judge_link-Recycles limits now e p (finish req now p) (refl, (refl, refl)))
      (λ i.
        judge_link-Recycles limits now e p
          (finish req now (notify (request_outcome e) (leave_uncertain req now e p)))
          (leave_uncertain-SameLink req now e p))

-- An attempt recycles the link at most once, and only if it timed out, it and the timeouts counted
-- in a row before it are at least as many as the limit says, and the quiet time has passed since
-- the policy last began to count the link as quiet; the row of timeouts then starts anew.
pub attempt-Recycles :
    {A : Type 0} (limits : PolicyLimits) (p : TransportPolicy) (req : Request) (a : Attempt A)
    → Recycles limits p a.ended_at (error_of_reply a.reply) (attempt limits p req a).0
unfolding attempt
attempt-Recycles {A} limits p req a =
    if_both
      (λ (r : TransportPolicy × RunResult A).
        Recycles limits p a.ended_at (error_of_reply a.reply) r.0)
      (p.closed || a.shut_down) (record p { closed = true }, RunResult.closed_client)
      (by_reply limits p req a.ended_at a.reply) (λ i. inl refl)
      (λ i. by_reply-Recycles limits p req a.ended_at a.reply)
