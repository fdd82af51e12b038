-- ===== src/GatewayReads/Retry.antt =====
-- gateway_reads.py: how long a failed read waits for its next attempt.

use meltem_ha.GatewayReads.{
  OptionalRead, ReadEnd, ReadSettings, doublings, end_read, max_failures, retry_delay, schedule,
}
use meltem_ha.Prelude.{
  Bool, Bool-cases, ap, arith, false, if_false, if◌then◌else◌, inl, inr, leb, leb→le, ltb, ltb→lt,
  min, not, refl, suc, true, zero, ℕ, ◌&&◌, ◌*◌, ◌+◌, ◌-◌, ◌<◌, ◌==◌, ◌^◌, ◌∙◌, ◌≡◌, ◌≤◌,
}
use native.Mathlib.Decide.{dec_le}
use native.Mathlib.Nat.{mul-le-mul_left, pow-le-pow_right, pow-suc}

reach_step :
    (done : Bool) (retry refresh k : ℕ)
    → (done ≡ true → refresh ≤ retry)
    → refresh ≤ 2 * retry * 2 ^ k
    → refresh ≤ retry * 2 ^ (if done then 0 else suc k)
reach_step true retry refresh k h rest = omega (arith, h refl)
reach_step false retry refresh k h rest = grind (arith, pow-suc 2 k)

-- The doublings reach the refresh time.
doublings_reach :
    (fuel retry refresh : ℕ)
    → 0 < retry
    → refresh ≤ retry + fuel
    → refresh ≤ retry * 2 ^ doublings fuel retry refresh
unfolding doublings
doublings_reach zero retry refresh pos h = omega arith
doublings_reach (suc n) retry refresh pos h =
    reach_step (leb refresh retry) retry refresh (doublings n (2 * retry) refresh)
      (λ e. leb→le refresh retry e)
      (doublings_reach n (2 * retry) refresh (omega arith) (omega arith))

-- A delay that has reached the refresh time stays there.
stays : (refresh retry a b : ℕ) → refresh ≤ retry * 2 ^ a → a ≤ b → refresh ≤ retry * 2 ^ b
stays refresh retry a b h k =
    let more : retry * 2 ^ a ≤ retry * 2 ^ b =
      mul-le-mul_left retry (pow-le-pow_right (omega arith) k) in
    omega arith

capped : (refresh a b : ℕ) → refresh ≤ a → refresh ≤ b → min refresh a ≡ min refresh b
capped refresh a b h k = omega arith

retry_delay-zero : (refresh a b : ℕ) → min refresh (0 * a) ≡ min refresh (0 * b)
retry_delay-zero refresh a b = omega arith

no_retry_time : (s : ReadSettings) (a b : ℕ) → s.retry ≡ 0 → retry_delay s a ≡ retry_delay s b
unfolding retry_delay
no_retry_time s a b h = rw (h) (retry_delay-zero s.refresh _ _)

retry_delay-positive :
    (s : ReadSettings) (failures d : ℕ)
    → s.refresh ≤ s.retry * 2 ^ d
    → retry_delay s (min (suc failures) (1 + d)) ≡ retry_delay s (suc failures)
unfolding retry_delay
retry_delay-positive s failures d h = elim (dec_le failures d) [
  | yes p ↦
      let same : min (suc failures) (1 + d) ≡ suc failures = omega (arith, p) in rw (same) refl
  | no n ↦
      let full : min (suc failures) (1 + d) ≡ suc d = omega (arith, n) in
      let a : suc d - 1 ≡ d = omega arith in
      let b : suc failures - 1 ≡ failures = omega arith in
      rw (full, a, b)
        (capped s.refresh _ _ h (stays s.refresh s.retry d failures h (omega (arith, n))))
]

-- The failures are counted only until the delay has reached the refresh time, and this changes no
-- delay: any number of failures waits as long as without the limit.
retry_delay-max_failures :
    (s : ReadSettings) (failures : ℕ)
    → retry_delay s (min (suc failures) (max_failures s)) ≡ retry_delay s (suc failures)
unfolding max_failures
retry_delay-max_failures s failures = elim (Bool-cases (ltb 0 s.retry)) [
  | inl e ↦
      let reached =
        doublings_reach s.refresh s.retry s.refresh (ltb→lt 0 s.retry e) (omega arith) in
      rw (e) (retry_delay-positive s failures (doublings s.refresh s.retry s.refresh) reached)
  | inr e ↦ no_retry_time s (min (suc failures) _) (suc failures) (ground arith)
]

same_generation : (b : Bool) (n : ℕ) → (b && not (n == n)) ≡ false
same_generation b n = ground arith

retry_delay-suc :
    (s : ReadSettings) (failures : ℕ)
    → retry_delay s (suc failures) ≡ min s.refresh (s.retry * 2 ^ failures)
unfolding retry_delay
retry_delay-suc s failures = let e : suc failures - 1 ≡ failures = omega arith in rw (e) refl

-- After any number of failed reads in a row, a read that fails too, and was not disabled while it
-- ran, is due again after the retry time, doubled for each of those failures, and after the refresh
-- time at most: the limit on the counted failures changes no delay.
pub next_due-end_read :
    {T : Type 0} (s : ReadSettings) (now failures : ℕ) (r : OptionalRead T)
    → r.failures ≡ min failures (max_failures s)
    → ((end_read s now r.disable_generation ReadEnd.read_failed r).next_due
        ≡ now + min s.refresh (s.retry * 2 ^ failures))
      × ((end_read s now r.disable_generation ReadEnd.read_failed r).failures
          ≡ min (suc failures) (max_failures s))
unfolding end_read schedule
next_due-end_read s now failures r h =
    let count : min (r.failures + 1) (max_failures s) ≡ min (suc failures) (max_failures s) =
      omega (arith, h) in
    (
      ap (λ d. now + d)
          (if_false _ s.first_read_delay _ (same_generation _ r.disable_generation)
            ∙ ap (retry_delay s) count
            ∙ retry_delay-max_failures s failures
            ∙ retry_delay-suc s failures),
      count,
    )
