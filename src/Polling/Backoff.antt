-- ===== src/Polling/Backoff.antt =====
-- polling.py: the polling backoff of a gateway whose transport keeps failing.
use meltem_ha.Polling.{
  backoff_seconds, transport_backoff_after_failures, transport_backoff_max, transport_backoff_start,
}
use meltem_ha.Prelude.{
  ap, arith, if◌then◌else◌, ltb, min, none, refl, some, suc, zero, ℕ, ◌*◌, ◌-◌, ◌^◌, ◌≡◌, ◌≤◌,
}

-- The delay at one exponent, before and after the next failure.
delay : ℕ → ℕ
delay k = min transport_backoff_max (transport_backoff_start * 2 ^ min k 4)

delay-suc : (k : ℕ) → delay (suc k) ≡ min transport_backoff_max (2 * delay k)
unfolding delay
delay-suc zero = refl
delay-suc (suc zero) = refl
delay-suc (suc (suc zero)) = refl
delay-suc (suc (suc (suc zero))) = refl
delay-suc (suc (suc (suc (suc k)))) =
    let a : min (suc (suc (suc (suc k)))) 4 ≡ 4 = omega arith in
    let b : min (suc (suc (suc (suc (suc k))))) 4 ≡ 4 = omega arith in rw (a, b) refl

delay_bounds : (k : ℕ) → (transport_backoff_start ≤ delay k) × (delay k ≤ transport_backoff_max)
unfolding delay
delay_bounds zero = omega arith
delay_bounds (suc k) = let h = delay_bounds k in let e = delay-suc k in omega (arith, e, h.0, h.1)

backoff_seconds-delay :
    (n : ℕ)
    → backoff_seconds n
      ≡ (if ltb n transport_backoff_after_failures then none else some (delay (n - 3)))
unfolding backoff_seconds delay
backoff_seconds-delay n = refl

first_backoffs : (backoff_seconds 2 ≡ none) × (backoff_seconds 3 ≡ some transport_backoff_start)
unfolding backoff_seconds
first_backoffs = (refl, refl)

after_three :
    (k d : ℕ)
    → backoff_seconds (suc (suc (suc k))) ≡ some d
    → (backoff_seconds (suc (suc (suc (suc k)))) ≡ some (min transport_backoff_max (2 * d)))
      × (transport_backoff_start ≤ d)
      × (d ≤ transport_backoff_max)
after_three k d h =
    let here : suc (suc (suc k)) - 3 ≡ k = omega arith in
    let next : suc (suc (suc (suc k))) - 3 ≡ suc k = omega arith in
    ground (
      arith,
      backoff_seconds-delay (suc (suc (suc k))),
      backoff_seconds-delay (suc (suc (suc (suc k)))),
      ap delay here,
      ap delay next,
      delay-suc k,
      delay_bounds k,
    )

-- Two failures cause no backoff and the third one of five seconds; every further failure doubles
-- the delay, up to a minute.
pub backoff_seconds-suc :
    (n d : ℕ)
    → backoff_seconds n ≡ some d
    → (backoff_seconds (suc n) ≡ some (min transport_backoff_max (2 * d)))
      × (transport_backoff_start ≤ d)
      × (d ≤ transport_backoff_max)
      × (backoff_seconds 2 ≡ none)
      × (backoff_seconds 3 ≡ some transport_backoff_start)
backoff_seconds-suc (suc (suc (suc k))) d h =
    let (a, b, c) = after_three k d h in (a, b, c, first_backoffs.0, first_backoffs.1)
backoff_seconds-suc n d h = ground (arith, backoff_seconds-delay n)
