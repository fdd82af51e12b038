-- ===== src/ModbusClient/Backoff/Pauses.antt =====
-- modbus_client.py: how long a refused read pauses.
use meltem_ha.ModbusClient.Backoff.{
  BackoffKey, BackoffKey-discrete, ReadBackoff, is_active, mark_failure, next_failures, pause_after,
  paused,
}
use meltem_ha.Prelude.{arith, if_neg, if_pos, ltb, refl, suc, zero, ℕ, ◌+◌, ◌-◌, ◌^◌, ◌≡◌, ◌≢◌, ◌≤◌}
use meltem_ha.Prelude.Assoc.{lookup-insert}
use native.Mathlib.Nat.{mul-le-mul_left, pow-suc}

pow_positive : (n : ℕ) → 1 ≤ 2 ^ n
pow_positive zero = omega arith
pow_positive (suc n) = rw (pow-suc 2 n) (omega (arith, pow_positive n))

pub pause_bounds :
    (b : ReadBackoff) (failures : ℕ)
    → b.start ≤ b.longest
    → (b.start ≤ pause_after b failures) × (pause_after b failures ≤ b.longest)
unfolding pause_after
pause_bounds b failures h =
    let grown = mul-le-mul_left b.start (pow_positive (failures - 1)) in
    (omega (arith, grown, h), omega arith)

-- A read that a unit refused is paused at every time before one end, and at none from it on; the
-- end lies between the start time and the longest time after the refusal, however often the read
-- was refused before, if the start time is at most the longest. The read of another unit or
-- component is paused when it was.
pub is_active-mark_failure :
    (b : ReadBackoff) (key other : BackoffKey) (now : ℕ)
    → b.start ≤ b.longest
    → key ≢ other
    → (pause : ℕ) × (b.start ≤ pause)
      × (pause ≤ b.longest)
      × ((later : ℕ) → (is_active key later (mark_failure key now b)).1 ≡ ltb later (now + pause))
      × ((later : ℕ)
          → (is_active other later (mark_failure key now b)).1 ≡ (is_active other later b).1)
unfolding is_active mark_failure paused
is_active-mark_failure b key other now h n =
    let failures = next_failures key b in
    let bounds = pause_bounds b failures h in
    (
      pause_after b failures,
      bounds.0,
      bounds.1,
      λ later. rw (lookup-insert, if_pos (BackoffKey-discrete key key) refl) refl,
      λ later. rw (lookup-insert, if_neg (BackoffKey-discrete key other) n) refl,
    )
