-- ===== src/Prelude/Numbers.antt =====
-- Rounding and distance of whole numbers, as Python's `round(n / d)` and `abs(a - b)` compute them.
use Prim.Native.Nat.{ℕ, ◌+◌, ◌-◌, ◌*◌, ◌/◌, ◌%◌, ◌≤◌, ◌<◌}
use native.Mathlib.Nat.{div-lt_iff_lt-mul}
use native.Mathlib.Omega.{arith}
use meltem_ha.Prelude.Tests.{ltb, leb, if◌then◌else◌}

-- `round(n / d)`: to the nearest whole number, a tie to the even one.
unfoldable pub round_div : ℕ → ℕ → ℕ
round_div n d =
    if ltb (2 * (n % d)) d
    then n / d
    else if ltb d (2 * (n % d))
    then n / d + 1
    else n / d + n / d % 2

-- `abs(a - b)`.
abbrev pub dist : ℕ → ℕ → ℕ
dist a b = if leb a b then b - a else a - b

-- The rounded quotient is at most half a divisor away from the exact one.
pub round_div_near :
    (n d : ℕ)
    → 0 < d
    → (2 * n ≤ 2 * (d * round_div n d) + d) × (2 * (d * round_div n d) ≤ 2 * n + d)
unfolding round_div
round_div_near n d h = grind arith

-- The start of a share: the `i`-th of `n` equal parts of `d` begins before `d`.
share_product : (i n d : ℕ) → i < n → 0 < d → i * d < d * n
share_product i n d h k = grind arith

pub share-lt : (i n d : ℕ) → i < n → 0 < d → i * d / n < d
share-lt i n d h k = (div-lt_iff_lt-mul (omega arith)).1 (share_product i n d h k)
