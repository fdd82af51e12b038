-- ===== src/ModbusClient/Backoff.antt =====
-- modbus_client.py: _ReadBackoff, the growing pause of a read that a unit refuses.
pub mod Pauses
use meltem_ha.GatewayReads.{max_failures}
use meltem_ha.Prelude.{
  Bool, List, Option, String, [], false, if◌then◌else◌, ltb, min, none, some, ℕ, ◌*◌, ◌+◌, ◌-◌,
  ◌==◌, ◌^◌, ◌∷◌,
}
use meltem_ha.Prelude.Assoc.{insert, lookup, remove, string_discrete}
use native.Mathlib.Decide.{ℕ_discrete}

-- A unit's address and a component
abbrev pub BackoffKey : Type 0
BackoffKey = ℕ × String

unfoldable pub BackoffKey-discrete : Discrete BackoffKey
BackoffKey-discrete = hlevel (ℕ_discrete, string_discrete)

pub record ReadBackoff : Type 0 where
  pub start : ℕ
  pub longest : ℕ
  pub max_failures : ℕ
  pub failures : List (BackoffKey × ℕ)
  pub until : List (BackoffKey × ℕ)

-- The backoff of components, and the default one
abbrev pub component_backoff : ReadBackoff
component_backoff = record {
  start = 10000;
  longest = 60000;
  max_failures = 4;
  failures = [];
  until = [];
}

abbrev pub mode_backoff : ReadBackoff
mode_backoff = record {
  start = 30000;
  longest = 300000;
  max_failures = 5;
  failures = [];
  until = [];
}

unfoldable pub paused : ℕ → Option ℕ → Bool
paused now none = false
paused now (some paused_until) = ltb now paused_until

-- _ReadBackoff.is_active: whether the read is paused, and the state without a pause that is over
unfoldable pub is_active : BackoffKey → ℕ → ReadBackoff → ReadBackoff × Bool
is_active key now b =
    let active_now = paused now (lookup BackoffKey-discrete key b.until) in
    (
      (if active_now then b else record b { until = remove BackoffKey-discrete key b.until }),
      active_now,
    )

unfoldable pub count_or_zero : Option ℕ → ℕ
count_or_zero none = 0
count_or_zero (some n) = n

unfoldable pub next_failures : BackoffKey → ReadBackoff → ℕ
next_failures key b =
    min (count_or_zero (lookup BackoffKey-discrete key b.failures) + 1) b.max_failures

unfoldable pub pause_after : ReadBackoff → ℕ → ℕ
pause_after b failures = min b.longest (b.start * 2 ^ (failures - 1))

-- _ReadBackoff.mark_failure
unfoldable pub mark_failure : BackoffKey → ℕ → ReadBackoff → ReadBackoff
mark_failure key now b =
    let failures = next_failures key b in
    record b {
      failures = insert BackoffKey-discrete key failures b.failures;
      until = insert BackoffKey-discrete key (now + pause_after b failures) b.until;
    }

-- _ReadBackoff.clear
unfoldable pub clear_failures : BackoffKey → ReadBackoff → ReadBackoff
clear_failures key b = record b {
  failures = remove BackoffKey-discrete key b.failures;
  until = remove BackoffKey-discrete key b.until;
}

-- The keys of one unit
unfoldable pub keys_of_slave : ℕ → List (BackoffKey × ℕ) → List BackoffKey
keys_of_slave slave [] = []
keys_of_slave slave ((key, n) ∷ failures) =
    let rest = keys_of_slave slave failures in if key.0 == slave then key ∷ rest else rest

unfoldable pub clear_keys : List BackoffKey → ReadBackoff → ReadBackoff
clear_keys [] b = b
clear_keys (key ∷ keys) b = clear_keys keys (clear_failures key b)

-- _ReadBackoff.clear_slave
unfoldable pub clear_slave : ℕ → ReadBackoff → ReadBackoff
clear_slave slave b = clear_keys (keys_of_slave slave b.failures) b
