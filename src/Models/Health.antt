-- ===== src/Models/Health.antt =====
-- models.py: the clocks, and ReadHealth.
use native.Mathlib.Decide.{ℕ_discrete}
use meltem_ha.Prelude.Assoc.{string_discrete}
use meltem_ha.Const.{read_failure_threshold}
use meltem_ha.Prelude.{
  Bool, Option, String, bool_eq, false, min, none, option_eq, some, str_eq, ℕ, ◌&&◌, ◌+◌, ◌==◌,
}

-- What `time.monotonic()` and `dt_util.utcnow()` return, in milliseconds.
pub record Clock : Type 0 where
  pub monotonic : ℕ
  pub utcnow : ℕ

pub record ReadHealth : Type 0 where
  pub last_attempt : Option ℕ
  pub last_successful_read : Option ℕ
  pub consecutive_failures : ℕ
  pub last_error : Option String
  pub last_error_timed_out : Bool
  pub last_success_monotonic : Option ℕ

unfoldable pub ReadHealth-discrete : Discrete ReadHealth
ReadHealth-discrete = hlevel (ℕ_discrete, string_discrete)

abbrev pub empty_read_health : ReadHealth
empty_read_health = record {
  last_attempt = none;
  last_successful_read = none;
  consecutive_failures = 0;
  last_error = none;
  last_error_timed_out = false;
  last_success_monotonic = none;
}

-- The most recent failed read of a unit, with its time.
pub record RoomReadError : Type 0 where
  pub message : String
  pub at : ℕ

-- ReadHealth.failed
unfoldable pub failed : ReadHealth → ℕ → String → Bool → ReadHealth
failed health attempted_at error timed_out = record {
  last_attempt = some attempted_at;
  last_successful_read = health.last_successful_read;
  consecutive_failures = min (health.consecutive_failures + 1) read_failure_threshold;
  last_error = some error;
  last_error_timed_out = timed_out;
  last_success_monotonic = health.last_success_monotonic;
}

-- `==` of two ReadHealth values: a dataclass compares field by field.
unfoldable pub health_eq : ReadHealth → ReadHealth → Bool
health_eq a b =
    option_eq ◌==◌ a.last_attempt b.last_attempt
    && (option_eq ◌==◌ a.last_successful_read b.last_successful_read
        && (a.consecutive_failures == b.consecutive_failures
            && (option_eq str_eq a.last_error b.last_error
                && (bool_eq a.last_error_timed_out b.last_error_timed_out
                    && option_eq ◌==◌ a.last_success_monotonic b.last_success_monotonic))))
