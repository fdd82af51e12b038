-- ===== src/GatewayReads.antt =====
-- gateway_reads.py: OptionalGatewayRead, a value that is read through the gateway only while a
-- consumer needs it. A read that waits for its answer is a step that starts and one that ends, so
-- that consumers can come and go between the two.
pub mod Retry
use meltem_ha.Prelude.{
  Bool, List, Option, String, [], bool_eq, contains, false, if◌then◌else◌, leb, ltb, min, none, not,
  some, str_eq, suc, true, zero, ℕ, ◌&&◌, ◌*◌, ◌+◌, ◌-◌, ◌==◌, ◌^◌, ◌∷◌,
}

-- What the constructor takes. `retry` is `min(retry_seconds, refresh_seconds)`.
pub record ReadSettings : Type 0 where
  pub refresh : ℕ
  pub stale : ℕ
  pub retry : ℕ
  pub first_read_delay : ℕ
  pub clear_on_disable : Bool

pub record OptionalRead (T : Type 0) : Type 0 where
  pub failures : ℕ
  pub consumers : List String
  pub next_due : ℕ
  pub value : Option T
  pub read_at : Option ℕ
  pub reading : Bool
  pub disable_generation : ℕ

unfoldable pub empty_read : {T : Type 0} → OptionalRead T
empty_read = record {
  failures = 0;
  consumers = [];
  next_due = 0;
  value = none;
  read_at = none;
  reading = false;
  disable_generation = 0;
}

-- `math.ceil(math.log2(refresh / retry))`: how often the retry time doubles until it reaches the
-- refresh time. As it grows by one at least, `refresh` steps are enough.
unfoldable pub doublings : ℕ → ℕ → ℕ → ℕ
doublings zero retry refresh = 0
doublings (suc n) retry refresh =
    let rest = doublings n (2 * retry) refresh in if leb refresh retry then 0 else suc rest

unfoldable pub max_failures : ReadSettings → ℕ
max_failures s = 1 + (if ltb 0 s.retry then doublings s.refresh s.retry s.refresh else 0)

unfoldable pub is_enabled : {T : Type 0} → OptionalRead T → Bool
is_enabled r = elim r.consumers [ [] ↦ false | _ ∷ _ ↦ true ]

value_at : {T : Type 0} → ℕ → ℕ → Option T → Option ℕ → Option T
value_at stale now value none = none
value_at stale now value (some read_at) = if ltb stale (now - read_at) then none else value

-- OptionalGatewayRead.value
unfoldable pub recent_value : {T : Type 0} → ReadSettings → ℕ → OptionalRead T → Option T
unfolding value_at
recent_value s now r = value_at s.stale now r.value r.read_at

-- set.add and set.discard
unfoldable pub with_consumer : String → Bool → List String → List String
with_consumer consumer true consumers =
    if contains consumer consumers then consumers else consumer ∷ consumers
with_consumer consumer false [] = []
with_consumer consumer false (c ∷ consumers) =
    let rest = with_consumer consumer false consumers in
    if str_eq c consumer then rest else c ∷ rest

unfoldable pub started : {T : Type 0} → ReadSettings → ℕ → OptionalRead T → OptionalRead T
started s now r = record r { next_due = now + s.first_read_delay }

-- A read that waits is cancelled: it ends in a step of its own.
unfoldable pub stopped : {T : Type 0} → ReadSettings → OptionalRead T → OptionalRead T
stopped s r = record r {
  disable_generation = r.disable_generation + 1;
  value = if s.clear_on_disable then none else r.value;
  read_at = if s.clear_on_disable then none else r.read_at;
}

unfoldable pub set_enabled :
    {T : Type 0} → ReadSettings → ℕ → String → Bool → OptionalRead T → OptionalRead T × Bool
unfolding started stopped
set_enabled s now consumer enabled r =
    let r' = record r { consumers = with_consumer consumer enabled r.consumers } in
    if bool_eq (is_enabled r) (is_enabled r')
    then (r', false)
    else ((if is_enabled r' then started s now r' else stopped s r'), true)

unfoldable pub seconds_until_due : {T : Type 0} → ℕ → OptionalRead T → Option ℕ
seconds_until_due now r = if is_enabled r then some (r.next_due - now) else none

-- Whether `async_read_if_due` starts a read.
unfoldable pub read_is_due : {T : Type 0} → ℕ → OptionalRead T → Bool
read_is_due now r = is_enabled r && leb r.next_due now

unfoldable pub start_read : {T : Type 0} → OptionalRead T → OptionalRead T
start_read r = record r { reading = true }

-- How the read of `async_read_if_due` ended.
pub data ReadEnd (T : Type 0) : Type 0 where
  read_value : T → ReadEnd T
  read_cancelled : ReadEnd T
  -- MeltemModbusError
  read_failed : ReadEnd T

unfoldable pub retry_delay : ReadSettings → ℕ → ℕ
retry_delay s failures = min s.refresh (s.retry * 2 ^ (failures - 1))

-- The `finally` of the read.
unfoldable pub schedule : {T : Type 0} → ReadSettings → ℕ → ℕ → ℕ → OptionalRead T → OptionalRead T
schedule s now generation delay r = record r {
  reading = false;
  next_due =
      now
      + (if is_enabled r && not (r.disable_generation == generation)
          then s.first_read_delay
          else delay);
}

-- The end of a read that started in a generation.
unfoldable pub end_read :
    {T : Type 0} → ReadSettings → ℕ → ℕ → ReadEnd T → OptionalRead T → OptionalRead T
end_read s now generation (ReadEnd.read_value v) r =
    schedule s now generation s.refresh
      (record r { value = some v; read_at = some now; failures = 0 })
end_read s now generation ReadEnd.read_cancelled r = schedule s now generation s.refresh r
end_read s now generation ReadEnd.read_failed r =
    let failures = min (r.failures + 1) (max_failures s) in
    schedule s now generation (retry_delay s failures) (record r { failures = failures })
