-- ===== src/Transport.antt =====
-- device/transport.py: TransportPolicy, the policy of every request over one gateway link. The locks
-- let one operation run at a time, so a run is a function of the policy and of how its attempts
-- went. The samples for the success rate and the texts of the log are left out.
pub mod Quarantine
pub mod Recycling
pub mod Units
use meltem_ha.Const.{transport_read_recovery}
use meltem_ha.Prelude.{
  Bool, List, Option, [], false, if◌then◌else◌, is_some, ltb, max, none, not, some, true, ℕ, ◌&&◌,
  ◌*◌, ◌+◌, ◌-◌, ◌==◌, ◌||◌, ◌∷◌,
}
use meltem_ha.Prelude.Assoc.{insert, lookup, remove}
use meltem_ha.WriteConfirmation.Store.{outcome}
use native.Mathlib.Decide.{ℕ_discrete}

-- How an error answers the `isinstance` tests of the code; the classes are a library's.
pub record RequestError : Type 0 where
  pub client_closed : Bool
  pub modbus_exception : Bool
  pub no_answer : Bool
  pub gateway_target : Bool
  pub connection : Bool

-- What a request comes to.
pub data RequestReply (A : Type 0) : Type 0 where
  response : A → RequestReply A
  failure : RequestError → RequestReply A
  cancelled : RequestReply A

-- One attempt: when it ended, what it came to, and whether the client was shut down while the
-- attempt waited for its read slot.
pub record Attempt (A : Type 0) : Type 0 where
  pub ended_at : ℕ
  pub reply : RequestReply A
  pub shut_down : Bool

pub data RunResult (A : Type 0) : Type 0 where
  answered : A → RunResult A
  failed_with : RequestError → RunResult A
  task_cancelled : RunResult A
  -- ClientClosedError of the policy itself
  closed_client : RunResult A
  -- ReadQuarantinedError
  read_quarantined : RunResult A

pub data RequestOutcome : Type 0 where
  success no_answer modbus_exception other : RequestOutcome

pub record Request : Type 0 where
  pub unit_id : ℕ
  pub is_read : Bool
  pub address : ℕ

pub record PolicyLimits : Type 0 where
  pub disconnect_after_timeouts : ℕ
  pub link_quiet : ℕ

-- `outcomes` are the calls of `on_request`, the newest first.
pub record TransportPolicy : Type 0 where
  pub consecutive_timeouts : ℕ
  pub quiet_since : ℕ
  pub last_answer_at : Option ℕ
  pub answered_requests : ℕ
  pub last_read_answer : List (ℕ × ℕ)
  pub link_recycles : ℕ
  pub unanswered_reads : List (ℕ × ℕ)
  pub last_read_finished : Option ℕ
  pub closed : Bool
  pub outcomes : List RequestOutcome

abbrev pub new_policy : ℕ → TransportPolicy
new_policy now = record {
  consecutive_timeouts = 0;
  quiet_since = now;
  last_answer_at = none;
  answered_requests = 0;
  last_read_answer = [];
  link_recycles = 0;
  unanswered_reads = [];
  last_read_finished = none;
  closed = false;
  outcomes = [];
}

-- Before a quarantine that was never set, no time lies.
unfoldable pub before : ℕ → Option ℕ → Bool
before now none = false
before now (some time) = ltb now time

unfoldable pub read_delayed : TransportPolicy → ℕ → ℕ → Bool
unfolding before
read_delayed p unit_id now = before now (lookup ℕ_discrete unit_id p.unanswered_reads)

unfoldable pub quarantine : ℕ → ℕ → TransportPolicy → TransportPolicy
quarantine unit_id now p = record p {
  unanswered_reads = insert ℕ_discrete unit_id (now + transport_read_recovery) p.unanswered_reads;
}

-- _request_outcome
unfoldable pub request_outcome : RequestError → RequestOutcome
request_outcome e =
    if e.modbus_exception
    then RequestOutcome.modbus_exception
    else if e.no_answer || e.connection
    then RequestOutcome.no_answer
    else RequestOutcome.other

abbrev pub notify : RequestOutcome → TransportPolicy → TransportPolicy
notify outcome p = record p { outcomes = outcome ∷ p.outcomes }

-- The `finally` of a read: its end opens the wait for the next slot.
abbrev pub finish : Request → ℕ → TransportPolicy → TransportPolicy
finish req now p = record p {
  last_read_finished = if req.is_read then some now else p.last_read_finished;
}

unfoldable pub link_answered : ℕ → TransportPolicy → TransportPolicy
link_answered now p = record p {
  answered_requests = p.answered_requests + 1;
  consecutive_timeouts = 0;
  quiet_since = now;
  last_answer_at = some now;
}

unfoldable pub count_timeout : PolicyLimits → ℕ → TransportPolicy → TransportPolicy
count_timeout limits now p =
    if ltb (p.consecutive_timeouts + 1) limits.disconnect_after_timeouts
      || ltb (now - p.quiet_since) limits.link_quiet
    then record p { consecutive_timeouts = p.consecutive_timeouts + 1 }
    else record p {
      consecutive_timeouts = 0;
      quiet_since = now;
      link_recycles = p.link_recycles + 1;
    }

-- The outer handlers of an attempt.
unfoldable pub judge_link : PolicyLimits → ℕ → RequestError → TransportPolicy → TransportPolicy
judge_link limits now e p =
    if e.modbus_exception
    then link_answered now p
    else if e.no_answer
    then count_timeout limits now p
    else p

-- A read without an answer leaves its unit uncertain.
unfoldable pub leave_uncertain : Request → ℕ → RequestError → TransportPolicy → TransportPolicy
leave_uncertain req now e p =
    if req.is_read && (e.no_answer || e.connection) then quarantine req.unit_id now p else p

unfoldable pub by_reply :
    {A : Type 0}
    → PolicyLimits
    → TransportPolicy
    → Request
    → ℕ
    → RequestReply A
    → TransportPolicy × RunResult A
unfolding request_outcome
by_reply limits p req now (RequestReply.response v) =
    (link_answered now (finish req now (notify RequestOutcome.success p)), RunResult.answered v)
by_reply limits p req now RequestReply.cancelled = (
  finish req now (if req.is_read then quarantine req.unit_id now p else p),
  RunResult.task_cancelled,
)
by_reply limits p req now (RequestReply.failure e) =
    if e.client_closed
    then (judge_link limits now e (finish req now p), RunResult.failed_with e)
    else (
      judge_link limits now e
          (finish req now (notify (request_outcome e) (leave_uncertain req now e p))),
      RunResult.failed_with e,
    )

-- _attempt
unfoldable pub attempt :
    {A : Type 0}
    → PolicyLimits
    → TransportPolicy
    → Request
    → Attempt A
    → TransportPolicy × RunResult A
attempt limits p req a =
    if p.closed || a.shut_down
    then (record p { closed = true }, RunResult.closed_client)
    else by_reply limits p req a.ended_at a.reply

-- `address in BRIDGE_RF_REGISTERS`: the gateway answers these for the unit.
unfoldable pub is_bridge_register : ℕ → Bool
is_bridge_register address =
    address == 40100
    || (address == 40101 || (address == 40103 || (address == 40104 || address == 40109)))

-- What a run does once its operation returned a result.
unfoldable pub completed :
    {A : Type 0} → Request → ℕ → TransportPolicy × RunResult A → TransportPolicy × RunResult A
completed req now (p, RunResult.answered v) = (
  record p {
    unanswered_reads =
        if req.is_read && not (is_bridge_register req.address)
        then remove ℕ_discrete req.unit_id p.unanswered_reads
        else p.unanswered_reads;
    last_read_answer =
        if req.is_read && not (is_bridge_register req.address)
        then insert ℕ_discrete req.unit_id now p.last_read_answer
        else p.last_read_answer;
  },
  RunResult.answered v,
)
completed req now (p, result) = (p, result)

-- `except ModbusConnectionError` or `except _RETRYABLE_ERRORS`, after `except ClientClosedError`
unfoldable pub retryable : RequestError → Bool
retryable e = not e.client_closed && (e.connection || (e.gateway_target || e.no_answer))

unfoldable pub after_first :
    {A : Type 0}
    → PolicyLimits
    → Request
    → Attempt A
    → Attempt A
    → TransportPolicy × RunResult A
    → TransportPolicy × RunResult A
unfolding retryable
after_first limits req first second (p, RunResult.failed_with e) =
    if retryable e && not (req.is_read && read_delayed p req.unit_id first.ended_at)
    then completed req second.ended_at (attempt limits p req second)
    else (p, RunResult.failed_with e)
after_first limits req first second (p, result) = completed req first.ended_at (p, result)

unfoldable pub run :
    {A : Type 0}
    → PolicyLimits
    → TransportPolicy
    → Request
    → ℕ
    → Attempt A
    → Attempt A
    → TransportPolicy × RunResult A
run limits p req now first second =
    if req.is_read && p.closed
    then (p, RunResult.closed_client)
    else if req.is_read && read_delayed p req.unit_id now
    then (p, RunResult.read_quarantined)
    else after_first limits req first second (attempt limits p req first)

-- TransportPolicy.shutdown
unfoldable pub shut_down_policy : TransportPolicy → TransportPolicy
shut_down_policy p = record p { closed = true }

-- TransportPolicy.read_quarantined
unfoldable pub is_quarantined : TransportPolicy → ℕ → Bool
is_quarantined p unit_id = is_some (lookup ℕ_discrete unit_id p.unanswered_reads)

age_of : ℕ → Option ℕ → Option ℕ
age_of now none = none
age_of now (some answered_at) = some (now - answered_at)

unfoldable pub seconds_since_read_answer : TransportPolicy → ℕ → ℕ → Option ℕ
unfolding age_of
seconds_since_read_answer p unit_id now = age_of now (lookup ℕ_discrete unit_id p.last_read_answer)

-- modbus_helpers.new_transport_policy
unfoldable pub new_policy_limits : ℕ → PolicyLimits
new_policy_limits timeout = record {
  disconnect_after_timeouts = 3;
  link_quiet = max 10000 (timeout * 3 + transport_read_recovery);
}
