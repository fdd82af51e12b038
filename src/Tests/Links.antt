-- ===== src/Tests/Links.antt =====
-- The transport policy at concrete inputs.
use meltem_ha.GatewayReads.{OptionalRead, ReadEnd, ReadSettings, doublings, end_read, max_failures}
use meltem_ha.GatewayReads.Retry.{next_due-end_read}
use meltem_ha.Prelude.{[], arith, false, min, none, refl, true, ℕ, ◌*◌, ◌+◌, ◌^◌, ◌∷◌, ◌≡◌, ◌≢◌}
use meltem_ha.Transport.{
  Attempt, PolicyLimits, Request, RequestError, RequestReply, TransportPolicy, attempt, by_reply,
  count_timeout, judge_link, leave_uncertain, new_policy, quarantine, run,
}
use meltem_ha.Transport.Quarantine.{unanswered}
use meltem_ha.Transport.Recycling.{Recycles, attempt-Recycles, error_of_reply}
use meltem_ha.Transport.Units.{SameUnit, run-SameUnit}

abbrev limits : PolicyLimits
limits = record { disconnect_after_timeouts = 3; link_quiet = 10000 }

abbrev timeout : RequestError
timeout = record {
  client_closed = false;
  modbus_exception = false;
  no_answer = true;
  gateway_target = false;
  connection = false;
}

abbrev read_of : ℕ → Request
read_of unit_id = record { unit_id = unit_id; is_read = true; address = 41100 }

abbrev answer_at : ℕ → Attempt ℕ
answer_at t = record { ended_at = t; reply = RequestReply.response 7; shut_down = false }

-- The third timeout in a row, twelve seconds after the last answer.
abbrev failing_policy : TransportPolicy
failing_policy = record (new_policy 1000) { consecutive_timeouts = 2 }

third_timeout_recycles :
    (attempt {A = ℕ} limits failing_policy (read_of 2) (unanswered 13000 timeout)).0.link_recycles
    ≡ 1
unfolding attempt by_reply judge_link count_timeout leave_uncertain quarantine
third_timeout_recycles = refl

recycling_example :
    Recycles limits failing_policy 13000
      (error_of_reply (unanswered {A = ℕ} 13000 timeout).reply)
      (attempt {A = ℕ} limits failing_policy (read_of 2) (unanswered 13000 timeout)).0
recycling_example =
    attempt-Recycles limits failing_policy (read_of 2) (unanswered {A = ℕ} 13000 timeout)

units_differ : (read_of 2).unit_id ≢ 3
units_differ e = omega (arith, e)

units_example :
    SameUnit 3
      (new_policy 0)
      (run limits (new_policy 0) (read_of 2) 100 (unanswered 900 timeout) (answer_at 1000)).0
units_example =
    run-SameUnit limits 3 (new_policy 0) (read_of 2) 100 (unanswered 900 timeout) (answer_at 1000)
      units_differ

abbrev short : ReadSettings
short = record {
  refresh = 60;
  stale = 120;
  retry = 10;
  first_read_delay = 0;
  clear_on_disable = false;
}

abbrev failed_twice : OptionalRead ℕ
failed_twice = record {
  failures = 2;
  consumers = "sensor" ∷ [];
  next_due = 0;
  value = none;
  read_at = none;
  reading = true;
  disable_generation = 0;
}

-- Three doublings of ten reach sixty.
four_failures : max_failures short ≡ 4
unfolding max_failures doublings
four_failures = refl

retry_example :
    ((end_read short 5000 0 ReadEnd.read_failed failed_twice).next_due ≡ 5000 + min 60 (10 * 2 ^ 2))
    × ((end_read short 5000 0 ReadEnd.read_failed failed_twice).failures
        ≡ min 3 (max_failures short))
unfolding max_failures doublings
retry_example = next_due-end_read short 5000 2 failed_twice refl
