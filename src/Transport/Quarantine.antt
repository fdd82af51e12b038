-- ===== src/Transport/Quarantine.antt =====
-- device/transport.py: a read without an answer is not repeated while its answer may still come.
use meltem_ha.Prelude.{false, ℕ}
use meltem_ha.Transport.{
  Attempt, PolicyLimits, Request, RequestError, RequestReply, TransportPolicy, finish, judge_link,
  notify, quarantine, request_outcome,
}

-- The policy after a read without an answer.
abbrev uncertain : PolicyLimits → Request → ℕ → RequestError → TransportPolicy → TransportPolicy
uncertain limits req at e p =
    judge_link limits at e
      (finish req at (notify (request_outcome e) (quarantine req.unit_id at p)))

-- The attempt that got no answer.
abbrev pub unanswered : {A : Type 0} → ℕ → RequestError → Attempt A
unanswered at e = record { ended_at = at; reply = RequestReply.failure e; shut_down = false }
