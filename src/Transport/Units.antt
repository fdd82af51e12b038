-- ===== src/Transport/Units.antt =====
-- device/transport.py: a run of one unit leaves the others alone.
use meltem_ha.Prelude.{
  Bool, List, false, if_both, if_neg, if◌then◌else◌, not, refl, true, ℕ, ◌&&◌, ◌||◌, ◌∙◌, ◌≡◌, ◌≢◌,
}
use meltem_ha.Prelude.Assoc.{insert, lookup, lookup-insert, lookup-remove, remove}
use meltem_ha.Transport.{
  Attempt, PolicyLimits, Request, RequestError, RequestReply, RunResult, TransportPolicy,
  after_first, attempt, by_reply, completed, count_timeout, finish, is_bridge_register, judge_link,
  leave_uncertain, link_answered, notify, quarantine, read_delayed, request_outcome, run,
}
use native.Mathlib.Decide.{ℕ_discrete}

-- The quarantine and the last answer of a unit are the same in both policies.
abbrev pub SameUnit : ℕ → TransportPolicy → TransportPolicy → Type 0
SameUnit u p q =
    (lookup ℕ_discrete u q.unanswered_reads ≡ lookup ℕ_discrete u p.unanswered_reads)
    × (lookup ℕ_discrete u q.last_read_answer ≡ lookup ℕ_discrete u p.last_read_answer)

then_same : (u : ℕ) (p q r : TransportPolicy) → SameUnit u p q → SameUnit u q r → SameUnit u p r
then_same u p q r h k = (k.0 ∙ h.0, k.1 ∙ h.1)

judge_link-SameUnit :
    (limits : PolicyLimits) (u now : ℕ) (e : RequestError) (p : TransportPolicy)
    → SameUnit u p (judge_link limits now e p)
unfolding judge_link link_answered count_timeout
judge_link-SameUnit limits u now e p =
    if_both (SameUnit u p) e.modbus_exception _ _ (λ i. (refl, refl))
      (λ i.
        if_both (SameUnit u p) e.no_answer _ p
          (λ j. if_both (SameUnit u p) _ _ _ (λ k. (refl, refl)) (λ k. (refl, refl)))
          (λ j. (refl, refl)))

quarantine-SameUnit :
    (u unit_id now : ℕ) (p : TransportPolicy)
    → unit_id ≢ u
    → SameUnit u p (quarantine unit_id now p)
unfolding quarantine
quarantine-SameUnit u unit_id now p n =
    (rw (lookup-insert, if_neg (ℕ_discrete unit_id u) n) refl, refl)

lookup-remove_if :
    (b : Bool) (u unit_id : ℕ) (d : List (ℕ × ℕ))
    → unit_id ≢ u
    → lookup ℕ_discrete u (if b then remove ℕ_discrete unit_id d else d) ≡ lookup ℕ_discrete u d
lookup-remove_if true u unit_id d n = rw (lookup-remove, if_neg (ℕ_discrete unit_id u) n) refl
lookup-remove_if false u unit_id d n = refl

lookup-insert_if :
    (b : Bool) (u unit_id now : ℕ) (d : List (ℕ × ℕ))
    → unit_id ≢ u
    → lookup ℕ_discrete u (if b then insert ℕ_discrete unit_id now d else d) ≡ lookup ℕ_discrete u d
lookup-insert_if true u unit_id now d n = rw (lookup-insert, if_neg (ℕ_discrete unit_id u) n) refl
lookup-insert_if false u unit_id now d n = refl

module _ {A : Type 0} (limits : PolicyLimits) (u : ℕ) where
  abbrev SameAfter : TransportPolicy → TransportPolicy × RunResult A → Type 0
  SameAfter p r = SameUnit u p r.0

  by_reply-SameUnit :
      (p : TransportPolicy) (req : Request) (now : ℕ) (reply : RequestReply A)
      → req.unit_id ≢ u
      → SameAfter p (by_reply limits p req now reply)
  unfolding by_reply link_answered leave_uncertain
  by_reply-SameUnit p req now (RequestReply.response v) n = (refl, refl)
  by_reply-SameUnit p req now RequestReply.cancelled n =
      if_both (SameUnit u p) req.is_read (quarantine req.unit_id now p) p
        (λ i. quarantine-SameUnit u req.unit_id now p n) (λ i. (refl, refl))
  by_reply-SameUnit p req now (RequestReply.failure e) n =
      let marked = finish req now (notify (request_outcome e) (leave_uncertain req now e p)) in
      if_both (SameAfter p) e.client_closed
        (judge_link limits now e (finish req now p), RunResult.failed_with e)
        (judge_link limits now e marked, RunResult.failed_with e)
        (λ i. judge_link-SameUnit limits u now e (finish req now p))
        (λ i.
          then_same u p marked (judge_link limits now e marked)
            (if_both (SameUnit u p) (req.is_read && (e.no_answer || e.connection))
              (quarantine req.unit_id now p) p (λ j. quarantine-SameUnit u req.unit_id now p n)
              (λ j. (refl, refl)))
            (judge_link-SameUnit limits u now e marked))

  attempt-SameUnit :
      (p : TransportPolicy) (req : Request) (a : Attempt A)
      → req.unit_id ≢ u
      → SameAfter p (attempt limits p req a)
  unfolding attempt
  attempt-SameUnit p req a n =
      if_both (SameAfter p) (p.closed || a.shut_down)
        (record p { closed = true }, RunResult.closed_client)
        (by_reply limits p req a.ended_at a.reply) (λ i. (refl, refl))
        (λ i. by_reply-SameUnit p req a.ended_at a.reply n)

  completed-SameUnit :
      (req : Request) (now : ℕ) (p : TransportPolicy) (r : RunResult A)
      → req.unit_id ≢ u
      → SameAfter p (completed req now (p, r))
  unfolding completed
  completed-SameUnit req now p (RunResult.answered v) n =
      let counts = req.is_read && not (is_bridge_register req.address) in
      (
        lookup-remove_if counts u req.unit_id p.unanswered_reads n,
        lookup-insert_if counts u req.unit_id now p.last_read_answer n,
      )
  completed-SameUnit req now p (RunResult.failed_with e) n = (refl, refl)
  completed-SameUnit req now p _ n = (refl, refl)

  after_first-SameUnit :
      (req : Request) (first second : Attempt A) (p : TransportPolicy) (r : RunResult A)
      → req.unit_id ≢ u
      → SameAfter p (after_first limits req first second (p, r))
  unfolding after_first completed
  after_first-SameUnit req first second p (RunResult.failed_with e) n =
      let again = attempt limits p req second in
      if_both (SameAfter p) _ (completed req second.ended_at again) (p, RunResult.failed_with e)
        (λ i.
          then_same u p again.0 (completed req second.ended_at again).0
            (attempt-SameUnit p req second n)
            (completed-SameUnit req second.ended_at again.0 again.1 n))
        (λ i. (refl, refl))
  after_first-SameUnit req first second p (RunResult.answered v) n =
      completed-SameUnit req first.ended_at p (RunResult.answered v) n
  after_first-SameUnit req first second p _ n = (refl, refl)

  -- A run of one unit, however it ends, changes neither the quarantine nor the last answer of any
  -- other unit.
  pub run-SameUnit :
      (p : TransportPolicy) (req : Request) (now : ℕ) (first second : Attempt A)
      → req.unit_id ≢ u
      → SameUnit u p (run limits p req now first second).0
  unfolding run
  run-SameUnit p req now first second n =
      let sent = attempt limits p req first in
      let delayed = req.is_read && read_delayed p req.unit_id now in
      let go = after_first limits req first second sent in
      let rest : TransportPolicy × RunResult A =
        if delayed then (p, RunResult.read_quarantined) else go in
      if_both (SameAfter p) (req.is_read && p.closed) (p, RunResult.closed_client) rest
        (λ i. (refl, refl))
        (λ i.
          if_both (SameAfter p) delayed (p, RunResult.read_quarantined) go (λ j. (refl, refl))
            (λ j.
              then_same u p sent.0 (after_first limits req first second sent).0
                (attempt-SameUnit p req first n)
                (after_first-SameUnit req first second sent.0 sent.1 n)))
