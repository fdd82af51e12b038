-- ===== src/ModbusClient/Poll/Paused.antt =====
-- modbus_client.py: a component that a unit refused is left out of the next polls.
use meltem_ha.Const.Groups.{ReadGroup}
use meltem_ha.ModbusClient.Backoff.{BackoffKey, BackoffKey-discrete, ReadBackoff, is_active, paused}
use meltem_ha.ModbusClient.Due.{FieldRead, due_reads}
use meltem_ha.ModbusClient.Due.Grouped.{due_reads-Distinct}
use meltem_ha.ModbusClient.Health.{ReadFault, ReadJob, skip_groups}
use meltem_ha.ModbusClient.Poll.{
  Active, PollReply, active_reads_of, attempt_groups, pauses, poll, poll_active, poll_or_nothing,
}
use meltem_ha.ModbusClient.Poll.Held.{
  Held, PollStep, Spared, active_reads-Held, poll_all, poll_all-Held,
}
use meltem_ha.ModbusClient.Poll.Marked.{dec, judge_refused}
use meltem_ha.Models.Health.{failed}
use meltem_ha.Prelude.{
  All, List, String, [], ap, arith, false, if_both, if_neg, if◌then◌else◌, none, refl, some, sym,
  true, ℕ, ◌+◌, ◌<◌, ◌∙◌, ◌∷◌, ◌≡◌, ◌≤◌,
}
use meltem_ha.Prelude.Assoc.{Distinct, lookup}

-- The limits of the backoff never change.
active_limits :
    (key : BackoffKey) (now : ℕ) (b : ReadBackoff)
    → ((is_active key now b).0.start ≡ b.start) × ((is_active key now b).0.longest ≡ b.longest)
unfolding is_active
active_limits key now b =
    if_both (λ (b' : ReadBackoff). (b'.start ≡ b.start) × (b'.longest ≡ b.longest))
      (paused now (lookup BackoffKey-discrete key b.until)) b _ (λ _. (refl, refl))
      (λ _. (refl, refl))

-- A component is left out of the poll, or stands first among the reads.
active_reads_cases :
    (P : Active → Type 0) (slave now : ℕ) (d : String) (groups : List ReadGroup)
    (reads : List (String × List ReadGroup)) (b : ReadBackoff) (job : ReadJob)
    → let asked = is_active (slave, d) now b in
      let rest =
        active_reads_of slave now reads asked.0 (if asked.1 then skip_groups groups job else job) in
      P rest
      → (asked.1 ≡ false → P (record rest { active_reads = (d, groups) ∷ rest.active_reads }))
      → P (active_reads_of slave now ((d, groups) ∷ reads) b job)
unfolding active_reads_of
active_reads_cases P slave now d groups reads b job p q =
    if_both P (is_active (slave, d) now b).1 _ _ (λ _. p) q

active_reads_limits :
    (slave now : ℕ) (reads : List (String × List ReadGroup)) (b : ReadBackoff) (job : ReadJob)
    → ((active_reads_of slave now reads b job).backoff.start ≡ b.start)
      × ((active_reads_of slave now reads b job).backoff.longest ≡ b.longest)
unfolding active_reads_of
active_reads_limits slave now [] b job = (refl, refl)
active_reads_limits slave now ((d, groups) ∷ reads) b job =
    let asked = is_active (slave, d) now b in
    let r =
      active_reads_limits slave now reads asked.0
        (if asked.1 then skip_groups groups job else job) in
    let l = active_limits (slave, d) now b in
    active_reads_cases (λ a. (a.backoff.start ≡ b.start) × (a.backoff.longest ≡ b.longest)) slave
      now d groups reads b job (r.0 ∙ l.0, r.1 ∙ l.1) (λ _. (r.0 ∙ l.0, r.1 ∙ l.1))

active_reads-none :
    (slave now : ℕ) (c : String) (reads : List (String × List ReadGroup)) (b : ReadBackoff)
    (job : ReadJob)
    → lookup dec c reads ≡ none
    → lookup dec c (active_reads_of slave now reads b job).active_reads ≡ none
unfolding active_reads_of lookup
active_reads-none slave now c [] b job h = refl
active_reads-none slave now c ((d, groups) ∷ reads) b job h = elim (dec d c) [
  | yes p ↦ absurd (ground arith)
  | no n ↦
      let asked = is_active (slave, d) now b in
      let r =
        active_reads-none slave now c reads asked.0
          (if asked.1 then skip_groups groups job else job) (sym (if_neg (dec d c) n _ _) ∙ h) in
      active_reads_cases (λ a. lookup dec c a.active_reads ≡ none) slave now d groups reads b job r
        (λ _. if_neg (dec d c) n _ _ ∙ r)
]

active_reads-Distinct :
    (slave now : ℕ) (reads : List (String × List ReadGroup)) (b : ReadBackoff) (job : ReadJob)
    → Distinct dec reads
    → Distinct dec (active_reads_of slave now reads b job).active_reads
unfolding active_reads_of
active_reads-Distinct slave now [] b job h = tt
active_reads-Distinct slave now ((d, groups) ∷ reads) b job h =
    let asked = is_active (slave, d) now b in
    let job' = if asked.1 then skip_groups groups job else job in
    let r = active_reads-Distinct slave now reads asked.0 job' h.1 in
    active_reads_cases (λ a. Distinct dec a.active_reads) slave now d groups reads b job r
      (λ _. (active_reads-none slave now d reads asked.0 job' h.0, r))

poll_asked :
    (slave now : ℕ) (c : String) (reads : List (String × List ReadGroup)) (groups : List ReadGroup)
    (a : Active) (reply : PollReply)
    → lookup dec c reads ≡ some groups
    → poll_or_nothing slave now reads a reply ≡ poll_active slave now a reply
unfolding poll_or_nothing lookup
poll_asked slave now c [] groups a reply h = absurd (ground arith)
poll_asked slave now c (read ∷ reads) groups a reply h = refl

-- What spares a component's key does not read it.
lookup-Spared :
    (slave : ℕ) (c : String) (reads : List (String × List ReadGroup))
    → Spared (slave, c) slave reads
    → lookup dec c reads ≡ none
unfolding lookup
lookup-Spared slave c [] n = refl
lookup-Spared slave c ((d, groups) ∷ reads) n =
    if_neg (dec d c) (λ (e : d ≡ c). n.0 (ap (λ (x : String). (slave, x)) e)) _ _
    ∙ lookup-Spared slave c reads n.1

-- The component is paused after the poll whose report refused it.
refused-Held :
    (slave now later : ℕ) (due : List (String × FieldRead)) (updated : List String)
    (failed : List (String × ReadFault)) (c : String) (groups : List ReadGroup) (fault : ReadFault)
    (b : ReadBackoff) (job : ReadJob)
    → lookup dec c (active_reads_of slave now (due_reads due) b job).active_reads ≡ some groups
    → lookup dec c failed ≡ some fault
    → fault.quarantined ≡ false
    → pauses c fault ≡ true
    → b.start ≤ b.longest
    → later < now + b.start
    → Held
        (slave, c)
        later
        (poll slave now (due_reads due) (PollReply.report updated failed) b job).0
unfolding poll poll_active
refused-Held slave now later due updated failed c groups fault b job h f q p le lt =
    let a = active_reads_of slave now (due_reads due) b job in
    let limits = active_reads_limits slave now (due_reads due) b job in
    rw (poll_asked slave now c a.active_reads groups a (PollReply.report updated failed) h) (
      judge_refused slave now later updated failed c fault a.active_reads groups a.backoff
        (attempt_groups a.active_reads a.job)
        (active_reads-Distinct slave now (due_reads due) b job (due_reads-Distinct due)) h f q p
        (rw (limits.0, limits.1) le) (rw limits.0 lt))

-- A component that a poll asked for and whose read the unit refused with an acknowledge, or an
-- optional one that it refused with any exception, is left out of a later poll of the unit before
-- the start time of the backoff has passed since the refusal, whatever polls of this or other units
-- were made between the two and whatever they came to. Between the two, only polls use the backoff,
-- none of them later than the second; the start time is at most the longest.
pub poll_refused :
    (slave now later : ℕ) (due : List (String × FieldRead)) (polls : List PollStep)
    (later_reads : List (String × List ReadGroup)) (updated : List String)
    (failed : List (String × ReadFault)) (c : String) (groups : List ReadGroup) (fault : ReadFault)
    (b : ReadBackoff) (job later_job : ReadJob)
    → lookup dec c (active_reads_of slave now (due_reads due) b job).active_reads ≡ some groups
    → lookup dec c failed ≡ some fault
    → fault.quarantined ≡ false
    → pauses c fault ≡ true
    → b.start ≤ b.longest
    → later < now + b.start
    → All (λ p. p.now ≤ later) polls
    → lookup dec c
        (active_reads_of slave later later_reads
          (poll_all polls
            (poll slave now (due_reads due) (PollReply.report updated failed) b job).0)
          later_job).active_reads
      ≡ none
poll_refused slave now later due polls later_reads updated failed c groups fault b job later_job h f
      q p le lt k =
    lookup-Spared slave c _
      (active_reads-Held (slave, c) later slave later later_reads _ later_job (omega arith)
        (poll_all-Held (slave, c) later polls _ k
          (refused-Held slave now later due updated failed c groups fault b job h f q p le lt))).1
