-- ===== src/ModbusClient/Poll/Held.antt =====
-- modbus_client.py: a pause that is not over outlasts every other poll.
use mathlib.Core.Bool.{false≢true}
use meltem_ha.Const.Groups.{ReadGroup}
use meltem_ha.ModbusClient.Backoff.{
  BackoffKey, BackoffKey-discrete, ReadBackoff, clear_failures, is_active, mark_failure, paused,
}
use meltem_ha.ModbusClient.Health.{ReadFault, ReadJob, skip_groups}
use meltem_ha.ModbusClient.Poll.{
  Active, PollReply, active_reads_of, clear_components, component_failed, component_read,
  component_updated, judge_components, pauses, poll, poll_active, poll_or_nothing,
}
use meltem_ha.Models.Health.{failed}
use meltem_ha.Prelude.{
  All, List, Option, String, [], arith, contains, false, if_both, if_neg, if_true, if◌then◌else◌,
  none, some, sym, true, ℕ, ◌∙◌, ◌∷◌, ◌≡◌, ◌≢◌, ◌≤◌,
}
use meltem_ha.Prelude.Assoc.{lookup, lookup-insert, lookup-remove}

-- The read of a key is paused at a time.
abbrev pub Held : BackoffKey → ℕ → ReadBackoff → Type 0
Held key time b = paused time (lookup BackoffKey-discrete key b.until) ≡ true

-- The reads of a poll leave a key alone.
abbrev pub Spared : BackoffKey → ℕ → List (String × List ReadGroup) → Type 0
Spared key slave reads = All (λ r. Path BackoffKey (slave, r.0) key → ⊥) reads

clear_failures-Held :
    (key other : BackoffKey) (time : ℕ) (b : ReadBackoff)
    → other ≢ key
    → Held key time b
    → Held key time (clear_failures other b)
unfolding clear_failures
clear_failures-Held key other time b n h =
    rw (lookup-remove, if_neg (BackoffKey-discrete other key) n) h

mark_failure-Held :
    (key other : BackoffKey) (now time : ℕ) (b : ReadBackoff)
    → other ≢ key
    → Held key time b
    → Held key time (mark_failure other now b)
unfolding mark_failure
mark_failure-Held key other now time b n h =
    rw (lookup-insert, if_neg (BackoffKey-discrete other key) n) h

component_read-Held :
    (key : BackoffKey) (time slave now : ℕ) (updated : List String) (o : Option ReadFault)
    (d : String) (groups : List ReadGroup) (b : ReadBackoff) (job : ReadJob)
    → (Path BackoffKey (slave, d) key → ⊥)
    → Held key time b
    → Held key time (component_read slave now updated o d groups b job).0
unfolding component_read component_updated component_failed
component_read-Held key time slave now updated none d groups b job n h =
    if_both (λ (r : ReadBackoff × ReadJob). Held key time r.0) (contains d updated)
      (component_updated slave d groups b job) (b, job)
      (λ _. clear_failures-Held key (slave, d) time b n h) (λ _. h)
component_read-Held key time slave now updated (some fault) d groups b job n h =
    if_both (λ (r : ReadBackoff × ReadJob). Held key time r.0) fault.quarantined
      (b, skip_groups groups job) _ (λ _. h)
      (λ _.
        if_both (Held key time) (pauses d fault) (mark_failure (slave, d) now b)
          (clear_failures (slave, d) b) (λ _. mark_failure-Held key (slave, d) now time b n h)
          (λ _. clear_failures-Held key (slave, d) time b n h))

judge_components-Held :
    (key : BackoffKey) (time slave now : ℕ) (updated : List String)
    (failed : List (String × ReadFault)) (reads : List (String × List ReadGroup)) (b : ReadBackoff)
    (job : ReadJob)
    → Spared key slave reads
    → Held key time b
    → Held key time (judge_components slave now updated failed reads b job).0
unfolding judge_components
judge_components-Held key time slave now updated failed [] b job n h = h
judge_components-Held key time slave now updated failed ((d, groups) ∷ reads) b job n h =
    judge_components-Held key time slave now updated failed reads _ _ n.1
      (component_read-Held key time slave now updated _ d groups b job n.0 h)

clear_components-Held :
    (key : BackoffKey) (time slave : ℕ) (reads : List (String × List ReadGroup)) (b : ReadBackoff)
    → Spared key slave reads
    → Held key time b
    → Held key time (clear_components slave reads b)
unfolding clear_components
clear_components-Held key time slave [] b n h = h
clear_components-Held key time slave ((d, groups) ∷ reads) b n h =
    clear_components-Held key time slave reads (clear_failures (slave, d) b) n.1
      (clear_failures-Held key (slave, d) time b n.0 h)

paused_before :
    (now time : ℕ) (o : Option ℕ) → now ≤ time → paused time o ≡ true → paused now o ≡ true
unfolding paused
paused_before now time none k h = absurd (ground arith)
paused_before now time (some u) k h = ground arith

-- A key that is asked for while it is paused counts as active.
asked_spared :
    (key other : BackoffKey) (now time : ℕ) (b : ReadBackoff)
    → now ≤ time
    → Held key time b
    → (is_active other now b).1 ≡ false
    → other ≢ key
unfolding is_active
asked_spared key other now time b k h f p =
    absurd (false≢true (sym f ∙ (rw p (paused_before now time _ k h))))

is_active-Held :
    (key other : BackoffKey) (now time : ℕ) (b : ReadBackoff)
    → now ≤ time
    → Held key time b
    → Held key time (is_active other now b).0
unfolding is_active
is_active-Held key other now time b k h = elim (BackoffKey-discrete other key) [
  | yes p ↦ rw (p, if_true _ b _ (paused_before now time _ k h)) h
  | no n ↦
      if_both (Held key time) (paused now (lookup BackoffKey-discrete other b.until)) b _ (λ _. h)
        (λ _. rw (lookup-remove, if_neg (BackoffKey-discrete other key) n) h)
]

-- The reads that a poll asks for spare a paused key.
pub active_reads-Held :
    (key : BackoffKey) (time slave now : ℕ) (reads : List (String × List ReadGroup))
    (b : ReadBackoff) (job : ReadJob)
    → now ≤ time
    → Held key time b
    → Held key time (active_reads_of slave now reads b job).backoff
      × Spared key slave (active_reads_of slave now reads b job).active_reads
unfolding active_reads_of
active_reads-Held key time slave now [] b job k h = (h, tt)
active_reads-Held key time slave now ((d, groups) ∷ reads) b job k h =
    let asked = is_active (slave, d) now b in
    let rest =
      active_reads-Held key time slave now reads asked.0
        (if asked.1 then skip_groups groups job else job) k
        (is_active-Held key (slave, d) now time b k h) in
    if_both (λ (a : Active). Held key time a.backoff × Spared key slave a.active_reads) asked.1 _ _
      (λ _. rest) (λ f. (rest.0, (asked_spared key (slave, d) now time b k h f, rest.1)))

poll_active-Held :
    (key : BackoffKey) (time slave now : ℕ) (a : Active) (reply : PollReply)
    → Held key time a.backoff
    → Spared key slave a.active_reads
    → Held key time (poll_active slave now a reply).0
unfolding poll_active
poll_active-Held key time slave now a PollReply.link_lost h n =
    clear_components-Held key time slave a.active_reads a.backoff n h
poll_active-Held key time slave now a (PollReply.poll_unanswered fault) h n =
    clear_components-Held key time slave a.active_reads a.backoff n h
poll_active-Held key time slave now a (PollReply.report updated failed) h n =
    judge_components-Held key time slave now updated failed a.active_reads a.backoff _ n h

poll_or_nothing-Held :
    (key : BackoffKey) (time slave now : ℕ) (reads : List (String × List ReadGroup)) (a : Active)
    (reply : PollReply)
    → Held key time a.backoff
    → Held key time (poll_active slave now a reply).0
    → Held key time (poll_or_nothing slave now reads a reply).0
unfolding poll_or_nothing
poll_or_nothing-Held key time slave now [] a reply h p = h
poll_or_nothing-Held key time slave now (read ∷ reads) a reply h p = p

poll-Held :
    (key : BackoffKey) (time slave now : ℕ) (reads : List (String × List ReadGroup))
    (reply : PollReply) (b : ReadBackoff) (job : ReadJob)
    → now ≤ time
    → Held key time b
    → Held key time (poll slave now reads reply b job).0
unfolding poll
poll-Held key time slave now reads reply b job k h =
    let a = active_reads_of slave now reads b job in
    let held = active_reads-Held key time slave now reads b job k h in
    poll_or_nothing-Held key time slave now a.active_reads a reply held.0
      (poll_active-Held key time slave now a reply held.0 held.1)

-- A poll of a unit, with its time, what it is to read and what that comes to.
pub record PollStep : Type 0 where
  pub slave : ℕ
  pub now : ℕ
  pub reads : List (String × List ReadGroup)
  pub reply : PollReply
  pub job : ReadJob

-- Polls one after the other, on the backoff that they share
abbrev pub poll_all : List PollStep → ReadBackoff → ReadBackoff
poll_all [] b = b
poll_all (p ∷ polls) b = poll_all polls (poll p.slave p.now p.reads p.reply b p.job).0

pub poll_all-Held :
    (key : BackoffKey) (time : ℕ) (polls : List PollStep) (b : ReadBackoff)
    → All (λ p. p.now ≤ time) polls
    → Held key time b
    → Held key time (poll_all polls b)
poll_all-Held key time [] b k h = h
poll_all-Held key time (p ∷ polls) b k h =
    poll_all-Held key time polls _ k.1
      (poll-Held key time p.slave p.now p.reads p.reply b p.job k.0 h)
