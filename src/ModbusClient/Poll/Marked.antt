-- ===== src/ModbusClient/Poll/Marked.antt =====
-- modbus_client.py: a component that a unit refused is paused after the report of a poll.
use mathlib.Core.Path.{subst}
use meltem_ha.Const.Groups.{ReadGroup}
use meltem_ha.ModbusClient.Backoff.{
  BackoffKey, BackoffKey-discrete, ReadBackoff, clear_failures, mark_failure, next_failures, paused,
}
use meltem_ha.ModbusClient.Backoff.Pauses.{pause_bounds}
use meltem_ha.ModbusClient.Health.{ReadFault, ReadJob, skip_groups}
use meltem_ha.ModbusClient.Poll.{
  component_failed, component_read, component_updated, judge_components, pauses,
}
use meltem_ha.Models.Health.{failed}
use meltem_ha.Prelude.{
  List, Option, String, [], ap, arith, contains, false, if_both, if_false, if_neg, if_pos, if_true,
  none, refl, some, sym, true, ℕ, ◌+◌, ◌<◌, ◌∙◌, ◌∷◌, ◌≡◌, ◌≢◌, ◌≤◌,
}
use meltem_ha.Prelude.Assoc.{Distinct, lookup, lookup-insert, lookup-remove, string_discrete}

abbrev pub dec : Discrete String
dec = string_discrete

-- The pause of a component and the limits of the backoff are the same.
abbrev pub Same : ℕ → String → ReadBackoff → ReadBackoff → Type 0
Same slave c b b' =
    (lookup BackoffKey-discrete (slave, c) b'.until ≡ lookup BackoffKey-discrete (slave, c) b.until)
    × (b'.start ≡ b.start)
    × (b'.longest ≡ b.longest)

pub other_key : (slave : ℕ) (d c : String) → d ≢ c → Path BackoffKey (slave, d) (slave, c) → ⊥
other_key slave d c n e = n (ap (λ (k : BackoffKey). k.1) e)

clear_failures_elsewhere :
    (slave : ℕ) (d c : String) (b : ReadBackoff)
    → d ≢ c
    → Same slave c b (clear_failures (slave, d) b)
unfolding clear_failures
clear_failures_elsewhere slave d c b n = (
  rw (lookup-remove, if_neg (BackoffKey-discrete (slave, d) (slave, c)) (other_key slave d c n))
      refl,
  refl,
  refl,
)

mark_failure_elsewhere :
    (slave now : ℕ) (d c : String) (b : ReadBackoff)
    → d ≢ c
    → Same slave c b (mark_failure (slave, d) now b)
unfolding mark_failure
mark_failure_elsewhere slave now d c b n = (
  rw (lookup-insert, if_neg (BackoffKey-discrete (slave, d) (slave, c)) (other_key slave d c n))
      refl,
  refl,
  refl,
)

component_read_elsewhere :
    (slave now : ℕ) (updated : List String) (o : Option ReadFault) (d c : String)
    (groups : List ReadGroup) (b : ReadBackoff) (job : ReadJob)
    → d ≢ c
    → Same slave c b (component_read slave now updated o d groups b job).0
unfolding component_read component_updated component_failed
component_read_elsewhere slave now updated none d c groups b job n =
    if_both (λ (r : ReadBackoff × ReadJob). Same slave c b r.0) (contains d updated)
      (component_updated slave d groups b job) (b, job)
      (λ _. clear_failures_elsewhere slave d c b n) (λ _. (refl, refl, refl))
component_read_elsewhere slave now updated (some fault) d c groups b job n =
    if_both (λ (r : ReadBackoff × ReadJob). Same slave c b r.0) fault.quarantined
      (b, skip_groups groups job) _ (λ _. (refl, refl, refl))
      (λ _.
        if_both (λ (b' : ReadBackoff). Same slave c b b') (pauses d fault)
          (mark_failure (slave, d) now b) (clear_failures (slave, d) b)
          (λ _. mark_failure_elsewhere slave now d c b n)
          (λ _. clear_failures_elsewhere slave d c b n))

judge_elsewhere :
    (slave now : ℕ) (updated : List String) (failed : List (String × ReadFault)) (c : String)
    (reads : List (String × List ReadGroup)) (b : ReadBackoff) (job : ReadJob)
    → lookup dec c reads ≡ none
    → Same slave c b (judge_components slave now updated failed reads b job).0
unfolding judge_components lookup
judge_elsewhere slave now updated failed c [] b job h = (refl, refl, refl)
judge_elsewhere slave now updated failed c ((d, groups) ∷ reads) b job h = elim (dec d c) [
  | yes p ↦ absurd (ground arith)
  | no n ↦
      let o = lookup string_discrete d failed in
      let next = component_read slave now updated o d groups b job in
      let s = component_read_elsewhere slave now updated o d c groups b job n in
      let r =
        judge_elsewhere slave now updated failed c reads next.0 next.1
          (sym (if_neg (dec d c) n _ _) ∙ h) in
      (r.0 ∙ s.0, r.1 ∙ s.1, r.2 ∙ s.2)
]

failed_marked :
    (slave now : ℕ) (c : String) (groups : List ReadGroup) (fault : ReadFault) (b : ReadBackoff)
    (job : ReadJob)
    → fault.quarantined ≡ false
    → pauses c fault ≡ true
    → (component_failed slave now c groups fault b job).0 ≡ mark_failure (slave, c) now b
unfolding component_failed
failed_marked slave now c groups fault b job q p =
    ap (λ (r : ReadBackoff × ReadJob). r.0) (if_false fault.quarantined _ _ q)
    ∙ if_true (pauses c fault) _ _ p

refused_paused :
    (slave now later : ℕ) (c : String) (groups : List ReadGroup) (fault : ReadFault)
    (b : ReadBackoff) (job : ReadJob)
    → fault.quarantined ≡ false
    → pauses c fault ≡ true
    → b.start ≤ b.longest
    → later < now + b.start
    → paused later (
        lookup BackoffKey-discrete
          (slave, c)
          (component_failed slave now c groups fault b job).0.until)
      ≡ true
unfolding mark_failure paused
refused_paused slave now later c groups fault b job q p le lt =
    let bounds = pause_bounds b (next_failures (slave, c) b) le in
    rw
      (
        failed_marked slave now c groups fault b job q p,
        lookup-insert,
        if_pos (BackoffKey-discrete (slave, c) (slave, c)) refl,
      )
      (ground (arith, bounds.0))

-- A refused component is paused after the report was judged.
pub judge_refused :
    (slave now later : ℕ) (updated : List String) (failed : List (String × ReadFault)) (c : String)
    (fault : ReadFault) (reads : List (String × List ReadGroup)) (groups : List ReadGroup)
    (b : ReadBackoff) (job : ReadJob)
    → Distinct dec reads
    → lookup dec c reads ≡ some groups
    → lookup dec c failed ≡ some fault
    → fault.quarantined ≡ false
    → pauses c fault ≡ true
    → b.start ≤ b.longest
    → later < now + b.start
    → paused later (
        lookup BackoffKey-discrete
          (slave, c)
          (judge_components slave now updated failed reads b job).0.until)
      ≡ true
unfolding judge_components lookup component_read
judge_refused slave now later updated failed c fault [] groups b job d h f q p le lt =
    absurd (ground arith)
judge_refused slave now later updated failed c fault ((e, gs) ∷ reads) groups b job d h f q p le
      lt =
    elim (dec e c) [
      | yes m ↦ rw m (
          subst
            (λ (o : Option ReadFault).
              paused later (
                lookup BackoffKey-discrete (slave, c)
                  (judge_components slave now updated failed reads
                    (component_read slave now updated o c gs b job).0
                    (component_read slave now updated o c gs b job).1).0.until)
              ≡ true)
            (sym f)
            (ap (paused later)
                (judge_elsewhere slave now updated failed c reads
                  (component_failed slave now c gs fault b job).0
                  (component_failed slave now c gs fault b job).1 (rw (← m) d.0)).0
              ∙ refused_paused slave now later c gs fault b job q p le lt))
      | no n ↦
          let o = lookup string_discrete e failed in
          let next = component_read slave now updated o e gs b job in
          let s = component_read_elsewhere slave now updated o e c gs b job n in
          judge_refused slave now later updated failed c fault reads groups next.0 next.1 d.1
            (sym (if_neg (dec e c) n _ _) ∙ h) f q p (rw (s.1, s.2) le) (rw s.1 lt)
    ]
