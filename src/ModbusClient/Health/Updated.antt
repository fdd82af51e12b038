-- ===== src/ModbusClient/Health/Updated.antt =====
-- modbus_client.py: the read health after a read of a room.
use meltem_ha.Const.Groups.{ReadGroup, ReadGroup-discrete, read_group_entity_keys}
use meltem_ha.ModbusClient.Health.{
  ReadJob, health_after, health_with, succeeded_at, update_groups, updated_read_health, with_health,
}
use meltem_ha.Models.Config.{RoomConfig, supports_any}
use meltem_ha.Models.Health.{Clock, ReadHealth, failed}
use meltem_ha.Models.Plan.{RefreshPlan, read_groups}
use meltem_ha.Models.Room.{RoomState, health_or_empty, read_health_for, sorted}
use meltem_ha.Models.Room.Recorded.{lookup-sorted}
use meltem_ha.Polling.{supported_groups}
use meltem_ha.Prelude.{
  Bool, Bool-cases, List, Option, String, [], ap, arith, decb, decb_no, decb_yes, false, if_neg,
  if_pos, if◌then◌else◌, inl, inr, ite, none, or_else, refl, some, sym, true, ◌∙◌, ◌∷◌, ◌≡◌,
}
use meltem_ha.Prelude.Assoc.{
  Distinct, fill, fill-Distinct, insert-Distinct, lookup, lookup-fill, lookup-insert,
}
use meltem_ha.ReadHealth.{has_group}

abbrev dec : Discrete ReadGroup
dec = ReadGroup-discrete

lookup-with_health :
    (group j : ReadGroup) (health : Option ReadHealth) (healths : List (ReadGroup × ReadHealth))
    → lookup dec j (with_health group health healths)
      ≡ ite (dec group j) (or_else health (lookup dec j healths)) (lookup dec j healths)
unfolding with_health
lookup-with_health group j none healths = ground arith
lookup-with_health group j (some h) healths = rw (lookup-insert dec group j h healths) refl

with_health-Distinct :
    (group : ReadGroup) (health : Option ReadHealth) (healths : List (ReadGroup × ReadHealth))
    → Distinct dec healths
    → Distinct dec (with_health group health healths)
unfolding with_health
with_health-Distinct group none healths d = d
with_health-Distinct group (some h) healths d = insert-Distinct dec group h healths d

-- What the loop records for a group
abbrev recorded_health :
    Clock → RoomConfig → RoomState → ReadJob → List ReadGroup → ReadGroup → Option ReadHealth
recorded_health clock room previous job groups j =
    if has_group j (supported_groups room groups) then health_after clock previous job j else none

-- A group that is read twice is recorded as when it is read once.
again :
    (in_rest : Bool) (after o : Option ReadHealth)
    → or_else (if in_rest then after else none) (or_else after o) ≡ or_else after o
again true none o = refl
again true (some h) o = refl
again false after o = refl

-- One group more, when the room has an entity of it.
one_recorded :
    (in_rest : Bool) (g j : ReadGroup) (after after_g o : Option ReadHealth)
    → (j ≡ g → after ≡ after_g)
    → or_else (if in_rest then after else none) (ite (dec g j) (or_else after_g o) o)
      ≡ or_else (if (if decb (dec j g) then true else in_rest) then after else none) o
one_recorded in_rest g j after after_g o h = elim (dec j g) [
  | yes p ↦ rw (if_pos (dec g j) (sym p), decb_yes (dec j g) p, sym (h p)) (again in_rest after o)
  | no n ↦ rw (if_neg (dec g j) (λ (e : g ≡ j). n (sym e)), decb_no (dec j g) n) refl
]

lookup-update_groups :
    (clock : Clock) (room : RoomConfig) (previous : RoomState) (job : ReadJob)
    (groups : List ReadGroup) (healths : List (ReadGroup × ReadHealth)) (j : ReadGroup)
    → Distinct dec healths
    → (lookup dec j (update_groups clock room previous job groups healths)
        ≡ or_else (recorded_health clock room previous job groups j) (lookup dec j healths))
      × Distinct dec (update_groups clock room previous job groups healths)
unfolding update_groups supported_groups has_group
lookup-update_groups clock room previous job [] healths j d = (refl, d)
lookup-update_groups clock room previous job (g ∷ groups) healths j d =
    elim (Bool-cases (supports_any room (read_group_entity_keys g))) [
      | inl t ↦
          let after = health_after clock previous job in
          let next = with_health g (after g) healths in
          let rest =
            lookup-update_groups clock room previous job groups next j
              (with_health-Distinct g (after g) healths d) in
          rw t (
            rest.0
                ∙ ap (or_else (recorded_health clock room previous job groups j))
                    (lookup-with_health g j (after g) healths)
                ∙ one_recorded (has_group j (supported_groups room groups)) g j (after j) (after g)
                    (lookup dec j healths) (λ e. ap after e),
            rest.1,
          )
      | inr f ↦ rw f (lookup-update_groups clock room previous job groups healths j d)
    ]

or_recorded :
    (after known : Option ReadHealth)
    → health_or_empty (or_else (or_else after known) none)
      ≡ health_or_empty (or_else after (some (health_or_empty known)))
unfolding health_or_empty
or_recorded none none = refl
or_recorded none (some h) = refl
or_recorded (some h) known = refl

recorded_or_previous :
    (clock : Clock) (room : RoomConfig) (previous state : RoomState) (plan : RefreshPlan)
    (job : ReadJob) (j : ReadGroup)
    → read_health_for
        (record state { group_read_health = (updated_read_health clock room previous plan job).0 })
        j
      ≡ health_or_empty (
          or_else
            (if has_group j (supported_groups room (read_groups plan))
              then health_after clock previous job j
              else none)
            (some (read_health_for previous j)))
unfolding read_health_for updated_read_health ReadGroup-discrete lookup
recorded_or_previous clock room previous state plan job j =
    let known = fill dec [] previous.group_read_health in
    let d = fill-Distinct dec [] previous.group_read_health tt in
    let updated = update_groups clock room previous job (read_groups plan) known in
    let looped = lookup-update_groups clock room previous job (read_groups plan) known j d in
    let at_sorted = lookup-sorted j updated looped.1 in
    ap health_or_empty (
      lookup-fill dec j [] (sorted updated) at_sorted.1
      ∙ ap (λ o. or_else o none) (at_sorted.0 ∙ looped.0))
    ∙ or_recorded (recorded_health clock room previous job (read_groups plan) j)
        (lookup dec j known)

-- A group that was read: it failed with the error that the job has for it; without an error, it
-- keeps its health if it was skipped, and was else read just now.
abbrev health_of_read : Clock → RoomState → ReadJob → ReadGroup → Option String → ReadHealth
health_of_read clock previous job j (some error) =
    failed (read_health_for previous j) clock.utcnow error (has_group j job.timeouts)
health_of_read clock previous job j none =
    if has_group j job.skipped_groups then read_health_for previous j else record {
      last_attempt = some clock.utcnow;
      last_successful_read = some clock.utcnow;
      consecutive_failures = 0;
      last_error = none;
      last_error_timed_out = false;
      last_success_monotonic = some clock.monotonic;
    }

-- The groups that a read is about are those that the plan reads and the room has an entity of.
abbrev pub health_found :
    Clock → RoomConfig → RoomState → RefreshPlan → ReadJob → ReadGroup → ReadHealth
health_found clock room previous plan job j =
    if has_group j (supported_groups room (read_groups plan))
    then health_of_read clock previous job j (lookup dec j job.errors)
    else read_health_for previous j

read_found :
    (clock : Clock) (previous : RoomState) (job : ReadJob) (j : ReadGroup) (error : Option String)
    → health_or_empty
        (or_else (health_with clock previous job j error) (some (read_health_for previous j)))
      ≡ health_of_read clock previous job j error
unfolding health_with health_or_empty succeeded_at
read_found clock previous job j (some error) = refl
read_found clock previous job j none = elim (Bool-cases (has_group j job.skipped_groups)) [
  | inl t ↦ rw t refl
  | inr f ↦ rw f refl
]

found_or_previous :
    (clock : Clock) (previous : RoomState) (job : ReadJob) (j : ReadGroup) (is_read : Bool)
    → health_or_empty (
        or_else
          (if is_read then health_after clock previous job j else none)
          (some (read_health_for previous j)))
      ≡ (if is_read
          then health_of_read clock previous job j (lookup dec j job.errors)
          else read_health_for previous j)
unfolding health_after health_or_empty ReadGroup-discrete lookup
found_or_previous clock previous job j true = read_found clock previous job j _
found_or_previous clock previous job j false = refl

-- After a read of a room, a group that the plan reads and the room has an entity of has failed with
-- the error that the job has for it, as a timeout if the job counts it as one. Without an error, it
-- keeps its health if it was skipped, and was read just now if not. Every other group keeps its
-- health.
pub read_health_for-updated_read_health :
    (clock : Clock) (room : RoomConfig) (previous state : RoomState) (plan : RefreshPlan)
    (job : ReadJob) (j : ReadGroup)
    → read_health_for
        (record state { group_read_health = (updated_read_health clock room previous plan job).0 })
        j
      ≡ health_found clock room previous plan job j
read_health_for-updated_read_health clock room previous state plan job j =
    recorded_or_previous clock room previous state plan job j
    ∙ found_or_previous clock previous job j
        (has_group j (supported_groups room (read_groups plan)))
