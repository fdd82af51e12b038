-- ===== src/WriteConfirmation/Store/Outcomes.antt =====
-- write_confirmation.py: what the operations leave under a room and a key.
use meltem_ha.Const.{write_health_retention}
use meltem_ha.Models.Health.{Clock, ReadHealth}
use meltem_ha.Models.Writes.{WriteConfirmation, WriteKey, WriteKey-discrete, WriteValue}
use meltem_ha.Prelude.{String, if_neg, if_pos, ite, leb, refl, some, ◌-◌, ◌≡◌}
use meltem_ha.Prelude.Assoc.{lookup-insert, string_discrete}
use meltem_ha.WriteConfirmation.Judging.{is_confirmable, recent}
use meltem_ha.WriteConfirmation.Store.{
  WriteConfirmations, after_airflow, confirmable_outcome, needs_confirmation, new_confirmation,
  of_room, outcome, record_pending, set_outcome,
}

-- The outcome under one key after another was set.
pub outcome-set_outcome :
    (w : WriteConfirmations) (room_key room : String) (write_key key : WriteKey)
    (c : WriteConfirmation)
    → outcome (set_outcome w room_key write_key c) room key
      ≡ ite
          (string_discrete room_key room)
          (ite (WriteKey-discrete write_key key) (some c) (outcome w room_key key))
          (outcome w room key)
unfolding outcome set_outcome of_room
outcome-set_outcome w room_key room write_key key c = elim (string_discrete room_key room) [
  | yes p ↦
      rw (lookup-insert, if_pos _ p, if_pos (string_discrete room_key room) p, lookup-insert) refl
  | no n ↦ rw (lookup-insert, if_neg _ n, if_neg (string_discrete room_key room) n) refl
]

-- An accepted write replaces the outcome under its own room and key, and no other: a pending
-- outcome with the expected value, that no issue has been counted for.
pub outcome-record_pending :
    (clock : Clock) (w : WriteConfirmations) (room_key room : String) (write_key key : WriteKey)
    (value : WriteValue) (baseline : ReadHealth)
    → outcome (record_pending clock w room_key write_key value baseline) room key
      ≡ ite
          (string_discrete room_key room)
          (ite
            (WriteKey-discrete write_key key)
            (some (new_confirmation clock value baseline))
            (outcome w room_key key))
          (outcome w room key)
unfolding record_pending outcome of_room
outcome-record_pending clock w room_key room write_key key value baseline =
    outcome-set_outcome (after_airflow room_key write_key w) room_key room write_key key
      (new_confirmation clock value baseline)

-- A write awaits its readback from when it was recorded until the retention time has passed, if
-- nothing else is recorded.
pub needs_confirmation-record_pending :
    (clock later : Clock) (w : WriteConfirmations) (room_key : String) (write_key : WriteKey)
    (value : WriteValue) (baseline : ReadHealth)
    → needs_confirmation later
        (record_pending clock w room_key write_key value baseline)
        room_key
        write_key
      ≡ leb (later.utcnow - clock.utcnow) write_health_retention
unfolding needs_confirmation confirmable_outcome is_confirmable recent
needs_confirmation-record_pending clock later w room_key write_key value baseline =
    rw
      (
        outcome-record_pending,
        if_pos (string_discrete room_key room_key) refl,
        if_pos (WriteKey-discrete write_key write_key) refl,
      )
      refl
