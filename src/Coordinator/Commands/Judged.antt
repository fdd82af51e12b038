-- ===== src/Coordinator/Commands/Judged.antt =====
-- coordinator.py: the outcome that a write has when its command ends.
use meltem_ha.Coordinator.Commands.{
  CommandEnd, Exchange, WriteReply, checked_write, failed_write, range_checked, readback_plan,
  write_ended, write_with_confirmation,
}
use meltem_ha.Coordinator.Readbacks.Preserved.{Preserved, refresh_room-Preserves}
use meltem_ha.Coordinator.State.{
  ClientWrite, Coordinator, clear_overlay, group_health, send, update_listeners,
}
use meltem_ha.Coordinator.Unfinished.Recorded.{record_here}
use meltem_ha.Coordinator.Unfinished.Statuses.{outcome-set_found_status}
use meltem_ha.ModeCodec.Writes.{read_back}
use meltem_ha.Models.Config.{RoomConfig}
use meltem_ha.Models.Health.{Clock, ReadHealth}
use meltem_ha.Models.Room.{RoomState}
use meltem_ha.Models.Writes.{
  WriteConfirmation, WriteKey, WriteKey-discrete, WriteStatus, WriteValue,
}
use meltem_ha.Prelude.{
  Bool, List, Option, String, ap, arith, home_assistant_error, if_false, if_pos, none, not, ok,
  refl, some, true, ◌&&◌, ◌≡◌,
}
use meltem_ha.Prelude.Assoc.{string_discrete}
use meltem_ha.WriteConfirmation.Judging.{
  Round, confirm_one, is_final, is_pending, overdue, round_of, timed_out, write_group,
}
use meltem_ha.WriteConfirmation.Rounds.{confirm}
use meltem_ha.WriteConfirmation.Rounds.Settled.{after_round, outcome-confirm}
use meltem_ha.WriteConfirmation.Store.{
  WriteConfirmations, new_confirmation, of_room, outcome, record_pending, set_status, status_set,
}
use meltem_ha.WriteConfirmation.Store.Final.{checked_confirmation-final}

same_when_final :
    (clock : Clock) (c : WriteConfirmation)
    → is_final c.status ≡ true
    → (overdue clock c).confirmation ≡ c
unfolding overdue is_final
same_when_final clock c h =
    ap (λ (r : Round). r.confirmation)
      (if_false (is_pending c.status && (not c.issue_counted && timed_out clock c)) _ _
        (ground arith))

round_of_final :
    (clock : Clock) (c : WriteConfirmation) (o : Option WriteConfirmation)
    → o ≡ none
    → is_final c.status ≡ true
    → (round_of clock c o).confirmation ≡ c
unfolding round_of
round_of_final clock c none e h = same_when_final clock c h
round_of_final clock c (some x) e h = absurd (ground arith)

after_round_same :
    (clock : Clock) (o : Option RoomState) (key : WriteKey) (c : WriteConfirmation)
    → is_final c.status ≡ true
    → after_round clock o key c ≡ c
unfolding confirm_one
after_round_same clock none key c h = refl
after_round_same clock (some state) key c h =
    round_of_final clock c _ (checked_confirmation-final state key c h) h

-- A finished outcome stays as it is.
abbrev FinishedStay : WriteConfirmations → WriteConfirmations → Type 0
FinishedStay w w' =
    (room : String) (key : WriteKey) (c : WriteConfirmation)
    → outcome w room key ≡ some c
    → is_final c.status ≡ true
    → outcome w' room key ≡ some c

confirm-FinishedStay :
    (clock : Clock) (states : List (String × RoomState)) (w : WriteConfirmations)
    → FinishedStay w (confirm clock states w).0
confirm-FinishedStay clock states w room key c e h =
    rw (outcome-confirm, e) (ap some (after_round_same clock _ key c h))

converged-FinishedStay :
    (w : WriteConfirmations) (rooms : List String)
    → FinishedStay w (record w { balanced_flow_converged = rooms })
unfolding outcome of_room
converged-FinishedStay w rooms room key c e h = e

abbrev finished_stay : Preserved
finished_stay = record {
  kept = record {
    holds = FinishedStay;
    reflexive = λ w room key c e h. e;
    transitive = λ u v w f g room key c e h. g room key c (f room key c e h) h;
    of_converged = converged-FinishedStay;
  };
  of_confirm = confirm-FinishedStay;
}

-- The outcome of a write that failed.
abbrev pub failure_of_write : Clock → WriteValue → ReadHealth → String → WriteConfirmation
failure_of_write clock value baseline error =
    (status_set (new_confirmation clock value baseline) WriteStatus.failed (some error)
      none).confirmation

failed_is_final :
    (clock : Clock) (value : WriteValue) (baseline : ReadHealth) (error : String)
    → is_final (failure_of_write clock value baseline error).status ≡ true
unfolding status_set is_final
failed_is_final clock value baseline error = refl

pub set_here :
    (w : WriteConfirmations) (room : String) (key : WriteKey) (status : WriteStatus)
    (error : Option String) (value : Option WriteValue) (c : WriteConfirmation)
    → outcome w room key ≡ some c
    → outcome (set_status w room key status error value).0 room key
      ≡ some (status_set c status error value).confirmation
unfolding set_status
set_here w room key status error value c e =
    rw
      (
        e,
        outcome-set_found_status w room room key key status error value c,
        if_pos (string_discrete room room) refl,
        if_pos (WriteKey-discrete key key) refl,
      )
      refl

failed_write-outcome :
    (clock : Clock) (room : RoomConfig) (key : WriteKey) (value : WriteValue)
    (baseline : ReadHealth) (error : String) (c : Coordinator)
    → outcome (failed_write clock room key value baseline error c).write_confirmations room.key key
      ≡ some (failure_of_write clock value baseline error)
unfolding failed_write update_listeners
failed_write-outcome clock room key value baseline error c =
    let w = (clear_overlay key room.key c).write_confirmations in
    set_here (record_pending clock w room.key key value baseline) room.key key WriteStatus.failed
      (some error) none _ (record_here clock w room.key key value baseline)

-- A write that the unit refused raises, and its outcome is the failure with the error's text,
-- which the readback after it does not change.
pub write_with_confirmation_failed :
    (x : Exchange) (room : RoomConfig) (key : WriteKey) (value : WriteValue) (call : ClientWrite)
    (read_back use_result : Bool) (c : Coordinator) (error : String)
    → range_checked room key value c ≡ ok tt
    → x.write ≡ WriteReply.write_failed error
    → let r = write_with_confirmation x room key value call read_back use_result c in
      (r.1 ≡ CommandEnd.raised (home_assistant_error "write_failed"))
      × (outcome r.0.write_confirmations room.key key
          ≡ some (failure_of_write x.clock value (group_health c room.key (write_group key)) error))
unfolding write_with_confirmation checked_write write_ended
write_with_confirmation_failed x room key value call read_back use_result c error h e =
    let baseline = group_health c room.key (write_group key) in
    let failed_c = failed_write x.clock room key value baseline error (send room call c) in
    rw (h, e)
      (
        refl,
        refresh_room-Preserves finished_stay x.later room (readback_plan key) x.refresh x.target
            failed_c room.key key _
            (failed_write-outcome x.clock room key value baseline error (send room call c))
            (failed_is_final x.clock value baseline error),
      )
