-- ===== src/Coordinator/Unfinished/Writes.antt =====
-- coordinator.py: what one write leaves of the unfinished writes, however it ends.
use meltem_ha.Const.Groups.{ReadGroup}
use meltem_ha.Coordinator.Commands.{
  CommandEnd, Exchange, WriteReply, accepted_write, cancelled_write, checked_write,
  confirmed_expected, failed_write, flow_overlay_keys, is_flow_control, mark_uncertain, no_readback,
  overlay_keys, range_checked, read_back_write, readback_plan, record_command, write_ended,
  write_with_confirmation,
}
use meltem_ha.Coordinator.Readbacks.{refresh_room_after_write}
use meltem_ha.Coordinator.State.{
  ClientWrite, Coordinator, clear_overlay, clear_overlays, group_health, runtime_of, send,
  set_runtime, show_intensive, show_levels, show_pending, show_preset, update_listeners,
}
use meltem_ha.Coordinator.Unfinished.{Finishes, OneUnfinished, OneUnfinished-Finishes, unfinished}
use meltem_ha.Coordinator.Unfinished.Readbacks.{
  Ends, clear_overlay-Ends, clear_overlays-Ends, ends_refl, ends_trans, refresh_room-Ends,
}
use meltem_ha.Coordinator.Unfinished.Recorded.{
  record_beside, record_elsewhere, record_here, record_pending-OneUnfinished, supersede-Finishes,
  supersede-OthersFinished,
}
use meltem_ha.Coordinator.Unfinished.Statuses.{mark_unconfirmed-Finishes, outcome-set_found_status}
use meltem_ha.ModeCodec.Writes.{read_back}
use meltem_ha.Models.Config.{RoomConfig}
use meltem_ha.Models.Health.{Clock, ReadHealth}
use meltem_ha.Models.Writes.{
  WriteConfirmation, WriteKey, WriteKey-discrete, WriteStatus, WriteValue,
}
use meltem_ha.Prelude.{
  Bool, Option, Result, String, arith, if_both, if_neg, if_pos, none, ok, raise, some, ℕ, ◌≤◌,
}
use meltem_ha.Prelude.Assoc.{string_discrete}
use meltem_ha.WriteConfirmation.Judging.{is_final, write_group}
use meltem_ha.WriteConfirmation.Store.{
  WriteConfirmations, mark_unconfirmed, new_confirmation, record_pending, set_status, status_set,
  supersede,
}

-- A write that failed is finished, whatever stood under its key before.
failed_confirmation :
    (c : WriteConfirmation) (error : Option String) (n : ℕ)
    → unfinished (some (status_set c WriteStatus.failed error none).confirmation) ≤ n
unfolding unfinished status_set is_final
failed_confirmation c error n = omega arith

recorded_failure-Finishes :
    (clock : Clock) (w : WriteConfirmations) (room : String) (write_key : WriteKey)
    (value : WriteValue) (baseline : ReadHealth) (error : Option String)
    → Finishes w
        (set_status
          (record_pending clock w room write_key value baseline)
          room
          write_key
          WriteStatus.failed
          error
          none).0
unfolding set_status
recorded_failure-Finishes clock w room write_key value baseline error other key =
    let pending = record_pending clock w room write_key value baseline in
    let new = new_confirmation clock value baseline in
    rw
      (
        record_here clock w room write_key value baseline,
        outcome-set_found_status pending room other write_key key WriteStatus.failed error none new,
      )
      (elim (string_discrete room other) [
        | yes p ↦ rw (if_pos _ p) (elim (WriteKey-discrete write_key key) [
          | yes q ↦ rw (if_pos _ q) (failed_confirmation new error _)
          | no n ↦
              rw (if_neg _ n, record_beside clock w room write_key value baseline key n, p)
                (omega arith)
        ])
        | no n ↦
            rw (if_neg _ n, record_elsewhere clock w room write_key value baseline other key n)
              (omega arith)
      ])

-- The unfinished writes of a coordinator
abbrev pub KeepsOne : Coordinator → Type 0
KeepsOne c = OneUnfinished c.write_confirmations

record_command-OneUnfinished :
    (clock : Clock) (w : WriteConfirmations) (room : String) (write_key : WriteKey)
    (value : WriteValue) (baseline : ReadHealth)
    → OneUnfinished w
    → OneUnfinished
        (record_pending clock (supersede w room write_key).0 room write_key value baseline)
record_command-OneUnfinished clock w room write_key value baseline h =
    record_pending-OneUnfinished clock (supersede w room write_key).0 room write_key value baseline
      (OneUnfinished-Finishes w _ h (supersede-Finishes w room write_key))
      (supersede-OthersFinished w room write_key)

mark_uncertain-Ends :
    (room : RoomConfig) (write_key : WriteKey) (baseline : ReadHealth) (c : Coordinator)
    → Ends c (mark_uncertain room write_key baseline c)
unfolding mark_uncertain set_runtime
mark_uncertain-Ends room write_key baseline c =
    let marked =
      set_runtime room
        (record (runtime_of c room) {
          uncertain_flow = some (baseline, group_health c room.key ReadGroup.flow);
        })
        c in
    if_both (Ends c) (is_flow_control write_key)
      (clear_overlays (flow_overlay_keys overlay_keys) room.key marked)
      (clear_overlay write_key room.key c)
      (λ _. clear_overlays-Ends (flow_overlay_keys overlay_keys) room.key marked)
      (λ _. clear_overlay-Ends write_key room.key c)

cancelled_write-KeepsOne :
    (clock : Clock) (room : RoomConfig) (write_key : WriteKey) (value : WriteValue)
    (baseline : ReadHealth) (c : Coordinator)
    → KeepsOne c
    → KeepsOne (cancelled_write clock room write_key value baseline c)
unfolding cancelled_write update_listeners record_command
cancelled_write-KeepsOne clock room write_key value baseline c h =
    let c' = mark_uncertain room write_key baseline c in
    let w = record_command clock room.key write_key value baseline c'.write_confirmations in
    OneUnfinished-Finishes w _
      (record_command-OneUnfinished clock c'.write_confirmations room.key write_key value baseline
        (OneUnfinished-Finishes _ _ h (mark_uncertain-Ends room write_key baseline c)))
      (mark_unconfirmed-Finishes w room.key write_key "Write was cancelled")

failed_write-Ends :
    (clock : Clock) (room : RoomConfig) (write_key : WriteKey) (value : WriteValue)
    (baseline : ReadHealth) (error : String) (c : Coordinator)
    → Ends c (failed_write clock room write_key value baseline error c)
unfolding failed_write update_listeners
failed_write-Ends clock room write_key value baseline error c =
    let c' = clear_overlay write_key room.key c in
    ends_trans _ c'.write_confirmations _ (clear_overlay-Ends write_key room.key c) (
      recorded_failure-Finishes clock c'.write_confirmations room.key write_key value baseline
        (some error))

show_levels-Ends :
    (clock : Clock) (room : String) (value : WriteValue) (c : Coordinator)
    → Ends c (show_levels clock room value c)
unfolding show_levels
show_levels-Ends clock room (WriteValue.pair a b) c = ends_refl c.write_confirmations
show_levels-Ends clock room (WriteValue.operation m) c = ends_refl c.write_confirmations
show_levels-Ends clock room (WriteValue.preset p) c = ends_refl c.write_confirmations
show_levels-Ends clock room (WriteValue.level n) c = ends_refl c.write_confirmations
show_levels-Ends clock room (WriteValue.flag b) c = ends_refl c.write_confirmations

show_preset-Ends :
    (clock : Clock) (room : String) (value : WriteValue) (c : Coordinator)
    → Ends c (show_preset clock room value c)
unfolding show_preset
show_preset-Ends clock room (WriteValue.preset p) c = ends_refl c.write_confirmations
show_preset-Ends clock room (WriteValue.operation m) c = ends_refl c.write_confirmations
show_preset-Ends clock room (WriteValue.pair a b) c = ends_refl c.write_confirmations
show_preset-Ends clock room (WriteValue.level n) c = ends_refl c.write_confirmations
show_preset-Ends clock room (WriteValue.flag b) c = ends_refl c.write_confirmations

show_intensive-Ends :
    (clock : Clock) (room : String) (value : WriteValue) (c : Coordinator)
    → Ends c (show_intensive clock room value c)
unfolding show_intensive
show_intensive-Ends clock room (WriteValue.flag b) c = ends_refl c.write_confirmations
show_intensive-Ends clock room (WriteValue.operation m) c = ends_refl c.write_confirmations
show_intensive-Ends clock room (WriteValue.preset p) c = ends_refl c.write_confirmations
show_intensive-Ends clock room (WriteValue.level n) c = ends_refl c.write_confirmations
show_intensive-Ends clock room (WriteValue.pair a b) c = ends_refl c.write_confirmations

show_pending-Ends :
    (clock : Clock) (key : WriteKey) (room : String) (value : WriteValue) (c : Coordinator)
    → Ends c (show_pending clock key room value c)
unfolding show_pending update_listeners
show_pending-Ends clock WriteKey.airflow_levels room value c = show_levels-Ends clock room value c
show_pending-Ends clock WriteKey.preset_mode room value c = show_preset-Ends clock room value c
show_pending-Ends clock WriteKey.intensive room value c = show_intensive-Ends clock room value c
show_pending-Ends clock WriteKey.operation_mode room value c = ends_refl c.write_confirmations
show_pending-Ends clock (WriteKey.control_setting s) room value c = ends_refl c.write_confirmations

accepted_write-KeepsOne :
    (clock : Clock) (room : RoomConfig) (write_key : WriteKey) (value expected : WriteValue)
    (baseline : ReadHealth) (c : Coordinator)
    → KeepsOne c
    → KeepsOne (accepted_write clock room write_key value expected baseline c)
unfolding accepted_write
accepted_write-KeepsOne clock room write_key value expected baseline c h =
    let replaced = supersede c.write_confirmations room.key write_key in
    let c' : Coordinator = record c {
      write_confirmations = record_pending clock replaced.0 room.key write_key expected baseline;
    } in
    let cleared = clear_overlays replaced.1 room.key c' in
    OneUnfinished-Finishes _ _
      (OneUnfinished-Finishes _ _
        (record_command-OneUnfinished clock c.write_confirmations room.key write_key expected
          baseline h)
        (clear_overlays-Ends replaced.1 room.key c'))
      (show_pending-Ends clock write_key room.key value cleared)

read_back_write-Ends :
    (x : Exchange) (room : RoomConfig) (write_key : WriteKey) (c : Coordinator)
    → Ends c (read_back_write x room write_key c)
unfolding read_back_write update_listeners
read_back_write-Ends x room write_key c =
    let c' = refresh_room_after_write x.later room (readback_plan write_key) x.refresh x.target c in
    let marked = mark_unconfirmed c'.write_confirmations room.key write_key no_readback in
    let c'' : Coordinator = record c' { write_confirmations = marked.0 } in
    let all =
      ends_trans _ c'.write_confirmations _
        (refresh_room-Ends x.later room (readback_plan write_key) x.refresh x.target c)
        (mark_unconfirmed-Finishes c'.write_confirmations room.key write_key no_readback) in
    if_both (Ends c) marked.1 (update_listeners c'') c'' (λ _. all) (λ _. all)

write_ended-KeepsOne :
    (x : Exchange) (room : RoomConfig) (write_key : WriteKey) (value : WriteValue)
    (read_back use_result : Bool) (baseline : ReadHealth) (reply : WriteReply) (c : Coordinator)
    → KeepsOne c
    → KeepsOne (write_ended x room write_key value read_back use_result baseline reply c).0
unfolding write_ended
write_ended-KeepsOne x room write_key value read_back use_result baseline (WriteReply.written r) c
      h =
    let expected = confirmed_expected use_result r value in
    let c' = accepted_write x.clock room write_key value expected baseline c in
    let k = accepted_write-KeepsOne x.clock room write_key value expected baseline c h in
    if_both KeepsOne read_back (read_back_write x room write_key c') c'
      (λ _. OneUnfinished-Finishes _ _ k (read_back_write-Ends x room write_key c')) (λ _. k)
write_ended-KeepsOne x room write_key value read_back use_result baseline WriteReply.write_cancelled
      c h =
    cancelled_write-KeepsOne x.clock room write_key value baseline c h
write_ended-KeepsOne x room write_key value read_back use_result baseline
      (WriteReply.write_failed e) c h =
    let failed = failed_write x.clock room write_key value baseline e c in
    OneUnfinished-Finishes _ _
      (OneUnfinished-Finishes _ _ h (failed_write-Ends x.clock room write_key value baseline e c))
      (refresh_room-Ends x.later room (readback_plan write_key) x.refresh x.target failed)

checked_write-KeepsOne :
    (r : Result (Unit {0})) (done : Coordinator × CommandEnd) (c : Coordinator)
    → KeepsOne c
    → KeepsOne done.0
    → KeepsOne (checked_write r done c).0
unfolding checked_write
checked_write-KeepsOne (ok tt) done c h k = k
checked_write-KeepsOne (raise e) done c h k = h

pub write_with_confirmation-KeepsOne :
    (x : Exchange) (room : RoomConfig) (write_key : WriteKey) (value : WriteValue)
    (call : ClientWrite) (read_back use_result : Bool) (c : Coordinator)
    → KeepsOne c
    → KeepsOne (write_with_confirmation x room write_key value call read_back use_result c).0
unfolding write_with_confirmation send
write_with_confirmation-KeepsOne x room write_key value call read_back use_result c h =
    let baseline = group_health c room.key (write_group write_key) in
    checked_write-KeepsOne (range_checked room write_key value c)
      (write_ended x room write_key value read_back use_result baseline x.write (send room call c))
      c h
      (write_ended-KeepsOne x room write_key value read_back use_result baseline x.write
        (send room call c) h)
