-- ===== src/Coordinator/Unfinished/Requests.antt =====
-- coordinator.py: what the commands leave of the unfinished writes.
use meltem_ha.Const.Groups.{ReadGroup}
use meltem_ha.Const.Modes.{Direction, LevelWriteFallback, OperationMode}
use meltem_ha.Coordinator.Commands.{CommandEnd, Exchange, write_with_confirmation}
use meltem_ha.Coordinator.Requests.{
  Command, airflow_unknown, clear_preset_mode, command_levels, direction_planned, fallback_after,
  inactive_requested, is_direct_mode, leave_preset, level_or_zero, needs_airflow, off_requested,
  preset_left, run_command, set_control_setting, set_direction_level, set_intensive, set_level,
  set_operation_mode, set_preset_mode, set_unbalanced_levels, write_mode, write_planned,
}
use meltem_ha.Coordinator.Resolved.{
  after_uncertain, apply_level_fallback, effective_levels, flow_write_uncertain, with_fallback,
}
use meltem_ha.Coordinator.State.{
  ClientWrite, Coordinator, RoomRuntime, cached_state, clear_overlay, runtime_of, set_runtime,
  update_listeners,
}
use meltem_ha.Coordinator.Unfinished.{OneUnfinished-Finishes}
use meltem_ha.Coordinator.Unfinished.Readbacks.{Ends, clear_overlay-Ends, ends_refl}
use meltem_ha.Coordinator.Unfinished.Writes.{KeepsOne, write_with_confirmation-KeepsOne}
use meltem_ha.Levels.{DirectionWrite, LevelPair, mode_write_levels, plan_direction_write}
use meltem_ha.Models.Config.{RoomConfig}
use meltem_ha.Models.Health.{Clock}
use meltem_ha.Models.Writes.{WriteKey, WriteValue}
use meltem_ha.Prelude.{
  Option, Result, false, if_both, if◌then◌else◌, is_some, none, not, ok, raise, some, true, ℕ, ◌&&◌,
  ◌==◌,
}
use meltem_ha.ReadHealth.{group_fresh}

set_level-KeepsOne :
    (x : Exchange) (room : RoomConfig) (n : ℕ) (c : Coordinator)
    → KeepsOne c
    → KeepsOne (set_level x room n c).0
unfolding set_level
set_level-KeepsOne x room n c h =
    let c' = clear_overlay WriteKey.preset_mode room.key c in
    let off = clear_overlay WriteKey.intensive room.key c' in
    let h' = OneUnfinished-Finishes _ _ h (clear_overlay-Ends WriteKey.preset_mode room.key c) in
    write_with_confirmation-KeepsOne x room WriteKey.airflow_levels (WriteValue.pair n n)
      (ClientWrite.write_level n) false false (if n == 0 then off else c')
      (if_both KeepsOne (n == 0) off c'
        (λ _. OneUnfinished-Finishes _ _ h' (clear_overlay-Ends WriteKey.intensive room.key c'))
        (λ _. h'))

set_unbalanced_levels-KeepsOne :
    (x : Exchange) (room : RoomConfig) (s e : ℕ) (c : Coordinator)
    → KeepsOne c
    → KeepsOne (set_unbalanced_levels x room s e c).0
unfolding set_unbalanced_levels
set_unbalanced_levels-KeepsOne x room s e c h =
    write_with_confirmation-KeepsOne x room WriteKey.airflow_levels (WriteValue.pair s e)
      (ClientWrite.write_unbalanced_levels s e) false false
      (clear_overlay WriteKey.preset_mode room.key c)
      (OneUnfinished-Finishes _ _ h (clear_overlay-Ends WriteKey.preset_mode room.key c))

after_uncertain-Ends :
    (clock : Clock) (room : RoomConfig) (c : Coordinator) → Ends c (after_uncertain clock room c)
unfolding after_uncertain set_runtime
after_uncertain-Ends clock room c =
    if_both (Ends c) (flow_write_uncertain clock room c) c
      (set_runtime room (record (runtime_of c room) { uncertain_flow = none }) c)
      (λ _. ends_refl c.write_confirmations) (λ _. ends_refl c.write_confirmations)

with_fallback-Ends :
    (room : RoomConfig) (fallback : Option LevelWriteFallback) (r : RoomRuntime) (c : Coordinator)
    → Ends c (with_fallback room fallback r c)
unfolding with_fallback update_listeners set_runtime
with_fallback-Ends room none r c =
    if_both (Ends c) (is_some r.level_fallback)
      (update_listeners (set_runtime room (record r { level_fallback = none }) c)) c
      (λ _. ends_refl c.write_confirmations) (λ _. ends_refl c.write_confirmations)
with_fallback-Ends room (some f) r c = ends_refl c.write_confirmations

fallback_after-KeepsOne :
    (room : RoomConfig) (fallback : Option LevelWriteFallback) (d : Coordinator × CommandEnd)
    → KeepsOne d.0
    → KeepsOne (fallback_after room fallback d).0
unfolding fallback_after apply_level_fallback
fallback_after-KeepsOne room fallback (c, CommandEnd.returned) h =
    OneUnfinished-Finishes _ _ h (with_fallback-Ends room fallback (runtime_of c room) c)
fallback_after-KeepsOne room fallback (c, CommandEnd.interrupted) h = h
fallback_after-KeepsOne room fallback (c, CommandEnd.raised e) h = h

write_planned-KeepsOne :
    (x : Exchange) (room : RoomConfig) (w : DirectionWrite) (c : Coordinator)
    → KeepsOne c
    → KeepsOne (write_planned x room w c).0
unfolding write_planned
write_planned-KeepsOne x room (DirectionWrite.balanced n) c h = set_level-KeepsOne x room n c h
write_planned-KeepsOne x room (DirectionWrite.pair s e) c h =
    set_unbalanced_levels-KeepsOne x room s e c h

direction_planned-KeepsOne :
    (x : Exchange) (room : RoomConfig)
    (planned : Result (DirectionWrite × Option LevelWriteFallback)) (c : Coordinator)
    → KeepsOne c
    → KeepsOne (direction_planned x room planned c).0
unfolding direction_planned
direction_planned-KeepsOne x room (raise e) c h = h
direction_planned-KeepsOne x room (ok (w, fallback)) c h =
    fallback_after-KeepsOne room fallback (write_planned x room w c)
      (write_planned-KeepsOne x room w c h)

set_direction_level-KeepsOne :
    (x : Exchange) (room : RoomConfig) (d : Direction) (n : ℕ) (c : Coordinator)
    → KeepsOne c
    → KeepsOne (set_direction_level x room d n c).0
unfolding set_direction_level
set_direction_level-KeepsOne x room d n c h =
    let c' = after_uncertain x.clock room c in
    let h' = OneUnfinished-Finishes _ _ h (after_uncertain-Ends x.clock room c) in
    let levels = command_levels x.clock room c' in
    let planned = plan_direction_write (cached_state c' room.key) levels.0 levels.1 d n in
    if_both (λ (r : Coordinator × CommandEnd). KeepsOne r.0) (flow_write_uncertain x.clock room c)
      (c', airflow_unknown) (direction_planned x room planned c') (λ _. h')
      (λ _. direction_planned-KeepsOne x room planned c' h')

write_mode-KeepsOne :
    (x : Exchange) (room : RoomConfig) (mode : OperationMode) (levels : LevelPair) (c : Coordinator)
    → KeepsOne c
    → KeepsOne (write_mode x room mode levels c).0
unfolding write_mode
write_mode-KeepsOne x room mode levels c h =
    let off = clear_overlay WriteKey.intensive room.key c in
    let c' = if off_requested mode then off else c in
    let h' : KeepsOne c' =
      if_both KeepsOne (off_requested mode) off c
        (λ _. OneUnfinished-Finishes _ _ h (clear_overlay-Ends WriteKey.intensive room.key c))
        (λ _. h) in
    let call =
      ClientWrite.write_operating_mode mode (level_or_zero levels.0) (level_or_zero levels.1) in
    let cleared = clear_overlay WriteKey.airflow_levels room.key c' in
    if_both (λ (r : Coordinator × CommandEnd). KeepsOne r.0)
      (not (is_some levels.0) && needs_airflow mode) (c, airflow_unknown)
      (write_with_confirmation x room WriteKey.operation_mode (WriteValue.operation mode) call true
        false cleared)
      (λ _. h)
      (λ _.
        write_with_confirmation-KeepsOne x room WriteKey.operation_mode (WriteValue.operation mode)
          call true false cleared
          (OneUnfinished-Finishes _ _ h' (clear_overlay-Ends WriteKey.airflow_levels room.key c')))

pub set_operation_mode-KeepsOne :
    (x : Exchange) (room : RoomConfig) (mode : OperationMode) (c : Coordinator)
    → KeepsOne c
    → KeepsOne (set_operation_mode x room mode c).0
unfolding set_operation_mode
set_operation_mode-KeepsOne x room mode c h =
    let c' = after_uncertain x.clock room c in
    let h' = OneUnfinished-Finishes _ _ h (after_uncertain-Ends x.clock room c) in
    let state = cached_state c room.key in
    let levels = mode_write_levels state (effective_levels x.clock room c') in
    let manual = write_mode x room OperationMode.manual levels c' in
    let written = write_mode x room mode levels c' in
    let direct =
      is_direct_mode state.operation_mode && group_fresh x.clock state ReadGroup.flow_control in
    let inactive = if direct then (c', CommandEnd.returned) else manual in
    let P = λ (r : Coordinator × CommandEnd). KeepsOne r.0 in
    if_both P (flow_write_uncertain x.clock room c) (c', airflow_unknown)
      (if inactive_requested mode then inactive else written) (λ _. h')
      (λ _.
        if_both P (inactive_requested mode) inactive written
          (λ _.
            if_both P direct (c', CommandEnd.returned) manual (λ _. h')
              (λ _. write_mode-KeepsOne x room OperationMode.manual levels c' h'))
          (λ _. write_mode-KeepsOne x room mode levels c' h'))

preset_left-KeepsOne :
    (room : RoomConfig) (d : Coordinator × CommandEnd)
    → KeepsOne d.0
    → KeepsOne (preset_left room d).0
unfolding preset_left
preset_left-KeepsOne room (c, CommandEnd.returned) h =
    OneUnfinished-Finishes _ _ h (clear_overlay-Ends WriteKey.preset_mode room.key c)
preset_left-KeepsOne room (c, CommandEnd.interrupted) h = h
preset_left-KeepsOne room (c, CommandEnd.raised e) h = h

leave_preset-KeepsOne :
    (x : Exchange) (room : RoomConfig) (mode : Option OperationMode) (c : Coordinator)
    → KeepsOne c
    → KeepsOne (leave_preset x room mode c).0
unfolding leave_preset
leave_preset-KeepsOne x room none c h =
    OneUnfinished-Finishes _ _ h (clear_overlay-Ends WriteKey.preset_mode room.key c)
leave_preset-KeepsOne x room (some mode) c h =
    preset_left-KeepsOne room (set_operation_mode x room mode c)
      (set_operation_mode-KeepsOne x room mode c h)

pub run_command-KeepsOne :
    (x : Exchange) (room : RoomConfig) (command : Command) (c : Coordinator)
    → KeepsOne c
    → KeepsOne (run_command x room command c).0
unfolding set_preset_mode clear_preset_mode set_intensive set_control_setting
run_command-KeepsOne x room (Command.level n) c h = set_level-KeepsOne x room n c h
run_command-KeepsOne x room (Command.unbalanced_levels s e) c h =
    set_unbalanced_levels-KeepsOne x room s e c h
run_command-KeepsOne x room (Command.direction_level d n) c h =
    set_direction_level-KeepsOne x room d n c h
run_command-KeepsOne x room (Command.operating_mode m) c h =
    set_operation_mode-KeepsOne x room m c h
run_command-KeepsOne x room (Command.preset p) c h =
    write_with_confirmation-KeepsOne x room WriteKey.preset_mode (WriteValue.preset p)
      (ClientWrite.write_preset_mode p) true false
      (clear_overlay WriteKey.airflow_levels room.key c)
      (OneUnfinished-Finishes _ _ h (clear_overlay-Ends WriteKey.airflow_levels room.key c))
run_command-KeepsOne x room Command.no_preset c h = leave_preset-KeepsOne x room _ c h
run_command-KeepsOne x room (Command.intensive_override b) c h =
    write_with_confirmation-KeepsOne x room WriteKey.intensive (WriteValue.flag b) _ true false c h
run_command-KeepsOne x room (Command.setting s v) c h =
    write_with_confirmation-KeepsOne x room (WriteKey.control_setting s) (WriteValue.level v) _ true
      true c h
