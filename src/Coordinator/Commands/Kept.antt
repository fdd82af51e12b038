-- ===== src/Coordinator/Commands/Kept.antt =====
-- coordinator.py: the parts of a command and of its readback that leave outcomes and states alone.
use meltem_ha.Const.Groups.{ReadGroup}
use meltem_ha.Coordinator.Commands.{accepted_write}
use meltem_ha.Coordinator.Readbacks.{
  TargetReply, claim_slot, drop_fallback, fallback_over, read_balanced_target_if_pending,
  set_target_failing, settle_intensive, settle_levels, settle_presets, settle_room, settle_rooms,
  target_applied,
}
use meltem_ha.Coordinator.Readbacks.Preserved.{Kept}
use meltem_ha.Coordinator.State.{
  Coordinator, RoomRuntime, clear_overlay, clear_overlays, set_runtime, show_intensive, show_levels,
  show_pending, show_preset, update_listeners,
}
use meltem_ha.Coordinator.Unfinished.Recorded.{record_here}
use meltem_ha.Models.Config.{RoomConfig}
use meltem_ha.Models.Health.{Clock, ReadHealth}
use meltem_ha.Models.Room.{RoomState}
use meltem_ha.Models.Writes.{WriteKey, WriteValue}
use meltem_ha.Prelude.{
  Bool, List, Option, String, [], ap, if_both, none, not, refl, some, ℕ, ◌||◌, ◌∙◌, ◌∷◌, ◌≡◌,
}
use meltem_ha.Prelude.Assoc.{lookup, string_discrete}
use meltem_ha.ReadHealth.{group_fresh}
use meltem_ha.WriteConfirmation.Balanced.{
  Prepared, is_balanced_mode, prepare_balanced_target_readback, without_write,
}
use meltem_ha.WriteConfirmation.Judging.{is_true}
use meltem_ha.WriteConfirmation.Store.{
  WriteConfirmations, needs_confirmation, new_confirmation, outcome, record_pending, supersede,
}

-- The outcomes and the states of the rooms are the same.
abbrev pub Keeps : Coordinator → Coordinator → Type 0
Keeps c c' = (c'.write_confirmations ≡ c.write_confirmations) × (c'.safe_data ≡ c.safe_data)

clear_overlay-Keeps :
    (key : WriteKey) (room : String) (c : Coordinator) → Keeps c (clear_overlay key room c)
unfolding clear_overlay
clear_overlay-Keeps WriteKey.airflow_levels room c = (refl, refl)
clear_overlay-Keeps WriteKey.operation_mode room c = (refl, refl)
clear_overlay-Keeps WriteKey.preset_mode room c = (refl, refl)
clear_overlay-Keeps WriteKey.intensive room c = (refl, refl)
clear_overlay-Keeps (WriteKey.control_setting s) room c = (refl, refl)

clear_overlays-Keeps :
    (keys : List WriteKey) (room : String) (c : Coordinator) → Keeps c (clear_overlays keys room c)
unfolding clear_overlays
clear_overlays-Keeps [] room c = (refl, refl)
clear_overlays-Keeps (key ∷ keys) room c =
    let one = clear_overlay-Keeps key room c in
    let rest = clear_overlays-Keeps keys room (clear_overlay key room c) in
    (rest.0 ∙ one.0, rest.1 ∙ one.1)

show_pending-Keeps :
    (clock : Clock) (key : WriteKey) (room : String) (value : WriteValue) (c : Coordinator)
    → Keeps c (show_pending clock key room value c)
unfolding show_pending show_levels show_preset show_intensive update_listeners
show_pending-Keeps clock WriteKey.airflow_levels room (WriteValue.pair a b) c = (refl, refl)
show_pending-Keeps clock WriteKey.airflow_levels room (WriteValue.operation m) c = (refl, refl)
show_pending-Keeps clock WriteKey.airflow_levels room (WriteValue.preset p) c = (refl, refl)
show_pending-Keeps clock WriteKey.airflow_levels room (WriteValue.level n) c = (refl, refl)
show_pending-Keeps clock WriteKey.airflow_levels room (WriteValue.flag b) c = (refl, refl)
show_pending-Keeps clock WriteKey.preset_mode room (WriteValue.pair a b) c = (refl, refl)
show_pending-Keeps clock WriteKey.preset_mode room (WriteValue.operation m) c = (refl, refl)
show_pending-Keeps clock WriteKey.preset_mode room (WriteValue.preset p) c = (refl, refl)
show_pending-Keeps clock WriteKey.preset_mode room (WriteValue.level n) c = (refl, refl)
show_pending-Keeps clock WriteKey.preset_mode room (WriteValue.flag b) c = (refl, refl)
show_pending-Keeps clock WriteKey.intensive room (WriteValue.pair a b) c = (refl, refl)
show_pending-Keeps clock WriteKey.intensive room (WriteValue.operation m) c = (refl, refl)
show_pending-Keeps clock WriteKey.intensive room (WriteValue.preset p) c = (refl, refl)
show_pending-Keeps clock WriteKey.intensive room (WriteValue.level n) c = (refl, refl)
show_pending-Keeps clock WriteKey.intensive room (WriteValue.flag b) c = (refl, refl)
show_pending-Keeps clock WriteKey.operation_mode room value c = (refl, refl)
show_pending-Keeps clock (WriteKey.control_setting s) room value c = (refl, refl)

-- An accepted write is recorded as pending, and changes no state.
pub accepted_write-outcome :
    (clock : Clock) (room : RoomConfig) (key : WriteKey) (value expected : WriteValue)
    (baseline : ReadHealth) (c : Coordinator)
    → (outcome
          (accepted_write clock room key value expected baseline c).write_confirmations
          room.key
          key
        ≡ some (new_confirmation clock expected baseline))
      × ((accepted_write clock room key value expected baseline c).safe_data ≡ c.safe_data)
unfolding accepted_write
accepted_write-outcome clock room key value expected baseline c =
    let replaced = supersede c.write_confirmations room.key key in
    let recorded : Coordinator = record c {
      write_confirmations = record_pending clock replaced.0 room.key key expected baseline;
    } in
    let cleared = clear_overlays-Keeps replaced.1 room.key recorded in
    let shown =
      show_pending-Keeps clock key room.key value (clear_overlays replaced.1 room.key recorded) in
    (
      ap (λ (w : WriteConfirmations). outcome w room.key key) (shown.0 ∙ cleared.0)
          ∙ record_here clock replaced.0 room.key key expected baseline,
      shown.1 ∙ cleared.1,
    )

drop_fallback-Keeps :
    (room : String) (state : RoomState) (runtime : Option RoomRuntime) (c : Coordinator)
    → Keeps c (drop_fallback room state runtime c).0
unfolding drop_fallback
drop_fallback-Keeps room state none c = (refl, refl)
drop_fallback-Keeps room state (some runtime) c =
    if_both (λ (r : Coordinator × Bool). Keeps c r.0) (fallback_over state runtime.level_fallback) _
      _ (λ _. (refl, refl)) (λ _. (refl, refl))

settle_room-Keeps :
    (clock : Clock) (room : String) (state : RoomState) (c : Coordinator)
    → Keeps c (settle_room clock room state c).0
unfolding settle_room settle_levels settle_presets settle_intensive
settle_room-Keeps clock room state c =
    let three =
      (settle_intensive clock room state
        (settle_presets clock room state (settle_levels clock room state c).0).0).0 in
    drop_fallback-Keeps room state (lookup string_discrete room three.runtimes) three

pub settle_rooms-Keeps :
    (clock : Clock) (states : List (String × RoomState)) (c : Coordinator)
    → Keeps c (settle_rooms clock states c).0
unfolding settle_rooms
settle_rooms-Keeps clock [] c = (refl, refl)
settle_rooms-Keeps clock ((room, state) ∷ states) c =
    let one = settle_room-Keeps clock room state c in
    let rest = settle_rooms-Keeps clock states (settle_room clock room state c).0 in
    (rest.0 ∙ one.0, rest.1 ∙ one.1)

-- The outcomes of all writes are the same.
abbrev pub same_writes : Kept
same_writes = record {
  holds = λ w w'. w'.by_room ≡ w.by_room;
  reflexive = λ w. refl;
  transitive = λ u v w h k. k ∙ h;
  of_converged = λ w rooms. refl;
}

-- A state without the exact target
abbrev pub without_target : RoomState → RoomState
without_target state = record state { balanced_target_readback = none }

without_write_values :
    (clock : Clock) (w : WriteConfirmations) (room : String) (state previous : RoomState)
    (o : Option ℕ)
    → without_target (without_write clock w room state previous o).state ≡ without_target state
unfolding without_write
without_write_values clock w room state previous none = refl
without_write_values clock w room state previous (some readback) =
    if_both (λ (r : Prepared). without_target r.state ≡ without_target state) _ _ _ (λ _. refl)
      (λ _. refl)

prepared_values :
    (clock : Clock) (w : WriteConfirmations) (room : String) (state previous : RoomState)
    → without_target (prepare_balanced_target_readback clock w room state previous).state
      ≡ without_target state
unfolding prepare_balanced_target_readback
prepared_values clock w room state previous =
    let P = λ (r : Prepared). without_target r.state ≡ without_target state in
    if_both P
      (not (group_fresh clock state ReadGroup.flow_control)
        || (is_true state.intensive_active || not (is_balanced_mode state.operation_mode)))
      _ _ (λ _. refl)
      (λ _.
        if_both P (not (needs_confirmation clock w room WriteKey.airflow_levels)) _ _
          (λ _. without_write_values clock w room state previous previous.balanced_target_readback)
          (λ _. refl))

applied_values :
    (room : RoomConfig) (read : RoomState) (reply : TargetReply) (c : Coordinator)
    → ((target_applied room read reply c).0.safe_data ≡ c.safe_data)
      × (without_target (target_applied room read reply c).1 ≡ without_target read)
unfolding target_applied set_target_failing set_runtime
applied_values room read TargetReply.target_failed c = (refl, refl)
applied_values room read (TargetReply.target_read none) c = (refl, refl)
applied_values room read (TargetReply.target_read (some t)) c = (refl, refl)

-- The read of the exact target changes no state that the coordinator holds, and of the state that
-- was read the target only.
pub target_values :
    (clock : Clock) (room : RoomConfig) (state previous : RoomState) (reply : TargetReply)
    (c : Coordinator)
    → ((read_balanced_target_if_pending clock room state previous reply c).0.safe_data
        ≡ c.safe_data)
      × (without_target (read_balanced_target_if_pending clock room state previous reply c).1
          ≡ without_target state)
unfolding read_balanced_target_if_pending claim_slot
target_values clock room state previous reply c =
    let prepared =
      prepare_balanced_target_readback clock c.write_confirmations room.key state previous in
    let values = prepared_values clock c.write_confirmations room.key state previous in
    if_both
      (λ (r : Coordinator × RoomState).
        (r.0.safe_data ≡ c.safe_data) × (without_target r.1 ≡ without_target state))
      prepared.must_read _ _
      (λ _.
        let applied = applied_values room prepared.state reply _ in (applied.0, applied.1 ∙ values))
      (λ _. (refl, values))
