-- ===== src/Coordinator/Readbacks/Preserved.antt =====
-- coordinator.py: what a readback leaves of the write outcomes, for every relation that the parts
-- of a readback keep.
use meltem_ha.Const.Groups.{ReadGroup}
use meltem_ha.Coordinator.Readbacks.{
  Refreshed, RoomReply, TargetReply, claim_slot, confirm_pending_writes, drop_fallback,
  fallback_over, publish, read_balanced_target_if_pending, refresh_room_after_write, refreshed_by,
  set_target_failing, set_updated_data, settle_intensive, settle_levels, settle_presets,
  settle_room, settle_rooms, target_applied,
}
use meltem_ha.Coordinator.State.{
  Coordinator, RoomRuntime, cached_state, set_runtime, update_listeners,
}
use meltem_ha.Models.Config.{RoomConfig}
use meltem_ha.Models.Health.{Clock}
use meltem_ha.Models.Plan.{RefreshPlan}
use meltem_ha.Models.Room.{RoomState, RoomState-discrete}
use meltem_ha.Models.Writes.{WriteKey}
use meltem_ha.Prelude.{
  Bool, List, Option, String, [], decb, false, if_both, if◌then◌else◌, none, not, some, true, ℕ,
  ◌||◌, ◌∷◌,
}
use meltem_ha.Prelude.Assoc.{insert, lookup, string_discrete}
use meltem_ha.ReadHealth.{group_fresh}
use meltem_ha.WriteConfirmation.Balanced.{
  Prepared, add_converged, drop_converged, flow_reached_readback, is_balanced_mode,
  prepare_balanced_target_readback, readback_stands, without_write,
}
use meltem_ha.WriteConfirmation.Judging.{is_true}
use meltem_ha.WriteConfirmation.Rounds.{confirm}
use meltem_ha.WriteConfirmation.Store.{WriteConfirmations, needs_confirmation, outcome}

-- A relation of the tracker before and after, which the converged rooms keep.
pub record Kept : Type 1 where
  pub holds : WriteConfirmations → WriteConfirmations → Type 0
  pub reflexive : (w : WriteConfirmations) → holds w w
  pub transitive : (u v w : WriteConfirmations) → holds u v → holds v w → holds u w
  pub of_converged :
      (w : WriteConfirmations) (rooms : List String)
      → holds w (record w { balanced_flow_converged = rooms })

module _ (p : Kept) where
  abbrev Preserves : Coordinator → Coordinator → Type 0
  Preserves c c' = p.holds c.write_confirmations c'.write_confirmations

  drop_fallback-Preserves :
      (room : String) (state : RoomState) (runtime : Option RoomRuntime) (c : Coordinator)
      → Preserves c (drop_fallback room state runtime c).0
  unfolding drop_fallback
  drop_fallback-Preserves room state none c = p.reflexive c.write_confirmations
  drop_fallback-Preserves room state (some runtime) c =
      if_both (λ (r : Coordinator × Bool). Preserves c r.0)
        (fallback_over state runtime.level_fallback) _ _ (λ _. p.reflexive c.write_confirmations)
        (λ _. p.reflexive c.write_confirmations)

  settle_room-Preserves :
      (clock : Clock) (room : String) (state : RoomState) (c : Coordinator)
      → Preserves c (settle_room clock room state c).0
  unfolding settle_room settle_levels settle_presets settle_intensive
  settle_room-Preserves clock room state c =
      let three =
        (settle_intensive clock room state
          (settle_presets clock room state (settle_levels clock room state c).0).0).0 in
      drop_fallback-Preserves room state (lookup string_discrete room three.runtimes) three

  pub settle_rooms-Preserves :
      (clock : Clock) (states : List (String × RoomState)) (c : Coordinator)
      → Preserves c (settle_rooms clock states c).0
  unfolding settle_rooms
  settle_rooms-Preserves clock [] c = p.reflexive c.write_confirmations
  settle_rooms-Preserves clock ((room, state) ∷ states) c =
      let one = (settle_room clock room state c).0 in
      p.transitive _ one.write_confirmations _ (settle_room-Preserves clock room state c)
        (settle_rooms-Preserves clock states one)

  add_converged-Preserves :
      (room : String) (w : WriteConfirmations) → p.holds w (add_converged room w)
  unfolding add_converged
  add_converged-Preserves room w = p.of_converged w _

  drop_converged-Preserves :
      (room : String) (w : WriteConfirmations) → p.holds w (drop_converged room w)
  unfolding drop_converged
  drop_converged-Preserves room w = p.of_converged w _

  without_write-Preserves :
      (clock : Clock) (w : WriteConfirmations) (room : String) (state previous : RoomState)
      (o : Option ℕ)
      → p.holds w (without_write clock w room state previous o).tracker
  unfolding without_write
  without_write-Preserves clock w room state previous none = drop_converged-Preserves room w
  without_write-Preserves clock w room state previous (some readback) =
      let w' =
        if flow_reached_readback clock state previous readback then add_converged room w else w in
      let one : p.holds w w' =
        if_both (p.holds w) (flow_reached_readback clock state previous readback)
          (add_converged room w) w (λ _. add_converged-Preserves room w) (λ _. p.reflexive w) in
      if_both (λ (r : Prepared). p.holds w r.tracker)
        (readback_stands clock w' room state previous readback)
        (record {
          tracker = w';
          state = record state { balanced_target_readback = some readback };
          must_read = false;
        })
        (record { tracker = drop_converged room w'; state = state; must_read = false }) (λ _. one)
        (λ _. p.transitive w w' _ one (drop_converged-Preserves room w'))

  prepared-Preserves :
      (clock : Clock) (w : WriteConfirmations) (room : String) (state previous : RoomState)
      → p.holds w (prepare_balanced_target_readback clock w room state previous).tracker
  unfolding prepare_balanced_target_readback
  prepared-Preserves clock w room state previous =
      let P = λ (r : Prepared). p.holds w r.tracker in
      let keep : Prepared = record { tracker = w; state = state; must_read = false } in
      let read : Prepared = record { tracker = w; state = state; must_read = true } in
      let without = without_write clock w room state previous previous.balanced_target_readback in
      let needed = needs_confirmation clock w room WriteKey.airflow_levels in
      if_both P
        (not (group_fresh clock state ReadGroup.flow_control)
          || (is_true state.intensive_active || not (is_balanced_mode state.operation_mode)))
        keep (if not needed then without else read) (λ _. p.reflexive w)
        (λ _.
          if_both P (not needed) without read
            (λ _.
              without_write-Preserves clock w room state previous previous.balanced_target_readback)
            (λ _. p.reflexive w))

  target_applied-Preserves :
      (room : RoomConfig) (state : RoomState) (reply : TargetReply) (c : Coordinator)
      → Preserves c (target_applied room state reply c).0
  unfolding target_applied set_target_failing set_runtime
  target_applied-Preserves room state TargetReply.target_failed c =
      p.reflexive c.write_confirmations
  target_applied-Preserves room state (TargetReply.target_read none) c =
      p.reflexive c.write_confirmations
  target_applied-Preserves room state (TargetReply.target_read (some t)) c =
      p.reflexive c.write_confirmations

  pub read_balanced_target-Preserves :
      (clock : Clock) (room : RoomConfig) (state previous : RoomState) (reply : TargetReply)
      (c : Coordinator)
      → Preserves c (read_balanced_target_if_pending clock room state previous reply c).0
  unfolding read_balanced_target_if_pending claim_slot
  read_balanced_target-Preserves clock room state previous reply c =
      let prepared =
        prepare_balanced_target_readback clock c.write_confirmations room.key state previous in
      let h = prepared-Preserves clock c.write_confirmations room.key state previous in
      let c' = claim_slot clock (record c { write_confirmations = prepared.tracker }) in
      if_both (λ (r : Coordinator × RoomState). Preserves c r.0) prepared.must_read _ _
        (λ _.
          p.transitive _ prepared.tracker _ h
            (target_applied-Preserves room prepared.state reply c'))
        (λ _. h)

  pub refreshed_by-Preserves :
      (clock : Clock) (room : RoomConfig) (plan : RefreshPlan) (previous : RoomState)
      (reply : RoomReply) (target : TargetReply) (c : Coordinator)
      → Preserves c (refreshed_by clock room plan previous reply target c).coordinator
  unfolding refreshed_by
  refreshed_by-Preserves clock room plan previous (RoomReply.room_failed e) target c =
      p.reflexive c.write_confirmations
  refreshed_by-Preserves clock room plan previous (RoomReply.room_read state outcome) target c =
      if_both (λ (r : Coordinator × RoomState). Preserves c r.0) plan.refresh_airflow _ _
        (λ _. read_balanced_target-Preserves clock room state previous target c)
        (λ _. p.reflexive c.write_confirmations)

-- The relation is kept by confirming as well.
pub record Preserved : Type 1 where
  pub kept : Kept
  pub of_confirm :
      (clock : Clock) (states : List (String × RoomState)) (w : WriteConfirmations)
      → kept.holds w (confirm clock states w).0

module _ (q : Preserved) where
  abbrev Holds : Coordinator → Coordinator → Type 0
  Holds c c' = q.kept.holds c.write_confirmations c'.write_confirmations

  pub confirm_pending_writes-Preserves :
      (clock : Clock) (states : List (String × RoomState)) (b : Bool) (c : Coordinator)
      → Holds c (confirm_pending_writes clock states b c)
  unfolding confirm_pending_writes update_listeners
  confirm_pending_writes-Preserves clock states b c =
      let w = (confirm clock states c.write_confirmations).0 in
      let c' = record c { write_confirmations = w } in
      let all =
        q.kept.transitive _ w _ (q.of_confirm clock states c.write_confirmations)
          (settle_rooms-Preserves q.kept clock states c') in
      if_both (Holds c) _ _ _ (λ _. all) (λ _. all)

  publish-Preserves :
      (clock : Clock) (room : RoomConfig) (previous : RoomState) (r : Refreshed)
      → Holds r.coordinator (publish clock room previous r)
  unfolding publish set_updated_data update_listeners
  publish-Preserves clock room previous r =
      let states = insert string_discrete room.key r.state r.coordinator.safe_data in
      if_both (Holds r.coordinator) (decb (RoomState-discrete r.state previous))
        (confirm_pending_writes clock states true r.coordinator)
        (set_updated_data r.failed states (confirm_pending_writes clock states false r.coordinator))
        (λ _. confirm_pending_writes-Preserves clock states true r.coordinator)
        (λ _. confirm_pending_writes-Preserves clock states false r.coordinator)

  pub refresh_room-Preserves :
      (clock : Clock) (room : RoomConfig) (plan : RefreshPlan) (reply : RoomReply)
      (target : TargetReply) (c : Coordinator)
      → Holds c (refresh_room_after_write clock room plan reply target c)
  unfolding refresh_room_after_write claim_slot
  refresh_room-Preserves clock room plan reply target c =
      let previous = cached_state c room.key in
      let r = refreshed_by clock room plan previous reply target (claim_slot clock c) in
      q.kept.transitive _ r.coordinator.write_confirmations _
        (refreshed_by-Preserves q.kept clock room plan previous reply target (claim_slot clock c))
        (publish-Preserves clock room previous r)
