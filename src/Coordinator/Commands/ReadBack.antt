-- ===== src/Coordinator/Commands/ReadBack.antt =====
-- coordinator.py: how the readback of a command judges its write.
use mathlib.Core.Option
use mathlib.Core.Path.{subst}
use meltem_ha.Coordinator.Commands.{
  CommandEnd, Exchange, WriteReply, accepted_write, checked_write, confirmed_expected, no_readback,
  range_checked, read_back_write, readback_plan, write_ended, write_with_confirmation,
}
use meltem_ha.Coordinator.Commands.Judged.{set_here}
use meltem_ha.Coordinator.Commands.Kept.{
  accepted_write-outcome, same_writes, settle_rooms-Keeps, target_values, without_target,
}
use meltem_ha.Coordinator.Jobs.Failures.{failed_values, values_of}
use meltem_ha.Coordinator.Readbacks.{
  Refreshed, RoomReply, TargetReply, claim_slot, confirm_pending_writes, publish,
  refresh_room_after_write, refreshed_by, set_updated_data,
}
use meltem_ha.Coordinator.Readbacks.Preserved.{refreshed_by-Preserves}
use meltem_ha.Coordinator.State.{
  ClientWrite, Coordinator, cached_state, group_health, room_state, send, state_or,
  update_listeners,
}
use meltem_ha.Models.Config.{RoomConfig}
use meltem_ha.Models.Health.{Clock, ReadHealth}
use meltem_ha.Models.Plan.{RefreshPlan, read_groups}
use meltem_ha.Models.Room.{RoomState, RoomState-discrete, empty_room_state}
use meltem_ha.Models.Writes.{
  WriteConfirmation, WriteKey, WriteKey-discrete, WriteStatus, WriteValue,
}
use meltem_ha.Prelude.{
  Bool, Bool-cases, List, Option, String, ap, decb_no, decb_yes, false, if_both, if_pos,
  if◌then◌else◌, inl, inr, none, ok, refl, some, sym, true, ◌∙◌, ◌≡◌,
}
use meltem_ha.Prelude.Assoc.{insert, lookup, lookup-insert, string_discrete}
use meltem_ha.ReadHealth.{record_read_failures}
use meltem_ha.WriteConfirmation.Judging.{confirm_one, is_pending, write_group}
use meltem_ha.WriteConfirmation.Rounds.{confirm}
use meltem_ha.WriteConfirmation.Rounds.Settled.{after_round, outcome-confirm}
use meltem_ha.WriteConfirmation.Store.{
  Confirmations, WriteConfirmations, confirmations_or_empty, mark_unconfirmed, new_confirmation,
  of_room, outcome, pending_outcome, status_set,
}

-- What the room's state holds after a readback: the values that were read, but for the exact target,
-- which may be read or kept; after a failed read, the values that it had.
abbrev pub ReadInto : RoomReply → RoomState → RoomState → Type 0
ReadInto (RoomReply.room_read state outcome) previous held =
    without_target held ≡ without_target state
ReadInto (RoomReply.room_failed error) previous held = values_of held ≡ values_of previous

refreshed_into :
    (clock : Clock) (room : RoomConfig) (plan : RefreshPlan) (previous : RoomState)
    (reply : RoomReply) (target : TargetReply) (c : Coordinator)
    → ReadInto reply previous (refreshed_by clock room plan previous reply target c).state
      × ((refreshed_by clock room plan previous reply target c).coordinator.safe_data ≡ c.safe_data)
unfolding refreshed_by record_read_failures
refreshed_into clock room plan previous (RoomReply.room_failed error) target c =
    (failed_values room clock.utcnow error (read_groups plan) previous, refl)
refreshed_into clock room plan previous (RoomReply.room_read state outcome) target c =
    if_both
      (λ (r : Coordinator × RoomState).
        (without_target r.1 ≡ without_target state) × (r.0.safe_data ≡ c.safe_data))
      plan.refresh_airflow _ _
      (λ _. let read = target_values clock room state previous target c in (read.1, read.0))
      (λ _. (refl, refl))

-- The outcome of a write after a round over some states
abbrev Judged :
    Clock → List (String × RoomState) → String → WriteKey → Coordinator → Coordinator → Type 0
Judged clock states room key c d =
    outcome d.write_confirmations room key
    ≡ Option.map (after_round clock (lookup string_discrete room states) key)
        (outcome c.write_confirmations room key)

confirm_pending_writes-Judged :
    (clock : Clock) (states : List (String × RoomState)) (b : Bool) (room : String) (key : WriteKey)
    (c : Coordinator)
    → Judged clock states room key c (confirm_pending_writes clock states b c)
      × ((confirm_pending_writes clock states b c).safe_data ≡ c.safe_data)
unfolding confirm_pending_writes update_listeners
confirm_pending_writes-Judged clock states b room key c =
    let w = (confirm clock states c.write_confirmations).0 in
    let c' : Coordinator = record c { write_confirmations = w } in
    let kept = settle_rooms-Keeps clock states c' in
    let judged =
      ap (λ (w' : WriteConfirmations). outcome w' room key) kept.0
      ∙ outcome-confirm clock states c.write_confirmations room key in
    if_both (λ (d : Coordinator). Judged clock states room key c d × (d.safe_data ≡ c.safe_data)) _
      _ _ (λ _. (judged, kept.1)) (λ _. (judged, kept.1))

-- The published state judges the writes of the room, and is what the room has then.
publish-Judged :
    (clock : Clock) (room : RoomConfig) (previous : RoomState) (r : Refreshed) (key : WriteKey)
    → previous ≡ cached_state r.coordinator room.key
    → (outcome (publish clock room previous r).write_confirmations room.key key
        ≡ Option.map
            (after_round clock (some r.state) key)
            (outcome r.coordinator.write_confirmations room.key key))
      × (cached_state (publish clock room previous r) room.key ≡ r.state)
unfolding publish set_updated_data update_listeners cached_state room_state state_or
publish-Judged clock room previous r key h =
    let states = insert string_discrete room.key r.state r.coordinator.safe_data in
    let found : lookup string_discrete room.key states ≡ some r.state =
      lookup-insert string_discrete room.key room.key r.state r.coordinator.safe_data
      ∙ if_pos (string_discrete room.key room.key) refl _ _ in
    let at_found =
      ap
        (λ (o : Option RoomState).
          Option.map (after_round clock o key)
            (outcome r.coordinator.write_confirmations room.key key))
        found in
    elim (RoomState-discrete r.state previous) [
      | yes e ↦
          let done = confirm_pending_writes-Judged clock states true room.key key r.coordinator in
          rw (decb_yes (RoomState-discrete r.state previous) e) (
            done.0 ∙ at_found,
            ap (λ d. state_or (lookup string_discrete room.key d) empty_room_state) done.1
                ∙ sym h
                ∙ sym e,
          )
      | no n ↦
          let done = confirm_pending_writes-Judged clock states false room.key key r.coordinator in
          rw (decb_no (RoomState-discrete r.state previous) n)
            (done.0 ∙ at_found, ap (λ o. state_or o empty_room_state) found)
    ]

refresh_room-Judged :
    (clock : Clock) (room : RoomConfig) (plan : RefreshPlan) (reply : RoomReply)
    (target : TargetReply) (key : WriteKey) (c : Coordinator)
    → let d = refresh_room_after_write clock room plan reply target c in
      (outcome d.write_confirmations room.key key
        ≡ Option.map
            (after_round clock (some (cached_state d room.key)) key)
            (outcome c.write_confirmations room.key key))
      × ReadInto reply (cached_state c room.key) (cached_state d room.key)
unfolding refresh_room_after_write claim_slot cached_state room_state outcome of_room
refresh_room-Judged clock room plan reply target key c =
    let previous = cached_state c room.key in
    let claimed = claim_slot clock c in
    let r = refreshed_by clock room plan previous reply target claimed in
    let into = refreshed_into clock room plan previous reply target claimed in
    let writes = refreshed_by-Preserves same_writes clock room plan previous reply target claimed in
    let published =
      publish-Judged clock room previous r key
        (ap (λ d. state_or (lookup string_discrete room.key d) empty_room_state) (sym into.1)) in
    (
      published.0
          ∙ ap
              (λ (b : List (String × Confirmations)).
                Option.map (after_round clock (some r.state) key) (
                  lookup WriteKey-discrete key
                    (confirmations_or_empty (lookup string_discrete room.key b))))
              writes
          ∙ ap
              (λ (s : RoomState).
                Option.map (after_round clock (some s) key)
                  (outcome c.write_confirmations room.key key))
              (sym published.1),
      subst (λ (s : RoomState). ReadInto reply previous s) (sym published.1) into.0,
    )

-- A pending write that the readback left pending is unconfirmed.
abbrev pub finished_outcome : WriteConfirmation → WriteConfirmation
finished_outcome c =
    if is_pending c.status
    then (status_set c WriteStatus.unconfirmed (some no_readback) none).confirmation
    else c

unconfirmed_here :
    (w : WriteConfirmations) (room : String) (key : WriteKey) (c : WriteConfirmation)
    → outcome w room key ≡ some c
    → outcome (mark_unconfirmed w room key no_readback).0 room key ≡ some (finished_outcome c)
unfolding mark_unconfirmed pending_outcome
unconfirmed_here w room key c e = elim (Bool-cases (is_pending c.status)) [
  | inl t ↦ rw (e, t) (set_here w room key WriteStatus.unconfirmed (some no_readback) none c e)
  | inr f ↦ rw (e, f) e
]

-- What a command leaves of its write, and the state by which the readback judges it
abbrev JudgedBy :
    Exchange → RoomConfig → WriteKey → WriteValue → ReadHealth → Coordinator → Coordinator → Type 0
JudgedBy x room key expected baseline c d =
    (outcome d.write_confirmations room.key key
      ≡ some (
          finished_outcome
            (confirm_one x.later (cached_state d room.key) key
              (new_confirmation x.clock expected baseline)).confirmation))
    × ReadInto x.refresh (cached_state c room.key) (cached_state d room.key)

-- A command with a readback whose value is in range and whose write the unit accepts returns, and its
-- write is judged by the state that the room has then: the outcome is what one round makes of the
-- pending write by that state, and where this leaves it pending, it is unconfirmed. The state holds
-- the values that the readback read, but for the exact airflow target; after a failed readback it
-- holds the values that it had.
pub write_with_confirmation_judged :
    (x : Exchange) (room : RoomConfig) (key : WriteKey) (value : WriteValue) (call : ClientWrite)
    (use_result : Bool) (c : Coordinator) (result : Option WriteValue)
    → range_checked room key value c ≡ ok tt
    → x.write ≡ WriteReply.written result
    → let r = write_with_confirmation x room key value call true use_result c in
      (r.1 ≡ CommandEnd.returned)
      × (outcome r.0.write_confirmations room.key key
          ≡ some (
              finished_outcome
                (confirm_one x.later (cached_state r.0 room.key) key (
                  new_confirmation x.clock
                    (confirmed_expected use_result result value)
                    (group_health c room.key (write_group key)))).confirmation))
      × ReadInto x.refresh (cached_state c room.key) (cached_state r.0 room.key)
unfolding write_with_confirmation checked_write write_ended read_back_write update_listeners
    cached_state room_state send
write_with_confirmation_judged x room key value call use_result c result h e =
    let baseline = group_health c room.key (write_group key) in
    let expected = confirmed_expected use_result result value in
    let accepted = accepted_write x.clock room key value expected baseline (send room call c) in
    let pending =
      accepted_write-outcome x.clock room key value expected baseline (send room call c) in
    let read =
      refresh_room_after_write x.later room (readback_plan key) x.refresh x.target accepted in
    let judged =
      refresh_room-Judged x.later room (readback_plan key) x.refresh x.target key accepted in
    let marked = mark_unconfirmed read.write_confirmations room.key key no_readback in
    let done : Coordinator = record read { write_confirmations = marked.0 } in
    let judged_here = unconfirmed_here read.write_confirmations room.key key _ (
      judged.0
      ∙ ap (Option.map (after_round x.later (some (cached_state read room.key)) key)) pending.0) in
    let read_into =
      subst (λ (s : RoomState). ReadInto x.refresh s (cached_state read room.key))
        (ap (λ d. state_or (lookup string_discrete room.key d) empty_room_state) pending.1)
        judged.1 in
    let done_judged =
      if_both (JudgedBy x room key expected baseline c) marked.1 (update_listeners done) done
        (λ _. (judged_here, read_into)) (λ _. (judged_here, read_into)) in
    rw (h, e) (refl, done_judged.0, done_judged.1)
