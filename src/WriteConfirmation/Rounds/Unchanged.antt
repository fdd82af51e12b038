-- ===== src/WriteConfirmation/Rounds/Unchanged.antt =====
-- write_confirmation.py: the answer of `confirm` whether it changed a write.

use mathlib.Core.List.{append-nil}
use meltem_ha.Models.Health.{Clock}
use meltem_ha.Models.Room.{RoomState}
use meltem_ha.Models.Writes.{WriteConfirmation}
use meltem_ha.Prelude.{
  Bool-cases, List, Option, String, [], arith, false, inl, inr, none, not, or_false, refl, some,
  ◌&&◌, ◌∷◌, ◌≡◌,
}
use meltem_ha.Prelude.Assoc.{lookup, string_discrete}
use meltem_ha.WriteConfirmation.Judging.{
  checked_confirmation, confirm_one, counted, is_pending, overdue, round_of, timed_out,
}
use meltem_ha.WriteConfirmation.Rounds.{confirm, confirm_room, confirm_rooms, room_round}
use meltem_ha.WriteConfirmation.Store.{Confirmations, WriteConfirmations, reported}

round_of-unchanged :
    (clock : Clock) (c : WriteConfirmation) (checked : Option WriteConfirmation)
    → (round_of clock c checked).changed ≡ false
    → ((round_of clock c checked).confirmation ≡ c) × ((round_of clock c checked).issue ≡ none)
unfolding round_of counted overdue
round_of-unchanged clock c none h =
    elim (Bool-cases (is_pending c.status && (not c.issue_counted && timed_out clock c))) [
      | inl t ↦ absurd (ground arith)
      | inr f ↦ rw (f) (refl, refl)
    ]
round_of-unchanged clock c (some c') h = absurd (ground arith)

confirm_room-unchanged :
    (clock : Clock) (room_key : String) (state : RoomState) (l : Confirmations)
    → (confirm_room clock room_key state l).changed ≡ false
    → ((confirm_room clock room_key state l).confirmations ≡ l)
      × ((confirm_room clock room_key state l).issues ≡ [])
unfolding confirm_room confirm_one reported
confirm_room-unchanged clock room_key state [] h = (refl, refl)
confirm_room-unchanged clock room_key state ((k, c) ∷ l) h =
    let tests = or_false _ _ h in
    let one = round_of-unchanged clock c (checked_confirmation state k c) tests.0 in
    let rest = confirm_room-unchanged clock room_key state l tests.1 in
    (rw (one.0, rest.0) refl, rw (one.1, rest.1) refl)

room_round-unchanged :
    (clock : Clock) (room_key : String) (state : Option RoomState) (l : Confirmations)
    → (room_round clock room_key state l).changed ≡ false
    → ((room_round clock room_key state l).confirmations ≡ l)
      × ((room_round clock room_key state l).issues ≡ [])
unfolding room_round
room_round-unchanged clock room_key none l h = (refl, refl)
room_round-unchanged clock room_key (some state) l h =
    confirm_room-unchanged clock room_key state l h

confirm_rooms-unchanged :
    (clock : Clock) (states : List (String × RoomState)) (rooms : List (String × Confirmations))
    → (confirm_rooms clock states rooms).changed ≡ false
    → ((confirm_rooms clock states rooms).by_room ≡ rooms)
      × ((confirm_rooms clock states rooms).issues ≡ [])
unfolding confirm_rooms
confirm_rooms-unchanged clock states [] h = (refl, refl)
confirm_rooms-unchanged clock states ((room_key, l) ∷ rooms) h =
    let tests = or_false _ _ h in
    let one =
      room_round-unchanged clock room_key (lookup string_discrete room_key states) l tests.0 in
    let rest = confirm_rooms-unchanged clock states rooms tests.1 in
    (rw (one.0, rest.0) refl, rw (one.1, rest.1) refl)

-- A round that says that nothing changed leaves every recorded write as it was, and reports no
-- issue.
pub confirm-unchanged :
    (clock : Clock) (states : List (String × RoomState)) (w : WriteConfirmations)
    → (confirm clock states w).1 ≡ false
    → ((confirm clock states w).0.by_room ≡ w.by_room)
      × ((confirm clock states w).0.issues ≡ w.issues)
unfolding confirm
confirm-unchanged clock states w h =
    let rounds = confirm_rooms-unchanged clock states w.by_room h in
    (rounds.0, rw (rounds.1) (append-nil w.issues))
