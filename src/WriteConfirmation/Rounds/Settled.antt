-- ===== src/WriteConfirmation/Rounds/Settled.antt =====
-- write_confirmation.py: what a round of `confirm` does to the recorded writes.
use mathlib.Core.Option
use meltem_ha.Models.Health.{Clock}
use meltem_ha.Models.Room.{RoomState}
use meltem_ha.Models.Writes.{WriteConfirmation, WriteKey, WriteKey-discrete}
use meltem_ha.Prelude.{List, Option, String, [], if_neg, if_pos, none, refl, some, ◌∷◌, ◌≡◌}
use meltem_ha.Prelude.Assoc.{lookup, string_discrete}
use meltem_ha.WriteConfirmation.Judging.{confirm_one}
use meltem_ha.WriteConfirmation.Rounds.{confirm, confirm_room, confirm_rooms, room_round}
use meltem_ha.WriteConfirmation.Store.{
  Confirmations, WriteConfirmations, confirmations_or_empty, of_room, outcome,
}

-- The outcome of a write after a round, by the room's polled state.
abbrev pub after_round : Clock → Option RoomState → WriteKey → WriteConfirmation → WriteConfirmation
after_round clock none write_key c = c
after_round clock (some state) write_key c = (confirm_one clock state write_key c).confirmation

lookup-confirm_room :
    (clock : Clock) (room_key : String) (state : RoomState) (key : WriteKey) (l : Confirmations)
    → lookup WriteKey-discrete key (confirm_room clock room_key state l).confirmations
      ≡ Option.map (after_round clock (some state) key) (lookup WriteKey-discrete key l)
unfolding confirm_room lookup
lookup-confirm_room clock room_key state key [] = refl
lookup-confirm_room clock room_key state key ((k, c) ∷ l) = elim (WriteKey-discrete k key) [
  | yes p ↦ rw (if_pos _ p, if_pos (WriteKey-discrete k key) p, p) refl
  | no n ↦
      rw (if_neg _ n, if_neg (WriteKey-discrete k key) n)
        (lookup-confirm_room clock room_key state key l)
]

map_same : (o : Option WriteConfirmation) → o ≡ Option.map (λ c. c) o
map_same none = refl
map_same (some c) = refl

lookup-room_round :
    (clock : Clock) (room_key : String) (state : Option RoomState) (key : WriteKey)
    (l : Confirmations)
    → lookup WriteKey-discrete key (room_round clock room_key state l).confirmations
      ≡ Option.map (after_round clock state key) (lookup WriteKey-discrete key l)
unfolding room_round
lookup-room_round clock room_key none key l = map_same (lookup WriteKey-discrete key l)
lookup-room_round clock room_key (some state) key l = lookup-confirm_room clock room_key state key l

lookup-confirm_rooms :
    (clock : Clock) (states : List (String × RoomState)) (room : String) (key : WriteKey)
    (rooms : List (String × Confirmations))
    → lookup WriteKey-discrete key (
        confirmations_or_empty
          (lookup string_discrete room (confirm_rooms clock states rooms).by_room))
      ≡ Option.map (after_round clock (lookup string_discrete room states) key) (
          lookup WriteKey-discrete key (confirmations_or_empty (lookup string_discrete room rooms)))
unfolding confirm_rooms lookup confirmations_or_empty
lookup-confirm_rooms clock states room key [] = refl
lookup-confirm_rooms clock states room key ((room_key, l) ∷ rooms) =
    elim (string_discrete room_key room) [
      | yes p ↦
          rw (if_pos _ p, if_pos (string_discrete room_key room) p, p)
            (lookup-room_round clock room (lookup string_discrete room states) key l)
      | no n ↦
          rw (if_neg _ n, if_neg (string_discrete room_key room) n)
            (lookup-confirm_rooms clock states room key rooms)
    ]

-- A round judges every recorded write of every room by that room's state, each on its own, and
-- leaves the writes of a room without a state.
pub outcome-confirm :
    (clock : Clock) (states : List (String × RoomState)) (w : WriteConfirmations) (room : String)
    (key : WriteKey)
    → outcome (confirm clock states w).0 room key
      ≡ Option.map (after_round clock (lookup string_discrete room states) key) (outcome w room key)
unfolding outcome of_room confirm
outcome-confirm clock states w room key = lookup-confirm_rooms clock states room key w.by_room
