-- ===== src/WriteConfirmation/Rounds.antt =====
-- write_confirmation.py: `confirm`, which judges every pending write by the latest readbacks.
pub mod Settled
pub mod Unchanged
use meltem_ha.Models.Health.{Clock}
use meltem_ha.Models.Room.{RoomState}
use meltem_ha.Prelude.{Bool, List, Option, String, [], false, none, some, ◌++◌, ◌||◌, ◌∷◌}
use meltem_ha.Prelude.Assoc.{lookup, string_discrete}
use meltem_ha.WriteConfirmation.Judging.{confirm_one}
use meltem_ha.WriteConfirmation.Store.{Confirmations, Issue, WriteConfirmations, reported}

-- The writes of one room after a round, the issues of the round, and whether it changed one.
pub record RoomRound : Type 0 where
  pub confirmations : Confirmations
  pub issues : List Issue
  pub changed : Bool

unfoldable pub confirm_room : Clock → String → RoomState → Confirmations → RoomRound
unfolding reported
confirm_room clock room_key state [] = record { confirmations = []; issues = []; changed = false }
confirm_room clock room_key state ((write_key, c) ∷ l) =
    let one = confirm_one clock state write_key c in
    let rest = confirm_room clock room_key state l in
    record {
      confirmations = (write_key, one.confirmation) ∷ rest.confirmations;
      issues = reported room_key write_key one.issue ++ rest.issues;
      changed = one.changed || rest.changed;
    }

-- A room without a polled state keeps its writes.
unfoldable pub room_round : Clock → String → Option RoomState → Confirmations → RoomRound
room_round clock room_key none confirmations = record {
  confirmations = confirmations;
  issues = [];
  changed = false;
}
room_round clock room_key (some state) confirmations =
    confirm_room clock room_key state confirmations

-- All rooms, in the order of the dictionary.
pub record AllRounds : Type 0 where
  pub by_room : List (String × Confirmations)
  pub issues : List Issue
  pub changed : Bool

unfoldable pub confirm_rooms :
    Clock → List (String × RoomState) → List (String × Confirmations) → AllRounds
unfolding room_round
confirm_rooms clock states [] = record { by_room = []; issues = []; changed = false }
confirm_rooms clock states ((room_key, confirmations) ∷ rooms) =
    let one = room_round clock room_key (lookup string_discrete room_key states) confirmations in
    let rest = confirm_rooms clock states rooms in
    record {
      by_room = (room_key, one.confirmations) ∷ rest.by_room;
      issues = one.issues ++ rest.issues;
      changed = one.changed || rest.changed;
    }

unfoldable pub confirm :
    Clock → List (String × RoomState) → WriteConfirmations → WriteConfirmations × Bool
confirm clock states w =
    let rounds = confirm_rooms clock states w.by_room in
    (record w { by_room = rounds.by_room; issues = w.issues ++ rounds.issues }, rounds.changed)
