-- ===== src/Coordinator/Unfinished.antt =====
-- coordinator.py: the unfinished base mode writes of a room, over everything that commands, reads
-- and ticks do to the write tracker.
pub mod Recorded
pub mod Statuses
pub mod Readbacks
pub mod Writes
pub mod Requests
pub mod Steps
use mathlib.Core.Option
use meltem_ha.Models.Health.{Clock}
use meltem_ha.Models.Room.{RoomState}
use meltem_ha.Models.Writes.{WriteConfirmation, WriteKey}
use meltem_ha.Prelude.{
  Bool-cases, List, Option, String, arith, if_both, if◌then◌else◌, inl, inr, none, refl, some, true,
  ℕ, ◌+◌, ◌≡◌, ◌≤◌,
}
use meltem_ha.WriteConfirmation.Judging.{
  Round, checked_confirmation, confirm_one, is_final, overdue, round_of,
}
use meltem_ha.WriteConfirmation.Rounds.{confirm}
use meltem_ha.WriteConfirmation.Rounds.Settled.{after_round, outcome-confirm}
use meltem_ha.WriteConfirmation.Store.{WriteConfirmations, outcome}
use meltem_ha.WriteConfirmation.Store.Final.{checked_confirmation-final}

-- Whether a write is not finished, as a number.
unfoldable pub unfinished : Option WriteConfirmation → ℕ
unfinished none = 0
unfinished (some w) = if is_final w.status then 0 else 1

-- How many of the three base mode writes of a room are not finished.
abbrev pub unfinished_writes : WriteConfirmations → String → ℕ
unfinished_writes w room =
    unfinished (outcome w room WriteKey.airflow_levels)
    + (unfinished (outcome w room WriteKey.operation_mode)
        + unfinished (outcome w room WriteKey.preset_mode))

abbrev pub OneUnfinished : WriteConfirmations → Type 0
OneUnfinished w = (room : String) → unfinished_writes w room ≤ 1

-- An operation that starts no write.
abbrev pub Finishes : WriteConfirmations → WriteConfirmations → Type 0
Finishes w w' =
    (room : String) (key : WriteKey)
    → unfinished (outcome w' room key) ≤ unfinished (outcome w room key)

pub OneUnfinished-Finishes :
    (w w' : WriteConfirmations) → OneUnfinished w → Finishes w w' → OneUnfinished w'
OneUnfinished-Finishes w w' h f room = omega (
  arith,
  h room,
  f room WriteKey.airflow_levels,
  f room WriteKey.operation_mode,
  f room WriteKey.preset_mode,
)

overdue-status :
    (clock : Clock) (c : WriteConfirmation) → (overdue clock c).confirmation.status ≡ c.status
unfolding overdue
overdue-status clock c =
    if_both (λ (r : Round). r.confirmation.status ≡ c.status) _ _ _ (λ _. refl) (λ _. refl)

round_of-final :
    (clock : Clock) (c : WriteConfirmation) (o : Option WriteConfirmation)
    → o ≡ none
    → is_final c.status ≡ true
    → is_final (round_of clock c o).confirmation.status ≡ true
unfolding round_of
round_of-final clock c none e h = rw (overdue-status clock c) h
round_of-final clock c (some x) e h = absurd (ground arith)

after_round-final :
    (clock : Clock) (o : Option RoomState) (key : WriteKey) (c : WriteConfirmation)
    → is_final c.status ≡ true
    → is_final (after_round clock o key c).status ≡ true
unfolding confirm_one
after_round-final clock none key c h = h
after_round-final clock (some state) key c h =
    round_of-final clock c (checked_confirmation state key c)
      (checked_confirmation-final state key c h) h

pub unfinished_le_one : (c : WriteConfirmation) → unfinished (some c) ≤ 1
unfolding unfinished
unfinished_le_one c = ground arith

after_round-Finishes :
    (clock : Clock) (o : Option RoomState) (key : WriteKey) (w : Option WriteConfirmation)
    → unfinished (Option.map (after_round clock o key) w) ≤ unfinished w
unfolding unfinished
after_round-Finishes clock o key none = omega arith
after_round-Finishes clock o key (some c) = elim (Bool-cases (is_final c.status)) [
  | inl t ↦ rw (t, after_round-final clock o key c t) (omega arith)
  | inr f ↦ rw f (unfinished_le_one (after_round clock o key c))
]

pub confirm-Finishes :
    (clock : Clock) (states : List (String × RoomState)) (w : WriteConfirmations)
    → Finishes w (confirm clock states w).0
confirm-Finishes clock states w room key =
    rw outcome-confirm (after_round-Finishes clock _ key (outcome w room key))
