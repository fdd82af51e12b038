-- ===== src/Levels/Reported.antt =====
-- levels.py: what the reported levels of a unit rest on.

use meltem_ha.Const.Groups.{ReadGroup}
use meltem_ha.Const.Modes.{LevelSource, OperationMode, is_sensor_mode}
use meltem_ha.Levels.{
  LevelPair, balanced_targets, common_target, pair_eq, reported_levels, reported_with,
  target_levels, targets_in_mode, with_source,
}
use meltem_ha.Models.Health.{Clock}
use meltem_ha.Models.Room.{RoomState}
use meltem_ha.Prelude.{
  Bool, Option, arith, false, if◌then◌else◌, is_some, none, refl, some, true, ℕ, ◌≡◌,
}
use meltem_ha.ReadHealth.{group_fresh}

abbrev pub Extends : Option ℕ → Option ℕ → Type 0
Extends none b = Unit
Extends (some a) b = b ≡ some a

targets_in_mode-Extends :
    (state : RoomState) (mode : Option OperationMode)
    → Extends (targets_in_mode state false mode).0 (targets_in_mode state true mode).0
      × Extends (targets_in_mode state false mode).1 (targets_in_mode state true mode).1
unfolding targets_in_mode balanced_targets common_target is_sensor_mode
targets_in_mode-Extends state none = ground arith
targets_in_mode-Extends state (some OperationMode.off) = ground arith
targets_in_mode-Extends state (some _) = ground arith

-- Whatever is known as a target without the airflow stays so with it: a measurement fills in what
-- is missing, and overrides nothing.
pub target_levels-Extends :
    (state : RoomState)
    → Extends (target_levels state false).0 (target_levels state true).0
      × Extends (target_levels state false).1 (target_levels state true).1
unfolding target_levels
target_levels-Extends state = targets_in_mode-Extends state state.operation_mode

-- What a report rests on: a target on the mode group alone, a measurement on a fresh airflow.
abbrev pub RestsOn : Clock → RoomState → Option LevelPair × Option LevelSource → Type 0
RestsOn clock state (some levels, some LevelSource.target) =
    (levels ≡ target_levels state false) × (group_fresh clock state ReadGroup.flow_control ≡ true)
RestsOn clock state (some levels, some LevelSource.measured) =
    group_fresh clock state ReadGroup.flow ≡ true
RestsOn clock state (none, none) = Unit
RestsOn clock state _ = ⊥

same_pair : (a b : LevelPair) → pair_eq a b ≡ true → a ≡ b
unfolding pair_eq
same_pair a b h = ground arith

known_measured :
    (clock : Clock) (state : RoomState) (levels : LevelPair)
    → group_fresh clock state ReadGroup.flow ≡ true
    → RestsOn clock state (with_source levels LevelSource.measured)
unfolding with_source
known_measured clock state (none, none) h = tt
known_measured clock state (none, some e) h = h
known_measured clock state (some s, e) h = h

known_target :
    (clock : Clock) (state : RoomState) (levels : LevelPair)
    → levels ≡ target_levels state false
    → group_fresh clock state ReadGroup.flow_control ≡ true
    → RestsOn clock state (with_source levels LevelSource.target)
unfolding with_source
known_target clock state (none, none) e h = tt
known_target clock state (none, some x) e h = (e, h)
known_target clock state (some s, x) e h = (e, h)

pair_eq_refl : (a : LevelPair) → pair_eq a a ≡ true
unfolding pair_eq
pair_eq_refl a = ground arith

-- A report of the mode group: the source tells whether the levels are the targets.
mode_report :
    (clock : Clock) (state : RoomState) (levels : LevelPair) (b : Bool)
    → pair_eq levels (target_levels state false) ≡ b
    → (b ≡ false → group_fresh clock state ReadGroup.flow ≡ true)
    → group_fresh clock state ReadGroup.flow_control ≡ true
    → RestsOn clock state
        (with_source levels (if b then LevelSource.target else LevelSource.measured))
mode_report clock state levels true e f m =
    known_target clock state levels (same_pair levels (target_levels state false) e) m
mode_report clock state levels false e f m = known_measured clock state levels (f refl)

reported_with-RestsOn :
    (clock : Clock) (state : RoomState) (airflow mode known : Bool)
    → group_fresh clock state ReadGroup.flow ≡ airflow
    → group_fresh clock state ReadGroup.flow_control ≡ mode
    → is_some state.operation_mode ≡ known
    → RestsOn clock state (reported_with state airflow mode)
unfolding reported_with
reported_with-RestsOn clock state false false known f m k = tt
reported_with-RestsOn clock state true false known f m k = known_measured clock state _ f
reported_with-RestsOn clock state false true false f m k = rw k tt
reported_with-RestsOn clock state true true false f m k = rw k (known_measured clock state _ f)
reported_with-RestsOn clock state false true true f m k = rw k (
    mode_report clock state (target_levels state false) _ refl
      (λ e. absurd (ground (arith, pair_eq_refl (target_levels state false)))) m)
reported_with-RestsOn clock state true true true f m k =
    rw k (mode_report clock state (target_levels state true) _ refl (λ e. f) m)

-- Reported levels that count as targets are those of the mode registers, with a fresh flow control
-- group; levels that count as measured come with a fresh flow group; nothing else is reported.
pub reported_levels-RestsOn :
    (clock : Clock) (state : RoomState) → RestsOn clock state (reported_levels clock state)
unfolding reported_levels
reported_levels-RestsOn clock state = reported_with-RestsOn clock state _ _ _ refl refl refl
