-- ===== src/Levels/Plan.antt =====
-- levels.py: what a planned fan write does to each direction.
use meltem_ha.Const.Modes.{Direction, LevelSource, LevelWriteFallback}
use meltem_ha.Levels.{
  DirectionWrite, LevelPair, other_level, plan_direction_write, plan_other, plan_with, steadied,
}
use meltem_ha.Models.Room.{RoomState}
use meltem_ha.Prelude.{
  Option, arith, dist, home_assistant_error, none, ok, raise, round_div, some, ℕ, ◌↔◌, ◌≡◌, ◌≤◌,
}

-- The level that a write gives to a direction.
abbrev pub level_in : Direction → DirectionWrite → ℕ
level_in direction (DirectionWrite.balanced level) = level
level_in Direction.supply (DirectionWrite.pair supply extract) = supply
level_in Direction.extract (DirectionWrite.pair supply extract) = extract

abbrev pub opposite : Direction → Direction
opposite Direction.supply = Direction.extract
opposite Direction.extract = Direction.supply

abbrev pub IsPair : DirectionWrite → Type 0
IsPair (DirectionWrite.balanced level) = ⊥
IsPair (DirectionWrite.pair supply extract) = Unit

steadied-near :
    (levels : LevelPair) (source : Option LevelSource) (direction : Direction) (other : ℕ)
    → other_level direction levels ≡ some other
    → dist (steadied levels source other) other ≤ 1
unfolding steadied round_div
steadied-near (some supply, some extract) (some LevelSource.measured) Direction.supply other h =
    ground arith
steadied-near (some supply, some extract) (some LevelSource.measured) Direction.extract other h =
    ground arith
steadied-near levels source direction other h = ground arith

-- A fan write is refused exactly when it would stop a direction while the level of the other one
-- is unknown.
pub plan_direction_write-raises :
    (state : RoomState) (levels : LevelPair) (source : Option LevelSource) (direction : Direction)
    (level : ℕ)
    → (plan_direction_write state levels source direction level
        ≡ raise (home_assistant_error "opposite_airflow_unknown"))
      ↔ ((other_level direction levels ≡ none) × (level ≡ 0))
unfolding plan_direction_write
plan_direction_write-raises state levels source direction level = ground arith

module _ (state : RoomState) (levels : LevelPair) (source : Option LevelSource)
    (direction : Direction) (level : ℕ) (write : DirectionWrite)
    (fallback : Option LevelWriteFallback)
    (planned : plan_direction_write state levels source direction level
      ≡ ok (write, fallback)) where
  level_in-plan_other :
      (d : Direction) (o : Option ℕ)
      → plan_other state levels source d level o ≡ ok (write, fallback)
      → level_in d write ≡ level
  unfolding plan_other
  level_in-plan_other Direction.supply none h = ground arith
  level_in-plan_other Direction.extract none h = ground arith
  level_in-plan_other Direction.supply (some other) h = ground arith
  level_in-plan_other Direction.extract (some other) h = ground arith

  near_other :
      (d : Direction) (other : ℕ)
      → plan_other state levels source d level (some other) ≡ ok (write, fallback)
      → IsPair write
      → dist (steadied levels source other) other ≤ 1
      → dist (level_in (opposite d) write) other ≤ 1
  unfolding plan_other plan_with
  near_other Direction.supply other h p near = ground arith
  near_other Direction.extract other h p near = ground arith

  -- A planned write gives the commanded direction exactly the commanded level.
  pub level_in-plan_direction_write : level_in direction write ≡ level
  unfolding plan_direction_write
  level_in-plan_direction_write =
      level_in-plan_other direction (other_level direction levels) planned

  -- If a planned write is a pair, and the level of the other direction is known, then that
  -- direction keeps it, up to one m³/h.
  pub level_in-opposite :
      (other : ℕ)
      → other_level direction levels ≡ some other
      → IsPair write
      → dist (level_in (opposite direction) write) other ≤ 1
  unfolding plan_direction_write
  level_in-opposite other known is_pair =
      near_other direction other (rw known at planned) is_pair
        (steadied-near levels source direction other known)
