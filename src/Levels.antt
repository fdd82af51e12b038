-- ===== src/Levels.antt =====
-- levels.py: supply and extract airflow of a unit, as targets and as measurements.
pub mod Plan
pub mod Reported
use meltem_ha.Const.Groups.{ReadGroup}
use meltem_ha.Const.Modes.{
  Direction, LevelSource, LevelWriteFallback, OperationMode, PresetMode, is_sensor_mode,
  preset_mode_to_raw_code,
}
use meltem_ha.Models.Health.{Clock}
use meltem_ha.Models.Room.{RoomState}
use meltem_ha.Prelude.{
  Bool, List, Option, Result, [], dist, false, home_assistant_error, if◌then◌else◌, is_some, leb,
  ltb, none, not, ok, option_eq, raise, round_div, some, true, ℕ, ◌&&◌, ◌+◌, ◌==◌, ◌||◌, ◌∷◌,
}
use meltem_ha.ReadHealth.{group_fresh}

abbrev pub level_confirm_tolerance : ℕ
level_confirm_tolerance = 2

abbrev pub balanced_level_tolerance : ℕ
balanced_level_tolerance = 1

-- A supply/extract pair.
abbrev pub LevelPair : Type 0
LevelPair = Option ℕ × Option ℕ

unfoldable pub reached : Option ℕ → ℕ → Bool
reached none target = false
reached (some actual) target = leb (dist actual target) level_confirm_tolerance

unfoldable pub levels_reached : LevelPair → ℕ × ℕ → Bool
unfolding reached
levels_reached confirmed expected = reached confirmed.0 expected.0 && reached confirmed.1 expected.1

unfoldable pub levels_balanced : ℕ → ℕ → Bool
levels_balanced level other =
    if level == other
    then true
    else ltb 0 level && (ltb 0 other && leb (dist level other) balanced_level_tolerance)

unfoldable pub first_known : List (Option ℕ) → Option ℕ
first_known [] = none
first_known (some value ∷ values) = some value
first_known (none ∷ values) = first_known values

-- `state.preset_mode in PRESET_MODE_TO_RAW_CODE`
preset_active : Option PresetMode → Bool
preset_active none = false
preset_active (some preset_mode) = is_some (preset_mode_to_raw_code preset_mode)

abbrev pub measured_pair : RoomState → LevelPair
measured_pair state = (state.supply_air_flow, state.extract_air_flow)

-- The single target of the balanced modes.
common_target : RoomState → Bool → Option ℕ
unfolding first_known preset_active preset_mode_to_raw_code
common_target state airflow_is_fresh = first_known (
    state.balanced_target_readback
    ∷ (if preset_active state.preset_mode && not airflow_is_fresh then none else state.target_level)
    ∷ [])

balanced_targets : RoomState → Bool → Option ℕ → LevelPair
unfolding first_known
balanced_targets state airflow_is_fresh (some common) = (some common, some common)
balanced_targets state airflow_is_fresh none =
    if airflow_is_fresh
    then (
      first_known (state.supply_air_flow ∷ state.extract_air_flow ∷ []),
      first_known (state.extract_air_flow ∷ state.supply_air_flow ∷ []),
    )
    else (none, none)

targets_in_mode : RoomState → Bool → Option OperationMode → LevelPair
unfolding first_known
targets_in_mode state airflow_is_fresh (some OperationMode.off) = (some 0, some 0)
targets_in_mode state airflow_is_fresh (some OperationMode.unbalanced) =
    if not airflow_is_fresh then (state.target_level, state.extract_target_level) else (
      first_known (state.target_level ∷ state.supply_air_flow ∷ []),
      first_known (state.extract_target_level ∷ state.extract_air_flow ∷ []),
    )
targets_in_mode state airflow_is_fresh mode =
    if is_sensor_mode mode
    then if airflow_is_fresh then measured_pair state else (none, none)
    else balanced_targets state airflow_is_fresh (common_target state airflow_is_fresh)

unfoldable pub target_levels : RoomState → Bool → LevelPair
unfolding targets_in_mode balanced_targets common_target is_sensor_mode
target_levels state airflow_is_fresh = targets_in_mode state airflow_is_fresh state.operation_mode

-- `levels == targets`
unfoldable pub pair_eq : LevelPair → LevelPair → Bool
pair_eq a b = option_eq ◌==◌ a.0 b.0 && option_eq ◌==◌ a.1 b.1

-- `None, None` if both levels are unknown
with_source : LevelPair → LevelSource → Option LevelPair × Option LevelSource
with_source levels source =
    if not (is_some levels.0) && not (is_some levels.1)
    then (none, none)
    else (some levels, some source)

-- `reported_levels` on the freshness of the airflow and of the mode group.
reported_with : RoomState → Bool → Bool → Option LevelPair × Option LevelSource
unfolding with_source pair_eq
reported_with state airflow_is_fresh mode_is_fresh =
    let targets = target_levels state false in
    let levels = target_levels state airflow_is_fresh in
    if not mode_is_fresh || not (is_some state.operation_mode)
    then if not airflow_is_fresh
      then (none, none)
      else with_source (measured_pair state) LevelSource.measured
    else with_source levels
        (if pair_eq levels targets then LevelSource.target else LevelSource.measured)

unfoldable pub reported_levels : Clock → RoomState → Option LevelPair × Option LevelSource
unfolding reported_with
reported_levels clock state =
    reported_with state (group_fresh clock state ReadGroup.flow)
      (group_fresh clock state ReadGroup.flow_control)

unfoldable pub mode_write_levels : RoomState → LevelPair → LevelPair
unfolding first_known
mode_write_levels state effective =
    let balanced_level =
      first_known
        (effective.0 ∷ state.target_level ∷ state.supply_air_flow ∷ state.extract_air_flow ∷ []) in
    (
      balanced_level,
      first_known
          (effective.1 ∷ state.extract_target_level ∷ state.extract_air_flow ∷ balanced_level ∷ []),
    )

-- A fan write as one balanced level or as a supply/extract pair.
pub data DirectionWrite : Type 0 where
  balanced : ℕ → DirectionWrite
  pair : ℕ → ℕ → DirectionWrite

-- The level of the other direction.
abbrev pub other_level : Direction → LevelPair → Option ℕ
other_level Direction.supply levels = levels.1
other_level Direction.extract levels = levels.0

unfoldable pub pending_mode : ℕ → ℕ → OperationMode
unfolding levels_balanced
pending_mode supply extract =
    if supply == 0 && extract == 0
    then OperationMode.off
    else if levels_balanced supply extract
    then OperationMode.manual
    else OperationMode.unbalanced

-- The operation mode that decides: a pending pair stands for its own mode.
unfoldable pub deciding_mode : RoomState → LevelPair → Option LevelSource → Option OperationMode
unfolding pending_mode
deciding_mode state (some supply, some extract) (some LevelSource.pending) =
    some (pending_mode supply extract)
deciding_mode state levels source = state.operation_mode

-- Measured airflow jitters around one balanced target.
unfoldable pub steadied : LevelPair → Option LevelSource → ℕ → ℕ
steadied (some supply, some extract) (some LevelSource.measured) other =
    if leb (dist supply extract) level_confirm_tolerance
    then round_div (supply + extract) 2
    else other
steadied levels source other = other

abbrev pub in_order : Direction → ℕ → ℕ → DirectionWrite
in_order Direction.supply level other = pair level other
in_order Direction.extract level other = pair other level

unfoldable pub is_off : Option OperationMode → Bool
is_off (some OperationMode.off) = true
is_off _ = false

unfoldable pub plan_with :
    Option OperationMode → ℕ → Direction → ℕ → DirectionWrite × Option LevelWriteFallback
unfolding is_off is_sensor_mode levels_balanced
plan_with operation_mode other direction level =
    let fallback =
      if is_some operation_mode then none else some LevelWriteFallback.unknown_mode_overridden in
    if levels_balanced level other
      || (is_off operation_mode || (ltb 0 level && is_sensor_mode operation_mode))
    then (balanced level, fallback)
    else (in_order direction level other, fallback)

unfoldable pub plan_other :
    RoomState
    → LevelPair
    → Option LevelSource
    → Direction
    → ℕ
    → Option ℕ
    → Result (DirectionWrite × Option LevelWriteFallback)
unfolding plan_with steadied deciding_mode
plan_other state levels source direction level none =
    if level == 0
    then raise (home_assistant_error "opposite_airflow_unknown")
    else ok (balanced level, some LevelWriteFallback.both_directions_balanced_manual)
plan_other state levels source direction level (some other) =
    ok
      (plan_with (deciding_mode state levels source) (steadied levels source other) direction level)

unfoldable pub plan_direction_write :
    RoomState
    → LevelPair
    → Option LevelSource
    → Direction
    → ℕ
    → Result (DirectionWrite × Option LevelWriteFallback)
unfolding plan_other
plan_direction_write state levels source direction level =
    plan_other state levels source direction level (other_level direction levels)
