-- ===== src/Tests/Health.antt =====
-- The read health and the levels at concrete inputs.
use meltem_ha.Const.Groups.{ReadGroup}
use meltem_ha.Const.Modes.{Direction, LevelSource}
use meltem_ha.Levels.{DirectionWrite, plan_direction_write, reported_levels}
use meltem_ha.Levels.Plan.{level_in, level_in-opposite, opposite}
use meltem_ha.Levels.Reported.{RestsOn, reported_levels-RestsOn}
use meltem_ha.Models.Health.{empty_read_health, failed}
use meltem_ha.Models.Plan.{full_refresh_plan, read_groups}
use meltem_ha.Models.Room.{RoomState, read_health_for, with_read_health}
use meltem_ha.Polling.{supported_groups}
use meltem_ha.Prelude.{dist, false, if◌then◌else◌, none, refl, some, true, ℕ, ◌≡◌, ◌≤◌}
use meltem_ha.ReadHealth.{has_group, record_read_failures}
use meltem_ha.ReadHealth.Coherence.{failed_three}
use meltem_ha.ReadHealth.Failures.{read_health_for-record_read_failures}
use meltem_ha.Tests.Samples.{clock_at, manual_state, room}

abbrev after_three_failures : RoomState
after_three_failures =
    with_read_health manual_state ReadGroup.rf_signal
      (failed_three empty_read_health 3000 "timeout" true)

failures_example :
    read_health_for
      (record_read_failures (clock_at 4000) manual_state room full_refresh_plan "lost")
      ReadGroup.flow
    ≡ (if has_group ReadGroup.flow (supported_groups room (read_groups full_refresh_plan))
        then failed (read_health_for manual_state ReadGroup.flow) 4000 "lost" false
        else read_health_for manual_state ReadGroup.flow)
failures_example =
    read_health_for-record_read_failures (clock_at 4000) manual_state room full_refresh_plan "lost"
      ReadGroup.flow

abbrev stopped : ℕ
stopped = 0

opposite_example : dist (level_in (opposite Direction.supply) (DirectionWrite.pair 30 52)) 52 ≤ 1
unfolding plan_direction_write
opposite_example =
    level_in-opposite manual_state (some 50, some 52) (some LevelSource.target) Direction.supply 30
      (DirectionWrite.pair 30 52) none refl 52 refl tt

reported_example :
    RestsOn (clock_at 3000) manual_state (reported_levels (clock_at 3000) manual_state)
reported_example = reported_levels-RestsOn (clock_at 3000) manual_state
