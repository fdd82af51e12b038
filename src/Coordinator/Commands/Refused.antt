-- ===== src/Coordinator/Commands/Refused.antt =====
-- coordinator.py: a cancelled airflow write, and the commands after it.
use meltem_ha.Const.Groups.{ReadGroup}
use meltem_ha.Coordinator.State.{Coordinator, group_health, runtime_of, set_runtime}
use meltem_ha.Models.Config.{RoomConfig}
use meltem_ha.Models.Health.{ReadHealth}
use meltem_ha.Prelude.{some}

-- The state with the mark of a cancelled write
abbrev marked : RoomConfig → Coordinator → Coordinator
marked room c =
    set_runtime room
      (record (runtime_of c room) {
        uncertain_flow = some (
          group_health c room.key ReadGroup.flow_control,
          group_health c room.key ReadGroup.flow,
        );
      })
      c
