-- ===== src/Coordinator/State/Runtimes.antt =====
-- coordinator.py: reading back what was set of a room.
use meltem_ha.Coordinator.State.{Coordinator, RoomRuntime, runtime_of, runtime_or, set_runtime}
use meltem_ha.Models.Config.{RoomConfig}
use meltem_ha.Prelude.{if_pos, refl, ◌≡◌}
use meltem_ha.Prelude.Assoc.{lookup-insert, string_discrete}

pub runtime_of-set_runtime :
    (room : RoomConfig) (runtime : RoomRuntime) (c : Coordinator)
    → runtime_of (set_runtime room runtime c) room ≡ runtime
unfolding runtime_of set_runtime runtime_or
runtime_of-set_runtime room runtime c =
    rw (lookup-insert, if_pos (string_discrete room.key room.key) refl) refl
