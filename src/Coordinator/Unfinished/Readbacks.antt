-- ===== src/Coordinator/Unfinished/Readbacks.antt =====
-- coordinator.py: a readback starts no write.
use meltem_ha.Coordinator.Readbacks.{
  RoomReply, TargetReply, confirm_pending_writes, read_balanced_target_if_pending,
  refresh_room_after_write,
}
use meltem_ha.Coordinator.Readbacks.Preserved.{
  Preserved, confirm_pending_writes-Preserves, read_balanced_target-Preserves,
  refresh_room-Preserves,
}
use meltem_ha.Coordinator.State.{Coordinator, clear_overlay, clear_overlays}
use meltem_ha.Coordinator.Unfinished.{Finishes, confirm-Finishes}
use meltem_ha.Models.Config.{RoomConfig}
use meltem_ha.Models.Health.{Clock}
use meltem_ha.Models.Plan.{RefreshPlan}
use meltem_ha.Models.Room.{RoomState}
use meltem_ha.Models.Writes.{WriteKey}
use meltem_ha.Prelude.{Bool, List, String, [], arith, ◌∷◌}
use meltem_ha.WriteConfirmation.Store.{WriteConfirmations, of_room, outcome}

-- What an operation of the coordinator leaves of the unfinished writes.
abbrev pub Ends : Coordinator → Coordinator → Type 0
Ends c c' = Finishes c.write_confirmations c'.write_confirmations

pub ends_refl : (w : WriteConfirmations) → Finishes w w
ends_refl w room key = omega arith

pub ends_trans : (u v w : WriteConfirmations) → Finishes u v → Finishes v w → Finishes u w
ends_trans u v w h k room key = omega (arith, h room key, k room key)

pub clear_overlay-Ends :
    (key : WriteKey) (room : String) (c : Coordinator) → Ends c (clear_overlay key room c)
unfolding clear_overlay
clear_overlay-Ends WriteKey.airflow_levels room c = ends_refl c.write_confirmations
clear_overlay-Ends WriteKey.operation_mode room c = ends_refl c.write_confirmations
clear_overlay-Ends WriteKey.preset_mode room c = ends_refl c.write_confirmations
clear_overlay-Ends WriteKey.intensive room c = ends_refl c.write_confirmations
clear_overlay-Ends (WriteKey.control_setting s) room c = ends_refl c.write_confirmations

pub clear_overlays-Ends :
    (keys : List WriteKey) (room : String) (c : Coordinator) → Ends c (clear_overlays keys room c)
unfolding clear_overlays
clear_overlays-Ends [] room c = ends_refl c.write_confirmations
clear_overlays-Ends (key ∷ keys) room c =
    ends_trans _ (clear_overlay key room c).write_confirmations _ (clear_overlay-Ends key room c)
      (clear_overlays-Ends keys room (clear_overlay key room c))

converged-Finishes :
    (w : WriteConfirmations) (rooms : List String)
    → Finishes w (record w { balanced_flow_converged = rooms })
unfolding outcome of_room
converged-Finishes w rooms other key = omega arith

abbrev ends_only : Preserved
ends_only = record {
  kept = record {
    holds = Finishes;
    reflexive = ends_refl;
    transitive = ends_trans;
    of_converged = converged-Finishes;
  };
  of_confirm = confirm-Finishes;
}

pub confirm_pending_writes-Ends :
    (clock : Clock) (states : List (String × RoomState)) (b : Bool) (c : Coordinator)
    → Ends c (confirm_pending_writes clock states b c)
confirm_pending_writes-Ends = confirm_pending_writes-Preserves ends_only

pub read_balanced_target-Ends :
    (clock : Clock) (room : RoomConfig) (state previous : RoomState) (reply : TargetReply)
    (c : Coordinator)
    → Ends c (read_balanced_target_if_pending clock room state previous reply c).0
read_balanced_target-Ends = read_balanced_target-Preserves ends_only.kept

pub refresh_room-Ends :
    (clock : Clock) (room : RoomConfig) (plan : RefreshPlan) (reply : RoomReply)
    (target : TargetReply) (c : Coordinator)
    → Ends c (refresh_room_after_write clock room plan reply target c)
refresh_room-Ends = refresh_room-Preserves ends_only
