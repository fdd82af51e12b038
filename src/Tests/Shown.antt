-- ===== src/Tests/Shown.antt =====
-- The optimistic overlay at concrete inputs.
use meltem_ha.Const.Groups.{ReadGroup}
use meltem_ha.Models.Health.{empty_read_health}
use meltem_ha.Models.Room.{read_health_for}
use meltem_ha.Overlay.{Overlay, Settings, active, empty_overlay, set, settle_if_read}
use meltem_ha.Overlay.Pairing.{Reachable, Reachable-Paired}
use meltem_ha.Overlay.Shown.{active-settle_if_read, within_window}
use meltem_ha.Prelude.{[], is_some, none, refl, some, ℕ, ◌==◌, ◌∷◌, ◌≡◌}
use meltem_ha.Prelude.Assoc.{fill, insert, lookup, remove, string_discrete}
use meltem_ha.Tests.Samples.{clock_at, manual_state}

abbrev settings : Settings ℕ ℕ
settings = record {
  ttl = 20000;
  matches = λ a b. a == b;
  read_groups = ReadGroup.flow_control ∷ [];
  state_fn = λ room_key. none;
}

-- A level that was set at 1 s and not read since.
abbrev pending_overlay : Overlay ℕ
pending_overlay = record {
  pending = ("slave_2", (50, 21000)) ∷ [];
  baseline = ("slave_2", empty_read_health ∷ []) ∷ [];
  expiries = ("slave_2", 21000) ∷ [];
  changes = 1;
}

set_reaches : set settings (clock_at 1000) "slave_2" 50 empty_overlay ≡ pending_overlay
unfolding set insert empty_overlay read_health_for remove lookup fill
set_reaches = refl

paired_example :
    (is_some (
        lookup string_discrete "slave_3"
          (set settings (clock_at 1000) "slave_2" 50 empty_overlay).baseline)
      ≡ is_some (
          lookup string_discrete "slave_3"
            (set settings (clock_at 1000) "slave_2" 50 empty_overlay).pending))
    × (is_some (
          lookup string_discrete "slave_3"
            (set settings (clock_at 1000) "slave_2" 50 empty_overlay).expiries)
        ≡ is_some (
            lookup string_discrete "slave_3"
              (set settings (clock_at 1000) "slave_2" 50 empty_overlay).pending))
paired_example =
    Reachable-Paired settings (set settings (clock_at 1000) "slave_2" 50 empty_overlay)
      (Reachable.by_set (clock_at 1000) "slave_2" 50 empty_overlay Reachable.start) "slave_3"

active_example :
    active settings (clock_at 3000) "slave_2" (some manual_state) (some 50) pending_overlay
    ≡ within_window (clock_at 3000) (
        lookup string_discrete "slave_2"
          (settle_if_read settings
            (clock_at 3000)
            "slave_2"
            (some manual_state)
            (some 50)
            pending_overlay).0.pending)
active_example =
    active-settle_if_read settings (clock_at 3000) "slave_2" (some manual_state) (some 50)
      pending_overlay
