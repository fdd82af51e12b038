-- ===== src/ModeCodec/Reads.antt =====
-- mode_codec.py: what one status read changes in the state of a room.
use meltem_ha.Const.Profiles.{profile_max_airflow, profile_max_airflow_cases}
use meltem_ha.Device.{ModeRead}
use meltem_ha.ModeCodec.{
  apply_mode_read, decode_preset_mode, decode_target_level, mode_status_reports_intensive,
  scale_raw_level_to_airflow,
}
use meltem_ha.Models.Config.{RoomConfig}
use meltem_ha.Models.Room.{RoomState}
use meltem_ha.Prelude.{
  Bool, List, Option, [], arith, inl, inr, none, refl, round_div, some, true, ℕ, ◌∙◌, ◌∷◌, ◌≡◌, ◌≤◌,
}

-- A run of status reads, one after the other.
unfoldable pub apply_reads : RoomConfig → RoomState → List ModeRead → RoomState
apply_reads room state [] = state
apply_reads room state (block ∷ blocks) =
    apply_reads room (apply_mode_read room state (some block)) blocks

abbrev pub AllIntensive : List ModeRead → Type 0
AllIntensive [] = Unit {0}
AllIntensive (block ∷ blocks) = (mode_status_reports_intensive block ≡ true) × AllIntensive blocks

-- A state without what tells an override
abbrev pub without_override : RoomState → RoomState
without_override state = record state { intensive_active = none; mode_status_raw = none }

-- The flag and the raw registers of a room are those of the last status read.
pub apply_mode_read_flag :
    (room : RoomConfig) (state : RoomState) (block : ModeRead)
    → ((apply_mode_read room state (some block)).intensive_active
        ≡ some (mode_status_reports_intensive block))
      × ((apply_mode_read room state (some block)).mode_status_raw
          ≡ some (block.mode, block.current_level, block.extract_target_level))
unfolding apply_mode_read mode_status_reports_intensive
apply_mode_read_flag room state block = ground arith

keeps_base :
    (room : RoomConfig) (state : RoomState) (block : ModeRead)
    → mode_status_reports_intensive block ≡ true
    → apply_mode_read room state (some block) ≡ record state {
      intensive_active = some true;
      mode_status_raw = some (block.mode, block.current_level, block.extract_target_level);
    }
unfolding apply_mode_read mode_status_reports_intensive
keeps_base room state block h = ground arith

forgets_flag :
    (room : RoomConfig) (state : RoomState) (flag : Option Bool) (raw : Option (ℕ × ℕ × ℕ))
    (block : ModeRead)
    → apply_mode_read room
        (record state { intensive_active = flag; mode_status_raw = raw })
        (some block)
      ≡ apply_mode_read room state (some block)
unfolding apply_mode_read decode_preset_mode
forgets_flag room state flag raw block = ground arith

-- Any number of reads that report intensive change nothing of a room but the flag and the raw
-- registers: the base mode, its target, its preset and all else stay. The next read leaves the room
-- as if they had not been.
pub apply_reads_intensive :
    (room : RoomConfig) (state : RoomState) (blocks : List ModeRead) (block : ModeRead)
    → AllIntensive blocks
    → (without_override (apply_reads room state blocks) ≡ without_override state)
      × (apply_mode_read room (apply_reads room state blocks) (some block)
          ≡ apply_mode_read room state (some block))
unfolding apply_reads
apply_reads_intensive room state [] block h = (refl, refl)
apply_reads_intensive room state (b ∷ blocks) block h =
    let rest = apply_reads_intensive room (apply_mode_read room state (some b)) blocks block h.1 in
    (
      rest.0 ∙ rw (keeps_base room state b h.0) refl,
      rest.1 ∙ rw (keeps_base room state b h.0) (forgets_flag room state _ _ block),
    )

-- Whatever the registers hold, a decoded target is an airflow that the unit can run.
pub decode_target_level-le :
    (room : RoomConfig) (raw : Option ℕ) (level : ℕ)
    → decode_target_level room raw ≡ some level
    → level ≤ profile_max_airflow room.profile
unfolding decode_target_level scale_raw_level_to_airflow round_div
decode_target_level-le room none level h = cc
decode_target_level-le room (some raw) level h = elim (profile_max_airflow_cases room.profile) [
  | inl e ↦ ground arith
  | inr e ↦ ground arith
]
