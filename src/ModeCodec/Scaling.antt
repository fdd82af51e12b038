-- ===== src/ModeCodec/Scaling.antt =====
-- mode_codec.py: the airflow scaling between m³/h and the raw 0..200 registers.
use meltem_ha.Const.Profiles.{profile_max_airflow, profile_max_airflow_cases}
use meltem_ha.ModeCodec.{scale_airflow_to_raw, scale_raw_level_to_airflow}
use meltem_ha.Models.Config.{RoomConfig}
use meltem_ha.Prelude.{arith, dist, inl, inr, max, min, round_div, ℕ, ◌*◌, ◌≡◌, ◌≤◌}

-- The scaling at one maximum airflow.
to_raw : ℕ → ℕ → ℕ
to_raw top level = max 0 (min 200 (round_div (level * 200) top))

to_airflow : ℕ → ℕ → ℕ
to_airflow top raw = round_div (raw * top) 200

to_airflow-to_raw_97 : (level : ℕ) → level ≤ 97 → to_airflow 97 (to_raw 97 level) ≡ level
unfolding to_raw to_airflow round_div
to_airflow-to_raw_97 level h = ground arith

to_airflow-to_raw_100 : (level : ℕ) → level ≤ 100 → to_airflow 100 (to_raw 100 level) ≡ level
unfolding to_raw to_airflow round_div
to_airflow-to_raw_100 level h = ground arith

to_raw-to_airflow_97 : (raw : ℕ) → raw ≤ 200 → dist (to_raw 97 (to_airflow 97 raw)) raw ≤ 1
unfolding to_raw to_airflow round_div
to_raw-to_airflow_97 raw h = ground arith

to_raw-to_airflow_100 : (raw : ℕ) → raw ≤ 200 → dist (to_raw 100 (to_airflow 100 raw)) raw ≤ 1
unfolding to_raw to_airflow round_div
to_raw-to_airflow_100 raw h = ground arith

-- A level that the unit can run survives the way to the set register and back unchanged.
pub scale_raw_level_to_airflow-scale_airflow_to_raw :
    (room : RoomConfig) (level : ℕ)
    → level ≤ profile_max_airflow room.profile
    → scale_raw_level_to_airflow room (scale_airflow_to_raw room level) ≡ level
unfolding scale_airflow_to_raw scale_raw_level_to_airflow to_raw to_airflow
scale_raw_level_to_airflow-scale_airflow_to_raw room level h =
    elim (profile_max_airflow_cases room.profile) [
      | inl e ↦ rw e (to_airflow-to_raw_97 level (omega arith))
      | inr e ↦ rw e (to_airflow-to_raw_100 level (omega arith))
    ]

-- A raw target up to 200 survives the way to m³/h and back up to one register step.
pub scale_airflow_to_raw-scale_raw_level_to_airflow :
    (room : RoomConfig) (raw : ℕ)
    → raw ≤ 200
    → dist (scale_airflow_to_raw room (scale_raw_level_to_airflow room raw)) raw ≤ 1
unfolding scale_airflow_to_raw scale_raw_level_to_airflow to_raw to_airflow
scale_airflow_to_raw-scale_raw_level_to_airflow room raw h =
    elim (profile_max_airflow_cases room.profile) [
      | inl e ↦ rw e (to_raw-to_airflow_97 raw h)
      | inr e ↦ rw e (to_raw-to_airflow_100 raw h)
    ]

-- The raw value of any level fits the register's range.
pub scale_airflow_to_raw-le :
    (room : RoomConfig) (level : ℕ) → scale_airflow_to_raw room level ≤ 200
unfolding scale_airflow_to_raw
scale_airflow_to_raw-le room level = omega arith

pub scale_raw_level_to_airflow-zero : (room : RoomConfig) → scale_raw_level_to_airflow room 0 ≡ 0
unfolding scale_raw_level_to_airflow round_div
scale_raw_level_to_airflow-zero room = ground arith
