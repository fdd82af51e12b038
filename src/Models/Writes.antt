-- ===== src/Models/Writes.antt =====
-- models.py: the values, the keys and the outcome of a write.
use meltem_ha.Const.Groups.{Setting}
use meltem_ha.Const.Modes.{OperationMode, PresetMode}
use meltem_ha.Models.Health.{ReadHealth}
use meltem_ha.Prelude.{Bool, Option, String, ℕ}

-- A mode or preset name, a level, a flag, or a supply/extract level pair.
pub data WriteValue : Type 0 where
  operation : OperationMode → WriteValue
  preset : PresetMode → WriteValue
  level : ℕ → WriteValue
  flag : Bool → WriteValue
  pair : ℕ → ℕ → WriteValue

pub data WriteStatus : Type 0 where
  pending confirmed mismatch unconfirmed unverifiable failed superseded : WriteStatus

-- The keys under which write outcomes are recorded.
pub data WriteKey : Type 0 where
  airflow_levels operation_mode preset_mode intensive : WriteKey
  control_setting : Setting → WriteKey

unfoldable pub WriteKey-discrete : Discrete WriteKey
WriteKey-discrete = hlevel

pub record WriteConfirmation : Type 0 where
  pub expected_value : WriteValue
  pub started_at : ℕ
  pub status : WriteStatus
  pub actual_value : Option WriteValue
  pub last_error : Option String
  pub issue_counted : Bool
  pub baseline : ReadHealth
