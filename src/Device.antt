-- ===== src/Device.antt =====
-- device/components.py: the register blocks of a unit that the modelled code reads and writes.
use meltem_ha.Prelude.{List, ℕ}

-- The mode block registers a command writes, by their component field.
pub data ModeField : Type 0 where
  mode current_level extract_target_level preset_mode preset_value : ModeField

unfoldable pub ModeField-discrete : Discrete ModeField
ModeField-discrete = hlevel

abbrev pub RegisterWrites : Type 0
RegisterWrites = List (ModeField × ℕ)

pub record ModeRead : Type 0 where
  pub mode : ℕ
  pub current_level : ℕ
  pub extract_target_level : ℕ

-- The registers of the write-side mode block.
pub record ModeBlock : Type 0 where
  pub mode : ℕ
  pub current_level : ℕ
  pub extract_target_level : ℕ
  pub preset_mode : ℕ
  pub preset_value : ℕ
