-- ===== src/ModbusHelpers/Settings.antt =====
-- modbus_helpers.py: a control setting is normalized into its limits and onto its step.
use meltem_ha.Const.Groups.{Setting, control_setting_limits, setting_name}
use meltem_ha.ModbusHelpers.{normalize_control_setting, rounded_setting}
use meltem_ha.Prelude.{Option, String, arith, none, ok, refl, some, ℕ, ◌%◌, ◌-◌, ◌≡◌, ◌≤◌}

-- The limits of the manufacturer's table: a step that divides the span.
abbrev pub WithinLimits : Option (ℕ × ℕ × ℕ) → ℕ → Type 0
WithinLimits none r = ⊥
WithinLimits (some (low, high, step)) r = (low ≤ r) × (r ≤ high) × ((r - low) % step ≡ 0)

rounded_within :
    (key : String) (value r : ℕ)
    → rounded_setting (control_setting_limits key) value ≡ ok r
    → WithinLimits (control_setting_limits key) r
      × (rounded_setting (control_setting_limits key) r ≡ ok r)
unfolding rounded_setting control_setting_limits
rounded_within key value r h = ground arith

-- A normalized setting lies within the limits of its setting and on its step, and normalizing it
-- again leaves it as it is.
pub normalize_control_setting_within :
    (key : String) (value r : ℕ)
    → normalize_control_setting key value ≡ ok r
    → WithinLimits (control_setting_limits key) r × (normalize_control_setting key r ≡ ok r)
unfolding normalize_control_setting
normalize_control_setting_within key value r h = ground (arith, rounded_within key value r)

-- Every setting that a room has can be normalized.
pub normalize_control_setting_total :
    (setting : Setting) (value : ℕ)
    → (r : ℕ) × (normalize_control_setting (setting_name setting) value ≡ ok r)
unfolding normalize_control_setting setting_name control_setting_limits
normalize_control_setting_total Setting.humidity_starting_point value = (_, refl)
normalize_control_setting_total _ value = (_, refl)
