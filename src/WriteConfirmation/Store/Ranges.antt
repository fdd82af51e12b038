-- ===== src/WriteConfirmation/Store/Ranges.antt =====
-- write_confirmation.py: the check of a minimum level against its maximum level.
use meltem_ha.Const.Groups.{Setting, Setting-discrete, control_level_ranges, setting_name}
use meltem_ha.ModbusHelpers.{normalize_control_setting}
use meltem_ha.Models.Config.{RoomConfig}
use meltem_ha.Models.Health.{Clock, ReadHealth}
use meltem_ha.Models.Room.{RoomState}
use meltem_ha.Models.Writes.{WriteKey, WriteKey-discrete, WriteValue}
use meltem_ha.Prelude.{
  In, Option, String, ap, arith, bind_ok, decb_no, decb_yes, if_neg, if_pos, inl, inr, ite, none,
  ok, refl, some, sym, ℕ, ◌≡◌, ◌≢◌, ◌≤◌, ◌⊎◌,
}
use meltem_ha.Prelude.Assoc.{string_discrete}
use meltem_ha.WriteConfirmation.Store.{
  WriteConfirmations, above, awaiting, check_control_level_range, check_range, check_ranges,
  effective_setting, int_value, record_pending, refuse_above, unconfirmed_control_setting,
  unconfirmed_value,
}
use meltem_ha.WriteConfirmation.Store.Outcomes.{outcome-record_pending}

-- The setting as it will be after the write of one setting.
effective-record_pending :
    (clock : Clock) (w : WriteConfirmations) (room_key : String) (state : RoomState)
    (written setting : Setting) (v : ℕ) (baseline : ReadHealth)
    → effective_setting
        (record_pending clock w room_key
          (WriteKey.control_setting written)
          (WriteValue.level v)
          baseline)
        room_key
        state
        setting
      ≡ ite
          (WriteKey-discrete (WriteKey.control_setting written) (WriteKey.control_setting setting))
          (some v)
          (effective_setting w room_key state setting)
unfolding effective_setting unconfirmed_control_setting unconfirmed_value int_value awaiting
effective-record_pending clock w room_key state written setting v baseline =
    elim (WriteKey-discrete (WriteKey.control_setting written) (WriteKey.control_setting setting)) [
      | yes p ↦
          rw
            (
              outcome-record_pending,
              if_pos (string_discrete room_key room_key) refl,
              if_pos _ p,
              if_pos
                  (WriteKey-discrete (WriteKey.control_setting written)
                    (WriteKey.control_setting setting))
                  p,
            )
            refl
      | no n ↦
          rw
            (
              outcome-record_pending,
              if_pos (string_discrete room_key room_key) refl,
              if_neg _ n,
              if_neg
                  (WriteKey-discrete (WriteKey.control_setting written)
                    (WriteKey.control_setting setting))
                  n,
            )
            refl
    ]

-- A minimum that is not above its maximum, where both are known.
abbrev pub InOrder : Option ℕ → Option ℕ → Type 0
InOrder (some minimum) (some maximum) = minimum ≤ maximum
InOrder _ _ = Unit

refuse_above-InOrder :
    (minimum maximum : Option ℕ) → refuse_above minimum maximum ≡ ok tt → InOrder minimum maximum
unfolding refuse_above above
refuse_above-InOrder none maximum h = tt
refuse_above-InOrder (some a) none h = tt
refuse_above-InOrder (some a) (some b) h = ground arith

control_setting-injective :
    (a b : Setting) → WriteKey.control_setting a ≡ WriteKey.control_setting b → a ≡ b
control_setting-injective a b h = cc

humidity_levels_differ : Setting.humidity_min_level ≢ Setting.humidity_max_level
humidity_levels_differ e = ground arith

co2_levels_differ : Setting.co2_min_level ≢ Setting.co2_max_level
co2_levels_differ e = ground arith

-- The tracker once a checked setting was accepted with the normalized value.
abbrev pub accepted :
    Clock → WriteConfirmations → RoomConfig → Setting → ℕ → ReadHealth → WriteConfirmations
accepted clock w room setting v baseline =
    record_pending clock w room.key (WriteKey.control_setting setting) (WriteValue.level v) baseline

module _ (clock : Clock) (w : WriteConfirmations) (room : RoomConfig) (state : RoomState)
    (value v : ℕ) (baseline : ReadHealth) where
  effective_written :
      (setting : Setting)
      → effective_setting (accepted clock w room setting v baseline) room.key state setting ≡ some v
  effective_written setting =
      rw
        (
          effective-record_pending,
          if_pos
              (WriteKey-discrete (WriteKey.control_setting setting)
                (WriteKey.control_setting setting))
              refl,
        )
        refl

  effective_other :
      (setting other : Setting)
      → setting ≢ other
      → effective_setting (accepted clock w room setting v baseline) room.key state other
        ≡ effective_setting w room.key state other
  effective_other setting other n =
      rw
        (
          effective-record_pending,
          if_neg
              (WriteKey-discrete (WriteKey.control_setting setting)
                (WriteKey.control_setting other))
              (λ e. n (control_setting-injective setting other e)),
        )
        refl

  check_range_minimum :
      (low high : Setting)
      → check_range w room state low value (low, high) ≡ ok tt
      → normalize_control_setting (setting_name low) value ≡ ok v
      → low ≢ high
      → InOrder
          (effective_setting (accepted clock w room low v baseline) room.key state low)
          (effective_setting (accepted clock w room low v baseline) room.key state high)
  unfolding check_range
  check_range_minimum low high h n d =
      rw (effective_written low, effective_other low high d)
        (refuse_above-InOrder (some v) _ (rw (decb_yes (Setting-discrete low low) refl, n) at h))

  check_range_maximum :
      (low high : Setting)
      → check_range w room state high value (low, high) ≡ ok tt
      → normalize_control_setting (setting_name high) value ≡ ok v
      → low ≢ high
      → InOrder
          (effective_setting (accepted clock w room high v baseline) room.key state low)
          (effective_setting (accepted clock w room high v baseline) room.key state high)
  unfolding check_range
  check_range_maximum low high h n d =
      rw (effective_written high, effective_other high low (λ e. d (sym e)))
        (refuse_above-InOrder _ (some v) (
          rw
            (
              decb_no (Setting-discrete high low) (λ e. d (sym e)),
              decb_yes (Setting-discrete high high) refl,
              n,
            )
            at h))

  check_range-InOrder :
      (setting low high : Setting)
      → check_range w room state setting value (low, high) ≡ ok tt
      → normalize_control_setting (setting_name setting) value ≡ ok v
      → low ≢ high
      → (low ≡ setting) ⊎ (high ≡ setting)
      → InOrder
          (effective_setting (accepted clock w room setting v baseline) room.key state low)
          (effective_setting (accepted clock w room setting v baseline) room.key state high)
  check_range-InOrder setting low high h n d (inl e) =
      rw (← e) (check_range_minimum low high (rw (← e) at h) (rw (← e) at n) d)
  check_range-InOrder setting low high h n d (inr e) =
      rw (← e) (check_range_maximum low high (rw (← e) at h) (rw (← e) at n) d)

  ranges_checked :
      (setting low high : Setting)
      → check_control_level_range w room state setting value ≡ ok tt
      → In (low, high) control_level_ranges
      → (check_range w room state setting value (low, high) ≡ ok tt) × (low ≢ high)
  unfolding check_control_level_range check_ranges
  ranges_checked setting low high h (inl e) =
      rw (ap (λ p. p.0) e, ap (λ p. p.1) e) ((bind_ok _ _ h).0, humidity_levels_differ)
  ranges_checked setting low high h (inr (inl e)) =
      rw (ap (λ p. p.0) e, ap (λ p. p.1) e) ((bind_ok _ _ (bind_ok _ _ h).1).0, co2_levels_differ)
  ranges_checked setting low high h (inr (inr e)) = absurd e

  -- A setting that passes the check and is accepted with its normalized value leaves the minimum
  -- level at or below the maximum level, as the room will be once the write is read back, in each
  -- pair of a minimum and a maximum that the setting belongs to.
  pub check_control_level_range-InOrder :
      (setting low high : Setting)
      → check_control_level_range w room state setting value ≡ ok tt
      → normalize_control_setting (setting_name setting) value ≡ ok v
      → In (low, high) control_level_ranges
      → (low ≡ setting) ⊎ (high ≡ setting)
      → InOrder
          (effective_setting (accepted clock w room setting v baseline) room.key state low)
          (effective_setting (accepted clock w room setting v baseline) room.key state high)
  check_control_level_range-InOrder setting low high h n i e =
      let checked = ranges_checked setting low high h i in
      check_range-InOrder setting low high checked.0 n checked.1 e
