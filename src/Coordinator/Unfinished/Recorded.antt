-- ===== src/Coordinator/Unfinished/Recorded.antt =====
-- write_confirmation.py: a recorded write beside those that it finished.
use mathlib.Core.Option
use meltem_ha.Coordinator.Unfinished.{
  Finishes, OneUnfinished, unfinished, unfinished_le_one, unfinished_writes,
}
use meltem_ha.Models.Health.{Clock, ReadHealth}
use meltem_ha.Models.Writes.{
  WriteConfirmation, WriteKey, WriteKey-discrete, WriteStatus, WriteValue,
}
use meltem_ha.Prelude.{
  Option, Option-cases, String, arith, if_both, if_neg, if_pos, inl, inr, none, refl, some, true,
  ◌≡◌, ◌≢◌, ◌≤◌,
}
use meltem_ha.Prelude.Assoc.{string_discrete}
use meltem_ha.WriteConfirmation.Judging.{is_base_mode_write, is_final}
use meltem_ha.WriteConfirmation.Store.{
  WriteConfirmations, is_replaced, new_confirmation, outcome, record_pending, supersede,
}
use meltem_ha.WriteConfirmation.Store.Outcomes.{outcome-record_pending}
use meltem_ha.WriteConfirmation.Store.Superseding.{outcome-supersede, replaced_by, supersede-final}

-- An accepted command leaves its own write unfinished at most.
superseded_finished :
    (w : WriteConfirmations) (room : String) (write_key key : WriteKey)
    → is_base_mode_write write_key ≡ true
    → is_base_mode_write key ≡ true
    → key ≢ write_key
    → unfinished (outcome (supersede w room write_key).0 room key) ≡ 0
unfolding unfinished
superseded_finished w room write_key key h k n =
    elim (Option-cases (outcome (supersede w room write_key).0 room key)) [
      | inl e ↦ rw e refl
      | inr (c, e) ↦ rw (e, supersede-final w room write_key key c h k n e) refl
    ]

module _ (clock : Clock) (w : WriteConfirmations) (room : String) (write_key : WriteKey)
    (value : WriteValue) (baseline : ReadHealth) where
  pub record_here :
      outcome (record_pending clock w room write_key value baseline) room write_key
      ≡ some (new_confirmation clock value baseline)
  record_here =
      rw
        (
          outcome-record_pending,
          if_pos (string_discrete room room) refl,
          if_pos (WriteKey-discrete write_key write_key) refl,
        )
        refl

  pub record_beside :
      (key : WriteKey)
      → write_key ≢ key
      → outcome (record_pending clock w room write_key value baseline) room key ≡ outcome w room key
  record_beside key n =
      rw
        (
          outcome-record_pending,
          if_pos (string_discrete room room) refl,
          if_neg (WriteKey-discrete write_key key) n,
        )
        refl

  pub record_elsewhere :
      (other : String) (key : WriteKey)
      → room ≢ other
      → outcome (record_pending clock w room write_key value baseline) other key
        ≡ outcome w other key
  record_elsewhere other key n =
      rw (outcome-record_pending, if_neg (string_discrete room other) n) refl

-- The base mode writes beside a new one are finished.
abbrev pub OthersFinished : WriteConfirmations → String → WriteKey → Type 0
OthersFinished w room WriteKey.airflow_levels =
    (unfinished (outcome w room WriteKey.operation_mode) ≡ 0)
    × (unfinished (outcome w room WriteKey.preset_mode) ≡ 0)
OthersFinished w room WriteKey.operation_mode =
    (unfinished (outcome w room WriteKey.airflow_levels) ≡ 0)
    × (unfinished (outcome w room WriteKey.preset_mode) ≡ 0)
OthersFinished w room WriteKey.preset_mode =
    (unfinished (outcome w room WriteKey.airflow_levels) ≡ 0)
    × (unfinished (outcome w room WriteKey.operation_mode) ≡ 0)
OthersFinished w room _ = Unit

recorded_unfinished :
    (clock : Clock) (w : WriteConfirmations) (room : String) (write_key : WriteKey)
    (value : WriteValue) (baseline : ReadHealth)
    → OneUnfinished w
    → OthersFinished w room write_key
    → unfinished_writes (record_pending clock w room write_key value baseline) room ≤ 1
recorded_unfinished clock w room WriteKey.airflow_levels value baseline h o =
    let r = record_beside clock w room WriteKey.airflow_levels value baseline in
    rw
      (
        record_here clock w room WriteKey.airflow_levels value baseline,
        r WriteKey.operation_mode (ground arith),
        r WriteKey.preset_mode (ground arith),
      )
      (omega (arith, o.0, o.1, unfinished_le_one (new_confirmation clock value baseline)))
recorded_unfinished clock w room WriteKey.operation_mode value baseline h o =
    let r = record_beside clock w room WriteKey.operation_mode value baseline in
    rw
      (
        record_here clock w room WriteKey.operation_mode value baseline,
        r WriteKey.airflow_levels (ground arith),
        r WriteKey.preset_mode (ground arith),
      )
      (omega (arith, o.0, o.1, unfinished_le_one (new_confirmation clock value baseline)))
recorded_unfinished clock w room WriteKey.preset_mode value baseline h o =
    let r = record_beside clock w room WriteKey.preset_mode value baseline in
    rw
      (
        record_here clock w room WriteKey.preset_mode value baseline,
        r WriteKey.airflow_levels (ground arith),
        r WriteKey.operation_mode (ground arith),
      )
      (omega (arith, o.0, o.1, unfinished_le_one (new_confirmation clock value baseline)))
recorded_unfinished clock w room WriteKey.intensive value baseline h o =
    let r = record_beside clock w room WriteKey.intensive value baseline in
    rw
      (
        r WriteKey.airflow_levels (ground arith),
        r WriteKey.operation_mode (ground arith),
        r WriteKey.preset_mode (ground arith),
      )
      (h room)
recorded_unfinished clock w room (WriteKey.control_setting s) value baseline h o =
    let r = record_beside clock w room (WriteKey.control_setting s) value baseline in
    rw
      (
        r WriteKey.airflow_levels (ground arith),
        r WriteKey.operation_mode (ground arith),
        r WriteKey.preset_mode (ground arith),
      )
      (h room)

pub record_pending-OneUnfinished :
    (clock : Clock) (w : WriteConfirmations) (room : String) (write_key : WriteKey)
    (value : WriteValue) (baseline : ReadHealth)
    → OneUnfinished w
    → OthersFinished w room write_key
    → OneUnfinished (record_pending clock w room write_key value baseline)
record_pending-OneUnfinished clock w room write_key value baseline h o other =
    elim (string_discrete room other) [
      | yes e ↦ rw (← e) (recorded_unfinished clock w room write_key value baseline h o)
      | no n ↦
          let r = record_elsewhere clock w room write_key value baseline other in
          rw (r WriteKey.airflow_levels n, r WriteKey.operation_mode n, r WriteKey.preset_mode n)
            (h other)
    ]

pub supersede-OthersFinished :
    (w : WriteConfirmations) (room : String) (write_key : WriteKey)
    → OthersFinished (supersede w room write_key).0 room write_key
unfolding is_base_mode_write
supersede-OthersFinished w room WriteKey.airflow_levels =
    let f = superseded_finished w room WriteKey.airflow_levels in
    (
      f WriteKey.operation_mode refl refl (ground arith),
      f WriteKey.preset_mode refl refl (ground arith),
    )
supersede-OthersFinished w room WriteKey.operation_mode =
    let f = superseded_finished w room WriteKey.operation_mode in
    (
      f WriteKey.airflow_levels refl refl (ground arith),
      f WriteKey.preset_mode refl refl (ground arith),
    )
supersede-OthersFinished w room WriteKey.preset_mode =
    let f = superseded_finished w room WriteKey.preset_mode in
    (
      f WriteKey.airflow_levels refl refl (ground arith),
      f WriteKey.operation_mode refl refl (ground arith),
    )
supersede-OthersFinished w room WriteKey.intensive = tt
supersede-OthersFinished w room (WriteKey.control_setting s) = tt

replaced-Finishes :
    (write_key key : WriteKey) (o : Option WriteConfirmation)
    → unfinished (Option.map (replaced_by write_key key) o) ≤ unfinished o
unfolding unfinished is_final
replaced-Finishes write_key key none = omega arith
replaced-Finishes write_key key (some c) =
    if_both (λ (x : WriteConfirmation). unfinished (some x) ≤ unfinished (some c))
      (is_replaced write_key key c) (record c { status = WriteStatus.superseded }) c
      (λ _. omega arith) (λ _. omega arith)

pub supersede-Finishes :
    (w : WriteConfirmations) (room : String) (write_key : WriteKey)
    → Finishes w (supersede w room write_key).0
supersede-Finishes w room write_key other key = rw (outcome-supersede w room other write_key key) (
    if_both (λ (o : Option WriteConfirmation). unfinished o ≤ unfinished (outcome w other key))
      (is_base_mode_write write_key) _ _
      (λ _. elim (string_discrete room other) [
        | yes e ↦ rw (if_pos _ e) (replaced-Finishes write_key key (outcome w other key))
        | no n ↦ rw (if_neg _ n) (omega arith)
      ])
      (λ _. omega arith))
