-- ===== src/ReadHealth/Failures.antt =====
-- read_health.py: a failed job is recorded once for each group that it covers, and nowhere else.

use meltem_ha.Const.Groups.{ReadGroup, read_group_entity_keys}
use meltem_ha.Models.Config.{RoomConfig, supports_any}
use meltem_ha.Models.Health.{Clock, failed}
use meltem_ha.Models.Plan.{RefreshPlan, read_groups}
use meltem_ha.Models.Room.{RoomState, read_health_for, with_read_health}
use meltem_ha.Models.Room.Recorded.{read_health_for-with_read_health}
use meltem_ha.Polling.{supported_groups}
use meltem_ha.Prelude.{
  Bool, Bool-cases, List, String, [], ap, arith, false, if◌then◌else◌, inl, inr, refl, suc, true, ℕ,
  ◌++◌, ◌<◌, ◌||◌, ◌∙◌, ◌∷◌, ◌≡◌, ◌≢◌, ◌≤◌,
}
use meltem_ha.ReadHealth.{fail_groups, has_group, record_read_failures}

abbrev NoRepeat : List ReadGroup → Type 0
NoRepeat [] = Unit
NoRepeat (g ∷ groups) = (has_group g groups ≡ false) × NoRepeat groups

-- The place of a group in the order in which a plan lists its groups.
place : ReadGroup → ℕ
place ReadGroup.flow = 0
place ReadGroup.flow_control = 1
place ReadGroup.intensive = 2
place ReadGroup.status = 3
place ReadGroup.temperature = 4
place ReadGroup.air_quality = 5
place ReadGroup.filter = 6
place ReadGroup.hours = 7
place ReadGroup.fan_hours = 8
place ReadGroup.rf_last_seen = 9
place ReadGroup.rf_signal = 10
place ReadGroup.device_fault = 11
place ReadGroup.value_error = 12
place ReadGroup.control_settings = 13

-- The places rise strictly, from `lo` to below `hi`.
abbrev Rising : ℕ → List ReadGroup → ℕ → Type 0
Rising lo [] hi = lo ≤ hi
Rising lo (g ∷ groups) hi = (lo ≤ place g) × Rising (suc (place g)) groups hi

Rising-append :
    (a b c : ℕ) (xs ys : List ReadGroup) → Rising a xs b → Rising b ys c → Rising a (xs ++ ys) c
Rising-append a b c [] [] h k = omega arith
Rising-append a b c [] (y ∷ ys) h k = (omega (arith, h, k.0), k.1)
Rising-append a b c (x ∷ xs) ys h k = (h.0, Rising-append (suc (place x)) b c xs ys h.1 k)

absent :
    (g : ReadGroup) (groups : List ReadGroup) (lo hi : ℕ)
    → place g < lo
    → Rising lo groups hi
    → has_group g groups ≡ false
unfolding has_group
absent g [] lo hi h r = refl
absent g (x ∷ groups) lo hi h r =
    let ne : g ≢ x = λ e. let p : place g ≡ place x = ap place e in omega (arith, r.0) in
    let rest = absent g groups (suc (place x)) hi (omega (arith, r.0)) r.1 in
    ground (arith, ne, rest)

Rising-NoRepeat : (groups : List ReadGroup) (lo hi : ℕ) → Rising lo groups hi → NoRepeat groups
Rising-NoRepeat [] lo hi r = tt
Rising-NoRepeat (g ∷ groups) lo hi r = (
  absent g groups (suc (place g)) hi (omega arith) r.1,
  Rising-NoRepeat groups (suc (place g)) hi r.1,
)

-- A part of a plan's list that stands under a test.
Rising-if :
    (b : Bool) (xs : List ReadGroup) {a c : ℕ}
    → a ≤ c
    → Rising a xs c
    → Rising a (if b then xs else []) c
Rising-if true xs h r = r
Rising-if false xs h r = h

read_groups-NoRepeat : (plan : RefreshPlan) → NoRepeat (read_groups plan)
unfolding read_groups place
read_groups-NoRepeat plan = Rising-NoRepeat _ 0 14 (
    Rising-append _ 3 14 _ _ (Rising-if plan.refresh_airflow _ (omega arith) (omega arith)) (
      Rising-append _ 4 14 _ _ (Rising-if plan.refresh_status _ (omega arith) (omega arith)) (
        Rising-append _ 5 14 _ _ (Rising-if plan.refresh_temperatures _ (omega arith) (omega arith))
          (Rising-append _ 6 14 _ _
            (Rising-if plan.refresh_environment _ (omega arith) (omega arith))
            (Rising-append _ 7 14 _ _
              (Rising-if (plan.refresh_filter_change_due || plan.refresh_filter_days) _
                (omega arith) (omega arith))
              (Rising-append _ 9 14 _ _
                (Rising-if plan.refresh_operating_hours _ (omega arith) (omega arith))
                (Rising-append _ 13 14 _ _
                  (Rising-if plan.refresh_rf_diagnostics _ (omega arith) (omega arith))
                  (Rising-if plan.refresh_control_settings _ (omega arith) (omega arith)))))))))

absent_supported :
    (room : RoomConfig) (g : ReadGroup) (groups : List ReadGroup)
    → has_group g groups ≡ false
    → has_group g (supported_groups room groups) ≡ false
unfolding has_group supported_groups
absent_supported room g [] h = refl
absent_supported room g (x ∷ groups) h = ground (arith, absent_supported room g groups)

-- The state after one group of a job has failed.
abbrev after_one : RoomState → ReadGroup → ℕ → String → RoomState
after_one s g at error = with_read_health s g (failed (read_health_for s g) at error false)

one_more :
    (room : RoomConfig) (at : ℕ) (error : String) (groups : List ReadGroup) (s : RoomState)
    (g j : ReadGroup)
    → has_group g groups ≡ false
    → (if has_group j (supported_groups room groups)
        then failed (read_health_for (after_one s g at error) j) at error false
        else read_health_for (after_one s g at error) j)
      ≡ (if has_group j (g ∷ supported_groups room groups)
          then failed (read_health_for s j) at error false
          else read_health_for s j)
unfolding has_group
one_more room at error groups s g j h =
    let health = failed (read_health_for s g) at error false in
    ground (arith, read_health_for-with_read_health s g j health, absent_supported room g groups h)

read_health_for-fail_groups :
    (room : RoomConfig) (at : ℕ) (error : String) (groups : List ReadGroup) (s : RoomState)
    (j : ReadGroup)
    → NoRepeat groups
    → read_health_for (fail_groups room at error groups s) j ≡ (
        if has_group j (supported_groups room groups)
        then failed (read_health_for s j) at error false
        else read_health_for s j)
unfolding fail_groups has_group supported_groups
read_health_for-fail_groups room at error [] s j n = refl
read_health_for-fail_groups room at error (g ∷ groups) s j n =
    elim (Bool-cases (supports_any room (read_group_entity_keys g))) [
      | inl has_it ↦ rw has_it (
          read_health_for-fail_groups room at error groups (after_one s g at error) j n.1
          ∙ one_more room at error groups s g j n.0)
      | inr lacks_it ↦ rw lacks_it (read_health_for-fail_groups room at error groups s j n.1)
    ]

-- A failed job counts one more failure for each group of its plan that the room has an entity of,
-- with the job's error as a plain failure, and leaves the health of every other group.
pub read_health_for-record_read_failures :
    (clock : Clock) (s : RoomState) (room : RoomConfig) (plan : RefreshPlan) (error : String)
    (j : ReadGroup)
    → read_health_for (record_read_failures clock s room plan error) j ≡ (
        if has_group j (supported_groups room (read_groups plan))
        then failed (read_health_for s j) clock.utcnow error false
        else read_health_for s j)
unfolding record_read_failures
read_health_for-record_read_failures clock s room plan error j =
    read_health_for-fail_groups room clock.utcnow error (read_groups plan) s j
      (read_groups-NoRepeat plan)
