-- ===== src/WriteConfirmation/Store.antt =====
-- write_confirmation.py: WriteConfirmations, the last outcome per unit and write key.
pub mod Final
pub mod Issues
pub mod Superseding
pub mod Ranges
pub mod Outcomes
use meltem_ha.Const.Groups.{Setting, Setting-discrete, control_level_ranges, setting_name}
use meltem_ha.ModbusHelpers.{normalize_control_setting}
use meltem_ha.Models.Config.{RoomConfig}
use meltem_ha.Models.Health.{Clock, ReadHealth}
use meltem_ha.Models.Room.{RoomState, setting_value}
use meltem_ha.Models.Writes.{
  WriteConfirmation, WriteKey, WriteKey-discrete, WriteStatus, WriteValue,
}
use meltem_ha.Prelude.{
  Bool, List, Option, Result, String, [], any, decb, false, if◌then◌else◌, ltb, none, not, ok,
  or_else, raise, service_validation_error, some, str_eq, true, ℕ, ◌&&◌, ◌++◌, ◌>>=◌, ◌||◌, ◌∷◌,
}
use meltem_ha.Prelude.Assoc.{insert, lookup, string_discrete}
use meltem_ha.WriteConfirmation.Judging.{
  Round, confirmation_status, is_base_mode_write, is_confirmable, is_final, is_pending,
  is_unhealthy, recent,
}

abbrev pub Confirmations : Type 0
Confirmations = List (WriteKey × WriteConfirmation)

abbrev pub Issue : Type 0
Issue = String × WriteKey × WriteStatus

unfoldable pub reported : String → WriteKey → Option WriteStatus → List Issue
reported room_key write_key none = []
reported room_key write_key (some status) = (room_key, write_key, status) ∷ []

-- `issues` are the calls of the issue callback, in order.
pub record WriteConfirmations : Type 0 where
  pub by_room : List (String × Confirmations)
  pub balanced_flow_converged : List String
  pub issues : List Issue

abbrev pub empty_write_confirmations : WriteConfirmations
empty_write_confirmations = record { by_room = []; balanced_flow_converged = []; issues = [] }

unfoldable pub confirmations_or_empty : Option Confirmations → Confirmations
confirmations_or_empty none = []
confirmations_or_empty (some confirmations) = confirmations

-- self.by_room.get(room_key, {})
unfoldable pub of_room : WriteConfirmations → String → Confirmations
unfolding confirmations_or_empty
of_room w room_key = confirmations_or_empty (lookup string_discrete room_key w.by_room)

-- self.by_room.get(room_key, {}).get(write_key)
unfoldable pub outcome : WriteConfirmations → String → WriteKey → Option WriteConfirmation
outcome w room_key write_key = lookup WriteKey-discrete write_key (of_room w room_key)

-- The room's outcomes with one replaced or added.
unfoldable pub set_outcome :
    WriteConfirmations → String → WriteKey → WriteConfirmation → WriteConfirmations
set_outcome w room_key write_key c = record w {
  by_room =
      insert string_discrete room_key (insert WriteKey-discrete write_key c (of_room w room_key))
        w.by_room;
}

-- set.discard
unfoldable pub discard : String → List String → List String
discard key [] = []
discard key (k ∷ keys) = let rest = discard key keys in if str_eq k key then rest else k ∷ rest

abbrev is_airflow_levels : WriteKey → Bool
is_airflow_levels WriteKey.airflow_levels = true
is_airflow_levels _ = false

abbrev pub new_confirmation : Clock → WriteValue → ReadHealth → WriteConfirmation
new_confirmation clock expected_value baseline = record {
  expected_value = expected_value;
  started_at = clock.utcnow;
  status = WriteStatus.pending;
  actual_value = none;
  last_error = none;
  issue_counted = false;
  baseline = baseline;
}

-- The set of converged rooms when a write is recorded: an airflow write starts its check anew.
abbrev pub after_airflow : String → WriteKey → WriteConfirmations → WriteConfirmations
after_airflow room_key write_key w = record w {
  balanced_flow_converged =
      if is_airflow_levels write_key
      then discard room_key w.balanced_flow_converged
      else w.balanced_flow_converged;
}

unfoldable pub record_pending :
    Clock → WriteConfirmations → String → WriteKey → WriteValue → ReadHealth → WriteConfirmations
unfolding set_outcome
record_pending clock w room_key write_key expected_value baseline =
    set_outcome (after_airflow room_key write_key w) room_key write_key
      (new_confirmation clock expected_value baseline)

-- Whether an accepted command of `write_key` finishes an earlier write.
unfoldable pub is_replaced : WriteKey → WriteKey → WriteConfirmation → Bool
is_replaced write_key previous_key c =
    not (decb (WriteKey-discrete previous_key write_key))
    && (is_base_mode_write previous_key && not (is_final c.status))

unfoldable pub supersede_all : WriteKey → Confirmations → Confirmations
unfolding is_replaced
supersede_all write_key [] = []
supersede_all write_key ((k, c) ∷ l) =
    (k, (if is_replaced write_key k c then record c { status = WriteStatus.superseded } else c))
    ∷ supersede_all write_key l

superseded_keys : WriteKey → Confirmations → List WriteKey
unfolding is_replaced
superseded_keys write_key [] = []
superseded_keys write_key ((k, c) ∷ l) =
    let rest = superseded_keys write_key l in if is_replaced write_key k c then k ∷ rest else rest

unfoldable pub supersede_room :
    WriteConfirmations
    → String
    → WriteKey
    → Option Confirmations
    → WriteConfirmations × List WriteKey
unfolding supersede_all superseded_keys
supersede_room w room_key write_key none = (w, [])
supersede_room w room_key write_key (some confirmations) = (
  record w {
    by_room = insert string_discrete room_key (supersede_all write_key confirmations) w.by_room;
  },
  superseded_keys write_key confirmations,
)

unfoldable pub supersede :
    WriteConfirmations → String → WriteKey → WriteConfirmations × List WriteKey
unfolding supersede_room
supersede w room_key write_key =
    if not (is_base_mode_write write_key)
    then (w, [])
    else supersede_room w room_key write_key (lookup string_discrete room_key w.by_room)

-- An expected value that is an `int`: a Boolean is one too.
unfoldable pub int_value : WriteValue → Option ℕ
int_value (WriteValue.level v) = some v
int_value (WriteValue.flag b) = some (if b then 1 else 0)
int_value _ = none

unfoldable pub awaiting : WriteStatus → Bool
awaiting WriteStatus.pending = true
awaiting WriteStatus.unconfirmed = true
awaiting _ = false

unfoldable pub unconfirmed_value : Option WriteConfirmation → Option ℕ
unfolding int_value awaiting
unconfirmed_value none = none
unconfirmed_value (some c) = if awaiting c.status then int_value c.expected_value else none

unfoldable pub unconfirmed_control_setting : WriteConfirmations → String → Setting → Option ℕ
unfolding unconfirmed_value
unconfirmed_control_setting w room_key setting =
    unconfirmed_value (outcome w room_key (WriteKey.control_setting setting))

-- A setting as it will be once accepted writes are read back.
unfoldable pub effective_setting : WriteConfirmations → String → RoomState → Setting → Option ℕ
effective_setting w room_key state setting =
    or_else (unconfirmed_control_setting w room_key setting) (setting_value state setting)

unfoldable pub above : Option ℕ → Option ℕ → Bool
above (some minimum) (some maximum) = ltb maximum minimum
above _ _ = false

unfoldable pub refuse_above : Option ℕ → Option ℕ → Result (Unit {0})
unfolding above
refuse_above minimum maximum =
    if above minimum maximum then raise (service_validation_error "control_level_range") else ok tt

-- One pair of CONTROL_LEVEL_RANGES.
unfoldable pub check_range :
    WriteConfirmations
    → RoomConfig
    → RoomState
    → Setting
    → ℕ
    → Setting × Setting
    → Result (Unit {0})
unfolding refuse_above
check_range w room state setting value (min_key, max_key) =
    let minimum = effective_setting w room.key state min_key in
    let maximum = effective_setting w room.key state max_key in
    if decb (Setting-discrete setting min_key)
    then (do
      m ← normalize_control_setting (setting_name min_key) value
      refuse_above (some m) maximum)
    else if decb (Setting-discrete setting max_key)
    then (do
      m ← normalize_control_setting (setting_name max_key) value
      refuse_above minimum (some m))
    else ok tt

unfoldable pub check_ranges :
    WriteConfirmations
    → RoomConfig
    → RoomState
    → Setting
    → ℕ
    → List (Setting × Setting)
    → Result (Unit {0})
unfolding check_range
check_ranges w room state setting value [] = ok tt
check_ranges w room state setting value (pair ∷ pairs) =
    let rest = check_ranges w room state setting value pairs in
    check_range w room state setting value pair >>= λ _. rest

unfoldable pub check_control_level_range :
    WriteConfirmations → RoomConfig → RoomState → Setting → ℕ → Result (Unit {0})
unfolding check_ranges
check_control_level_range w room state setting value =
    check_ranges w room state setting value control_level_ranges

has_recent : Clock → Option WriteConfirmation → Bool
has_recent clock none = false
has_recent clock (some c) = recent clock c

-- _has_recent_write
unfoldable pub has_recent_write : Clock → WriteConfirmations → String → WriteKey → Bool
unfolding has_recent
has_recent_write clock w room_key write_key = has_recent clock (outcome w room_key write_key)

-- One write whose status is set, with the issue that is reported.
unfoldable pub status_set :
    WriteConfirmation → WriteStatus → Option String → Option WriteValue → Round
status_set previous status error actual_value = record {
  confirmation = record previous {
    status = status;
    actual_value = actual_value;
    last_error = error;
    issue_counted = previous.issue_counted || is_unhealthy status;
  };
  issue = if is_unhealthy status && not previous.issue_counted then some status else none;
  changed = true;
}

-- `set_status` on the outcome that it finds
unfoldable pub set_found_status :
    WriteConfirmations
    → String
    → WriteKey
    → WriteStatus
    → Option String
    → Option WriteValue
    → Option WriteConfirmation
    → WriteConfirmations × Bool
unfolding set_outcome status_set
set_found_status w room_key write_key status error actual_value none = (w, false)
set_found_status w room_key write_key status error actual_value (some previous) =
    let one = status_set previous status error actual_value in
    let w' = set_outcome w room_key write_key one.confirmation in
    (record w' { issues = w.issues ++ reported room_key write_key one.issue }, one.changed)

unfoldable pub set_status :
    WriteConfirmations
    → String
    → WriteKey
    → WriteStatus
    → Option String
    → Option WriteValue
    → WriteConfirmations × Bool
unfolding set_found_status
set_status w room_key write_key status error actual_value =
    set_found_status w room_key write_key status error actual_value (outcome w room_key write_key)

unfoldable pub pending_outcome : Option WriteConfirmation → Bool
pending_outcome none = false
pending_outcome (some c) = is_pending c.status

unfoldable pub mark_unconfirmed :
    WriteConfirmations → String → WriteKey → String → WriteConfirmations × Bool
unfolding pending_outcome
mark_unconfirmed w room_key write_key error =
    if not (pending_outcome (outcome w room_key write_key))
    then (w, false)
    else set_status w room_key write_key WriteStatus.unconfirmed (some error) none

unfoldable pub has_any : WriteConfirmations → String → Bool
has_any w room_key = elim (of_room w room_key) [ [] ↦ false | _ ∷ _ ↦ true ]

unfoldable pub confirmable_outcome : Clock → Option WriteConfirmation → Bool
confirmable_outcome clock none = false
confirmable_outcome clock (some c) = is_confirmable c.status && recent clock c

unfoldable pub needs_confirmation : Clock → WriteConfirmations → String → WriteKey → Bool
unfolding confirmable_outcome
needs_confirmation clock w room_key write_key =
    confirmable_outcome clock (outcome w room_key write_key)

unfoldable pub unhealthy : Clock → WriteConfirmations → String → Bool
unhealthy clock w room_key =
    any (λ e. is_unhealthy (confirmation_status clock e.1) && recent clock e.1) (of_room w room_key)
