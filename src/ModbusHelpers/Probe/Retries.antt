-- ===== src/ModbusHelpers/Probe/Retries.antt =====
-- modbus_helpers.py: a lost reply does not change what the probe of an answering unit finds.
use meltem_ha.ModbusHelpers.{is_plausible}
use meltem_ha.ModbusHelpers.Probe.{
  ProbeComponent, ProbeComponent-discrete, ProbeOutcome, ProbeReply, ProbeState, after_outcome,
  probe_all, probe_components, probe_read,
}
use meltem_ha.Prelude.{
  Bool, List, Option, String, [], arith, false, if◌then◌else◌, none, ok, refl, some, suc, true,
  zero, ℕ, ◌||◌, ◌∙◌, ◌∷◌, ◌≡◌,
}
use meltem_ha.Prelude.Assoc.{insert, lookup}

-- The unit's answer to a component: a value, or an exception response where the register is absent.
abbrev pub answer : {A : Type 0} → Option A → ProbeReply A
answer (some v) = ProbeReply.value v
answer none = ProbeReply.modbus_exception

-- The replies to the two reads of a component; `lost` says that the first reply was garbled.
abbrev pub replies : {A : Type 0} → Bool → Option A → ℕ → ProbeReply A
replies lost v zero = answer v
replies lost v (suc _) = if lost then ProbeReply.protocol_error else answer v

-- The outcome of a component that answers.
abbrev pub outcome_of : {A : Type 0} → Option A → ProbeOutcome A
outcome_of (some v) = ProbeOutcome.value v
outcome_of none = ProbeOutcome.absent

pub probe_read-replies :
    {A : Type 0} (answered lost : Bool) (v : Option A)
    → probe_read answered (replies lost v) ≡ ok (outcome_of v)
unfolding probe_read
probe_read-replies answered false (some v) = refl
probe_read-replies answered false none = refl
probe_read-replies answered true (some v) = refl
probe_read-replies answered true none = refl

-- The state after a component that answered.
abbrev pub noted : ProbeComponent → Option ℕ → ProbeState → ProbeState
noted name (some v) s = record s {
  values = insert ProbeComponent-discrete name v s.values;
  answered = true;
}
noted name none s = record s { answered = true }

abbrev pub noted_all : (ProbeComponent → Option ℕ) → List ProbeComponent → ProbeState → ProbeState
noted_all v [] s = s
noted_all v (name ∷ names) s = noted_all v names (noted name (v name) s)

after_outcome-outcome_of :
    (name : ProbeComponent) (s : ProbeState) (o : Option ℕ)
    → after_outcome name s (outcome_of o) ≡ noted name o s
unfolding after_outcome
after_outcome-outcome_of name s (some v) = refl
after_outcome-outcome_of name s none = refl

is_silent-noted :
    (name : ProbeComponent) (s : ProbeState) (o : Option ℕ)
    → (noted name o s).is_silent ≡ s.is_silent
is_silent-noted name s (some v) = refl
is_silent-noted name s none = refl

probe_all_step :
    (reply : ProbeComponent → ℕ → ProbeReply ℕ) (name : ProbeComponent)
    (names : List ProbeComponent) (s : ProbeState) (outcome : ProbeOutcome ℕ)
    → probe_read s.answered (reply name) ≡ ok outcome
    → (after_outcome name s outcome).is_silent ≡ false
    → probe_all reply (name ∷ names) s ≡ probe_all reply names (after_outcome name s outcome)
unfolding probe_all
probe_all_step reply name names s outcome e awake = ground arith

pub probe_all-replies :
    (lost : ProbeComponent → Bool) (v : ProbeComponent → Option ℕ) (names : List ProbeComponent)
    (s : ProbeState)
    → s.is_silent ≡ false
    → probe_all (λ c. replies (lost c) (v c)) names s ≡ ok (noted_all v names s)
unfolding probe_all
probe_all-replies lost v [] s h = refl
probe_all-replies lost v (name ∷ names) s h =
    let noted_it = after_outcome-outcome_of name s (v name) in
    let awake = is_silent-noted name s (v name) ∙ h in
    probe_all_step (λ c. replies (lost c) (v c)) name names s (outcome_of (v name))
      (probe_read-replies s.answered (lost name) (v name)) (rw noted_it awake)
    ∙ rw noted_it (probe_all-replies lost v names (noted name (v name) s) awake)

-- The profile that a unit's sensor values show.
abbrev pub profile_of : (ProbeComponent → Option ℕ) → String
profile_of v =
    if is_plausible "voc_supply_air" (v ProbeComponent.voc_supply_air)
    then "fc_voc"
    else if is_plausible "co2_extract_air" (v ProbeComponent.co2_extract_air)
    then "fc"
    else if is_plausible "humidity_extract_air" (v ProbeComponent.humidity_extract_air)
        || is_plausible "humidity_supply_air" (v ProbeComponent.humidity_supply_air)
    then "f"
    else "plain"

pub found_values :
    (v : ProbeComponent → Option ℕ) (name : ProbeComponent)
    → lookup ProbeComponent-discrete name
        (noted_all v probe_components
          (record { values = []; answered = false; is_silent = false })).values
      ≡ v name
unfolding lookup insert ProbeComponent-discrete
found_values v ProbeComponent.product_id = ground arith
found_values v _ = ground arith
