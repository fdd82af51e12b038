-- ===== src/ModbusHelpers/Probe.antt =====
-- modbus_helpers.py: the setup-time probe of one unit, against a unit that replies to each read.
pub mod Retries
pub mod Detection
use meltem_ha.ModbusHelpers.{is_plausible}
use meltem_ha.Prelude.{
  Bool, List, Option, Result, String, [], connection_error, false, if◌then◌else◌, none, not, ok,
  raise, suc, true, zero, ℕ, ◌>>=◌, ◌||◌, ◌∷◌,
}
use meltem_ha.Prelude.Assoc.{insert, lookup}

-- How one probe read ends: with a value, or with an error of the link library. A timeout carries
-- whether the link is still open.
pub data ProbeReply (A : Type 0) : Type 0 where
  value : A → ProbeReply A
  connection_lost : ProbeReply A
  timed_out : Bool → ProbeReply A
  protocol_error : ProbeReply A
  modbus_exception : ProbeReply A

-- _ProbeOutcome, with the value that was read
pub data ProbeOutcome (A : Type 0) : Type 0 where
  value : A → ProbeOutcome A
  absent : ProbeOutcome A
  silent : ProbeOutcome A

-- The loop of `_probe_read`, by the retries left: `retried` is that none is left. `reply k` is
-- the reply to the read with `k` retries left.
unfoldable pub probe_loop : {A : Type 0} → Bool → (ℕ → ProbeReply A) → ℕ → Result (ProbeOutcome A)
probe_loop answered reply zero = elim (reply zero) [
  | value v ↦ ok (ProbeOutcome.value v)
  | connection_lost ↦ raise connection_error
  | timed_out connected ↦ if not connected then raise connection_error else ok ProbeOutcome.silent
  | protocol_error ↦ ok ProbeOutcome.silent
  | modbus_exception ↦ ok ProbeOutcome.absent
]
probe_loop answered reply (suc retries) = elim (reply (suc retries)) [
  | value v ↦ ok (ProbeOutcome.value v)
  | connection_lost ↦ raise connection_error
  | timed_out connected ↦
      if not connected
      then raise connection_error
      else if not answered
      then ok ProbeOutcome.silent
      else probe_loop answered reply retries
  | protocol_error ↦ probe_loop answered reply retries
  | modbus_exception ↦ ok ProbeOutcome.absent
]

-- _probe_read: one read, and one retry
unfoldable pub probe_read : {A : Type 0} → Bool → (ℕ → ProbeReply A) → Result (ProbeOutcome A)
unfolding probe_loop
probe_read answered reply = probe_loop answered reply 1

pub data ProbeComponent : Type 0 where
  product_id humidity_extract_air humidity_supply_air co2_extract_air : ProbeComponent
  voc_supply_air : ProbeComponent

unfoldable pub ProbeComponent-discrete : Discrete ProbeComponent
ProbeComponent-discrete = hlevel

-- _PROBE_COMPONENTS
abbrev pub probe_components : List ProbeComponent
probe_components =
    ProbeComponent.product_id ∷ ProbeComponent.humidity_extract_air
    ∷ ProbeComponent.humidity_supply_air ∷ ProbeComponent.co2_extract_air
    ∷ ProbeComponent.voc_supply_air ∷ []

abbrev pub ProbeValues : Type 0
ProbeValues = List (ProbeComponent × ℕ)

-- What the loop over the components has found: the values, whether the unit ever answered, and
-- whether it fell silent.
pub record ProbeState : Type 0 where
  pub values : ProbeValues
  pub answered : Bool
  pub is_silent : Bool

after_outcome : ProbeComponent → ProbeState → ProbeOutcome ℕ → ProbeState
after_outcome name s (value v) = record s {
  values = insert ProbeComponent-discrete name v s.values;
  answered = true;
}
after_outcome name s absent = record s { answered = true }
after_outcome name s silent = record s { is_silent = true }

unfoldable pub probe_all :
    (ProbeComponent → ℕ → ProbeReply ℕ) → List ProbeComponent → ProbeState → Result ProbeState
unfolding after_outcome
probe_all reply [] s = ok s
probe_all reply (name ∷ names) s = elim (probe_read s.answered (reply name)) [
  | ok outcome ↦
      let next = after_outcome name s outcome in
      let rest = probe_all reply names next in if next.is_silent then ok next else rest
  | raise e ↦ raise e
]

-- `outcome, app_setup_code`: the code, if it was read
code_of : ProbeOutcome (Option String) → Option String
code_of (value code) = code
code_of absent = none
code_of silent = none

setup_code : (ℕ → ProbeReply (Option String)) → ProbeState → Result (Option String)
unfolding code_of
setup_code reply s =
    if s.is_silent then ok none else do outcome ← probe_read s.answered reply; ok (code_of outcome)

-- `values.get(name)`, judged by the range of the register
unfoldable pub detected : ProbeValues → ProbeComponent → String → Bool
detected values name key = is_plausible key (lookup ProbeComponent-discrete name values)

-- _SUFFIXES: the richest suffix with a detected sensor
unfoldable pub detected_profile : ProbeValues → String
unfolding detected
detected_profile values =
    if detected values ProbeComponent.voc_supply_air "voc_supply_air"
    then "fc_voc"
    else if detected values ProbeComponent.co2_extract_air "co2_extract_air"
    then "fc"
    else if detected values ProbeComponent.humidity_extract_air "humidity_extract_air"
        || detected values ProbeComponent.humidity_supply_air "humidity_supply_air"
    then "f"
    else "plain"

-- The result of a probe, without the text of its preview.
pub record ProbeResult : Type 0 where
  pub profile : String
  pub product_id : Option ℕ
  pub app_setup_code : Option String

unfoldable pub detect_slave_details :
    (ProbeComponent → ℕ → ProbeReply ℕ) → (ℕ → ProbeReply (Option String)) → Result ProbeResult
unfolding setup_code detected_profile
detect_slave_details reply code_reply = do
  s ← probe_all reply probe_components (record { values = []; answered = false; is_silent = false })
  app_setup_code ← setup_code code_reply s
  ok (record {
    profile = detected_profile s.values;
    product_id = lookup ProbeComponent-discrete ProbeComponent.product_id s.values;
    app_setup_code = app_setup_code;
  })
