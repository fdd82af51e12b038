-- ===== src/ModbusHelpers/Probe/Detection.antt =====
-- modbus_helpers.py: what the setup probe concludes about a unit.
use meltem_ha.ModbusHelpers.{is_plausible}
use meltem_ha.ModbusHelpers.Probe.{
  ProbeComponent, ProbeComponent-discrete, ProbeReply, ProbeResult, ProbeState,
  detect_slave_details, detected_profile, probe_all, probe_components, probe_read, setup_code,
}
use meltem_ha.ModbusHelpers.Probe.Retries.{
  found_values, noted_all, probe_all-replies, probe_read-replies, profile_of, replies,
}
use meltem_ha.Prelude.{
  Bool, Option, Result, String, [], arith, false, none, ok, refl, some, true, ℕ, ◌>>=◌, ◌≡◌,
}
use meltem_ha.Prelude.Assoc.{lookup}

abbrev start : ProbeState
start = record { values = []; answered = false; is_silent = false }

after_probe : (code_reply : ℕ → ProbeReply (Option String)) → ProbeState → Result ProbeResult
unfolding setup_code detected_profile
after_probe code_reply s = do
  app_setup_code ← setup_code code_reply s
  ok (record {
    profile = detected_profile s.values;
    product_id = lookup ProbeComponent-discrete ProbeComponent.product_id s.values;
    app_setup_code = app_setup_code;
  })

awake : (v : ProbeComponent → Option ℕ) → (noted_all v probe_components start).is_silent ≡ false
awake v = ground arith

after_probe_of :
    (v : ProbeComponent → Option ℕ) (code_lost : Bool) (code : Option String) (s : ProbeState)
    → s.is_silent ≡ false
    → ((name : ProbeComponent) → lookup ProbeComponent-discrete name s.values ≡ v name)
    → after_probe (replies code_lost (some code)) s
      ≡ ok (record {
        profile = profile_of v;
        product_id = v ProbeComponent.product_id;
        app_setup_code = code;
      })
unfolding after_probe
after_probe_of v code_lost code s h f = ground (
  arith,
  probe_read-replies s.answered code_lost (some code),
  f ProbeComponent.product_id,
  f ProbeComponent.humidity_extract_air,
  f ProbeComponent.humidity_supply_air,
  f ProbeComponent.co2_extract_air,
  f ProbeComponent.voc_supply_air,
)

after_probe-noted_all :
    (v : ProbeComponent → Option ℕ) (code_lost : Bool) (code : Option String)
    → after_probe (replies code_lost (some code)) (noted_all v probe_components start)
      ≡ ok (record {
        profile = profile_of v;
        product_id = v ProbeComponent.product_id;
        app_setup_code = code;
      })
after_probe-noted_all v code_lost code =
    after_probe_of v code_lost code (noted_all v probe_components start) (awake v) (found_values v)

-- A unit that answers every read, be it with an exception response, and even if the first reply
-- of any of its registers is garbled, is given the profile of its richest plausible sensor, and
-- its product ID and setup code are those that it reports.
pub detect_slave_details-replies :
    (lost : ProbeComponent → Bool) (code_lost : Bool) (v : ProbeComponent → Option ℕ)
    (code : Option String)
    → detect_slave_details (λ c. replies (lost c) (v c)) (replies code_lost (some code))
      ≡ ok (record {
        profile = profile_of v;
        product_id = v ProbeComponent.product_id;
        app_setup_code = code;
      })
unfolding detect_slave_details after_probe
detect_slave_details-replies lost code_lost v code =
    rw (probe_all-replies lost v probe_components start refl)
      (after_probe-noted_all v code_lost code)

empty_profile : detected_profile [] ≡ "plain"
unfolding detected_profile is_plausible lookup
empty_profile = refl

-- A unit that does not answer its first read within the timeout is given up at once: no other
-- read matters, and it counts as a plain unit.
pub detect_slave_details-silent :
    (reply : ProbeComponent → ℕ → ProbeReply ℕ) (code_reply : ℕ → ProbeReply (Option String))
    → reply ProbeComponent.product_id 1 ≡ ProbeReply.timed_out true
    → detect_slave_details reply code_reply
      ≡ ok (record { profile = "plain"; product_id = none; app_setup_code = none })
unfolding detect_slave_details probe_all probe_read lookup
detect_slave_details-silent reply code_reply h = ground (arith, empty_profile)
