-- ===== src/NewUnits/Latest.antt =====
-- new_units.py: the issue after the checks of a run.
use mathlib.Core.Option.{some-injective}
use meltem_ha.ModbusHelpers.Discovery.{has_address}
use meltem_ha.NewUnits.{
  NewUnitIssue, UnitsCall, addresses_discrete, call_for, insert_address, new_addresses, unchecked,
  update_units,
}
use meltem_ha.Prelude.{
  Bool-cases, List, [], ap, arith, decb_no, decb_yes, eqb→eq, inl, inr, not, refl, some, sym, ℕ,
  ◌&&◌, ◌==◌, ◌||◌, ◌∙◌, ◌∷◌, ◌≡◌,
}
use meltem_ha.WriteConfirmation.Store.{reported}

-- The checks of a run, in their order: what the gateway reported, and what was set up then
abbrev pub check_all : List (List ℕ × List ℕ) → NewUnitIssue → NewUnitIssue
check_all [] s = s
check_all ((reported, configured) ∷ checks) s =
    check_all checks (update_units reported configured s)

-- The addresses of the issue that the registry shows after the calls, from an earlier issue
abbrev pub addresses_shown : List ℕ → List UnitsCall → List ℕ
addresses_shown earlier [] = earlier
addresses_shown earlier (UnitsCall.create_units_issue l ∷ calls) = l
addresses_shown earlier (UnitsCall.delete_units_issue ∷ calls) = []

-- What was reported last is what the registry shows.
abbrev Settled : List ℕ → NewUnitIssue → Type 0
Settled earlier s = (l : List ℕ) → s.reported ≡ some l → addresses_shown earlier s.calls ≡ l

shown_call :
    (earlier l : List ℕ) (calls : List UnitsCall) → addresses_shown earlier (call_for l ∷ calls) ≡ l
unfolding call_for
shown_call earlier [] calls = refl
shown_call earlier (a ∷ l) calls = refl

update_units-Settled :
    (earlier reported configured : List ℕ) (s : NewUnitIssue)
    → Settled earlier s
    → Settled earlier (update_units reported configured s)
      × (addresses_shown earlier (update_units reported configured s).calls
          ≡ new_addresses reported configured)
unfolding update_units
update_units-Settled earlier reported configured s h =
    let new_units = new_addresses reported configured in
    elim (addresses_discrete (some new_units) s.reported) [
      | yes p ↦
          rw (decb_yes (addresses_discrete (some new_units) s.reported) p) (h, h new_units (sym p))
      | no n ↦ rw (decb_no (addresses_discrete (some new_units) s.reported) n) (
        λ l e. shown_call earlier new_units s.calls ∙ some-injective new_units l e,
        shown_call earlier new_units s.calls,
      )
    ]

check_all-Settled :
    (earlier : List ℕ) (checks : List (List ℕ × List ℕ)) (s : NewUnitIssue)
    → Settled earlier s
    → Settled earlier (check_all checks s)
check_all-Settled earlier [] s h = h
check_all-Settled earlier ((reported, configured) ∷ checks) s h =
    check_all-Settled earlier checks (update_units reported configured s)
      (update_units-Settled earlier reported configured s h).0

has_address-insert_address :
    (a b : ℕ) (l : List ℕ) → has_address a (insert_address b l) ≡ (a == b || has_address a l)
unfolding has_address insert_address
has_address-insert_address a b [] = ground arith
has_address-insert_address a b (c ∷ l) = ground (arith, has_address-insert_address a b l)

has_address-new_addresses :
    (a : ℕ) (reported configured : List ℕ)
    → has_address a (new_addresses reported configured)
      ≡ (has_address a reported && not (has_address a configured))
unfolding new_addresses has_address
has_address-new_addresses a [] configured = refl
has_address-new_addresses a (b ∷ reported) configured =
    let rest = has_address-new_addresses a reported configured in
    let inserted = has_address-insert_address a b (new_addresses reported configured) in
    elim (Bool-cases (a == b)) [
      | inl e ↦
          let same : has_address b configured ≡ has_address a configured =
            ap (λ c. has_address c configured) (sym (eqb→eq a b e)) in
          rw same (ground (arith, rest, inserted))
      | inr n ↦ ground (arith, rest, inserted)
    ]

-- Whatever issue an earlier run left and whatever was checked before: after a check the registry
-- shows exactly the addresses that the gateway reports and that are not set up.
pub addresses_shown-update_units :
    (earlier : List ℕ) (checks : List (List ℕ × List ℕ)) (reported configured : List ℕ) (a : ℕ)
    → has_address a (
        addresses_shown earlier
          (update_units reported configured (check_all checks unchecked)).calls)
      ≡ (has_address a reported && not (has_address a configured))
addresses_shown-update_units earlier checks reported configured a =
    ap (has_address a)
      (update_units-Settled earlier reported configured (check_all checks unchecked)
        (check_all-Settled earlier checks unchecked (λ l e. absurd (ground arith)))).1
    ∙ has_address-new_addresses a reported configured
