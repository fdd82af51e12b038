-- ===== src/NewUnits.antt =====
-- new_units.py: the issue of units that the gateway reports but that are not set up. The text from
-- which `restore` takes the addresses of an earlier run is not modelled.
pub mod Latest
use meltem_ha.ModbusHelpers.Discovery.{has_address}
use meltem_ha.Prelude.{List, Option, [], decb, if◌then◌else◌, ltb, none, some, ℕ, ◌==◌, ◌∷◌}
use meltem_ha.WriteConfirmation.Store.{reported}
use native.Mathlib.Decide.{ℕ_discrete}

unfoldable pub addresses_discrete : Discrete (Option (List ℕ))
addresses_discrete = hlevel ℕ_discrete

-- A call that creates the issue, or replaces what it says, or that deletes it
pub data UnitsCall : Type 0 where
  create_units_issue : List ℕ → UnitsCall
  delete_units_issue : UnitsCall

-- The addresses of the last check, and the calls made, the last one first
pub record NewUnitIssue : Type 0 where
  pub reported : Option (List ℕ)
  pub calls : List UnitsCall

abbrev pub unchecked : NewUnitIssue
unchecked = record { reported = none; calls = [] }

-- A set in its order
unfoldable pub insert_address : ℕ → List ℕ → List ℕ
insert_address a [] = a ∷ []
insert_address a (b ∷ l) =
    let rest = insert_address a l in
    if a == b then b ∷ l else if ltb a b then a ∷ b ∷ l else b ∷ rest

-- `tuple(sorted(set(reported) - set(configured)))`
unfoldable pub new_addresses : List ℕ → List ℕ → List ℕ
new_addresses [] configured = []
new_addresses (a ∷ reported) configured =
    let rest = new_addresses reported configured in
    if has_address a configured then rest else insert_address a rest

unfoldable pub call_for : List ℕ → UnitsCall
call_for [] = UnitsCall.delete_units_issue
call_for (a ∷ l) = UnitsCall.create_units_issue (a ∷ l)

-- NewUnitIssue.update
unfoldable pub update_units : List ℕ → List ℕ → NewUnitIssue → NewUnitIssue
update_units reported configured s =
    let new_units = new_addresses reported configured in
    if decb (addresses_discrete (some new_units) s.reported)
    then s
    else record { reported = some new_units; calls = call_for new_units ∷ s.calls }
