-- ===== src/ModbusHelpers/Discovery.antt =====
-- modbus_helpers.py: the addresses of the units that a gateway is configured for.
pub mod Addresses
use meltem_ha.Prelude.{
  Bool, List, Result, [], any, connection_error, if◌then◌else◌, leb, min, modbus_error, not, ok,
  raise, ℕ, ◌&&◌, ◌++◌, ◌==◌, ◌||◌, ◌∷◌,
}

-- How a request of the gateway's registers ends: with a value, or with an error of the link
-- library. A timeout carries whether the link is still open.
pub data Reply (A : Type 0) : Type 0 where
  value : A → Reply A
  connection_lost : Reply A
  timed_out : Bool → Reply A
  other_error : Reply A

abbrev pub max_node_addresses : ℕ
max_node_addresses = 32

-- Whether an error is a dead link, which `_discovery_failed` always raises.
unfoldable pub discovery_failed : {A : Type 0} → Reply A → Bool → Result (List ℕ)
discovery_failed connection_lost strict = raise connection_error
discovery_failed (timed_out connected) strict =
    if not connected then raise connection_error else if strict then raise modbus_error else ok []
discovery_failed _ strict = if strict then raise modbus_error else ok []

-- `address in discovered`
unfoldable pub has_address : ℕ → List ℕ → Bool
has_address address addresses = any (λ a. address == a) addresses

-- One round of the loop: what has been found, after an address.
unfoldable pub add_address : ℕ → ℕ → ℕ → List ℕ → List ℕ
add_address start end address discovered =
    if address == 0 || has_address address discovered
    then discovered
    else if leb start address && leb address end
    then discovered ++ address ∷ []
    else discovered

-- The loop over the reported addresses, with the list found so far.
unfoldable pub collect_addresses : ℕ → ℕ → List ℕ → List ℕ → List ℕ
collect_addresses start end [] discovered = discovered
collect_addresses start end (address ∷ addresses) discovered =
    collect_addresses start end addresses (add_address start end address discovered)

addresses_found : ℕ → ℕ → Bool → Reply (List ℕ) → Result (List ℕ)
unfolding discovery_failed
addresses_found start end strict (value addresses) = ok (collect_addresses start end addresses [])
addresses_found start end strict error = discovery_failed error strict

-- `read_addresses n` is the reply to the read of the first `n` node addresses.
unfoldable pub discover_gateway_nodes :
    Reply ℕ → (ℕ → Reply (List ℕ)) → ℕ → ℕ → Bool → Result (List ℕ)
unfolding addresses_found discovery_failed
discover_gateway_nodes (value node_count) read_addresses start end strict =
    if leb node_count 0
    then ok []
    else addresses_found start end strict (read_addresses (min max_node_addresses node_count))
discover_gateway_nodes error read_addresses start end strict = discovery_failed error strict
