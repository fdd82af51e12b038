-- ===== src/Tests/Helpers.antt =====
-- Discovery, the probe and the control settings at concrete inputs.
use meltem_ha.ModbusHelpers.Discovery.{
  Reply, add_address, collect_addresses, discover_gateway_nodes, has_address, max_node_addresses,
}
use meltem_ha.ModbusHelpers.Discovery.Addresses.{
  AreAddresses, discover_gateway_nodes-AreAddresses, discover_gateway_nodes_strict, fits,
}
use meltem_ha.ModbusHelpers.Probe.{ProbeComponent}
use meltem_ha.Prelude.{List, Option, [], min, none, refl, some, true, ℕ, ◌&&◌, ◌∷◌, ◌≡◌, ◌⊎◌}

abbrev node_list : ℕ → Reply (List ℕ)
node_list n = Reply.value (2 ∷ 0 ∷ 300 ∷ 3 ∷ 2 ∷ [])

abbrev two_found : List ℕ
two_found = 2 ∷ 3 ∷ []

addresses_example : AreAddresses 2 247 two_found
unfolding discover_gateway_nodes collect_addresses add_address has_address
addresses_example =
    discover_gateway_nodes-AreAddresses 2 247 node_list two_found (Reply.value 5) true refl

strict_example :
    (n : ℕ) × (Reply.value 5 ≡ Reply.value n)
    × (((n ≡ 0) × (two_found ≡ []))
        ⊎ ((l : List ℕ) × (node_list (min max_node_addresses n) ≡ Reply.value l)
            × ((b : ℕ) → has_address b two_found ≡ (has_address b l && fits 2 247 b))))
unfolding discover_gateway_nodes collect_addresses add_address has_address
strict_example = discover_gateway_nodes_strict 2 247 node_list two_found (Reply.value 5) refl

abbrev sensor_values : ProbeComponent → Option ℕ
sensor_values ProbeComponent.product_id = some 109655
sensor_values ProbeComponent.humidity_extract_air = some 45
sensor_values _ = none
