-- ===== src/ModbusHelpers/Discovery/Addresses.antt =====
-- modbus_helpers.py: which addresses a discovery reports.
use mathlib.Core.Path.{subst}
use meltem_ha.ModbusHelpers.Discovery.{
  Reply, add_address, addresses_found, collect_addresses, discover_gateway_nodes, discovery_failed,
  has_address, max_node_addresses,
}
use meltem_ha.Prelude.{
  Bool, Bool-cases, List, [], ap, arith, false, inl, inr, leb, leb→le, min, not, ok, ok-injective,
  refl, sym, true, ℕ, ◌&&◌, ◌++◌, ◌==◌, ◌||◌, ◌∙◌, ◌∷◌, ◌≡◌, ◌≢◌, ◌≤◌, ◌⊎◌,
}

-- What the found addresses are: in range, none of them zero, and none of them twice.
abbrev pub AreAddresses : ℕ → ℕ → List ℕ → Type 0
AreAddresses start end [] = Unit
AreAddresses start end (a ∷ l) =
    (a ≢ 0) × (start ≤ a) × (a ≤ end) × (has_address a l ≡ false) × AreAddresses start end l

has_address-append :
    (a b : ℕ) (l : List ℕ) → has_address a (l ++ b ∷ []) ≡ (has_address a l || a == b)
unfolding has_address
has_address-append a b [] = ground arith
has_address-append a b (x ∷ l) = ground (arith, has_address-append a b l)

AreAddresses-append :
    (start end b : ℕ) (l : List ℕ)
    → AreAddresses start end l
    → b ≢ 0
    → start ≤ b
    → b ≤ end
    → has_address b l ≡ false
    → AreAddresses start end (l ++ b ∷ [])
unfolding has_address
AreAddresses-append start end b [] h n s e f = (n, s, e, refl, tt)
AreAddresses-append start end b (x ∷ l) h n s e f = (
  h.0,
  h.1,
  h.2,
  ground (arith, has_address-append x b l, h.3),
  AreAddresses-append start end b l h.4 n s e (ground arith),
)

add_address-AreAddresses :
    (start end a : ℕ) (found : List ℕ)
    → AreAddresses start end found
    → AreAddresses start end (add_address start end a found)
unfolding add_address
add_address-AreAddresses start end a found h = elim (Bool-cases (a == 0 || has_address a found)) [
  | inl e ↦ rw e h
  | inr e ↦ elim (Bool-cases (leb start a && leb a end)) [
    | inl f ↦
        rw (e, f)
          (AreAddresses-append start end a found h (ground arith) (ground arith) (ground arith)
            (ground arith))
    | inr f ↦ rw (e, f) h
  ]
]

collect_addresses-AreAddresses :
    (start end : ℕ) (addresses found : List ℕ)
    → AreAddresses start end found
    → AreAddresses start end (collect_addresses start end addresses found)
unfolding collect_addresses
collect_addresses-AreAddresses start end [] found h = h
collect_addresses-AreAddresses start end (a ∷ addresses) found h =
    collect_addresses-AreAddresses start end addresses (add_address start end a found)
      (add_address-AreAddresses start end a found h)

-- An address is among the found ones exactly if it was, or is the new one and fits.
has_address-add_address :
    (start end a b : ℕ) (found : List ℕ)
    → has_address b (add_address start end a found)
      ≡ (has_address b found || (b == a && (not (a == 0) && (leb start a && leb a end))))
unfolding add_address
has_address-add_address start end a b found =
    ground (arith, has_address-append b a found, ap (λ (x : ℕ). has_address x found))

-- `a` is reported, is not zero, and lies in the range.
abbrev pub fits : ℕ → ℕ → ℕ → Bool
fits start end a = not (a == 0) && (leb start a && leb a end)

has_address-collect_addresses :
    (start end b : ℕ) (addresses found : List ℕ)
    → has_address b (collect_addresses start end addresses found)
      ≡ (has_address b found || (has_address b addresses && fits start end b))
unfolding collect_addresses has_address
has_address-collect_addresses start end b [] found = ground arith
has_address-collect_addresses start end b (a ∷ addresses) found = ground (
  arith,
  has_address-collect_addresses start end b addresses (add_address start end a found),
  has_address-add_address start end a b found,
)

module _ {A : Type 0} (found : List ℕ) where
  -- A failed request finds nothing, or raises; if the check is strict, it raises.
  nothing_found :
      (reply : Reply A) (strict : Bool) → discovery_failed reply strict ≡ ok found → found ≡ []
  unfolding discovery_failed
  nothing_found Reply.connection_lost strict h = absurd (ground arith)
  nothing_found _ strict h = ground arith

  strict_raises : (reply : Reply A) → discovery_failed reply true ≢ ok found
  unfolding discovery_failed
  strict_raises Reply.connection_lost = ground arith
  strict_raises _ = ground arith

module _ (start end : ℕ) (read : ℕ → Reply (List ℕ)) (found : List ℕ) where
  none_fit : found ≡ [] → AreAddresses start end found
  none_fit e = rw e tt

  found_fit :
      (strict : Bool) (reply : Reply (List ℕ))
      → addresses_found start end strict reply ≡ ok found
      → AreAddresses start end found
  unfolding addresses_found
  found_fit strict (Reply.value addresses) h =
      subst (AreAddresses start end)
        (ok-injective (collect_addresses start end addresses []) found h)
        (collect_addresses-AreAddresses start end addresses [] tt)
  found_fit strict reply h = none_fit (nothing_found found reply strict h)

  -- Whatever the gateway replies, a discovery that succeeds returns addresses of the scan range,
  -- none of them zero, and none of them twice.
  pub discover_gateway_nodes-AreAddresses :
      (count : Reply ℕ) (strict : Bool)
      → discover_gateway_nodes count read start end strict ≡ ok found
      → AreAddresses start end found
  unfolding discover_gateway_nodes
  discover_gateway_nodes-AreAddresses (Reply.value n) strict h = elim (Bool-cases (leb n 0)) [
    | inl e ↦ none_fit (sym (ok-injective [] found (rw e at h)))
    | inr e ↦ found_fit strict (read (min max_node_addresses n)) (rw e at h)
  ]
  discover_gateway_nodes-AreAddresses reply strict h = none_fit (nothing_found found reply strict h)

  strict_found :
      (reply : Reply (List ℕ))
      → addresses_found start end true reply ≡ ok found
      → (l : List ℕ) × (reply ≡ Reply.value l)
        × ((b : ℕ) → has_address b found ≡ (has_address b l && fits start end b))
  unfolding addresses_found has_address
  strict_found (Reply.value l) h = (
    l,
    refl,
    λ b.
        ap (has_address b) (sym (ok-injective _ found h))
        ∙ has_address-collect_addresses start end b l [],
  )
  strict_found reply h = absurd (strict_raises found reply h)

  -- A strict discovery cannot pass a failed request for an empty list: if it succeeds, the node
  -- count was read, and either it was zero and nothing is found, or the addresses of the first 32
  -- nodes at most were read, and exactly those that are not zero and lie in the scan range are
  -- found.
  pub discover_gateway_nodes_strict :
      (count : Reply ℕ)
      → discover_gateway_nodes count read start end true ≡ ok found
      → (n : ℕ) × (count ≡ Reply.value n)
        × (((n ≡ 0) × (found ≡ []))
            ⊎ ((l : List ℕ) × (read (min max_node_addresses n) ≡ Reply.value l)
                × ((b : ℕ) → has_address b found ≡ (has_address b l && fits start end b))))
  unfolding discover_gateway_nodes
  discover_gateway_nodes_strict (Reply.value n) h = elim (Bool-cases (leb n 0)) [
    | inl e ↦ (n, refl, inl (omega (arith, leb→le n 0 e), sym (ok-injective [] found (rw e at h))))
    | inr e ↦ (n, refl, inr (strict_found (read (min max_node_addresses n)) (rw e at h)))
  ]
  discover_gateway_nodes_strict reply h = absurd (strict_raises found reply h)
