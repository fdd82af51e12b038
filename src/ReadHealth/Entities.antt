-- ===== src/ReadHealth/Entities.antt =====
-- read_health.py: the read group that delivers an entity's value.
use meltem_ha.Const.Groups.{ReadGroup, ReadGroup-discrete, read_group_entity_keys}
use meltem_ha.Prelude.{
  Bool, In, List, String, [], arith, decb, inl, inr, option_eq, refl, some, true, ◌&&◌, ◌∷◌, ◌≡◌,
}
use meltem_ha.ReadHealth.{read_group_for_entity}

-- Whether the table sends each of some keys to one group.
leads_to : ReadGroup → List String → Bool
leads_to g [] = true
leads_to g (key ∷ keys) =
    option_eq (λ a b. decb (ReadGroup-discrete a b)) (read_group_for_entity key) (some g)
    && leads_to g keys

leads_to-In :
    (g : ReadGroup) (keys : List String) (key : String)
    → leads_to g keys ≡ true
    → In key keys
    → read_group_for_entity key ≡ some g
unfolding leads_to
leads_to-In g [] key h i = absurd i
leads_to-In g (k ∷ keys) key h (inl p) = rw p (ground arith)
leads_to-In g (k ∷ keys) key h (inr i) = leads_to-In g keys key (ground arith) i

table : (g : ReadGroup) → leads_to g (read_group_entity_keys g) ≡ true
unfolding leads_to read_group_for_entity read_group_entity_keys ReadGroup-discrete
table ReadGroup.flow = refl
table _ = refl

-- No entity belongs to two read groups: the group found for an entity of a group is that group.
pub read_group_for_entity-In :
    (g : ReadGroup) (key : String)
    → In key (read_group_entity_keys g)
    → read_group_for_entity key ≡ some g
read_group_for_entity-In g key i = leads_to-In g (read_group_entity_keys g) key (table g) i
