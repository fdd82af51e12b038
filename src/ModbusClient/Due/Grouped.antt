-- ===== src/ModbusClient/Due/Grouped.antt =====
-- modbus_client.py: the components of _due_reads and their groups against the due fields.
use meltem_ha.Const.Groups.{ReadGroup, ReadGroup-discrete}
use meltem_ha.ModbusClient.Due.{FieldRead, add_read, add_reads, due_reads, groups_or_empty}
use meltem_ha.Prelude.{
  Bool, List, String, [], any, arith, decb, decb_no, decb_yes, if_both, if_neg, if_pos, refl, true,
  ◌&&◌, ◌++◌, ◌||◌, ◌∷◌, ◌≡◌,
}
use meltem_ha.Prelude.Assoc.{
  Distinct, insert, insert-Distinct, lookup, lookup-insert, string_discrete,
}
use meltem_ha.ReadHealth.{has_group}

abbrev dec : Discrete String
dec = string_discrete

add_read-Distinct :
    (source : FieldRead) (reads : List (String × List ReadGroup))
    → Distinct dec reads
    → Distinct dec (add_read source reads)
unfolding add_read
add_read-Distinct source reads d =
    if_both (λ (r : List (String × List ReadGroup)). Distinct dec r)
      (has_group source.group (groups_or_empty (lookup string_discrete source.component reads)))
      reads _ (λ _. d) (λ _. insert-Distinct dec source.component _ reads d)

add_reads-Distinct :
    (due : List (String × FieldRead)) (reads : List (String × List ReadGroup))
    → Distinct dec reads
    → Distinct dec (add_reads due reads)
unfolding add_reads
add_reads-Distinct [] reads d = d
add_reads-Distinct ((name, source) ∷ due) reads d =
    add_reads-Distinct due (add_read source reads) (add_read-Distinct source reads d)

pub due_reads-Distinct : (due : List (String × FieldRead)) → Distinct dec (due_reads due)
unfolding due_reads
due_reads-Distinct due = add_reads-Distinct due [] tt

-- Whether a field of a group is read from a component
abbrev pub reads_field : String → ReadGroup → String × FieldRead → Bool
reads_field c g field =
    decb (string_discrete field.1.component c) && decb (ReadGroup-discrete g field.1.group)

-- The groups that the outcome of a component counts for
abbrev pub groups_of : String → List (String × List ReadGroup) → List ReadGroup
groups_of c reads = groups_or_empty (lookup string_discrete c reads)

has_group_last :
    (g h : ReadGroup) (groups : List ReadGroup)
    → has_group g (groups ++ h ∷ []) ≡ (has_group g groups || decb (ReadGroup-discrete g h))
unfolding has_group
has_group_last g h [] = ground arith
has_group_last g h (x ∷ groups) = ground (arith, has_group_last g h groups)

-- A group that counts already
counted :
    (c : String) (g : ReadGroup) (name : String) (source : FieldRead)
    (reads : List (String × List ReadGroup))
    → has_group source.group (groups_of source.component reads) ≡ true
    → has_group g (groups_of c reads)
      ≡ (has_group g (groups_of c reads) || reads_field c g (name, source))
counted c g name source reads t = elim (string_discrete source.component c) [
  | no n ↦ rw (decb_no (string_discrete source.component c) n) (ground arith)
  | yes p ↦ elim (ReadGroup-discrete g source.group) [
    | no n ↦ rw (decb_no (ReadGroup-discrete g source.group) n) (ground arith)
    | yes q ↦
        let known : has_group g (groups_of c reads) ≡ true = rw q (rw (← p) t) in rw known refl
  ]
]

-- A group that is added to those of its component
added :
    (c : String) (g : ReadGroup) (name : String) (source : FieldRead)
    (reads : List (String × List ReadGroup))
    → has_group g (
        groups_of c (
          insert string_discrete source.component
            (groups_of source.component reads ++ source.group ∷ [])
            reads))
      ≡ (has_group g (groups_of c reads) || reads_field c g (name, source))
unfolding groups_or_empty
added c g name source reads = elim (string_discrete source.component c) [
  | yes p ↦
      rw
        (
          ← p,
          lookup-insert,
          if_pos (string_discrete source.component source.component) refl,
          decb_yes (string_discrete source.component source.component) refl,
        )
        (has_group_last g source.group (groups_of source.component reads))
  | no n ↦
      rw
        (
          lookup-insert,
          if_neg (string_discrete source.component c) n,
          decb_no (string_discrete source.component c) n,
        )
        (ground arith)
]

groups_of-add_read :
    (c : String) (g : ReadGroup) (name : String) (source : FieldRead)
    (reads : List (String × List ReadGroup))
    → has_group g (groups_of c (add_read source reads))
      ≡ (has_group g (groups_of c reads) || reads_field c g (name, source))
unfolding add_read
groups_of-add_read c g name source reads =
    if_both
      (λ (r : List (String × List ReadGroup)).
        has_group g (groups_of c r)
        ≡ (has_group g (groups_of c reads) || reads_field c g (name, source)))
      (has_group source.group (groups_of source.component reads)) reads _
      (counted c g name source reads) (λ _. added c g name source reads)

groups_of-add_reads :
    (c : String) (g : ReadGroup) (due : List (String × FieldRead))
    (reads : List (String × List ReadGroup))
    → has_group g (groups_of c (add_reads due reads))
      ≡ (has_group g (groups_of c reads) || any (reads_field c g) due)
unfolding add_reads
groups_of-add_reads c g [] reads = ground arith
groups_of-add_reads c g ((name, source) ∷ due) reads = ground (
  arith,
  groups_of-add_reads c g due (add_read source reads),
  groups_of-add_read c g name source reads,
)

-- The outcome of reading a component counts for the groups of its due fields, each of them, and
-- for no other group.
pub groups_of-due_reads :
    (c : String) (g : ReadGroup) (due : List (String × FieldRead))
    → has_group g (groups_of c (due_reads due)) ≡ any (reads_field c g) due
unfolding due_reads lookup has_group groups_or_empty
groups_of-due_reads c g due = groups_of-add_reads c g due []
