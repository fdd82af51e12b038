-- ===== src/ModbusClient/Staged/Covered.antt =====
-- modbus_client.py: the marks of the client against what is staged on a unit.
use mathlib.Core.List.{append-nil, append_assoc}
use mathlib.Core.Path.{subst}
use meltem_ha.Device.{ModeField}
use meltem_ha.ModbusClient.Staged.{
  Marks, Script, WriteAnswer, is_accepted, mark_staged, names_or_empty, staged_of, write_all,
  write_mode_registers,
}
use meltem_ha.Prelude.{
  Bool, In, In-append_left, In-append_right, List, [], arith, false, if_both, if_neg, if_pos,
  if_true, if◌then◌else◌, inl, inr, refl, sym, true, ℕ, ◌&&◌, ◌++◌, ◌∷◌, ◌≡◌, ◌≢◌,
}
use meltem_ha.Prelude.Assoc.{lookup, lookup-insert, lookup-remove, remove}
use native.Mathlib.Decide.{ℕ_discrete}

-- What a unit holds staged after the writes of a command, and whether it got them all.
abbrev pub unit_writes : Script → List ModeField → List ModeField
unit_writes [] staged = staged
unit_writes ((name, WriteAnswer.taken) ∷ script) staged = unit_writes script (name ∷ staged)
unit_writes ((name, WriteAnswer.refused) ∷ script) staged = staged
unit_writes ((name, WriteAnswer.no_response true) ∷ script) staged = name ∷ staged
unit_writes ((name, WriteAnswer.no_response false) ∷ script) staged = staged

-- The commit applies what is staged, if the unit gets it.
abbrev pub unit_applies : WriteAnswer → List ModeField → List ModeField
unit_applies WriteAnswer.taken staged = []
unit_applies (WriteAnswer.no_response true) staged = []
unit_applies _ staged = staged

-- A command as the unit sees it: the commit is sent after the last write was accepted.
abbrev pub unit_after : Script → WriteAnswer → List ModeField → List ModeField
unit_after script apply staged =
    if (write_all script).1
    then unit_applies apply (unit_writes script staged)
    else unit_writes script staged

-- Commands to the units of a gateway, one after the other: the marks of the client, and what one
-- unit holds.
pub data Commanded (slave : ℕ) : Marks → List ModeField → Type 0 where
  fresh : Commanded slave [] []
  own :
      (marks : Marks) (staged : List ModeField) (script : Script) (apply : WriteAnswer)
      → Commanded slave marks staged
      → Commanded slave
          (write_mode_registers slave script apply marks).0
          (unit_after script apply staged)
  foreign :
      (marks : Marks) (staged : List ModeField) (other : ℕ) (script : Script) (apply : WriteAnswer)
      → other ≢ slave
      → Commanded slave marks staged
      → Commanded slave (write_mode_registers other script apply marks).0 staged

-- Every element of one list is an element of another.
abbrev Within : List ModeField → List ModeField → Type 0
Within xs ys = (name : ModeField) → In name xs → In name ys

-- One register more on both sides
with_last :
    (n : ModeField) (staged marked : List ModeField)
    → Within staged marked
    → Within (n ∷ staged) (marked ++ n ∷ [])
with_last n staged marked h name (inl e) = In-append_right name marked (n ∷ []) (inl e)
with_last n staged marked h name (inr i) = In-append_left name marked (n ∷ []) (h name i)

written-Within :
    (script : Script) (staged marked : List ModeField)
    → Within staged marked
    → Within (unit_writes script staged) (marked ++ (write_all script).0)
unfolding write_all
written-Within [] staged marked h name i = In-append_left name marked [] (h name i)
written-Within ((n, WriteAnswer.taken) ∷ script) staged marked h name i =
    subst (In name) (append_assoc marked (n ∷ []) (write_all script).0)
      (written-Within script (n ∷ staged) (marked ++ n ∷ []) (with_last n staged marked h) name i)
written-Within ((n, WriteAnswer.refused) ∷ script) staged marked h name i =
    In-append_left name marked [] (h name i)
written-Within ((n, WriteAnswer.no_response true) ∷ script) staged marked h name i =
    with_last n staged marked h name i
written-Within ((n, WriteAnswer.no_response false) ∷ script) staged marked h name i =
    In-append_left name marked (n ∷ []) (h name i)

applied-Within :
    (apply : WriteAnswer) (staged marked : List ModeField)
    → Within staged marked
    → Within (unit_applies apply staged) marked
applied-Within WriteAnswer.taken staged marked h name i = absurd i
applied-Within WriteAnswer.refused staged marked h name i = h name i
applied-Within (WriteAnswer.no_response true) staged marked h name i = absurd i
applied-Within (WriteAnswer.no_response false) staged marked h name i = h name i

unit_after-Within :
    (script : Script) (apply : WriteAnswer) (staged marked : List ModeField)
    → Within staged marked
    → Within (unit_after script apply staged) (marked ++ (write_all script).0)
unit_after-Within script apply staged marked h =
    let w = written-Within script staged marked h in
    if_both (λ l. Within l (marked ++ (write_all script).0)) (write_all script).1
      (unit_applies apply (unit_writes script staged)) (unit_writes script staged)
      (λ _. applied-Within apply (unit_writes script staged) _ w) (λ _. w)

-- The mark of a unit after an interrupted command
marked_lookup :
    (slave : ℕ) (names : List ModeField) (marks : Marks)
    → staged_of slave (mark_staged slave names marks) ≡ staged_of slave marks ++ names
unfolding mark_staged staged_of names_or_empty
marked_lookup slave [] marks = sym (append-nil (names_or_empty (lookup ℕ_discrete slave marks)))
marked_lookup slave (n ∷ names) marks =
    rw (lookup-insert, if_pos (ℕ_discrete slave slave) refl) refl

marked_elsewhere :
    (slave other : ℕ) (names : List ModeField) (marks : Marks)
    → other ≢ slave
    → staged_of slave (mark_staged other names marks) ≡ staged_of slave marks
unfolding mark_staged staged_of
marked_elsewhere slave other [] marks h = refl
marked_elsewhere slave other (n ∷ names) marks h =
    rw (lookup-insert, if_neg (ℕ_discrete other slave) h) refl

removed_elsewhere :
    (slave other : ℕ) (marks : Marks)
    → other ≢ slave
    → staged_of slave (remove ℕ_discrete other marks) ≡ staged_of slave marks
unfolding staged_of
removed_elsewhere slave other marks h = rw (lookup-remove, if_neg (ℕ_discrete other slave) h) refl

-- A command that returned left nothing staged.
returned_empty :
    (script : Script) (apply : WriteAnswer) (staged : List ModeField)
    → (write_all script).1 && is_accepted apply ≡ true
    → unit_after script apply staged ≡ []
returned_empty script WriteAnswer.taken staged h = if_true (write_all script).1 _ _ (ground arith)
returned_empty script WriteAnswer.refused staged h = absurd (ground arith)
returned_empty script (WriteAnswer.no_response b) staged h = absurd (ground arith)

own-Within :
    (slave : ℕ) (script : Script) (apply : WriteAnswer) (marks : Marks) (staged : List ModeField)
    → Within staged (staged_of slave marks)
    → Within
        (unit_after script apply staged)
        (staged_of slave (write_mode_registers slave script apply marks).0)
unfolding write_mode_registers
own-Within slave script apply marks staged h =
    if_both (λ (r : Marks × Bool). Within (unit_after script apply staged) (staged_of slave r.0))
      ((write_all script).1 && is_accepted apply) (remove ℕ_discrete slave marks, true)
      (mark_staged slave (write_all script).0 marks, false)
      (λ t name i. absurd (subst (In name) (returned_empty script apply staged t) i))
      (λ _ name i.
        subst (In name) (sym (marked_lookup slave (write_all script).0 marks))
          (unit_after-Within script apply staged (staged_of slave marks) h name i))

foreign_same :
    (slave other : ℕ) (script : Script) (apply : WriteAnswer) (marks : Marks)
    → other ≢ slave
    → staged_of slave (write_mode_registers other script apply marks).0 ≡ staged_of slave marks
unfolding write_mode_registers
foreign_same slave other script apply marks h =
    if_both (λ (r : Marks × Bool). staged_of slave r.0 ≡ staged_of slave marks)
      ((write_all script).1 && is_accepted apply) (remove ℕ_discrete other marks, true)
      (mark_staged other (write_all script).0 marks, false)
      (λ _. removed_elsewhere slave other marks h)
      (λ _. marked_elsewhere slave other (write_all script).0 marks h)

-- Whatever commands were sent to the units of a gateway, and wherever they were interrupted: a
-- register that a unit holds staged is marked, so that the next command that would apply it
-- without writing it can warn.
pub Commanded-In :
    (slave : ℕ) (marks : Marks) (staged : List ModeField) (name : ModeField)
    → Commanded slave marks staged
    → In name staged
    → In name (staged_of slave marks)
Commanded-In slave marks staged name Commanded.fresh i = absurd i
Commanded-In slave _ _ name (Commanded.own marks staged script apply r) i =
    own-Within slave script apply marks staged (λ n j. Commanded-In slave marks staged n r j) name i
Commanded-In slave _ staged name (Commanded.foreign marks _ other script apply h r) i =
    subst (In name) (sym (foreign_same slave other script apply marks h))
      (Commanded-In slave marks staged name r i)
