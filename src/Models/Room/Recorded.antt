-- ===== src/Models/Room/Recorded.antt =====
-- RoomState.with_read_health and read_health_for: the recorded health of a read group.
use meltem_ha.Const.Groups.{ReadGroup-discrete as dec}
use meltem_ha.Const.Groups.{ReadGroup}
use meltem_ha.Models.Health.{ReadHealth}
use meltem_ha.Models.Room.{RoomState, insert_sorted, read_health_for, sorted, with_read_health}
use meltem_ha.Prelude.{List, [], arith, if_pos, ite, none, refl, some, ◌∙◌, ◌∷◌, ◌≡◌}
use meltem_ha.Prelude.Assoc.{
  Distinct, fill, fill-Distinct, insert, insert-Distinct, lookup, lookup-fill, lookup-insert,
}

-- A pair of a new key stands among the sorted ones as in a dictionary.
lookup-insert_sorted :
    (k j : ReadGroup) (h : ReadHealth) (l : List (ReadGroup × ReadHealth))
    → lookup dec k l ≡ none
    → lookup dec j (insert_sorted k h l) ≡ ite (dec k j) (some h) (lookup dec j l)
unfolding lookup insert_sorted
lookup-insert_sorted k j h [] new = refl
lookup-insert_sorted k j h ((g, x) ∷ l) new = ground (arith, lookup-insert_sorted k j h l)

insert_sorted-Distinct :
    (k : ReadGroup) (h : ReadHealth) (l : List (ReadGroup × ReadHealth))
    → lookup dec k l ≡ none
    → Distinct dec l
    → Distinct dec (insert_sorted k h l)
unfolding lookup insert_sorted
insert_sorted-Distinct k h [] new d = (refl, tt)
insert_sorted-Distinct k h ((g, x) ∷ l) new d =
    ground (arith, lookup-insert_sorted k g h l, insert_sorted-Distinct k h l)

pub lookup-sorted :
    (j : ReadGroup) (l : List (ReadGroup × ReadHealth))
    → Distinct dec l
    → (lookup dec j (sorted l) ≡ lookup dec j l) × Distinct dec (sorted l)
unfolding lookup sorted
lookup-sorted j [] d = (refl, tt)
lookup-sorted j ((g, x) ∷ l) d = ground (
  arith,
  lookup-sorted j l,
  lookup-sorted g l,
  lookup-insert_sorted g j x (sorted l),
  insert_sorted-Distinct g x (sorted l),
)

-- After one group's health is replaced, that group has the new health and every other group has
-- the one it had, whatever was recorded before and in whatever order.
pub read_health_for-with_read_health :
    (s : RoomState) (k j : ReadGroup) (h : ReadHealth)
    → read_health_for (with_read_health s k h) j ≡ ite (dec k j) h (read_health_for s j)
unfolding read_health_for with_read_health lookup
read_health_for-with_read_health s k j h =
    let known = fill dec [] s.group_read_health in
    let d = insert-Distinct dec k h known (fill-Distinct dec [] s.group_read_health tt) in
    let at_sorted = lookup-sorted j (insert dec k h known) d in
    let at_filled = lookup-fill dec j [] (sorted (insert dec k h known)) in
    elim (dec k j) [
      | yes p ↦ ground (arith, at_filled, at_sorted, lookup-insert dec k j h known)
      | no p ↦ ground (arith, at_filled, at_sorted, lookup-insert dec k j h known)
    ]

pub read_health_for-with_read_health_self :
    (s : RoomState) (k : ReadGroup) (h : ReadHealth)
    → read_health_for (with_read_health s k h) k ≡ h
read_health_for-with_read_health_self s k h =
    read_health_for-with_read_health s k k h ∙ if_pos (dec k k) refl h (read_health_for s k)
