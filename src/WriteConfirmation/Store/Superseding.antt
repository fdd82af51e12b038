-- ===== src/WriteConfirmation/Store/Superseding.antt =====
-- write_confirmation.py: an accepted base mode write finishes the others of its room.
use mathlib.Core.Option
use mathlib.Core.Option.{some-injective}
use meltem_ha.Models.Writes.{WriteConfirmation, WriteKey, WriteKey-discrete, WriteStatus}
use meltem_ha.Prelude.{
  Bool, Bool-cases, Option, String, [], ap, arith, decb_no, false, if_neg, if_pos, if◌then◌else◌,
  inl, inr, ite, none, not, refl, some, sym, true, ◌&&◌, ◌∙◌, ◌∷◌, ◌≡◌, ◌≢◌,
}
use meltem_ha.Prelude.Assoc.{lookup, lookup-insert, string_discrete}
use meltem_ha.WriteConfirmation.Judging.{is_base_mode_write, is_final}
use meltem_ha.WriteConfirmation.Store.{
  Confirmations, WriteConfirmations, confirmations_or_empty, is_replaced, of_room, outcome,
  supersede, supersede_all, supersede_room,
}
-- The outcome that a command of `write_key` leaves of an earlier one.
use meltem_ha.Models.Writes.{WriteConfirmation, WriteKey, WriteKey-discrete, WriteStatus}
use meltem_ha.Prelude.{Option, String, [], if◌then◌else◌, refl, some, true, ◌&&◌, ◌∷◌, ◌≡◌, ◌≢◌}
use meltem_ha.Prelude.Assoc.{lookup}
use meltem_ha.WriteConfirmation.Judging.{is_base_mode_write, is_final}
use meltem_ha.WriteConfirmation.Store.{
  Confirmations, WriteConfirmations, is_replaced, outcome, supersede, supersede_all,
}

abbrev pub replaced_by : WriteKey → WriteKey → WriteConfirmation → WriteConfirmation
replaced_by write_key key c =
    if is_replaced write_key key c then record c { status = WriteStatus.superseded } else c

lookup-supersede_all :
    (write_key key : WriteKey) (l : Confirmations)
    → lookup WriteKey-discrete key (supersede_all write_key l)
      ≡ Option.map (replaced_by write_key key) (lookup WriteKey-discrete key l)
unfolding supersede_all lookup
lookup-supersede_all write_key key [] = refl
lookup-supersede_all write_key key ((k, c) ∷ l) = elim (WriteKey-discrete k key) [
  | yes p ↦ rw (if_pos _ p, if_pos (WriteKey-discrete k key) p, p) refl
  | no n ↦
      rw (if_neg _ n, if_neg (WriteKey-discrete k key) n) (lookup-supersede_all write_key key l)
]

outcome-supersede_room :
    (w : WriteConfirmations) (room_key room : String) (write_key key : WriteKey)
    (o : Option Confirmations)
    → lookup string_discrete room_key w.by_room ≡ o
    → outcome (supersede_room w room_key write_key o).0 room key
      ≡ ite
          (string_discrete room_key room)
          (Option.map (replaced_by write_key key) (outcome w room key))
          (outcome w room key)
unfolding outcome of_room supersede_room confirmations_or_empty lookup WriteKey-discrete
outcome-supersede_room w room_key room write_key key none h = elim (string_discrete room_key room) [
  | yes p ↦ rw (if_pos _ p, ← p, h) refl
  | no n ↦ rw (if_neg _ n) refl
]
outcome-supersede_room w room_key room write_key key (some l) h =
    elim (string_discrete room_key room) [
      | yes p ↦
          rw (lookup-insert, if_pos _ p, if_pos (string_discrete room_key room) p, ← p, h)
            (lookup-supersede_all write_key key l)
      | no n ↦ rw (lookup-insert, if_neg _ n, if_neg (string_discrete room_key room) n) refl
    ]

-- A command finishes exactly the unfinished base mode outcomes of its room under other keys, and
-- only when it is itself a base mode write: every other outcome, of this room or another, stays.
pub outcome-supersede :
    (w : WriteConfirmations) (room_key room : String) (write_key key : WriteKey)
    → outcome (supersede w room_key write_key).0 room key ≡ (
        if is_base_mode_write write_key
        then ite
            (string_discrete room_key room)
            (Option.map (replaced_by write_key key) (outcome w room key))
            (outcome w room key)
        else outcome w room key)
unfolding supersede
outcome-supersede w room_key room write_key key = elim (Bool-cases (is_base_mode_write write_key)) [
  | inl t ↦ rw (t) (outcome-supersede_room w room_key room write_key key _ refl)
  | inr f ↦ rw (f) refl
]

replaced_final :
    (other base : Bool) (b : WriteConfirmation)
    → other ≡ false
    → base ≡ true
    → is_final
        (if not other && (base && not (is_final b.status))
          then record b { status = WriteStatus.superseded }
          else b).status
      ≡ true
unfolding is_final
replaced_final other base b h k = ground arith

replaced_by-final :
    (write_key key : WriteKey) (o : Option WriteConfirmation) (c : WriteConfirmation)
    → is_base_mode_write key ≡ true
    → key ≢ write_key
    → Option.map (replaced_by write_key key) o ≡ some c
    → is_final c.status ≡ true
unfolding is_replaced
replaced_by-final write_key key none c k n e = absurd (ground arith)
replaced_by-final write_key key (some b) c k n e =
    ap (λ z. is_final z.status) (sym (some-injective _ _ e))
    ∙ replaced_final _ _ b (decb_no (WriteKey-discrete key write_key) n) k

-- After a command of a base mode write, every other base mode write of the room is final.
pub supersede-final :
    (w : WriteConfirmations) (room_key : String) (write_key key : WriteKey) (c : WriteConfirmation)
    → is_base_mode_write write_key ≡ true
    → is_base_mode_write key ≡ true
    → key ≢ write_key
    → outcome (supersede w room_key write_key).0 room_key key ≡ some c
    → is_final c.status ≡ true
supersede-final w room_key write_key key c h k n e =
    replaced_by-final write_key key (outcome w room_key key) c k n
      (rw (← e, outcome-supersede, h, if_pos (string_discrete room_key room_key) refl) refl)
