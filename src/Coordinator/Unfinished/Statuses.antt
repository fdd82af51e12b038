-- ===== src/Coordinator/Unfinished/Statuses.antt =====
-- write_confirmation.py: a status that is set starts no write.
use mathlib.Core.Option
use meltem_ha.Coordinator.Unfinished.{Finishes, unfinished}
use meltem_ha.Models.Writes.{
  WriteConfirmation, WriteKey, WriteKey-discrete, WriteStatus, WriteValue,
}
use meltem_ha.Prelude.{
  Bool-cases, Option, String, arith, false, if_neg, if_pos, inl, inr, ite, none, refl, some, true,
  ◌≡◌, ◌≤◌,
}
use meltem_ha.Prelude.Assoc.{string_discrete}
use meltem_ha.WriteConfirmation.Judging.{is_final, is_pending}
use meltem_ha.WriteConfirmation.Store.{
  WriteConfirmations, mark_unconfirmed, of_room, outcome, pending_outcome, set_found_status,
  set_status, status_set,
}
use meltem_ha.WriteConfirmation.Store.Outcomes.{outcome-set_outcome}

pub outcome-set_found_status :
    (w : WriteConfirmations) (room other : String) (write_key key : WriteKey) (status : WriteStatus)
    (error : Option String) (value : Option WriteValue) (c : WriteConfirmation)
    → outcome (set_found_status w room write_key status error value (some c)).0 other key
      ≡ ite
          (string_discrete room other)
          (ite
            (WriteKey-discrete write_key key)
            (some (status_set c status error value).confirmation)
            (outcome w room key))
          (outcome w other key)
unfolding set_found_status outcome of_room
outcome-set_found_status w room other write_key key status error value c =
    outcome-set_outcome w room other write_key key (status_set c status error value).confirmation

found_none-Finishes :
    (w : WriteConfirmations) (room : String) (write_key : WriteKey) (status : WriteStatus)
    (error : Option String) (value : Option WriteValue)
    → Finishes w (set_found_status w room write_key status error value none).0
unfolding set_found_status
found_none-Finishes w room write_key status error value other key = omega arith

status_set-Finishes :
    (c : WriteConfirmation) (status : WriteStatus) (error : Option String)
    (value : Option WriteValue)
    → unfinished (some (record c { status = status })) ≤ unfinished (some c)
    → unfinished (some (status_set c status error value).confirmation) ≤ unfinished (some c)
unfolding unfinished status_set
status_set-Finishes c status error value k = k

found_status-Finishes :
    (w : WriteConfirmations) (room : String) (write_key : WriteKey) (status : WriteStatus)
    (error : Option String) (value : Option WriteValue) (o : Option WriteConfirmation)
    → outcome w room write_key ≡ o
    → unfinished (Option.map (λ (c : WriteConfirmation). record c { status = status }) o)
      ≤ unfinished o
    → Finishes w (set_found_status w room write_key status error value o).0
found_status-Finishes w room write_key status error value none e k other key =
    found_none-Finishes w room write_key status error value other key
found_status-Finishes w room write_key status error value (some c) e k other key =
    rw (outcome-set_found_status w room other write_key key status error value c)
      (elim (string_discrete room other) [
        | yes p ↦ rw (if_pos _ p) (elim (WriteKey-discrete write_key key) [
          | yes q ↦ rw (if_pos _ q, ← p, ← q, e) (status_set-Finishes c status error value k)
          | no n ↦ rw (if_neg _ n, p) (omega arith)
        ])
        | no n ↦ rw (if_neg _ n) (omega arith)
      ])

pending_status : (status : WriteStatus) → is_pending status ≡ true → is_final status ≡ false
unfolding is_final
pending_status status h = ground arith

unconfirmed-Finishes :
    (o : Option WriteConfirmation)
    → pending_outcome o ≡ true
    → unfinished
        (Option.map (λ (c : WriteConfirmation). record c { status = WriteStatus.unconfirmed }) o)
      ≤ unfinished o
unfolding unfinished pending_outcome is_final
unconfirmed-Finishes none h = omega arith
unconfirmed-Finishes (some c) h = rw (pending_status c.status h) (omega arith)

pub mark_unconfirmed-Finishes :
    (w : WriteConfirmations) (room : String) (write_key : WriteKey) (error : String)
    → Finishes w (mark_unconfirmed w room write_key error).0
unfolding mark_unconfirmed set_status
mark_unconfirmed-Finishes w room write_key error other key =
    let o = outcome w room write_key in
    elim (Bool-cases (pending_outcome o)) [
      | inl t ↦ rw t (
          found_status-Finishes w room write_key WriteStatus.unconfirmed (some error) none o refl
            (unconfirmed-Finishes o t) other key)
      | inr f ↦ rw f (omega arith)
    ]
