-- ===== src/WriteConfirmation/Store/Issues.antt =====
-- write_confirmation.py: the issue that a write reports.
use mathlib.Core.Option.{some-injective}
use meltem_ha.Models.Health.{Clock}
use meltem_ha.Models.Room.{RoomState}
use meltem_ha.Models.Writes.{WriteConfirmation, WriteKey, WriteStatus, WriteValue}
use meltem_ha.Prelude.{
  Bool, List, Option, String, [], ap, arith, false, guard-some, if◌then◌else◌, inl, inr, none, refl,
  some, sym, true, ℕ, ◌+◌, ◌∙◌, ◌∷◌, ◌≡◌, ◌≤◌, ◌⊎◌,
}
use meltem_ha.WriteConfirmation.Judging.{
  Round, by_health, by_readback, checked_confirmation, confirm_one, counted, is_final, overdue,
  round_of,
}
use meltem_ha.WriteConfirmation.Store.{status_set}

-- What changes a recorded write: a round of `confirm`, or a status that is set.
pub data Event : Type 0 where
  judged_by : Clock → RoomState → Event
  set_to : WriteStatus → Option String → Option WriteValue → Event

unfoldable pub event_round : WriteKey → Event → WriteConfirmation → Round
event_round write_key (Event.judged_by clock state) c = confirm_one clock state write_key c
event_round write_key (Event.set_to status error actual_value) c =
    status_set c status error actual_value

issue_count : Option WriteStatus → ℕ
issue_count none = 0
issue_count (some status) = 1

issue_count-le : (issue : Option WriteStatus) → issue_count issue ≤ 1
unfolding issue_count
issue_count-le none = omega arith
issue_count-le (some status) = omega arith

-- The issues that a sequence of events reports.
unfoldable pub issues_reported : WriteKey → List Event → WriteConfirmation → ℕ
unfolding issue_count
issues_reported write_key [] c = 0
issues_reported write_key (event ∷ events) c =
    issue_count (event_round write_key event c).issue
    + issues_reported write_key events (event_round write_key event c).confirmation

-- A judgement leaves the mark that the issue was counted.
by_readback-issue_counted :
    (write_key : WriteKey) (c : WriteConfirmation) (actual : Option WriteValue)
    (c' : WriteConfirmation)
    → by_readback write_key c actual ≡ some c'
    → c'.issue_counted ≡ c.issue_counted
unfolding by_readback
by_readback-issue_counted write_key c none c' h = absurd (ground arith)
by_readback-issue_counted write_key c (some a) c' h =
    ap (λ z. z.issue_counted) (sym (some-injective _ _ (guard-some _ _ c' h).1))

hidden-issue_counted :
    (hidden unchanged : Bool) (x : WriteConfirmation) (read : Option WriteConfirmation)
    (c c' : WriteConfirmation)
    → (if hidden then if unchanged then none else some x else read) ≡ some c'
    → x.issue_counted ≡ c.issue_counted
    → (read ≡ some c' → c'.issue_counted ≡ c.issue_counted)
    → c'.issue_counted ≡ c.issue_counted
hidden-issue_counted true unchanged x read c c' h e f =
    ap (λ z. z.issue_counted) (sym (some-injective _ _ (guard-some unchanged _ c' h).1)) ∙ e
hidden-issue_counted false unchanged x read c c' h e f = f h

by_health-issue_counted :
    (state : RoomState) (write_key : WriteKey) (c : WriteConfirmation) (error : Option String)
    (c' : WriteConfirmation)
    → by_health state write_key c error ≡ some c'
    → c'.issue_counted ≡ c.issue_counted
unfolding by_health
by_health-issue_counted state write_key c (some error) c' h =
    ap (λ z. z.issue_counted) (sym (some-injective _ _ (guard-some _ _ c' h).1))
by_health-issue_counted state write_key c none c' h =
    hidden-issue_counted _ _ _ _ c c' h refl (by_readback-issue_counted write_key c _ c')

checked-issue_counted :
    (state : RoomState) (write_key : WriteKey) (c c' : WriteConfirmation)
    → checked_confirmation state write_key c ≡ some c'
    → c'.issue_counted ≡ c.issue_counted
unfolding checked_confirmation
checked-issue_counted state write_key c c' h =
    by_health-issue_counted state write_key c _ c'
      (guard-some _ _ c' (guard-some (is_final c.status) _ c' h).1).1

-- The round of a write: it reports nothing of a counted write, which stays counted, and marks
-- what it reports.
abbrev CountsOnce : WriteConfirmation → Round → Type 0
CountsOnce c one =
    (c.issue_counted ≡ true → (one.issue ≡ none) × (one.confirmation.issue_counted ≡ true))
    × ((one.issue ≡ none) ⊎ (one.confirmation.issue_counted ≡ true))

round_of-CountsOnce :
    (clock : Clock) (c : WriteConfirmation) (checked : Option WriteConfirmation)
    → ((c' : WriteConfirmation) → checked ≡ some c' → c'.issue_counted ≡ c.issue_counted)
    → CountsOnce c (round_of clock c checked)
unfolding round_of counted overdue
round_of-CountsOnce clock c none h = (λ e. (ground arith, ground arith), ground arith)
round_of-CountsOnce clock c (some c') h =
    let same = h c' refl in (λ e. (ground arith, ground arith), ground arith)

event_round-CountsOnce :
    (write_key : WriteKey) (event : Event) (c : WriteConfirmation)
    → CountsOnce c (event_round write_key event c)
unfolding event_round confirm_one status_set
event_round-CountsOnce write_key (Event.judged_by clock state) c =
    round_of-CountsOnce clock c _ (checked-issue_counted state write_key c)
event_round-CountsOnce write_key (Event.set_to status error actual_value) c =
    (λ e. (ground arith, ground arith), ground arith)

issues_reported-counted :
    (write_key : WriteKey) (events : List Event) (c : WriteConfirmation)
    → c.issue_counted ≡ true
    → issues_reported write_key events c ≡ 0
unfolding issues_reported issue_count
issues_reported-counted write_key [] c h = refl
issues_reported-counted write_key (event ∷ events) c h =
    let one = (event_round-CountsOnce write_key event c).0 h in
    rw
      (
        one.0,
        issues_reported-counted write_key events (event_round write_key event c).confirmation one.1,
      )
      refl

-- Whatever is read and whatever is set, in whatever order: a write reports at most one issue from
-- when it is recorded until it is replaced.
pub issues_reported-le :
    (write_key : WriteKey) (events : List Event) (c : WriteConfirmation)
    → issues_reported write_key events c ≤ 1
unfolding issues_reported issue_count
issues_reported-le write_key [] c = omega arith
issues_reported-le write_key (event ∷ events) c =
    let rest = issues_reported-le write_key events (event_round write_key event c).confirmation in
    elim (event_round-CountsOnce write_key event c).1 [
      | inl e ↦ rw (e) (omega (arith, rest))
      | inr e ↦ omega (
        arith,
        issue_count-le (event_round write_key event c).issue,
        issues_reported-counted write_key events (event_round write_key event c).confirmation e,
      )
    ]
