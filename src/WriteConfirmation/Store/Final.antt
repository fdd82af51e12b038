-- ===== src/WriteConfirmation/Store/Final.antt =====
-- write_confirmation.py: what a round of `confirm` can change of one write.
use mathlib.Core.Option.{some-injective}
use meltem_ha.Models.Health.{health_eq}
use meltem_ha.Models.Room.{RoomState, read_health_for}
use meltem_ha.Models.Writes.{WriteConfirmation, WriteKey, WriteStatus, WriteValue}
use meltem_ha.Prelude.{
  Bool, Option, String, ap, arith, false, guard-some, if◌then◌else◌, is_some, none, not, refl, some,
  true, ◌||◌, ◌∙◌, ◌≡◌, ◌≢◌,
}
use meltem_ha.WriteConfirmation.Judging.{
  by_health, by_readback, checked_confirmation, is_final, judged, readback_value, values_match,
  write_group,
}

-- Only a read of the write's group that was attempted since the baseline is evidence.
abbrev pub Evidence : RoomState → WriteKey → WriteConfirmation → Type 0
Evidence state write_key c =
    let health = read_health_for state (write_group write_key) in
    (is_some health.last_attempt ≡ true)
    × ((health_eq health c.baseline ≡ false) × (health.last_error ≡ none))

-- The group was read since the write, without an error, and the value read matches.
abbrev pub Matched : RoomState → WriteKey → WriteConfirmation → Type 0
Matched state write_key c =
    Evidence state write_key c
    × ((actual : WriteValue) × ((readback_value state write_key ≡ some actual)
          × (values_match write_key c.expected_value actual ≡ true)))

-- A finished outcome stays as it is, whatever is read: a round changes neither its status nor
-- its value.
pub checked_confirmation-final :
    (state : RoomState) (write_key : WriteKey) (c : WriteConfirmation)
    → is_final c.status ≡ true
    → checked_confirmation state write_key c ≡ none
unfolding checked_confirmation
checked_confirmation-final state write_key c h = ground arith

some_status : (a c : WriteConfirmation) → some a ≡ some c → a.status ≡ c.status
some_status a c h = ap (λ z. z.status) (some-injective _ _ h)

by_readback_confirmed :
    (write_key : WriteKey) (c : WriteConfirmation) (actual : Option WriteValue)
    (c' : WriteConfirmation)
    → by_readback write_key c actual ≡ some c'
    → c'.status ≡ WriteStatus.confirmed
    → (a : WriteValue) × ((actual ≡ some a) × (values_match write_key c.expected_value a ≡ true))
unfolding by_readback judged
by_readback_confirmed write_key c none c' h e = absurd (ground arith)
by_readback_confirmed write_key c (some a) c' h e =
    let s : judged write_key c a ≡ c'.status = some_status _ c' (guard-some _ _ c' h).1 in
    (a, (refl, ground arith))

unverifiable≢confirmed : WriteStatus.unverifiable ≢ WriteStatus.confirmed
unverifiable≢confirmed q = ground arith

-- A judgement that confirms is the one by the readback, not the one that the hidden target gets.
read_or_hidden :
    (hidden unchanged : Bool) (x : WriteConfirmation) (read : Option WriteConfirmation)
    (c' : WriteConfirmation)
    → (if hidden then if unchanged then none else some x else read) ≡ some c'
    → x.status ≢ WriteStatus.confirmed
    → c'.status ≡ WriteStatus.confirmed
    → read ≡ some c'
read_or_hidden true true x read c' h n e = absurd (ground arith)
read_or_hidden true false x read c' h n e = absurd (n (some_status x c' h ∙ e))
read_or_hidden false unchanged x read c' h n e = h

by_health_confirmed :
    (state : RoomState) (write_key : WriteKey) (c : WriteConfirmation) (error : Option String)
    (c' : WriteConfirmation)
    → by_health state write_key c error ≡ some c'
    → c'.status ≡ WriteStatus.confirmed
    → (error ≡ none) × (by_readback write_key c (readback_value state write_key) ≡ some c')
unfolding by_health
by_health_confirmed state write_key c (some error) c' h e =
    let s : WriteStatus.unconfirmed ≡ c'.status = some_status _ c' (guard-some _ _ c' h).1 in
    absurd (ground arith)
by_health_confirmed state write_key c none c' h e =
    (refl, read_or_hidden _ _ _ _ c' h unverifiable≢confirmed e)

evidence :
    (attempted same : Bool) (error : Option String)
    → (not attempted || same) ≡ false
    → error ≡ none
    → (attempted ≡ true) × ((same ≡ false) × (error ≡ none))
evidence attempted same error h e = (ground arith, (ground arith, e))

-- A write becomes confirmed only when its register group was read after the write was recorded,
-- that read had no error, and the value read matches the value that was written.
pub checked_confirmation-Matched :
    (state : RoomState) (write_key : WriteKey) (c c' : WriteConfirmation)
    → checked_confirmation state write_key c ≡ some c'
    → c'.status ≡ WriteStatus.confirmed
    → Matched state write_key c
unfolding checked_confirmation
checked_confirmation-Matched state write_key c c' h e =
    let health = read_health_for state (write_group write_key) in
    let final = guard-some (is_final c.status) _ c' h in
    let fresh =
      guard-some (not (is_some health.last_attempt) || health_eq health c.baseline) _ c' final.1 in
    let read = by_health_confirmed state write_key c health.last_error c' fresh.1 e in
    (evidence _ _ _ fresh.0 read.0, by_readback_confirmed write_key c _ c' read.1 e)
