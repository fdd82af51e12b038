-- ===== src/Overlay/Shown.antt =====
-- overlay.py: what is shown of a pending value.
use mathlib.Core.Bool.{false≢true}
use meltem_ha.Models.Health.{Clock}
use meltem_ha.Models.Room.{RoomState}
use meltem_ha.Overlay.{
  Overlay, Settings, active, confirms, get, pending_shown, read_since_set, set, settle,
  settle_if_read, settled, settles, stop_expiry,
}
use meltem_ha.Prelude.{
  Bool, Bool-cases, Option, String, arith, false, if_both, if_neg, if_pos, if◌then◌else◌, inl, inr,
  ite, leb, ltb, none, refl, some, true, ℕ, ◌+◌, ◌||◌, ◌≡◌,
}
use meltem_ha.Prelude.Assoc.{lookup, lookup-insert, lookup-remove, string_discrete}

-- A value that was set is shown from then on until its window ends, unless the value that a
-- readback reports matches it; the other rooms show what they showed.
pub get-set :
    {T C : Type 0} (s : Settings T C) (clock later : Clock) (room_key room : String) (value : T)
    (confirmed : Option C) (o : Overlay T)
    → get s later room confirmed (set s clock room_key value o)
      ≡ ite
          (string_discrete room_key room)
          (if leb (clock.monotonic + s.ttl) later.monotonic || confirms s confirmed value
            then none
            else some value)
          (get s later room confirmed o)
unfolding get set pending_shown stop_expiry
get-set s clock later room_key room value confirmed o = elim (string_discrete room_key room) [
  | yes p ↦ rw (lookup-insert, if_pos _ p, if_pos (string_discrete room_key room) p) refl
  | no n ↦ rw (lookup-insert, if_neg _ n, if_neg (string_discrete room_key room) n) refl
]

abbrev Hidden :
    {T C : Type 0} → Settings T C → Clock → String → Option C → Overlay T × Bool → Type 0
Hidden s later room_key later_value r = r.1 ≡ true → get s later room_key later_value r.0 ≡ none

-- A pending value that a readback settled is not shown any more, whatever is read later.
pub get-settle :
    {T C : Type 0} (s : Settings T C) (later : Clock) (room_key : String)
    (confirmed later_value : Option C) (o : Overlay T)
    → (settle s room_key confirmed o).1 ≡ true
    → get s later room_key later_value (settle s room_key confirmed o).0 ≡ none
unfolding get settle settled pending_shown
get-settle s later room_key confirmed later_value o h =
    if_both (Hidden s later room_key later_value) _ (settled room_key o, true) (o, false)
      (λ e i. rw (lookup-remove, if_pos (string_discrete room_key room_key) refl) refl)
      (λ e i. absurd (false≢true i)) h

-- A pending value counts until its window ends.
abbrev pub within_window : {T : Type 0} → Clock → Option (T × ℕ) → Option T
within_window clock none = none
within_window clock (some (value, expires_at)) =
    if ltb clock.monotonic expires_at then some value else none

-- The value that a readback does not settle is shown within its window.
shown_within :
    {T C : Type 0} (s : Settings T C) (clock : Clock) (confirmed : Option C) (value : T)
    (expires_at : ℕ)
    → pending_shown s clock confirmed (some (value, expires_at)) ≡ (
        if confirms s confirmed value then none else within_window clock (some (value, expires_at)))
unfolding pending_shown
shown_within s clock confirmed value expires_at = elim (Bool-cases (confirms s confirmed value)) [
  | inl t ↦ rw t (ground arith)
  | inr f ↦ rw f (ground arith)
]

unconfirmed_within :
    {T C : Type 0} (s : Settings T C) (clock : Clock) (pending : Option (T × ℕ))
    → pending_shown s clock none pending ≡ within_window clock pending
unfolding pending_shown confirms
unconfirmed_within s clock none = refl
unconfirmed_within s clock (some (value, expires_at)) = ground arith

kept_within :
    {T C : Type 0} (s : Settings T C) (clock : Clock) (room_key : String) (confirmed : Option C)
    (o : Overlay T) (pending : Option (T × ℕ))
    → lookup string_discrete room_key o.pending ≡ pending
    → pending_shown s clock confirmed pending
      ≡ within_window clock
          (lookup string_discrete room_key (settle s room_key confirmed o).0.pending)
unfolding settle settled settles pending_shown
kept_within s clock room_key confirmed o none h = rw (h, h) refl
kept_within s clock room_key confirmed o (some (value, expires_at)) h =
    rw (shown_within s clock confirmed value expires_at)
      (elim (Bool-cases (confirms s confirmed value)) [
        | inl t ↦ rw (t, h, t, lookup-remove, if_pos (string_discrete room_key room_key) refl) refl
        | inr f ↦ rw (f, h, f, h) refl
      ])

read_within :
    {T C : Type 0} (s : Settings T C) (clock : Clock) (room_key : String) (state : Option RoomState)
    (confirmed : Option C) (o : Overlay T) (read : Bool)
    → read_since_set s clock room_key state o ≡ read
    → active s clock room_key state confirmed o
      ≡ within_window clock (
          lookup string_discrete room_key
            (settle_if_read s clock room_key state confirmed o).0.pending)
unfolding active get settle_if_read
read_within s clock room_key state confirmed o true h =
    rw h (kept_within s clock room_key confirmed o _ refl)
read_within s clock room_key state confirmed o false h =
    rw h (unconfirmed_within s clock (lookup string_discrete room_key o.pending))

-- What is shown of a room is the value that settling by the same readback leaves pending for it, as
-- long as the window of that value lasts, and nothing if settling leaves none or the window is over.
pub active-settle_if_read :
    {T C : Type 0} (s : Settings T C) (clock : Clock) (room_key : String) (state : Option RoomState)
    (confirmed : Option C) (o : Overlay T)
    → active s clock room_key state confirmed o
      ≡ within_window clock (
          lookup string_discrete room_key
            (settle_if_read s clock room_key state confirmed o).0.pending)
active-settle_if_read s clock room_key state confirmed o =
    read_within s clock room_key state confirmed o _ refl
