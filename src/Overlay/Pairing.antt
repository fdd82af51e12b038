-- ===== src/Overlay/Pairing.antt =====
-- overlay.py: the three dictionaries of an overlay go together.
use meltem_ha.Models.Health.{Clock}
use meltem_ha.Models.Room.{RoomState}
use meltem_ha.Overlay.{
  Overlay, Settings, clear, drop_baseline, drop_pending, empty_overlay, expire, read_since_set, set,
  settle, settle_if_read, settled, settles, shutdown, stop_expiry,
}
use meltem_ha.Prelude.{
  Bool, List, Option, String, ap, decb, decb_no, decb_yes, false, if_both, if_neg, if_pos,
  if◌then◌else◌, is_some, refl, sym, true, ◌∙◌, ◌≡◌,
}
use meltem_ha.Prelude.Assoc.{insert, lookup, lookup-insert, lookup-remove, remove, string_discrete}

-- The overlays that the operations reach.
pub data Reachable {T C : Type 0} (s : Settings T C) : Overlay T → Type 0 where
  start : Reachable s empty_overlay
  by_set :
      (clock : Clock) (room_key : String) (value : T) (o : Overlay T)
      → Reachable s o
      → Reachable s (set s clock room_key value o)
  by_clear : (room_key : String) (o : Overlay T) → Reachable s o → Reachable s (clear room_key o)
  by_expire : (room_key : String) (o : Overlay T) → Reachable s o → Reachable s (expire room_key o)
  by_settle_if_read :
      (clock : Clock) (room_key : String) (state : Option RoomState) (confirmed : Option C)
      (o : Overlay T)
      → Reachable s o
      → Reachable s (settle_if_read s clock room_key state confirmed o).0
  by_shutdown : (o : Overlay T) → Reachable s o → Reachable s (shutdown o)

-- A room has a baseline, and a scheduled expiry, exactly when it has a pending value.
abbrev pub Paired : {T : Type 0} → Overlay T → Type 0
Paired o =
    (key : String)
    → (is_some (lookup string_discrete key o.baseline)
        ≡ is_some (lookup string_discrete key o.pending))
      × (is_some (lookup string_discrete key o.expiries)
          ≡ is_some (lookup string_discrete key o.pending))

-- Whether a room has an entry.
has : {V : Type 0} → String → List (String × V) → Bool
has key d = is_some (lookup string_discrete key d)

has-insert :
    {V : Type 0} (room_key key : String) (v : V) (d : List (String × V))
    → has key (insert string_discrete room_key v d)
      ≡ (if decb (string_discrete room_key key) then true else has key d)
unfolding has
has-insert room_key key v d = elim (string_discrete room_key key) [
  | yes p ↦ rw (lookup-insert, if_pos _ p, decb_yes (string_discrete room_key key) p) refl
  | no n ↦ rw (lookup-insert, if_neg _ n, decb_no (string_discrete room_key key) n) refl
]

has-remove :
    {V : Type 0} (room_key key : String) (d : List (String × V))
    → has key (remove string_discrete room_key d)
      ≡ (if decb (string_discrete room_key key) then false else has key d)
unfolding has
has-remove room_key key d = elim (string_discrete room_key key) [
  | yes p ↦ rw (lookup-remove, if_pos _ p, decb_yes (string_discrete room_key key) p) refl
  | no n ↦ rw (lookup-remove, if_neg _ n, decb_no (string_discrete room_key key) n) refl
]

-- An expiry is cancelled before the next one is scheduled.
cancelled_first :
    (b x : Bool) → (if b then true else (if b then false else x)) ≡ (if b then true else x)
cancelled_first true x = refl
cancelled_first false x = refl

module _ {T C : Type 0} (s : Settings T C) where
  set-Paired :
      (clock : Clock) (room_key : String) (value : T) (o : Overlay T)
      → Paired o
      → Paired (set s clock room_key value o)
  unfolding set stop_expiry has
  set-Paired clock room_key value o h key =
      let same = decb (string_discrete room_key key) in
      let put = λ (b : Bool). if same then true else b in
      (
        has-insert room_key key _ o.baseline
            ∙ ap put (h key).0
            ∙ sym (has-insert room_key key _ o.pending),
        has-insert room_key key _ (remove string_discrete room_key o.expiries)
            ∙ ap put (has-remove room_key key o.expiries)
            ∙ cancelled_first same _
            ∙ ap put (h key).1
            ∙ sym (has-insert room_key key _ o.pending),
      )

  settled-Paired : (room_key : String) (o : Overlay T) → Paired o → Paired (settled room_key o)
  unfolding settled stop_expiry drop_baseline has
  settled-Paired room_key o h key =
      let drop = λ (b : Bool). if decb (string_discrete room_key key) then false else b in
      (
        has-remove room_key key o.baseline
            ∙ ap drop (h key).0
            ∙ sym (has-remove room_key key o.pending),
        has-remove room_key key o.expiries
            ∙ ap drop (h key).1
            ∙ sym (has-remove room_key key o.pending),
      )

  -- Clearing and expiring drop what settling drops.
  clear-Paired : (room_key : String) (o : Overlay T) → Paired o → Paired (clear room_key o)
  unfolding clear drop_pending settled stop_expiry drop_baseline
  clear-Paired = settled-Paired

  expire-Paired : (room_key : String) (o : Overlay T) → Paired o → Paired (expire room_key o)
  unfolding expire drop_pending settled stop_expiry drop_baseline
  expire-Paired = settled-Paired

  abbrev AfterPaired : Overlay T × Bool → Type 0
  AfterPaired r = Paired r.0

  settle_if_read-Paired :
      (clock : Clock) (room_key : String) (state : Option RoomState) (confirmed : Option C)
      (o : Overlay T)
      → Paired o
      → Paired (settle_if_read s clock room_key state confirmed o).0
  unfolding settle_if_read settle
  settle_if_read-Paired clock room_key state confirmed o h =
      if_both AfterPaired (read_since_set s clock room_key state o) (settle s room_key confirmed o)
        (o, false)
        (λ e.
          if_both AfterPaired (settles s confirmed (lookup string_discrete room_key o.pending))
            (settled room_key o, true) (o, false) (λ f. settled-Paired room_key o h) (λ f. h))
        (λ e. h)

  -- In every overlay that the operations reach, a room has a recorded baseline and a scheduled
  -- expiry exactly when it has a pending value: no value stays without an expiry, and no
  -- expiry outlives its value.
  pub Reachable-Paired : (o : Overlay T) → Reachable s o → Paired o
  unfolding empty_overlay lookup shutdown
  Reachable-Paired o Reachable.start = λ key. (refl, refl)
  Reachable-Paired o (Reachable.by_set clock room_key value p r) =
      set-Paired clock room_key value p (Reachable-Paired p r)
  Reachable-Paired o (Reachable.by_clear room_key p r) =
      clear-Paired room_key p (Reachable-Paired p r)
  Reachable-Paired o (Reachable.by_expire room_key p r) =
      expire-Paired room_key p (Reachable-Paired p r)
  Reachable-Paired o (Reachable.by_settle_if_read clock room_key state confirmed p r) =
      settle_if_read-Paired clock room_key state confirmed p (Reachable-Paired p r)
  Reachable-Paired o (Reachable.by_shutdown p r) = λ key. (refl, refl)
