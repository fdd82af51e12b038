-- ===== src/Prelude/Assoc.antt =====
-- Dictionaries as association lists over keys with decidable equality, in insertion order.
use mathlib.Core.List.{List, [], ◌∷◌}
use Prim.Native.String.{String}
use mathlib.Core.Bool.{Bool, true, false, false≢true}
use mathlib.Core.Logic.{ite, if_pos, if_neg, ◌↔◌}
use mathlib.Core.Option.{Option, none, some}
use mathlib.Core.Path.{◌≡◌, refl}
use native.Mathlib.Omega.{arith}
use text.Mathlib.TextEquality.{eq_iff}
use meltem_ha.Prelude.Tests.{or_else, str_eq}

module _ {ℓ} {K V : Type ℓ} (dec : Discrete K) where
  -- d.get(k)
  unfoldable pub lookup : K → List (K × V) → Option V
  lookup k [] = none
  lookup k ((j, v) ∷ d) = ite (dec j k) (some v) (lookup k d)

  -- d[k] = v: a present key keeps its place, a new one goes last.
  unfoldable pub insert : K → V → List (K × V) → List (K × V)
  insert k v [] = (k, v) ∷ []
  insert k v ((j, w) ∷ d) = ite (dec j k) ((k, v) ∷ d) ((j, w) ∷ insert k v d)

  -- d.pop(k, None)
  unfoldable pub remove : K → List (K × V) → List (K × V)
  remove k [] = []
  remove k ((j, v) ∷ d) = let rest = remove k d in ite (dec j k) rest ((j, v) ∷ rest)

  -- dict(pairs), filling a dictionary from the left: the last of equal keys wins.
  unfoldable pub fill : List (K × V) → List (K × V) → List (K × V)
  fill d [] = d
  fill d ((k, v) ∷ l) = fill (insert k v d) l

  pub lookup-insert :
      (k j : K) (v : V) (d : List (K × V))
      → lookup j (insert k v d) ≡ ite (dec k j) (some v) (lookup j d)
  unfolding lookup insert
  lookup-insert k j v [] = refl
  lookup-insert k j v ((i, w) ∷ d) = ground (arith, lookup-insert k j v d)

  pub lookup-remove :
      (k j : K) (d : List (K × V)) → lookup j (remove k d) ≡ ite (dec k j) none (lookup j d)
  unfolding lookup remove
  lookup-remove k j [] = ground arith
  lookup-remove k j ((i, w) ∷ d) = ground (arith, lookup-remove k j d)

  -- No key stands twice.
  abbrev pub Distinct : List (K × V) → Type ℓ
  Distinct [] = Unit
  Distinct ((k, v) ∷ l) = (lookup k l ≡ none) × Distinct l

  pub insert-Distinct : (k : K) (v : V) (d : List (K × V)) → Distinct d → Distinct (insert k v d)
  unfolding lookup insert
  insert-Distinct k v [] h = (refl, tt)
  insert-Distinct k v ((j, w) ∷ d) h = elim (dec j k) [
    | yes p ↦ rw (if_pos _ p) (rw (← p) h.0, h.1)
    | no p ↦ rw (if_neg _ p) (
      rw (lookup-insert k j v d, if_neg (dec k j) (λ (e : k ≡ j). p (ground arith))) h.0,
      insert-Distinct k v d h.1,
    )
  ]

  pub fill-Distinct : (d l : List (K × V)) → Distinct d → Distinct (fill d l)
  unfolding fill
  fill-Distinct d [] h = h
  fill-Distinct d ((k, v) ∷ l) h = fill-Distinct (insert k v d) l (insert-Distinct k v d h)

  pub lookup-fill :
      (j : K) (d l : List (K × V))
      → Distinct l
      → lookup j (fill d l) ≡ or_else (lookup j l) (lookup j d)
  unfolding lookup fill
  lookup-fill j d [] h = refl
  lookup-fill j d ((k, v) ∷ l) h =
      ground (arith, lookup-fill j (insert k v d) l, lookup-insert k j v d)

decision_of {ℓ} : {A : Type ℓ} {x y : A} (b : Bool) → (b ≡ true) ↔ (x ≡ y) → Dec (x ≡ y)
decision_of true p = yes (p.0 refl)
decision_of false p = no (λ e. false≢true (p.1 e))

-- Texts as keys.
unfoldable pub string_discrete : Discrete String
unfolding decision_of
string_discrete a b = decision_of (str_eq a b) (eq_iff a b)
