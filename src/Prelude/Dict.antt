-- ===== src/Prelude/Dict.antt =====
-- A Python dict keyed by numbers, in insertion order.
use Prim.Native.Nat.{ℕ}
use mathlib.Core.Path.{◌≡◌, refl, subst}
use mathlib.Core.Logic.{◌≢◌, inl, inr}
use mathlib.Core.Bool.{Bool}
use mathlib.Core.Option.{Option, none, some}
use mathlib.Core.List.{List, [], ◌∷◌}
use native.Mathlib.Omega.{arith}
use lightserve.Prelude.Tests.{◌==◌, if◌then◌else◌, is_some, Bool-cases}

abbrev pub Dict {ℓ} : Type ℓ → Type ℓ
Dict V = List (ℕ × V)

module _ {ℓ} {V : Type ℓ} where
  -- `d.get(k)`
  unfoldable pub lookup : ℕ → Dict V → Option V
  lookup k [] = none
  lookup k ((j, v) ∷ d) = if k == j then some v else lookup k d

  -- `d[k] = v`
  unfoldable pub insert : ℕ → V → Dict V → Dict V
  insert k v [] = (k, v) ∷ []
  insert k v ((j, w) ∷ d) = if k == j then (k, v) ∷ d else (j, w) ∷ insert k v d

  -- `del d[k]`, or the dict itself if the key is missing
  unfoldable pub erase : ℕ → Dict V → Dict V
  erase k [] = []
  erase k ((j, w) ∷ d) = if k == j then d else (j, w) ∷ erase k d

  -- `k in d`
  abbrev pub contains : ℕ → Dict V → Bool
  contains k d = is_some (lookup k d)

  -- `d.values()`
  unfoldable pub values : Dict V → List V
  values [] = []
  values ((j, w) ∷ d) = w ∷ values d

  pub lookup-insert :
      (j k : ℕ) (v : V) (d : Dict V)
      → lookup j (insert k v d) ≡ (if j == k then some v else lookup j d)
  unfolding lookup insert
  lookup-insert j k v [] = refl
  lookup-insert j k v ((i, w) ∷ d) = ground (arith, lookup-insert j k v d)

  pub lookup-erase_ne : (j k : ℕ) (d : Dict V) → j ≢ k → lookup j (erase k d) ≡ lookup j d
  unfolding lookup erase
  lookup-erase_ne j k [] h = refl
  lookup-erase_ne j k ((i, w) ∷ d) h = ground (arith, lookup-erase_ne j k d h)

module _ {V : Type 0} where
  -- No key stands twice: what every Python dict is.
  abbrev pub IsDict : Dict V → Type 0
  IsDict [] = Unit
  IsDict ((j, w) ∷ d) = (lookup j d ≡ none) × IsDict d

  pub lookup-erase_self : (k : ℕ) (d : Dict V) → IsDict d → lookup k (erase k d) ≡ none
  unfolding lookup erase
  lookup-erase_self k [] h = refl
  lookup-erase_self k ((i, w) ∷ d) h = ground (arith, lookup-erase_self k d h.1)

  pub insert-IsDict : (k : ℕ) (v : V) (d : Dict V) → IsDict d → IsDict (insert k v d)
  unfolding lookup insert
  insert-IsDict k v [] h = (refl, tt)
  insert-IsDict k v ((i, w) ∷ d) h = ground (arith, insert-IsDict k v d h.1, lookup-insert i k v d)

  pub erase-IsDict : (k : ℕ) (d : Dict V) → IsDict d → IsDict (erase k d)
  unfolding lookup erase
  erase-IsDict k [] h = tt
  erase-IsDict k ((i, w) ∷ d) h = ground (arith, erase-IsDict k d h.1, lookup-erase_ne i k d)

-- Every value of the dict has the property.
module _ {V : Type 0} where
  abbrev pub Entries : (V → Type 0) → Dict V → Type 0
  Entries P [] = Unit
  Entries P ((j, w) ∷ d) = P w × Entries P d

  pub Entries-mono :
      (P Q : V → Type 0) (d : Dict V) → ((v : V) → P v → Q v) → Entries P d → Entries Q d
  Entries-mono P Q [] k h = tt
  Entries-mono P Q ((j, w) ∷ d) k h = (k w h.0, Entries-mono P Q d k h.1)

  pub lookup-Entries :
      (P : V → Type 0) (k : ℕ) (d : Dict V) (v : V) → Entries P d → lookup k d ≡ some v → P v
  unfolding lookup
  lookup-Entries P k [] v h e = cc
  lookup-Entries P k ((j, w) ∷ d) v h e = elim (Bool-cases (k == j)) [
    | inl t ↦ let q : w ≡ v = ground arith in subst P q h.0
    | inr f ↦ lookup-Entries P k d v h.1 (rw f at e)
  ]

  pub insert-Entries :
      (P : V → Type 0) (k : ℕ) (v : V) (d : Dict V) → P v → Entries P d → Entries P (insert k v d)
  unfolding insert
  insert-Entries P k v [] p h = (p, tt)
  insert-Entries P k v ((j, w) ∷ d) p h = elim (Bool-cases (k == j)) [
    | inl t ↦ rw t (p, h.1)
    | inr f ↦ rw f (h.0, insert-Entries P k v d p h.1)
  ]

  pub erase-Entries : (P : V → Type 0) (k : ℕ) (d : Dict V) → Entries P d → Entries P (erase k d)
  unfolding erase
  erase-Entries P k [] h = tt
  erase-Entries P k ((j, w) ∷ d) h = elim (Bool-cases (k == j)) [
    | inl t ↦ rw t h.1
    | inr f ↦ rw f (h.0, erase-Entries P k d h.1)
  ]
