-- ===== src/Base/Map.antt =====
-- A Go map, as the list of its entries in some order: the order in which a `range` meets them.
use maintenant.Base.Tests.{Eq, if◌then◌else◌, Bool-cases}
use maintenant.Base.Lists.{keep}
use mathlib.Core.Logic.{inl, inr}
use mathlib.Core.Path.{◌≡◌, refl, subst₂}
use mathlib.Core.Bool.{Bool}
use mathlib.Core.Option.{Option, none, some}
use mathlib.Core.List.{List, [], ◌∷◌}
use native.Mathlib.Omega.{arith}

abbrev pub Map {ℓ κ} : Type ℓ → Type κ → Type (ℓ ⊔ κ)
Map K V = List (K × V)

module _ {ℓ κ} {K : Type ℓ} {V : Type κ} ⦃e : Eq K⦄ where
  unfoldable pub lookup : K → Map K V → Option V
  lookup k [] = none
  lookup k ((j, v) ∷ m) = if e.beq j k then some v else lookup k m

  unfoldable pub insert : K → V → Map K V → Map K V
  insert k v [] = (k, v) ∷ []
  insert k v ((j, w) ∷ m) = if e.beq j k then (j, v) ∷ m else (j, w) ∷ insert k v m

  unfoldable pub erase : K → Map K V → Map K V
  erase k [] = []
  erase k ((j, w) ∷ m) = let rest = erase k m in if e.beq j k then rest else (j, w) ∷ rest

  pub lookup-insert :
      (k j : K) (v : V) (m : Map K V)
      → lookup j (insert k v m) ≡ (if e.beq k j then some v else lookup j m)
  unfolding lookup insert
  lookup-insert k j v [] = refl
  lookup-insert k j v ((i, w) ∷ m) =
      ground (arith, e.beq_iff k j, e.beq_iff i k, e.beq_iff i j, lookup-insert k j v m)

  pub lookup-erase :
      (k j : K) (m : Map K V) → lookup j (erase k m) ≡ (if e.beq k j then none else lookup j m)
  unfolding lookup erase
  lookup-erase k j [] = ground arith
  lookup-erase k j ((i, w) ∷ m) =
      ground (arith, e.beq_iff k j, e.beq_iff i k, e.beq_iff i j, lookup-erase k j m)

  -- A test of the key alone keeps or drops the entry as a whole.
  pub lookup-keep :
      (p : K → Bool) (j : K) (m : Map K V)
      → lookup j (keep (λ entry. p entry.0) m) ≡ (if p j then lookup j m else none)
  unfolding lookup keep
  lookup-keep p j [] = ground arith
  lookup-keep p j ((i, w) ∷ m) = ground (arith, e.beq_iff i j, lookup-keep p j m)

  -- The values, each changed by a function of its key and itself.
  unfoldable pub map_values : (K → V → V) → Map K V → Map K V
  map_values f [] = []
  map_values f ((j, v) ∷ m) = (j, f j v) ∷ map_values f m

  -- No key has two entries.
  abbrev pub IsUnique : Map K V → Type κ
  IsUnique [] = Unit
  IsUnique ((j, v) ∷ m) = (lookup j m ≡ none) × IsUnique m

  pub insert-IsUnique : (k : K) (v : V) (m : Map K V) → IsUnique m → IsUnique (insert k v m)
  unfolding lookup insert
  insert-IsUnique k v [] u = (refl, tt)
  insert-IsUnique k v ((j, w) ∷ m) u =
      ground (arith, lookup-insert k j v m, e.beq_iff k j, e.beq_iff j k, insert-IsUnique k v m u.1)

  pub erase-IsUnique : (k : K) (m : Map K V) → IsUnique m → IsUnique (erase k m)
  unfolding lookup erase
  erase-IsUnique k [] u = tt
  erase-IsUnique k ((j, w) ∷ m) u = ground (arith, lookup-erase k j m, erase-IsUnique k m u.1)

  pub lookup-map_values :
      (f : K → V → V) (k : K) (m : Map K V)
      → lookup k (map_values f m) ≡ (elim (lookup k m) [ none ↦ none | some v ↦ some (f k v) ])
  unfolding lookup map_values
  lookup-map_values f k [] = refl
  lookup-map_values f k ((j, w) ∷ m) = ground (arith, e.beq_iff j k, lookup-map_values f k m)

  pub map_values-IsUnique : (f : K → V → V) (m : Map K V) → IsUnique m → IsUnique (map_values f m)
  unfolding map_values
  map_values-IsUnique f [] u = tt
  map_values-IsUnique f ((j, w) ∷ m) u =
      (ground (arith, lookup-map_values f j m, u.0), map_values-IsUnique f m u.1)

  -- A relation that holds of each entry.
  abbrev pub Each {ι} : (K → V → Type ι) → Map K V → Type ι
  Each P [] = Unit
  Each P ((j, v) ∷ m) = P j v × Each P m

  pub insert-Each {ι} :
      (P : K → V → Type ι) (k : K) (v : V) (m : Map K V) → P k v → Each P m → Each P (insert k v m)
  unfolding insert
  insert-Each P k v [] p h = (p, tt)
  insert-Each P k v ((j, w) ∷ m) p h = elim (Bool-cases (e.beq j k)) [
    | inl same ↦ rw same (rw ((e.beq_iff j k).0 same) p, h.1)
    | inr ne ↦ rw ne (h.0, insert-Each P k v m p h.1)
  ]

  pub erase-Each {ι} : (P : K → V → Type ι) (k : K) (m : Map K V) → Each P m → Each P (erase k m)
  unfolding erase
  erase-Each P k [] h = tt
  erase-Each P k ((j, w) ∷ m) h = elim (Bool-cases (e.beq j k)) [
    | inl same ↦ rw same (erase-Each P k m h.1)
    | inr ne ↦ rw ne (h.0, erase-Each P k m h.1)
  ]

  pub lookup-Each {ι} :
      (P : K → V → Type ι) (k : K) (v : V) (m : Map K V) → lookup k m ≡ some v → Each P m → P k v
  unfolding lookup
  lookup-Each P k v [] e' h = cc
  lookup-Each P k v ((j, w) ∷ m) e' h = elim (Bool-cases (e.beq j k)) [
    | inl same ↦
        let key : j ≡ k = (e.beq_iff j k).0 same in
        let value : w ≡ v = ground arith in subst₂ P key value h.0
    | inr ne ↦ lookup-Each P k v m (ground arith) h.1
  ]
