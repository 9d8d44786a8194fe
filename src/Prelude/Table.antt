-- ===== src/Prelude/Table.antt =====
-- Go's map as an association list. A `range` visits the entries in the list's order, which is
-- any order: statements are about every table.
use mathlib.Core.Path.{◌≡◌, refl, ap}
use mathlib.Core.Logic.{inl, inr}
use mathlib.Core.Bool.{Bool, false}
use mathlib.Core.Option.{Option, none, some}
use mathlib.Core.List.{List, [], ◌∷◌}
use native.Mathlib.Omega.{arith}
use mini_av.Prelude.Tests.{if◌then◌else◌, Bool-cases}
use mini_av.Prelude.Equality.{Eq, ◌==◌, ==→≡}

abbrev pub Table {κ ℓ} : Type κ → Type ℓ → Type (κ ⊔ ℓ)
Table K V = List (K × V)

module _ {κ ℓ} {K : Type κ} {V : Type ℓ} ⦃e : Eq K⦄ where
  -- m[k] = v
  unfoldable pub insert : K → V → Table K V → Table K V
  insert key value [] = (key, value) ∷ []
  insert key value (entry ∷ rest) =
      if entry.0 == key then (key, value) ∷ rest else entry ∷ insert key value rest

  -- v, ok := m[k]
  unfoldable pub lookup : K → Table K V → Option V
  lookup key [] = none
  lookup key (entry ∷ rest) = if entry.0 == key then some entry.1 else lookup key rest

  -- delete(m, k)
  unfoldable pub delete : K → Table K V → Table K V
  delete k [] = []
  delete k ((j, w) ∷ m) = let rest = delete k m in if j == k then rest else (j, w) ∷ rest

  pub lookup-insert :
      (written key : K) (value : V) (entries : Table K V)
      → lookup key (insert written value entries)
        ≡ (if written == key then some value else lookup key entries)
  unfolding lookup insert
  lookup-insert written key value [] = refl
  lookup-insert written key value (entry ∷ rest) = ground (
    arith,
    lookup-insert written key value rest,
    e.decides entry.0 key,
    e.decides entry.0 written,
    e.decides written key,
  )

  pub lookup-delete :
      (k j : K) (m : Table K V) → lookup j (delete k m) ≡ (if k == j then none else lookup j m)
  unfolding lookup delete
  lookup-delete k j [] = ground arith
  lookup-delete k j ((i, w) ∷ m) =
      ground (arith, e.decides k j, e.decides i k, e.decides i j, lookup-delete k j m)

module _ {κ ℓ λ'} {K : Type κ} {V : Type ℓ} {W : Type λ'} ⦃e : Eq K⦄ where
  -- for k, v := range m { m[k] = f k v }
  unfoldable pub map_values : (K → V → W) → Table K V → Table K W
  map_values f [] = []
  map_values f ((k, v) ∷ m) = (k, f k v) ∷ map_values f m

  pub lookup-map_values :
      (f : K → V → W) (k : K) (m : Table K V)
      → lookup k (map_values f m) ≡ (elim (lookup k m) [ none ↦ none | some v ↦ some (f k v) ])
  unfolding lookup map_values
  lookup-map_values f k [] = refl
  lookup-map_values f k ((j, v) ∷ m) = elim (Bool-cases (j == k)) [
    | inl h ↦ rw (h, lookup) (ap (λ i. some (f i v)) (==→≡ j k h))
    | inr h ↦ rw (h, lookup) (lookup-map_values f k m)
  ]

module _ {κ ℓ} {K : Type κ} {V : Type ℓ} ⦃e : Eq K⦄ where
  -- A loop over a map that returns at the first entry that meets the test.
  unfoldable pub find_entry : (K → V → Bool) → Table K V → Option (K × V)
  find_entry p [] = none
  find_entry p ((k, v) ∷ m) = let rest = find_entry p m in if p k v then some (k, v) else rest

  -- Past such a loop, no entry meets the test.
  pub find_entry-none :
      (p : K → V → Bool) (m : Table K V) (k : K) (v : V)
      → find_entry p m ≡ none
      → lookup k m ≡ some v
      → p k v ≡ false
  unfolding lookup find_entry
  find_entry-none p [] k v h l = cc
  find_entry-none p ((j, w) ∷ m) k v h l = ground (arith, e.decides j k, find_entry-none p m k v)
