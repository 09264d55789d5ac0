-- ===== src/Base/Table.antt =====
-- A table keyed by its primary key, and a Python dict: entries in the order of their insertion.
use mathlib.Core.Path.{◌≡◌, refl}
use mathlib.Core.Logic.{◌≢◌}
use mathlib.Core.Bool.{Bool, true, false}
use mathlib.Core.Option.{Option, none, some}
use mathlib.Core.List.{List, [], ◌∷◌}
use native.Mathlib.Omega.{arith}
use service_oriented_archite.Base.Equality.{Eq, ◌==◌}
use service_oriented_archite.Base.Tests.{if◌then◌else◌}

abbrev pub Table {ℓ κ} : Type ℓ → Type κ → Type (ℓ ⊔ κ)
Table K V = List (K × V)

module _ {ℓ κ} {K : Type ℓ} {V : Type κ} ⦃e : Eq K⦄ where
  unfoldable pub lookup : K → Table K V → Option V
  lookup k [] = none
  lookup k ((j, v) ∷ t) = if k == j then some v else lookup k t

  -- An upsert: the row of the key is replaced, or added at the end.
  unfoldable pub insert : K → V → Table K V → Table K V
  insert k v [] = (k, v) ∷ []
  insert k v ((j, w) ∷ t) = if k == j then (k, v) ∷ t else (j, w) ∷ insert k v t

  unfoldable pub contains : K → Table K V → Bool
  unfolding lookup
  contains k t = elim (lookup k t) [ none ↦ false | some _ ↦ true ]

  pub lookup-insert :
      (j k : K) (v : V) (t : Table K V)
      → lookup j (insert k v t) ≡ (if j == k then some v else lookup j t)
  unfolding insert lookup
  lookup-insert j k v [] = ground arith
  lookup-insert j k v (_ ∷ t) = ground (arith, lookup-insert j k v t)

  -- `del table[k]`; a key has at most one entry, and what stands behind it goes as well.
  unfoldable pub remove : K → Table K V → Table K V
  remove k [] = []
  remove k ((j, v) ∷ t) = let rest = remove k t in if k == j then rest else (j, v) ∷ rest

  pub lookup-remove :
      (j k : K) (t : Table K V) → lookup j (remove k t) ≡ (if j == k then none else lookup j t)
  unfolding remove lookup
  lookup-remove j k [] = ground arith
  lookup-remove j k (_ ∷ t) = ground (arith, lookup-remove j k t)

  -- No key has two entries.
  abbrev pub NodupKeys : Table K V → Type κ
  NodupKeys [] = Unit
  NodupKeys ((k, _) ∷ t) = (lookup k t ≡ none) × NodupKeys t

  pub insert-NodupKeys : (k : K) (v : V) (t : Table K V) → NodupKeys t → NodupKeys (insert k v t)
  unfolding insert lookup
  insert-NodupKeys k v [] h = (refl, tt)
  insert-NodupKeys k v ((j, _) ∷ t) (fresh, h) =
      ground (arith, insert-NodupKeys k v t h, lookup-insert j k v t)

  abbrev pub Values {μ} : (V → Type μ) → Table K V → Type μ
  Values P [] = Unit
  Values P ((_, v) ∷ t) = P v × Values P t

  -- What holds of every row that is found holds of all rows.
  pub Values-of_lookup {μ} :
      (P : V → Type μ) (t : Table K V)
      → NodupKeys t
      → ((k : K) (v : V) → lookup k t ≡ some v → P v)
      → Values P t
  unfolding lookup
  Values-of_lookup P [] h found = tt
  Values-of_lookup P ((k, v) ∷ t) (fresh, h) found =
      (found k v (ground arith), Values-of_lookup P t h (λ j w e. found j w (ground arith)))

  -- A key that is not found is neither the first key nor found behind it.
  pub lookup-absent :
      (k j : K) (v : V) (t : Table K V)
      → lookup k ((j, v) ∷ t) ≡ none
      → (k ≢ j) × (lookup k t ≡ none)
  unfolding lookup
  lookup-absent k j v t h = ((λ same. ground arith), ground arith)
