-- ===== src/Base/Dict.antt =====
-- Go maps as association lists in the order of insertion. Where the code ranges over a map, the
-- order is that of the list; the theorems speak of lookups and so hold for every order.
use mathlib.Core.Path.{◌≡◌, refl}
use mathlib.Core.Bool.{true, false}
use mathlib.Core.List.{List, [], ◌∷◌}
use mathlib.Core.Option.{Option, none, some}
use native.Mathlib.Omega.{arith}
use cloud_provider_osc.Base.Equality.{if◌then◌else◌, Eq, ◌==◌}
use cloud_provider_osc.Base.Lists.{contains}

abbrev pub Dict {ℓ κ} : Type ℓ → Type κ → Type (ℓ ⊔ κ)
Dict K V = List (K × V)

abbrev pub keys {ℓ κ} : {K : Type ℓ} {V : Type κ} → Dict K V → List K
keys [] = []
keys ((k, v) ∷ d) = k ∷ keys d

module _ {ℓ κ} {K : Type ℓ} {V : Type κ} ⦃e : Eq K⦄ where
  -- `v, ok := d[k]`
  unfoldable pub lookup : K → Dict K V → Option V
  lookup k [] = none
  lookup k ((j, v) ∷ d) = if j == k then some v else lookup k d

  -- `d[k] = v`
  unfoldable pub insert : K → V → Dict K V → Dict K V
  insert k v [] = (k, v) ∷ []
  insert k v ((j, w) ∷ d) = if j == k then (k, v) ∷ d else (j, w) ∷ insert k v d

  -- `delete(d, k)`
  unfoldable pub erase : K → Dict K V → Dict K V
  erase k [] = []
  erase k ((j, w) ∷ d) = let rest = erase k d in if j == k then rest else (j, w) ∷ rest

  -- Every key stands once, as in a Go map.
  abbrev pub NodupKeys : Dict K V → Type 0
  NodupKeys [] = Unit
  NodupKeys ((k, v) ∷ d) = (contains (keys d) k ≡ false) × NodupKeys d

  pub lookup-insert :
      (j k : K) (v : V) (d : Dict K V)
      → lookup j (insert k v d) ≡ (if k == j then some v else lookup j d)
  unfolding lookup insert
  lookup-insert j k v [] = refl
  lookup-insert j k v ((i, w) ∷ d) = ground (arith, lookup-insert j k v d)

  pub lookup-erase :
      (j k : K) (d : Dict K V) → lookup j (erase k d) ≡ (if k == j then none else lookup j d)
  unfolding lookup erase
  lookup-erase j k [] = ground arith
  lookup-erase j k ((i, w) ∷ d) = ground (arith, lookup-erase j k d)

  pub contains-keys-insert :
      (j k : K) (v : V) (d : Dict K V)
      → contains (keys (insert k v d)) j ≡ (if k == j then true else contains (keys d) j)
  unfolding insert
  contains-keys-insert j k v [] = ground arith
  contains-keys-insert j k v ((i, w) ∷ d) = ground (arith, contains-keys-insert j k v d)

  pub insert-NodupKeys : (k : K) (v : V) (d : Dict K V) → NodupKeys d → NodupKeys (insert k v d)
  unfolding insert
  insert-NodupKeys k v [] n = (refl, tt)
  insert-NodupKeys k v ((j, w) ∷ d) n =
      ground (arith, insert-NodupKeys k v d n.1, contains-keys-insert j k v d)

  pub lookup-nil : (k : K) → lookup k [] ≡ none
  unfolding lookup
  lookup-nil k = refl

  pub lookup-cons :
      (j k : K) (v : V) (d : Dict K V)
      → lookup j ((k, v) ∷ d) ≡ (if k == j then some v else lookup j d)
  unfolding lookup
  lookup-cons j k v d = refl

  pub lookup_of_not_contains :
      (k : K) (d : Dict K V) → contains (keys d) k ≡ false → lookup k d ≡ none
  unfolding lookup
  lookup_of_not_contains k [] h = refl
  lookup_of_not_contains k ((j, v) ∷ d) h = ground (arith, lookup_of_not_contains k d)
