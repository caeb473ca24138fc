-- ===== src/Base/GoMap.antt =====
-- Go's maps: `m[k]`, `m[k] = v`, `delete(m, k)` and `len(m)` over an association list. The order
-- of the list stands for the order, left open by Go, in which `range` visits the map.
use Prim.Native.Nat.{suc, ◌≤◌}
use mathlib.Core.Path.{◌≡◌, refl}
use mathlib.Core.Option.{Option, none, some}
use mathlib.Core.List.{List, [], ◌∷◌}
use native.Mathlib.Omega.{arith}
use tbore.Base.Tests.{if◌then◌else◌}
use tbore.Base.Equality.{Eq, ◌==◌}
use tbore.Base.Lists.{length}

abbrev pub GoMap {ℓ κ} : Type ℓ → Type κ → Type (ℓ ⊔ κ)
GoMap K V = List (K × V)

module _ {ℓ κ} {K : Type ℓ} {V : Type κ} ⦃e : Eq K⦄ where
  unfoldable pub lookup : K → GoMap K V → Option V
  lookup k [] = none
  lookup k ((j, w) ∷ m) = if k == j then some w else lookup k m

  unfoldable pub insert : K → V → GoMap K V → GoMap K V
  insert k v [] = (k, v) ∷ []
  insert k v ((j, w) ∷ m) = if k == j then (k, v) ∷ m else (j, w) ∷ insert k v m

  unfoldable pub delete : K → GoMap K V → GoMap K V
  delete k [] = []
  delete k ((j, w) ∷ m) = let rest = delete k m in if k == j then rest else (j, w) ∷ rest

  -- No key stands twice.
  abbrev pub NodupKeys : GoMap K V → Type κ
  NodupKeys [] = Unit
  NodupKeys ((k, _) ∷ m) = (lookup k m ≡ none) × NodupKeys m

  pub lookup-insert :
      (j k : K) (v : V) (m : GoMap K V)
      → lookup j (insert k v m) ≡ (if j == k then some v else lookup j m)
  unfolding lookup insert
  lookup-insert j k v [] = refl
  lookup-insert j k v (_ ∷ m) = ground (arith, lookup-insert j k v m)

  pub lookup-delete :
      (j k : K) (m : GoMap K V) → lookup j (delete k m) ≡ (if j == k then none else lookup j m)
  unfolding lookup delete
  lookup-delete j k [] = ground arith
  lookup-delete j k (_ ∷ m) = ground (arith, lookup-delete j k m)

  pub insert-NodupKeys : (k : K) (v : V) (m : GoMap K V) → NodupKeys m → NodupKeys (insert k v m)
  unfolding insert lookup
  insert-NodupKeys k v [] u = (refl, tt)
  insert-NodupKeys k v ((j, _) ∷ m) (fresh, u) =
      ground (arith, insert-NodupKeys k v m u, lookup-insert j k v m)

  pub delete-NodupKeys : (k : K) (m : GoMap K V) → NodupKeys m → NodupKeys (delete k m)
  unfolding delete
  delete-NodupKeys k [] u = tt
  delete-NodupKeys k ((j, _) ∷ m) (fresh, u) =
      ground (arith, delete-NodupKeys k m u, lookup-delete j k m)

  pub length-insert :
      (k : K) (v : V) (m : GoMap K V)
      → length (insert k v m) ≡ (elim (lookup k m) [ none ↦ suc (length m) | some _ ↦ length m ])
  unfolding insert lookup
  length-insert k v [] = refl
  length-insert k v (_ ∷ m) = ground (arith, length-insert k v m)

  pub delete_absent : (k : K) (m : GoMap K V) → lookup k m ≡ none → delete k m ≡ m
  unfolding delete lookup
  delete_absent k [] h = refl
  delete_absent k (_ ∷ m) h = ground (arith, delete_absent k m)

  pub delete-insert :
      (k : K) (v : V) (m : GoMap K V) → lookup k m ≡ none → delete k (insert k v m) ≡ m
  unfolding delete insert lookup
  delete-insert k v [] h = ground arith
  delete-insert k v ((j, w) ∷ m) h = ground (arith, delete-insert k v m, delete_absent k m)

  pub delete-delete : (k : K) (m : GoMap K V) → delete k (delete k m) ≡ delete k m
  unfolding delete
  delete-delete k [] = refl
  delete-delete k (_ ∷ m) = ground (arith, delete-delete k m)

  pub length-delete :
      (k : K) (v : V) (m : GoMap K V)
      → NodupKeys m
      → lookup k m ≡ some v
      → suc (length (delete k m)) ≡ length m
  unfolding delete lookup
  length-delete k v [] u h = ground arith
  length-delete k v ((j, w) ∷ m) u h = ground (arith, length-delete k v m u.1, delete_absent k m)

  pub length-delete-le : (k : K) (m : GoMap K V) → length (delete k m) ≤ length m
  unfolding delete
  length-delete-le k [] = omega arith
  length-delete-le k (_ ∷ m) = ground (arith, length-delete-le k m)
