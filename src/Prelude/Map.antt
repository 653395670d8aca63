-- ===== src/Prelude/Map.antt =====
-- Go's `map[K]V` as an association list with one entry to a key.
use mathlib.Core.Path.{◌≡◌, refl}
use mathlib.Core.List.{List, [], ◌∷◌}
use mathlib.Core.Option.{Option, none, some}
use native.Mathlib.Omega.{arith}
use sentinellog.Prelude.Tests.{Comparable, ◌==◌, if◌then◌else◌}

module _ {ℓ κ} {K : Type ℓ} {V : Type κ} ⦃c : Comparable K⦄ where
  -- `m[key] = value`
  unfoldable pub insert : K → V → List (K × V) → List (K × V)
  insert key value [] = (key, value) ∷ []
  insert key value (pair ∷ rest) =
      let after = insert key value rest in
      if pair.0 == key then (key, value) ∷ rest else pair ∷ after

  -- `value, ok := m[key]`
  unfoldable pub lookup : K → List (K × V) → Option V
  lookup key [] = none
  lookup key (pair ∷ rest) =
      let later = lookup key rest in if pair.0 == key then some pair.1 else later

  pub lookup-insert :
      (k j : K) (v : V) (m : List (K × V))
      → lookup j (insert k v m) ≡ (if k == j then some v else lookup j m)
  unfolding lookup insert
  lookup-insert k j v [] = refl
  lookup-insert k j v (p ∷ m) =
      ground (arith, c.agree_iff k j, c.agree_iff p.0 k, c.agree_iff p.0 j, lookup-insert k j v m)
