-- ===== src/Prelude/Table.antt =====
-- Tables: maps whose rows carry their key, as `s.reservations` and the others of the store do.
use mathlib.Core.Path.{◌≡◌, refl}
use mathlib.Core.Bool.{Bool}
use mathlib.Core.Option.{none, some}
use mathlib.Core.List.{[], ◌∷◌}
use native.Mathlib.Omega.{arith}
use volt_hub_csms.Prelude.Tests.{Comparable, ◌==◌, if◌then◌else◌}
use volt_hub_csms.Prelude.Lists.{find}
use volt_hub_csms.Prelude.Dict.{Dict, values, lookup, insert, erase, lookup-insert}

module _ {ℓ κ} {K : Type ℓ} {V : Type κ} ⦃e : Comparable K⦄ (id : V → K) where
  -- Every row stands under its own id, and no id stands twice.
  abbrev pub IsTable : Dict K V → Type (ℓ ⊔ κ)
  IsTable [] = Unit
  IsTable ((k, v) ∷ m) = (id v ≡ k) × (lookup k m ≡ none) × IsTable m

  pub insert-IsTable :
      (k : K) (v : V) (m : Dict K V) → id v ≡ k → IsTable m → IsTable (insert k v m)
  unfolding lookup insert
  insert-IsTable k v [] h t = (h, refl, tt)
  insert-IsTable k v ((j, w) ∷ m) h t =
      ground
        (arith, e.same_iff j k, e.same_iff k j, insert-IsTable k v m h t.2, lookup-insert k j v m)

  -- A row found by a search is the row that stands under its id.
  pub find-lookup :
      (p : V → Bool) (v : V) (m : Dict K V)
      → IsTable m
      → find p (values m) ≡ some v
      → lookup (id v) m ≡ some v
  unfolding lookup
  find-lookup p v [] t h = cc
  find-lookup p v ((j, w) ∷ m) t h =
      ground (arith, find-lookup p v m t.2, e.same_iff j (id v), e.same_iff j (id w))

  pub lookup-id : (k : K) (v : V) (m : Dict K V) → IsTable m → lookup k m ≡ some v → id v ≡ k
  unfolding lookup
  lookup-id k v [] t h = cc
  lookup-id k v ((j, w) ∷ m) t h = ground (arith, lookup-id k v m t.2, e.same_iff j k)

-- Maps whose keys are distinct, and `m.delete(k)` on them.
module _ {ℓ κ} {K : Type ℓ} {V : Type κ} ⦃e : Comparable K⦄ where
  abbrev pub IsMap : Dict K V → Type κ
  IsMap [] = Unit
  IsMap ((k, v) ∷ m) = (lookup k m ≡ none) × IsMap m

  pub insert-IsMap : (k : K) (v : V) (m : Dict K V) → IsMap m → IsMap (insert k v m)
  unfolding lookup insert
  insert-IsMap k v [] t = (refl, tt)
  insert-IsMap k v ((j, w) ∷ m) t =
      ground (arith, e.same_iff j k, e.same_iff k j, insert-IsMap k v m t.1, lookup-insert k j v m)

  pub lookup-erase :
      (k j : K) (m : Dict K V)
      → IsMap m
      → lookup j (erase k m) ≡ (if k == j then none else lookup j m)
  unfolding lookup erase
  lookup-erase k j [] t = ground arith
  lookup-erase k j ((h, w) ∷ m) t =
      ground (arith, e.same_iff h k, e.same_iff h j, e.same_iff k j, lookup-erase k j m t.1)

  pub erase-IsMap : (k : K) (m : Dict K V) → IsMap m → IsMap (erase k m)
  unfolding lookup erase
  erase-IsMap k [] t = tt
  erase-IsMap k ((h, w) ∷ m) t =
      ground (arith, e.same_iff h k, erase-IsMap k m t.1, lookup-erase k h m t.1)
