-- ===== src/Prelude/Dict.antt =====
-- A JavaScript `Map`: entries in the order of their first insertion.
use Prim.Native.Nat.{◌+◌}
use mathlib.Core.Path.{◌≡◌, refl}
use mathlib.Core.Logic.{◌≢◌}
use mathlib.Core.Bool.{Bool, true, false, ◌||◌}
use mathlib.Core.Option.{Option, none, some}
use mathlib.Core.List.{List, [], ◌∷◌}
use native.Mathlib.Omega.{arith}
use volt_hub_csms.Prelude.Tests.{Comparable, ◌==◌, if◌then◌else◌}
use volt_hub_csms.Prelude.Lists.{any, count}

abbrev pub Dict {ℓ κ} : Type ℓ → Type κ → Type (ℓ ⊔ κ)
Dict K V = List (K × V)

-- `[...m.values()]`
abbrev pub values {ℓ κ} : {K : Type ℓ} {V : Type κ} → Dict K V → List V
values [] = []
values ((k, v) ∷ m) = v ∷ values m

module _ {ℓ κ} {K : Type ℓ} {V : Type κ} ⦃e : Comparable K⦄ where
  -- `m.get(k)`
  unfoldable pub lookup : K → Dict K V → Option V
  lookup k [] = none
  lookup k ((h, w) ∷ rest) = if h == k then some w else lookup k rest

  -- `m.set(k, v)`
  unfoldable pub insert : K → V → Dict K V → Dict K V
  insert k v [] = (k, v) ∷ []
  insert k v ((h, w) ∷ rest) = if h == k then (h, v) ∷ rest else (h, w) ∷ insert k v rest

  -- `m.delete(k)`
  unfoldable pub erase : K → Dict K V → Dict K V
  erase k [] = []
  erase k ((j, w) ∷ m) = if j == k then m else (j, w) ∷ erase k m

  -- `m.has(k)`
  abbrev pub contains_key : K → Dict K V → Bool
  contains_key k m = elim (lookup k m) [ none ↦ false | some _ ↦ true ]

  pub lookup-insert :
      (k j : K) (x : V) (m : Dict K V)
      → lookup j (insert k x m) ≡ (if k == j then some x else lookup j m)
  unfolding lookup insert
  lookup-insert k j x [] = refl
  lookup-insert k j x ((h, w) ∷ rest) =
      ground (arith, lookup-insert k j x rest, e.same_iff h j, e.same_iff h k, e.same_iff k j)

  pub lookup-insert_self : (k : K) (v : V) (m : Dict K V) → lookup k (insert k v m) ≡ some v
  lookup-insert_self k v m = ground (arith, lookup-insert k k v m, e.same_iff k k)

  pub lookup-insert_ne :
      (k j : K) (v : V) (m : Dict K V) → k ≢ j → lookup j (insert k v m) ≡ lookup j m
  lookup-insert_ne k j v m h = ground (arith, lookup-insert k j v m, e.same_iff k j)

  -- `values` and `any`: a search through all the values of a map.
  pub any-values_none :
      (p : V → Bool) (k : K) (v : V) (m : Dict K V)
      → any p (values m) ≡ false
      → lookup k m ≡ some v
      → p v ≡ false
  unfolding lookup
  any-values_none p k v [] h l = cc
  any-values_none p k v ((j, w) ∷ m) h l = ground (arith, any-values_none p k v m)

  pub any-values_hit :
      (p : V → Bool) (k : K) (v : V) (m : Dict K V)
      → lookup k m ≡ some v
      → p v ≡ true
      → any p (values m) ≡ true
  unfolding lookup
  any-values_hit p k v [] l h = cc
  any-values_hit p k v ((j, w) ∷ m) l h = ground (arith, any-values_hit p k v m)

  pub any-values-insert_new :
      (p : V → Bool) (k : K) (v : V) (m : Dict K V)
      → lookup k m ≡ none
      → any p (values (insert k v m)) ≡ (any p (values m) || p v)
  unfolding lookup insert
  any-values-insert_new p k v [] h = ground arith
  any-values-insert_new p k v ((j, w) ∷ m) h = ground (arith, any-values-insert_new p k v m)

  -- A value that is replaced by one of the same verdict.
  pub any-values-insert_same :
      (p : V → Bool) (k : K) (v w : V) (m : Dict K V)
      → lookup k m ≡ some w
      → p v ≡ p w
      → any p (values (insert k v m)) ≡ any p (values m)
  unfolding lookup insert
  any-values-insert_same p k v w [] l h = cc
  any-values-insert_same p k v w ((j, x) ∷ m) l h = ground (arith, any-values-insert_same p k v w m)

  pub any-values-insert_pass :
      (p : V → Bool) (k : K) (v : V) (m : Dict K V)
      → p v ≡ true
      → any p (values (insert k v m)) ≡ true
  unfolding insert
  any-values-insert_pass p k v [] h = ground arith
  any-values-insert_pass p k v ((j, w) ∷ m) h = ground (arith, any-values-insert_pass p k v m)

  pub count-values-insert_new :
      (p : V → Bool) (k : K) (v : V) (m : Dict K V)
      → lookup k m ≡ none
      → count p (values (insert k v m)) ≡ count p (values m) + (if p v then 1 else 0)
  unfolding lookup insert
  count-values-insert_new p k v [] h = omega arith
  count-values-insert_new p k v ((j, w) ∷ m) h = ground (arith, count-values-insert_new p k v m)

  pub count-values-insert_same :
      (p : V → Bool) (k : K) (v w : V) (m : Dict K V)
      → lookup k m ≡ some w
      → p v ≡ p w
      → count p (values (insert k v m)) ≡ count p (values m)
  unfolding lookup insert
  count-values-insert_same p k v w [] l h = cc
  count-values-insert_same p k v w ((j, x) ∷ m) l h =
      ground (arith, count-values-insert_same p k v w m)
