-- ===== src/Base/Maps.antt =====
-- Go's maps as association lists: a write replaces the entry of its key, a delete removes it, and
-- the laws say what a later read finds. The iteration order of a Go map is not specified; where
-- the code ranges over a map, the model does so in the order of the list.
use Prim.Native.Nat.{◌≤◌}
use mathlib.Core.Path.{◌≡◌, refl}
use mathlib.Core.Bool.{Bool}
use mathlib.Core.List.{List, [], ◌∷◌}
use mathlib.Core.Option.{Option, none, some}
use native.Mathlib.Omega.{arith}
use whatsmeow_gateway.Base.Tests.{Eq, ◌==◌, if◌then◌else◌}
use whatsmeow_gateway.Base.Lists.{length}

abbrev pub keep_if {ℓ} : {V : Type ℓ} → (V → Bool) → Option V → Option V
keep_if p none = none
keep_if p (some v) = if p v then some v else none

module _ {ℓ κ} {K : Type ℓ} ⦃e : Eq K⦄ {V : Type κ} where
  unfoldable pub lookup : K → List (K × V) → Option V
  lookup sought [] = none
  lookup sought ((key, value) ∷ rest) = if key == sought then some value else lookup sought rest

  unfoldable pub insert : K → V → List (K × V) → List (K × V)
  insert key value [] = (key, value) ∷ []
  insert key value ((other, old) ∷ rest) =
      if other == key then (key, value) ∷ rest else (other, old) ∷ insert key value rest

  unfoldable pub delete : K → List (K × V) → List (K × V)
  delete k [] = []
  delete k ((j, w) ∷ m) = let rest = delete k m in if j == k then rest else (j, w) ∷ rest

  -- The loop that deletes the entries whose value fails a test.
  unfoldable pub retain : (V → Bool) → List (K × V) → List (K × V)
  unfolding delete
  retain p [] = []
  retain p ((j, w) ∷ m) = let rest = retain p m in if p w then (j, w) ∷ rest else delete j rest

  pub lookup-insert :
      (key sought : K) (value : V) (m : List (K × V))
      → lookup sought (insert key value m) ≡ (if key == sought then some value else lookup sought m)
  unfolding lookup insert
  lookup-insert key sought value [] = refl
  lookup-insert key sought value ((i, w) ∷ m) = ground (
    arith,
    lookup-insert key sought value m,
    e.same_iff i key,
    e.same_iff i sought,
    e.same_iff key sought,
  )

  pub lookup-delete :
      (k j : K) (m : List (K × V)) → lookup j (delete k m) ≡ (if k == j then none else lookup j m)
  unfolding lookup delete
  lookup-delete k j [] = ground arith
  lookup-delete k j ((i, w) ∷ m) =
      ground (arith, e.same_iff k j, e.same_iff i k, e.same_iff i j, lookup-delete k j m)

  length-delete-le : (k : K) (m : List (K × V)) → length (delete k m) ≤ length m
  unfolding delete
  length-delete-le k [] = omega arith
  length-delete-le k ((j, w) ∷ m) = ground (arith, length-delete-le k m)

  pub length-retain-le : (p : V → Bool) (m : List (K × V)) → length (retain p m) ≤ length m
  unfolding retain
  length-retain-le p [] = omega arith
  length-retain-le p ((j, w) ∷ m) =
      ground (arith, length-retain-le p m, length-delete-le j (retain p m))

  pub lookup-retain :
      (p : V → Bool) (k : K) (m : List (K × V)) → lookup k (retain p m) ≡ keep_if p (lookup k m)
  unfolding lookup retain
  lookup-retain p k [] = refl
  lookup-retain p k ((j, w) ∷ m) =
      ground (arith, e.same_iff j k, lookup-retain p k m, lookup-delete j k (retain p m))
