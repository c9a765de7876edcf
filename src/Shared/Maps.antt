-- ===== src/Shared/Maps.antt =====
-- JavaScript's `Map` as an association list in insertion order, and `Set` as a list.
use mathlib.Core.Path.{◌≡◌, refl}
use mathlib.Core.Bool.{Bool, false, ◌||◌}
use mathlib.Core.Option.{Option, none, some}
use mathlib.Core.List.{List, [], ◌∷◌, ◌++◌}
use native.Mathlib.Omega.{arith}
use npc_of_the_internet.Shared.Tests.{HasEq, ◌==◌, if◌then◌else◌}

module _ {ℓ κ} {K : Type ℓ} {V : Type κ} ⦃e : HasEq K⦄ where
  abbrev pub get : K → List (K × V) → Option V
  get k [] = none
  get k ((j, v) ∷ m) = if j == k then some v else get k m

  -- `Map.set`: a known key keeps its place.
  abbrev pub put : K → V → List (K × V) → List (K × V)
  put k v [] = (k, v) ∷ []
  put k v ((j, w) ∷ m) = if j == k then (k, v) ∷ m else (j, w) ∷ put k v m

  abbrev pub remove : K → List (K × V) → List (K × V)
  remove k [] = []
  remove k ((j, w) ∷ m) = let rest = remove k m in if j == k then rest else (j, w) ∷ rest

  pub get-put :
      (k j : K) (v : V) (m : List (K × V))
      → get j (put k v m) ≡ (if k == j then some v else get j m)
  get-put k j v [] = refl
  get-put k j v ((i, w) ∷ m) =
      ground (arith, e.test_iff k j, e.test_iff i k, e.test_iff i j, get-put k j v m)

  pub get-remove :
      (k j : K) (m : List (K × V)) → get j (remove k m) ≡ (if k == j then none else get j m)
  get-remove k j [] = ground arith
  get-remove k j ((i, w) ∷ m) =
      ground (arith, e.test_iff k j, e.test_iff i k, e.test_iff i j, get-remove k j m)

module _ {ℓ} {A : Type ℓ} ⦃e : HasEq A⦄ where
  abbrev pub includes : List A → A → Bool
  includes [] a = false
  includes (x ∷ xs) a = x == a || includes xs a

  -- `Set.add`
  abbrev pub add : A → List A → List A
  add a xs = if includes xs a then xs else xs ++ a ∷ []

  pub includes-append :
      (xs ys : List A) (a : A) → includes (xs ++ ys) a ≡ (includes xs a || includes ys a)
  includes-append [] ys a = refl
  includes-append (x ∷ xs) ys a = ground (arith, includes-append xs ys a)

  pub includes-add :
      (b : A) (xs : List A) (a : A) → includes (add b xs) a ≡ (b == a || includes xs a)
  includes-add b xs a = ground (arith, includes-append xs (b ∷ []) a, e.test_iff b a)
