-- ===== src/Shared/Latest.antt =====
-- The latest elements of a list, as a window that slides keeps them.
use Prim.Native.Nat.{ℕ, zero, suc, ◌+◌, ◌-◌, ◌≤◌}
use mathlib.Core.Path.{◌≡◌, refl, sym, ap, ◌∙◌}
use mathlib.Core.Logic.{◌↔◌, inl, inr}
use mathlib.Core.List.{List, [], ◌∷◌, ◌++◌, map}
use native.Mathlib.Omega.{arith}
use npc_of_the_internet.Shared.Lists.{length, drop, length-append, length-drop, In}

module _ {A : Type 0} where
  -- The last `n` elements, or all if there are fewer.
  abbrev pub latest : ℕ → List A → List A
  latest n xs = drop (length xs - n) xs

  drop-append : (n : ℕ) (xs ys : List A) → n ≤ length xs → drop n (xs ++ ys) ≡ drop n xs ++ ys
  drop-append zero xs ys h = refl
  drop-append (suc n) [] ys h = absurd (omega (arith, h))
  drop-append (suc n) (x ∷ xs) ys h = drop-append n xs ys (omega (arith, h))

  drop-nil : (n : ℕ) → drop {A = A} n [] ≡ []
  drop-nil zero = refl
  drop-nil (suc n) = refl

  drop-drop : (a b : ℕ) (xs : List A) → drop a (drop b xs) ≡ drop (b + a) xs
  drop-drop a zero xs = ap (λ n. drop n xs) (omega arith)
  drop-drop a (suc b) [] = drop-nil a ∙ sym (drop-nil (suc b + a))
  drop-drop a (suc b) (x ∷ xs) = drop-drop a b xs ∙ ap (λ n. drop n (x ∷ xs)) (sym (suc_plus b a))
    where
      suc_plus : (n m : ℕ) → suc n + m ≡ suc (n + m)
      suc_plus n m = omega arith

  -- Trimming after each element keeps the latest of the whole history.
  pub latest-append :
      (n : ℕ) (xs : List A) (x : A) → latest n (latest n xs ++ x ∷ []) ≡ latest n (xs ++ x ∷ [])
  latest-append n xs x =
      ap (drop (length (latest n xs ++ x ∷ []) - n))
        (sym (drop-append (length xs - n) xs (x ∷ []) (omega arith)))
      ∙ drop-drop (length (latest n xs ++ x ∷ []) - n) (length xs - n) (xs ++ x ∷ [])
      ∙ ap (λ k. drop k (xs ++ x ∷ []))
          (omega (
            arith,
            length-append (latest n xs) (x ∷ []),
            length-drop (length xs - n) xs,
            length-append xs (x ∷ []),
          ))

module _ {A B : Type 0} (f : A → B) where
  pub map-append : (xs ys : List A) → map f (xs ++ ys) ≡ map f xs ++ map f ys
  map-append [] ys = refl
  map-append (x ∷ xs) ys = ap (λ l. f x ∷ l) (map-append xs ys)

  pub length-map : (xs : List A) → length (map f xs) ≡ length xs
  length-map [] = refl
  length-map (x ∷ xs) = omega (arith, length-map xs)

  map-drop : (n : ℕ) (xs : List A) → map f (drop n xs) ≡ drop n (map f xs)
  map-drop zero xs = refl
  map-drop (suc n) [] = refl
  map-drop (suc n) (x ∷ xs) = map-drop n xs

  pub map-latest : (n : ℕ) (xs : List A) → map f (latest n xs) ≡ latest n (map f xs)
  map-latest n xs =
      map-drop (length xs - n) xs ∙ ap (λ k. drop (k - n) (map f xs)) (sym (length-map xs))

  pub In-map : (b : B) (xs : List A) → In b (map f xs) ↔ ((a : A) × In a xs × (f a ≡ b))
  In-map b [] = ((λ h. absurd h), λ (_, k, _). absurd k)
  In-map b (x ∷ xs) = (
    (λ h. elim h [
      | inl here ↦ (x, inl refl, here)
      | inr there ↦ (let (a, k, e) = (In-map b xs).0 there in (a, inr k, e))
    ]),
    λ (a, k, e). elim k [
      | inl same ↦ inl (ap f same ∙ e)
      | inr there ↦ inr ((In-map b xs).1 (a, there, e))
    ],
  )
