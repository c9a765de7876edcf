-- ===== src/Shared/Tests.antt =====
-- Boolean tests on the native numbers, the conditional, and equality as an interface.
use Prim.Native.Nat.{ℕ, ◌<◌, compare, Ordering}
use mathlib.Core.Path.{◌≡◌, refl}
use mathlib.Core.Logic.{◌↔◌, ◌⊎◌, inl, inr}
use mathlib.Core.Bool.{Bool, true, false}
use mathlib.Core.Option.{Option, none, some}
use native.Mathlib.Omega.{arith}

abbrev pub ltb : ℕ → ℕ → Bool
ltb a b = elim (compare a b) [ Ordering.lt ↦ true | _ ↦ false ]

abbrev pub leb : ℕ → ℕ → Bool
leb a b = elim (compare a b) [ Ordering.gt ↦ false | _ ↦ true ]

abbrev pub nat_beq : ℕ → ℕ → Bool
nat_beq a b = elim (compare a b) [ Ordering.eq ↦ true | _ ↦ false ]

infix 1 if◌then◌else◌
abbrev pub if◌then◌else◌ {ℓ} : {A : Type ℓ} → Bool → A → A → A
if true then x else y = x
if false then x else y = y

pub ltb→lt : (a b : ℕ) → ltb a b ≡ true → a < b
ltb→lt a b h = ground arith

pub nat_beq_iff : (a b : ℕ) → (nat_beq a b ≡ true) ↔ (a ≡ b)
nat_beq_iff a b = ground arith

pub Bool-cases : (b : Bool) → (b ≡ true) ⊎ (b ≡ false)
Bool-cases true = inl refl
Bool-cases false = inr refl

pub Option-cases {ℓ} : {A : Type ℓ} (o : Option A) → (o ≡ none) ⊎ ((a : A) × (o ≡ some a))
Option-cases none = inl refl
Option-cases (some a) = inr (a, refl)

-- Equality that computes (`===` on numbers and on strings).
pub record HasEq {ℓ} (A : Type ℓ) : Type ℓ where
  pub test : (left right : A) → Bool
  pub test_iff : (left right : A) → (test left right ≡ true) ↔ (left ≡ right)

infix 50 ◌==◌
abbrev pub ◌==◌ {ℓ} : {A : Type ℓ} ⦃e : HasEq A⦄ → A → A → Bool
◌==◌ ⦃e⦄ left right = e.test left right

instance abbrev pub nat_eq : HasEq ℕ
nat_eq = record { test = nat_beq; test_iff = nat_beq_iff }

module _ {ℓ} {A : Type ℓ} ⦃e : HasEq A⦄ where
  pub ==_iff : (a b : A) → ((a == b) ≡ true) ↔ (a ≡ b)
  ==_iff a b = e.test_iff a b

  pub ==_self : (a : A) → (a == a) ≡ true
  ==_self a = (e.test_iff a a).1 refl

  -- Optional values compare as JavaScript compares a value with a string or with null.
  abbrev pub option_beq : Option A → Option A → Bool
  option_beq none none = true
  option_beq (some a) (some b) = a == b
  option_beq _ _ = false

  pub option_beq_iff : (a b : Option A) → (option_beq a b ≡ true) ↔ (a ≡ b)
  option_beq_iff none none = ((λ _. refl), λ _. refl)
  option_beq_iff (some a) (some b) = ground (arith, e.test_iff a b)
  option_beq_iff none (some b) = ((λ h. cc), λ h. cc)
  option_beq_iff (some a) none = ((λ h. cc), λ h. cc)
