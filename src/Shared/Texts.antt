-- ===== src/Shared/Texts.antt =====
-- A JavaScript string is its list of UTF-16 code units, so `length`, `take` and `drop` are those of
-- `s.length` and `s.slice`. `text` reads a literal of characters below U+10000.
use Prim.Native.Char.{code}
use Prim.Native.Nat.{ℕ}
use Prim.Native.String.{String}
use mathlib.Core.Path.{◌≡◌, refl}
use mathlib.Core.Logic.{◌↔◌}
use mathlib.Core.Bool.{Bool, true, false, ◌&&◌}
use mathlib.Core.List.{List, [], ◌∷◌}
use native.Mathlib.Omega.{arith}
use npc_of_the_internet.Shared.Tests.{HasEq, nat_beq}

abbrev pub Text : Type 0
Text = List ℕ

abbrev pub text : String → Text
text String.[] = []
text (String.◌∷◌ c s) = code c ∷ text s

abbrev pub text_beq : Text → Text → Bool
text_beq [] [] = true
text_beq (a ∷ s) (b ∷ t) = nat_beq a b && text_beq s t
text_beq _ _ = false

pub text_beq_iff : (s t : Text) → (text_beq s t ≡ true) ↔ (s ≡ t)
text_beq_iff [] [] = ((λ _. refl), λ _. refl)
text_beq_iff (a ∷ s) (b ∷ t) = ground (arith, text_beq_iff s t)
text_beq_iff [] (b ∷ t) = ((λ h. cc), λ h. cc)
text_beq_iff (a ∷ s) [] = ((λ h. cc), λ h. cc)

instance abbrev pub text_eq : HasEq Text
text_eq = record { test = text_beq; test_iff = text_beq_iff }
