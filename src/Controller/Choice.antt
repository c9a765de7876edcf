-- ===== src/Controller/Choice.antt =====
-- controller.ts, `chooseNextDoor`.
use npc_of_the_internet.Shared.{
  ℕ, zero, suc, ◌-◌, ◌<◌, ◌≡◌, ◌≢◌, refl, sym, ap, ◌∙◌, ◌↔◌, inl, inr, Option, none, some, List, [],
  ◌∷◌, true, Text, length, get_elem?, ltb, option_beq, option_beq_iff, ◌==◌, nat_eq, text_eq,
  if◌then◌else◌, arith, In, Bool-cases,
}
use mathlib.Core.Bool.{false≢true}
use npc_of_the_internet.Controller.{others_than, choose_next_door}

others_than_iff :
    (current : Option Text) (available : List Text) (d : Text)
    → In d (others_than current available) ↔ (In d available × (some d ≢ current))
unfolding others_than
others_than_iff current [] d = ((λ h. absurd h), λ h. absurd h.0)
others_than_iff current (x ∷ available) d = elim (Bool-cases (option_beq (some x) current)) [
  | inl same ↦ rw same (
    (λ h. let (k, l) = (others_than_iff current available d).0 h in (inr k, l)),
    λ h. elim h.0 [
      | inl here ↦ absurd (h.1 (ap some (sym here) ∙ (option_beq_iff (some x) current).0 same))
      | inr there ↦ (others_than_iff current available d).1 (there, h.1)
    ],
  )
  | inr other ↦ rw other (
    (λ h. elim h [
      | inl here ↦ (
        inl here,
        λ k. false≢true (sym other ∙ (option_beq_iff (some x) current).1 (ap some here ∙ k)),
      )
      | inr there ↦ (let (k, l) = (others_than_iff current available d).0 there in (inr k, l))
    ]),
    λ h. elim h.0 [
      | inl here ↦ inl here
      | inr there ↦ inr ((others_than_iff current available d).1 (there, h.1))
    ],
  )
]

get_elem-In : (xs : List Text) (i : ℕ) (x : Text) → get_elem? xs i ≡ some x → In x xs
get_elem-In [] i x h = absurd (cc h)
get_elem-In (y ∷ xs) zero x h = inl cc
get_elem-In (y ∷ xs) (suc i) x h = inr (get_elem-In xs i x h)

get_elem_within : (xs : List Text) (i : ℕ) → i < length xs → (x : Text) × (get_elem? xs i ≡ some x)
get_elem_within [] i h = absurd (omega arith)
get_elem_within (y ∷ xs) zero h = (y, refl)
get_elem_within (y ∷ xs) (suc i) h = get_elem_within xs i (omega arith)

-- No other Door: every one available is the current one.
none_other :
    (current : Option Text) (available : List Text)
    → (length (others_than current available) == 0) ≡ true
    → (x : Text) → In x available
    → some x ≡ current
none_other current available empty x here = elim (Bool-cases (option_beq (some x) current)) [
  | inl same ↦ (option_beq_iff (some x) current).0 same
  | inr other ↦ absurd (
      nowhere (others_than current available) empty (
        (others_than_iff current available x).1
          (here, λ k. false≢true (sym other ∙ (option_beq_iff (some x) current).1 k))))
]
  where
    nowhere : (xs : List Text) → (length xs == 0) ≡ true → In x xs → ⊥
    nowhere [] e h = h
    nowhere (y ∷ xs) e h = ground arith

-- The Door chosen is available, and it is the current one only if every available Door is.
pub choose_next_door_available :
    (available : List Text) (current : Option Text) (draw : ℕ → ℕ) (d : Text)
    → choose_next_door available current draw ≡ some d
    → In d available × (some d ≡ current → (x : Text) → In x available → some x ≡ current)
unfolding choose_next_door
choose_next_door_available available current draw d h =
    elim (Bool-cases (length (others_than current available) == 0)) [
      | inl empty ↦ (
        get_elem-In available 0 d (rw empty at h),
        λ _ x here. none_other current available empty x here,
      )
      | inr others ↦
          (let (here, other) =
              (others_than_iff current available d).0
                (get_elem-In (others_than current available) _ d (rw others at h)) in
            (here, λ same. absurd (other same)))
    ]

-- A Door is chosen exactly if one is available.
pub choose_next_door_iff :
    (available : List Text) (current : Option Text) (draw : ℕ → ℕ)
    → (choose_next_door available current draw ≡ none) ↔ (available ≡ [])
unfolding choose_next_door others_than
choose_next_door_iff [] current draw = ((λ _. refl), λ _. refl)
choose_next_door_iff (y ∷ available) current draw = (λ h. absurd (chosen h), λ h. absurd (cc h))
  where
    found :
        (i : ℕ)
        → i < length (others_than current (y ∷ available))
        → get_elem? (others_than current (y ∷ available)) i ≡ none
        → ⊥
    found i below h =
        let (x, e) = get_elem_within (others_than current (y ∷ available)) i below in cc (e, h)

    chosen : choose_next_door (y ∷ available) current draw ≡ none → ⊥
    chosen h = elim (Bool-cases (length (others_than current (y ∷ available)) == 0)) [
      | inl empty ↦ absurd (cc (rw (empty, choose_next_door) at h))
      | inr others ↦ absurd (
          found
            (if ltb (draw (length (others_than current (y ∷ available))))
                (length (others_than current (y ∷ available)) - 1)
              then draw (length (others_than current (y ∷ available)))
              else length (others_than current (y ∷ available)) - 1)
            (ground arith) (rw (others, choose_next_door) at h))
    ]
