-- ===== src/DiscordChunk/Splits.antt =====
-- chunk.ts, `findSplit`: the split lies within the limit, makes progress, and falls on a separator
-- or outside a surrogate pair.
use npc_of_the_internet.Shared.{
  ℕ, zero, suc, ◌/◌, ◌≤◌, ◌<◌, ◌≡◌, refl, sym, subst, ◌⊎◌, inl, inr, Option, none, some, [], ◌∷◌,
  Bool, true, false, ◌&&◌, Text, get_elem?, leb, ==_iff, nat_eq, arith, Bool-cases, Option-cases,
}
use npc_of_the_internet.DiscordChunk.{
  high_at, last_index_of_unit, Split, boundary, newline, space, hard_split, find_boundary,
  find_split,
}

abbrev pub is_low_surrogate : ℕ → Bool
is_low_surrogate code = leb 0xdc00 code && leb code 0xdfff

abbrev pub low_at : Text → ℕ → Bool
low_at s index = elim (get_elem? s index) [ none ↦ false | some code ↦ is_low_surrogate code ]

-- The index lies between the halves of a surrogate pair.
abbrev pub pair_at : Text → ℕ → Bool
pair_at s zero = false
pair_at s (suc index) = high_at s index && low_at s (suc index)

abbrev pub IsSeparatorAt : Text → ℕ → Type 0
IsSeparatorAt s index = (get_elem? s index ≡ some newline) ⊎ (get_elem? s index ≡ some space)

-- A split that the loop can make.
abbrev pub IsSplit : Text → ℕ → Split → Type 0
IsSplit s limit split =
    (split.cut ≤ limit)
    × (0 < split.cut)
    × (((split.skip ≡ 1) × IsSeparatorAt s split.cut)
        ⊎ ((split.skip ≡ 0) × (pair_at s split.cut ≡ false)))

last_index_of_unit-found :
    (separator limit : ℕ) (s : Text) (index : ℕ)
    → last_index_of_unit separator limit s ≡ some index
    → (index ≤ limit) × (get_elem? s index ≡ some separator)
unfolding last_index_of_unit
last_index_of_unit-found separator limit [] index h = absurd (cc h)
last_index_of_unit-found separator zero (c ∷ s) index h = ground (arith, ==_iff c separator)
last_index_of_unit-found separator (suc limit) (c ∷ s) index h =
    elim (Option-cases (last_index_of_unit separator limit s)) [
      | inl missing ↦ ground (arith, ==_iff c separator)
      | inr (i, found) ↦ ground (arith, last_index_of_unit-found separator limit s i found)
    ]

boundary-IsSplit :
    (s : Text) (limit least separator : ℕ) (otherwise : Option Split) (split : Split)
    → 0 < least
    → (separator ≡ newline) ⊎ (separator ≡ space)
    → (otherwise ≡ some split → IsSplit s limit split)
    → boundary least (last_index_of_unit separator limit s) otherwise ≡ some split
    → IsSplit s limit split
unfolding boundary
boundary-IsSplit s limit least separator otherwise split positive sep rest h =
    elim (Option-cases (last_index_of_unit separator limit s)) [
      | inl missing ↦ rest (rw missing at h)
      | inr (i, found) ↦ elim (Bool-cases (leb least i)) [
        | inl far ↦
            (let (below, here) = last_index_of_unit-found separator limit s i found in
              let same = rw (found, far) at h in ground arith)
        | inr near ↦ rest (rw (found, near) at h)
      ]
    ]

find_boundary-IsSplit :
    (s : Text) (limit : ℕ) (split : Split)
    → 2 ≤ limit
    → find_boundary s limit ≡ some split
    → IsSplit s limit split
unfolding find_boundary
find_boundary-IsSplit s limit split big h =
    boundary-IsSplit s limit (limit / 2) newline _ split (omega arith) (inl refl)
      (λ h₁.
        boundary-IsSplit s limit (limit / 2) space _ split (omega arith) (inr refl)
          (λ h₂.
            boundary-IsSplit s limit 1 newline _ split (omega arith) (inl refl)
              (λ h₃.
                boundary-IsSplit s limit 1 space none split (omega arith) (inr refl)
                  (λ h₄. absurd (cc h₄)) h₃)
              h₂)
          h₁)
      h

-- A unit is not both a high and a low surrogate.
pair_at-after : (s : Text) (i : ℕ) → high_at s i ≡ false → pair_at s (suc i) ≡ false
pair_at-after s i h = ground arith

pub high_not_low : (s : Text) (i : ℕ) → high_at s i ≡ true → low_at s i ≡ false
unfolding high_at
high_not_low s i h = elim (Option-cases (get_elem? s i)) [
  | inl missing ↦ ground arith
  | inr (c, found) ↦ ground arith
]

hard_split-IsSplit : (s : Text) (n : ℕ) → IsSplit s (suc (suc n)) (hard_split s (suc (suc n)))
unfolding hard_split
hard_split-IsSplit s n = elim (Bool-cases (high_at s (suc n))) [
  | inl high ↦
      subst (IsSplit s (suc (suc n))) (sym (before high))
        (omega arith, omega arith, inr (refl, ground (arith, high_not_low s (suc n))))
  | inr plain ↦
      subst (IsSplit s (suc (suc n))) (sym (at_limit plain))
        (omega arith, omega arith, inr (refl, pair_at-after s (suc n) plain))
]
  where
    before :
        high_at s (suc n) ≡ true → hard_split s (suc (suc n)) ≡ record { cut = suc n; skip = 0 }
    before high = ground arith

    at_limit :
        high_at s (suc n) ≡ false
        → hard_split s (suc (suc n)) ≡ record { cut = suc (suc n); skip = 0 }
    at_limit plain = ground arith

pub find_split-IsSplit : (s : Text) (limit : ℕ) → 2 ≤ limit → IsSplit s limit (find_split s limit)
unfolding find_split
find_split-IsSplit s zero big = absurd (omega arith)
find_split-IsSplit s (suc zero) big = absurd (omega arith)
find_split-IsSplit s (suc (suc n)) big = elim (Option-cases (find_boundary s (suc (suc n)))) [
  | inl missing ↦ subst (IsSplit s (suc (suc n))) (sym (hard missing)) (hard_split-IsSplit s n)
  | inr (split, found) ↦
      subst (IsSplit s (suc (suc n))) (sym (soft split found))
        (find_boundary-IsSplit s (suc (suc n)) split big found)
]
  where
    hard :
        find_boundary s (suc (suc n)) ≡ none
        → find_split s (suc (suc n)) ≡ hard_split s (suc (suc n))
    hard missing = rw (missing, find_split) refl

    soft :
        (split : Split)
        → find_boundary s (suc (suc n)) ≡ some split
        → find_split s (suc (suc n)) ≡ split
    soft split found = rw (found, find_split) refl
