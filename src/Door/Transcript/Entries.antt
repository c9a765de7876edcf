-- ===== src/Door/Transcript/Entries.antt =====
-- residency-record.ts: the entries of one role, and what `splice_oldest` does to them.
use npc_of_the_internet.Shared.{
  ℕ, suc, ◌+◌, ◌≡◌, refl, ◌∙◌, ◌⊎◌, inl, inr, Option, none, some, List, [], ◌∷◌, ◌++◌, true, false,
  length, if◌then◌else◌, arith, Bool-cases,
}
use npc_of_the_internet.Door.Transcript.{
  Role, community, wanderer, PerRole, of_role, set_role, is_role, Entry, splice_oldest,
}

abbrev pub entries_of : Role → List Entry → List Entry
entries_of role [] = []
entries_of role (e ∷ es) =
    let rest = entries_of role es in if is_role e.line.role role then e ∷ rest else rest

abbrev pub costs : List Entry → ℕ
costs [] = 0
costs (e ∷ es) = e.cost + costs es

pub of_role-set_role :
    (a b : Role) (n : ℕ) (amounts : PerRole)
    → of_role a (set_role b n amounts) ≡ (if is_role b a then n else of_role a amounts)
of_role-set_role community community n amounts = refl
of_role-set_role community wanderer n amounts = refl
of_role-set_role wanderer community n amounts = refl
of_role-set_role wanderer wanderer n amounts = refl

pub entries_of-append :
    (role : Role) (xs ys : List Entry)
    → entries_of role (xs ++ ys) ≡ entries_of role xs ++ entries_of role ys
entries_of-append role [] ys = refl
entries_of-append role (e ∷ xs) ys = elim (Bool-cases (is_role e.line.role role)) [
  | inl h ↦ rw (h, entries_of-append role xs ys) refl
  | inr h ↦ rw (h, entries_of-append role xs ys) refl
]

pub costs-append : (xs ys : List Entry) → costs (xs ++ ys) ≡ costs xs + costs ys
costs-append [] ys = omega arith
costs-append (e ∷ xs) ys = omega (arith, costs-append xs ys)

pub is_role_equal : (a b : Role) → is_role a b ≡ true → a ≡ b
is_role_equal community community h = refl
is_role_equal wanderer wanderer h = refl
is_role_equal community wanderer h = absurd (cc h)
is_role_equal wanderer community h = absurd (cc h)

pub is_role_self : (a : Role) → is_role a a ≡ true
is_role_self community = refl
is_role_self wanderer = refl

pub same_role : (a b c : Role) → is_role a b ≡ true → is_role a c ≡ is_role b c
same_role community community c h = refl
same_role wanderer wanderer c h = refl
same_role community wanderer c h = absurd (cc h)
same_role wanderer community c h = absurd (cc h)

-- What `splice_oldest` does to `xs` before the latest entry: nothing of the role is there, or its
-- first entry `d` goes.
abbrev pub Spliced : Role → List Entry → Entry → List Entry → Type 0
Spliced role xs d ys =
    (is_role d.line.role role ≡ true)
    × (entries_of role xs ≡ d ∷ entries_of role ys)
    × ((other : Role) → is_role role other ≡ false → entries_of other xs ≡ entries_of other ys)
    × (length xs ≡ suc (length ys))

abbrev pub After : Role → List Entry → Entry → Type 0
After role xs e =
    ((splice_oldest role (xs ++ e ∷ []) ≡ none) × (entries_of role xs ≡ []))
    ⊎ ((d : Entry) × (ys : List Entry) × (splice_oldest role (xs ++ e ∷ [])
          ≡ some (d, ys ++ e ∷ []))
        × Spliced role xs d ys)

abbrev pub cons_kept : Entry → Option (Entry × List Entry) → Option (Entry × List Entry)
cons_kept x none = none
cons_kept x (some (dropped, kept)) = some (dropped, x ∷ kept)

pub splice_oldest-cons :
    (role : Role) (x : Entry) (xs : List Entry) (e : Entry)
    → splice_oldest role (x ∷ xs ++ e ∷ []) ≡ (
        if is_role x.line.role role
        then some (x, xs ++ e ∷ [])
        else cons_kept x (splice_oldest role (xs ++ e ∷ [])))
unfolding splice_oldest
splice_oldest-cons role x [] e = refl
splice_oldest-cons role x (y ∷ xs) e = elim (splice_oldest role (y ∷ xs ++ e ∷ [])) [
  | none ↦ refl
  | some _ ↦ refl
]

pub splice_oldest-single : (role : Role) (e : Entry) → splice_oldest role (e ∷ []) ≡ none
unfolding splice_oldest
splice_oldest-single role e = refl

pub splice_oldest-cases : (role : Role) (xs : List Entry) (e : Entry) → After role xs e
splice_oldest-cases role [] e = inl (splice_oldest-single role e, refl)
splice_oldest-cases role (x ∷ xs) e = elim (Bool-cases (is_role x.line.role role)) [
  | inl h ↦ inr (
    x,
    xs,
    splice_oldest-cons role x xs e ∙ rw h refl,
    (h, rw h refl, (λ other k. rw (same_role x.line.role role other h, k) refl), refl),
  )
  | inr h ↦ elim (splice_oldest-cases role xs e) [
    | inl (none_left, empty) ↦
        inl (splice_oldest-cons role x xs e ∙ rw (h, none_left) refl, rw h empty)
    | inr (d, ys, spliced, (of_d, mine, others, shorter)) ↦ inr (
      d,
      x ∷ ys,
      splice_oldest-cons role x xs e ∙ rw (h, spliced) refl,
      (of_d, rw h mine, (λ other k. rw (others other k) refl), omega (arith, shorter)),
    )
  ]
]
