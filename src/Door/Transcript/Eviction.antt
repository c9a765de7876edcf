-- ===== src/Door/Transcript/Eviction.antt =====
-- residency-record.ts: what the loop of `record` leaves.
use npc_of_the_internet.Shared.{
  ℕ, zero, suc, ◌-◌, ◌≤◌, ◌<◌, ◌≡◌, refl, sym, ap, subst, ◌∙◌, ◌⊎◌, inl, inr, List, [], ◌∷◌, ◌++◌,
  true, false, length, drop, arith, Bool-cases,
}
use npc_of_the_internet.Door.Transcript.{
  Role, of_role, set_role, is_role, Entry, ResidencyRecord, over_budget, splice_oldest, without,
  evict,
}
use npc_of_the_internet.Door.Transcript.Entries.{
  entries_of, costs, of_role-set_role, entries_of-append, is_role_equal, is_role_self, Spliced,
  splice_oldest-cases,
}

-- The two totals of the role count its entries.
abbrev pub Counted : ResidencyRecord → Role → Type 0
Counted r role =
    (of_role role r.chars ≡ costs (entries_of role r.entries))
    × (of_role role r.counts ≡ length (entries_of role r.entries))

-- The role's lines are within its budgets, or only one of them is left.
abbrev pub Bounded : ResidencyRecord → Role → Type 0
Bounded r role =
    ((costs (entries_of role r.entries) ≤ of_role role r.max_chars)
      × (length (entries_of role r.entries) ≤ of_role role r.max_lines))
    ⊎ (length (entries_of role r.entries) ≡ 1)

pub record IsResidencyRecord (r : ResidencyRecord) : Type 0 where
  pub counted : (role : Role) → Counted r role
  pub bounded : (role : Role) → Bounded r role

-- A change of one role's total in step with its entries keeps the count of every role.
pub Counted-set :
    (role : Role) (chars counts : ℕ) (entries : List Entry) (r : ResidencyRecord)
    → (chars ≡ costs (entries_of role entries))
    → (counts ≡ length (entries_of role entries))
    → ((other : Role)
        → is_role role other ≡ false
        → entries_of other entries ≡ entries_of other r.entries)
    → ((any : Role) → Counted r any)
    → (any : Role)
    → Counted
        (record r {
          chars = set_role role chars r.chars;
          counts = set_role role counts r.counts;
          entries = entries;
        })
        any
Counted-set role chars counts entries r h k others c any = elim (Bool-cases (is_role role any)) [
  | inl same ↦
      subst
        (λ a.
          Counted
            (record r {
              chars = set_role role chars r.chars;
              counts = set_role role counts r.counts;
              entries = entries;
            })
            a)
        (is_role_equal role any same)
        (
          of_role-set_role role role chars r.chars ∙ rw (is_role_self role) h,
          of_role-set_role role role counts r.counts ∙ rw (is_role_self role) k,
        )
  | inr differs ↦ (
    of_role-set_role any role chars r.chars ∙ rw (differs, others any differs) (c any).0,
    of_role-set_role any role counts r.counts ∙ rw (differs, others any differs) (c any).1,
  )
]

-- What the loop of `record` leaves of the entries `xs` before the latest one.
pub record Evicted (role : Role) (xs : List Entry) (e : Entry) (r after : ResidencyRecord)
    : Type 0 where
  pub kept : List Entry
  pub ends : after.entries ≡ kept ++ e ∷ []
  pub oldest : (n : ℕ) × (entries_of role kept ≡ drop n (entries_of role xs))
  pub others :
      (other : Role) → is_role role other ≡ false → entries_of other kept ≡ entries_of other xs
  pub counted : (any : Role) → Counted after any
  pub done : Bounded after role
  pub same_budgets : (after.max_chars ≡ r.max_chars) × (after.max_lines ≡ r.max_lines)

Bounded-done :
    (role : Role) (r : ResidencyRecord)
    → over_budget role r ≡ false
    → Counted r role
    → Bounded r role
unfolding over_budget
Bounded-done role r h (chars, counts) = ground (arith, h, chars, counts)

-- The first entry of the role goes: the totals follow.
without-Counted :
    (role : Role) (xs ys : List Entry) (d e : Entry) (r : ResidencyRecord)
    → r.entries ≡ xs ++ e ∷ []
    → Spliced role xs d ys
    → ((any : Role) → Counted r any)
    → (any : Role) → Counted (without role d (ys ++ e ∷ []) r) any
unfolding without
without-Counted role xs ys d e r ends (of_d, mine, others, shorter) counted =
    Counted-set role (of_role role r.chars - d.cost) (of_role role r.counts - 1) (ys ++ e ∷ []) r
      (ground (arith, (counted role).0, ap costs before))
      (ground (arith, (counted role).1, ap (λ l. length l) before))
      (λ other k.
        entries_of-append other ys (e ∷ [])
        ∙ ap (λ l. l ++ entries_of other (e ∷ [])) (sym (others other k))
        ∙ sym (entries_of-append other xs (e ∷ []))
        ∙ ap (entries_of other) (sym ends))
      counted
  where
    before : entries_of role r.entries ≡ d ∷ entries_of role (ys ++ e ∷ [])
    before =
        ap (entries_of role) ends
        ∙ entries_of-append role xs (e ∷ [])
        ∙ ap (λ l. l ++ entries_of role (e ∷ [])) mine
        ∙ ap (λ l. d ∷ l) (sym (entries_of-append role ys (e ∷ [])))

Bounded-single :
    (role : Role) (xs : List Entry) (e : Entry) (r : ResidencyRecord)
    → r.entries ≡ xs ++ e ∷ []
    → is_role e.line.role role ≡ true
    → entries_of role xs ≡ []
    → Bounded r role
Bounded-single role xs e r ends mine empty = inr (ap (λ l. length l) single)
  where
    single : entries_of role r.entries ≡ e ∷ []
    single = ap (entries_of role) ends ∙ entries_of-append role xs (e ∷ []) ∙ rw (empty, mine) refl

without_entries :
    (role : Role) (d : Entry) (kept : List Entry) (r : ResidencyRecord)
    → (without role d kept r).entries ≡ kept
unfolding without
without_entries role d kept r = refl

without_budgets :
    (role : Role) (d : Entry) (kept : List Entry) (r : ResidencyRecord)
    → ((without role d kept r).max_chars ≡ r.max_chars)
      × ((without role d kept r).max_lines ≡ r.max_lines)
unfolding without
without_budgets role d kept r = (refl, refl)

-- One more turn of the loop before what it left.
Evicted-before :
    (role : Role) (xs ys : List Entry) (d e : Entry) (r after : ResidencyRecord)
    → Spliced role xs d ys
    → Evicted role ys e (without role d (ys ++ e ∷ []) r) after
    → Evicted role xs e r after
Evicted-before role xs ys d e r after (of_d, mine, others, shorter) h =
    let same = without_budgets role d (ys ++ e ∷ []) r in
    record {
      kept = h.kept;
      ends = h.ends;
      oldest = (suc h.oldest.0, h.oldest.1 ∙ ap (drop (suc h.oldest.0)) (sym mine));
      others = λ other k. h.others other k ∙ sym (others other k);
      counted = h.counted;
      done = h.done;
      same_budgets = (h.same_budgets.0 ∙ same.0, h.same_budgets.1 ∙ same.1);
    }

pub evict-Evicted :
    (fuel : ℕ) (role : Role) (xs : List Entry) (e : Entry) (r : ResidencyRecord)
    → length xs < fuel
    → is_role e.line.role role ≡ true
    → r.entries ≡ xs ++ e ∷ []
    → ((any : Role) → Counted r any)
    → Evicted role xs e r (evict fuel role r)
unfolding evict
evict-Evicted zero role xs e r enough mine ends counted = absurd (omega (arith, enough))
evict-Evicted (suc fuel) role xs e r enough mine ends counted =
    elim (Bool-cases (over_budget role r)) [
      | inr fits ↦ rw fits record {
        kept = xs;
        ends = ends;
        oldest = (0, refl);
        others = λ other k. refl;
        counted = counted;
        done = Bounded-done role r fits (counted role);
        same_budgets = (refl, refl);
      }
      | inl over ↦ elim (splice_oldest-cases role xs e) [
        | inl (none_left, empty) ↦
            rw (over, ap (splice_oldest role) ends ∙ none_left)
              record {
                kept = xs;
                ends = ends;
                oldest = (0, refl);
                others = λ other k. refl;
                counted = counted;
                done = Bounded-single role xs e r ends mine empty;
                same_budgets = (refl, refl);
              }
        | inr (d, ys, spliced, s) ↦
            rw (over, ap (splice_oldest role) ends ∙ spliced)
              (Evicted-before role xs ys d e r (evict fuel role (without role d (ys ++ e ∷ []) r)) s
                (evict-Evicted fuel role ys e (without role d (ys ++ e ∷ []) r)
                  (omega (arith, enough, s.3)) mine (without_entries role d (ys ++ e ∷ []) r)
                  (without-Counted role xs ys d e r ends s counted)))
      ]
    ]
