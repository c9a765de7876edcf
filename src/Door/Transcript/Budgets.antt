-- ===== src/Door/Transcript/Budgets.antt =====
-- residency-record.ts: each role's lines are bounded by its own budget, and drop the role's oldest
-- lines only.
use npc_of_the_internet.Shared.{
  ℕ, ◌+◌, ◌≡◌, refl, ap, subst, ◌∙◌, inl, inr, none, some, List, [], ◌∷◌, ◌++◌, Bool, true, false,
  length, drop, length-append, if◌then◌else◌, arith, Bool-cases,
}
use npc_of_the_internet.Door.Transcript.{
  Role, community, wanderer, ResidencyLine, PerRole, of_role, is_role, residency_line_chars, Entry,
  ResidencyRecord, create, pushed, record_line, clear, nothing,
}
use npc_of_the_internet.Door.Transcript.Entries.{
  entries_of, entries_of-append, costs-append, is_role_equal, is_role_self,
}
use npc_of_the_internet.Door.Transcript.Eviction.{
  Counted, Bounded, IsResidencyRecord, Counted-set, Evicted, evict-Evicted,
}

abbrev pub entry_of : ResidencyLine → Entry
entry_of line = record { line = line; cost = residency_line_chars line }

entries_of-other :
    (other : Role) (xs : List Entry) (e : Entry)
    → is_role e.line.role other ≡ false
    → entries_of other (xs ++ e ∷ []) ≡ entries_of other xs
entries_of-other other [] e h = rw h refl
entries_of-other other (x ∷ xs) e h = rw (entries_of-other other xs e h) refl

pushed-Counted :
    (line : ResidencyLine) (r : ResidencyRecord)
    → ((any : Role) → Counted r any)
    → (any : Role) → Counted (pushed line r) any
unfolding pushed
pushed-Counted line r counted =
    Counted-set line.role (of_role line.role r.chars + residency_line_chars line)
      (of_role line.role r.counts + 1) (r.entries ++ entry_of line ∷ []) r
      (rw mine (
        rw (costs-append (entries_of line.role r.entries) (entry_of line ∷ []))
          (omega (arith, (counted line.role).0))))
      (rw mine (
        rw (length-append (entries_of line.role r.entries) (entry_of line ∷ []))
          (omega (arith, (counted line.role).1))))
      (λ other k. entries_of-other other r.entries (entry_of line) k) counted
  where
    mine :
        entries_of line.role (r.entries ++ entry_of line ∷ [])
        ≡ entries_of line.role r.entries ++ entry_of line ∷ []
    mine =
        entries_of-append line.role r.entries (entry_of line ∷ [])
        ∙ rw (is_role_self line.role) refl

pushed_budgets :
    (line : ResidencyLine) (r : ResidencyRecord)
    → ((pushed line r).max_chars ≡ r.max_chars) × ((pushed line r).max_lines ≡ r.max_lines)
unfolding pushed
pushed_budgets line r = (refl, refl)

record_line-Evicted :
    (line : ResidencyLine) (r : ResidencyRecord)
    → ((any : Role) → Counted r any)
    → Evicted line.role r.entries (entry_of line) (pushed line r) (record_line line r)
unfolding record_line pushed
record_line-Evicted line r counted =
    evict-Evicted (length (r.entries ++ entry_of line ∷ [])) line.role r.entries (entry_of line)
      (pushed line r) (omega (arith, length-append r.entries (entry_of line ∷ [])))
      (is_role_self line.role) refl (pushed-Counted line r counted)

-- Recording a line leaves every line of the other role in the record and drops only oldest lines of
-- its own role before the new one.
pub record_line_keeps :
    (line : ResidencyLine) (r : ResidencyRecord)
    → IsResidencyRecord r
    → ((n : ℕ) × (entries_of line.role (record_line line r).entries
          ≡ drop n (entries_of line.role r.entries) ++ entry_of line ∷ []))
      × ((other : Role)
          → is_role line.role other ≡ false
          → entries_of other (record_line line r).entries ≡ entries_of other r.entries)
record_line_keeps line r h =
    let v = record_line-Evicted line r h.counted in
    (
      (
        v.oldest.0,
        ap (entries_of line.role) v.ends
            ∙ entries_of-append line.role v.kept (entry_of line ∷ [])
            ∙ rw (v.oldest.1, is_role_self line.role) refl,
      ),
      λ other k.
          ap (entries_of other) v.ends
          ∙ entries_of-other other v.kept (entry_of line) k
          ∙ v.others other k,
    )

-- A record whose totals count its lines and whose roles are each within their budgets, or down to
-- one line, is such a record after a further line of any size.
pub record_line-IsResidencyRecord :
    (line : ResidencyLine) (r : ResidencyRecord)
    → IsResidencyRecord r
    → IsResidencyRecord (record_line line r)
record_line-IsResidencyRecord line r h =
    let v = record_line-Evicted line r h.counted in
    record {
      counted = v.counted;
      bounded = λ role. elim (Bool-cases (is_role line.role role)) [
        | inl same ↦ subst (Bounded (record_line line r)) (is_role_equal line.role role same) v.done
        | inr differs ↦
            rw
              (
                (record_line_keeps line r h).1 role differs,
                v.same_budgets.0 ∙ (pushed_budgets line r).0,
                v.same_budgets.1 ∙ (pushed_budgets line r).1,
              )
              (h.bounded role)
      ];
    }

of_role-nothing : (role : Role) → of_role role nothing ≡ 0
of_role-nothing community = refl
of_role-nothing wanderer = refl

empty-IsResidencyRecord :
    (max_chars max_lines : PerRole)
    → IsResidencyRecord record {
      max_chars = max_chars;
      max_lines = max_lines;
      chars = nothing;
      counts = nothing;
      entries = [];
    }
empty-IsResidencyRecord max_chars max_lines = record {
  counted = λ role. (of_role-nothing role, of_role-nothing role);
  bounded = λ role. inl (omega arith, omega arith);
}

when_some : {A : Type 0} (b : Bool) (x y : A) → (if b then some x else none) ≡ some y → x ≡ y
when_some true x y h = cc h
when_some false x y h = absurd (cc h)

pub create-IsResidencyRecord :
    (max_chars max_lines : PerRole) (r : ResidencyRecord)
    → create max_chars max_lines ≡ some r
    → IsResidencyRecord r
unfolding create
create-IsResidencyRecord max_chars max_lines r h =
    subst IsResidencyRecord (when_some _ _ r h) (empty-IsResidencyRecord max_chars max_lines)

pub clear-IsResidencyRecord : (r : ResidencyRecord) → IsResidencyRecord (clear r)
unfolding clear
clear-IsResidencyRecord r = empty-IsResidencyRecord r.max_chars r.max_lines
