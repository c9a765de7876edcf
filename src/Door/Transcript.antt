-- ===== src/Door/Transcript.antt =====
-- door-sdk/src/residency-record.ts: `ResidencyRecord`, what a Door saw of the active residency.
pub mod Entries
pub mod Eviction
pub mod Budgets
mod Tests
use npc_of_the_internet.Shared.{
  ℕ, zero, suc, ◌+◌, ◌-◌, Option, none, some, List, [], ◌∷◌, ◌++◌, map, Bool, true, false, not,
  ◌&&◌, ◌||◌, Text, text, length, take, ltb, leb, includes, ◌==◌, nat_eq, if◌then◌else◌,
}
use npc_of_the_internet.Canonical.Strings.{stringify}

pub data Role : Type 0 where
  community wanderer : Role

pub record ResidencyLine : Type 0 where
  pub role : Role
  pub author : Option Text
  pub prose : Text
  pub at : Text

-- `Record<Role, number>`
pub record PerRole : Type 0 where
  pub of_community : ℕ
  pub of_wanderer : ℕ

abbrev pub of_role : Role → PerRole → ℕ
of_role community amounts = amounts.of_community
of_role wanderer amounts = amounts.of_wanderer

abbrev pub set_role : Role → ℕ → PerRole → PerRole
set_role community n amounts = record amounts { of_community = n }
set_role wanderer n amounts = record amounts { of_wanderer = n }

abbrev pub is_role : Role → Role → Bool
is_role community community = true
is_role wanderer wanderer = true
is_role _ _ = false

abbrev pub record_author_max : ℕ
record_author_max = 64

abbrev pub line_overhead_chars : ℕ
line_overhead_chars = 40

author_name : Option Text → Text
author_name none = text "someone"
author_name (some name) = name

pub residency_line_chars : ResidencyLine → ℕ
unfolding author_name
residency_line_chars line =
    let author =
      if is_role line.role community
      then length (stringify (take record_author_max (author_name line.author)))
      else 0 in
    length (stringify line.prose) + author + line_overhead_chars

pub record Entry : Type 0 where
  pub line : ResidencyLine
  pub cost : ℕ

pub record ResidencyRecord : Type 0 where
  pub max_chars : PerRole
  pub max_lines : PerRole
  pub chars : PerRole
  pub counts : PerRole
  pub entries : List Entry

abbrev pub nothing : PerRole
nothing = record { of_community = 0; of_wanderer = 0 }

-- The constructor, which throws a `RangeError` unless every budget is a positive integer.
pub create : (max_chars max_lines : PerRole) → Option ResidencyRecord
create max_chars max_lines =
    if ltb 0 max_chars.of_community
      && ltb 0 max_chars.of_wanderer
      && ltb 0 max_lines.of_community
      && ltb 0 max_lines.of_wanderer
    then some record {
      max_chars = max_chars;
      max_lines = max_lines;
      chars = nothing;
      counts = nothing;
      entries = [];
    }
    else none

pub over_budget : Role → ResidencyRecord → Bool
over_budget role r =
    ltb (of_role role r.max_chars) (of_role role r.chars)
    || ltb (of_role role r.max_lines) (of_role role r.counts)

-- The first entry of the role, and the entries without it (`findIndex`, then `splice`): none if that
-- entry is the last one.
pub splice_oldest : Role → List Entry → Option (Entry × List Entry)
splice_oldest role [] = none
splice_oldest role (e ∷ []) = none
splice_oldest role (e ∷ f ∷ rest) =
    let later = splice_oldest role (f ∷ rest) in
    if is_role e.line.role role
    then some (e, f ∷ rest)
    else elim later [ none ↦ none | some (dropped, kept) ↦ some (dropped, e ∷ kept) ]

pub without : Role → Entry → List Entry → ResidencyRecord → ResidencyRecord
without role dropped kept r = record r {
  chars = set_role role (of_role role r.chars - dropped.cost) r.chars;
  counts = set_role role (of_role role r.counts - 1) r.counts;
  entries = kept;
}

-- The `while` loop of `record`, on fuel.
pub evict : ℕ → Role → ResidencyRecord → ResidencyRecord
unfolding over_budget splice_oldest without
evict zero role r = r
evict (suc fuel) role r =
    if over_budget role r
    then elim (splice_oldest role r.entries) [
      | none ↦ r
      | some (dropped, kept) ↦ evict fuel role (without role dropped kept r)
    ]
    else r

pub pushed : ResidencyLine → ResidencyRecord → ResidencyRecord
unfolding residency_line_chars
pushed line r = record r {
  chars = set_role line.role (of_role line.role r.chars + residency_line_chars line) r.chars;
  counts = set_role line.role (of_role line.role r.counts + 1) r.counts;
  entries = r.entries ++ record { line = line; cost = residency_line_chars line } ∷ [];
}

-- `record`: each turn of the loop removes an entry, so one turn per entry is enough.
pub record_line : ResidencyLine → ResidencyRecord → ResidencyRecord
unfolding evict pushed
record_line line r = evict (length (pushed line r).entries) line.role (pushed line r)

pub lines : ResidencyRecord → List ResidencyLine
lines r = map (λ e. e.line) r.entries

pub size : ResidencyRecord → ℕ
size r = length r.entries

pub clear : ResidencyRecord → ResidencyRecord
clear r = record r { chars = nothing; counts = nothing; entries = [] }
