-- ===== src/Atlas/Residencies/Totals.antt =====
-- atlas/src/derive.ts: a counter of the table of residencies against a sum over the records.
use npc_of_the_internet.Shared.{
  ℕ, ◌+◌, ◌≡◌, refl, sym, ap, ◌∙◌, Option, none, some, List, [], ◌∷◌, false, Text, text, get, put,
  get-put, ==_iff, ◌==◌, text_eq, nat_eq, Bool-cases, inl, inr, arith,
}
use npc_of_the_internet.Chain.Record.{shard_v01, shard_v02, rejected, Body, memory, OspRecord}
use npc_of_the_internet.Chain.Residency.{ResidencyParts, parse_residency, strip_prefix}
use npc_of_the_internet.Atlas.Residencies.{
  JournalRef, journal_ref_of, ResidencyEnd, Slot, new_slot, note_body, note_journal, close_open,
  close, close_others, arrival_time, known_or_new, slot_of, closing, note_in, note_at, note_record,
  note_records,
}

-- A record's memory is a shard, one that the witness declined, or one that was screened.
abbrev pub is_declined : Option Text → ℕ
is_declined none = 0
is_declined (some _) = 1

abbrev pub is_screened : Option Text → ℕ
is_screened none = 1
is_screened (some _) = 0

abbrev pub shard_weight : Body → ℕ
shard_weight (memory (shard_v01 _ _ _ _)) = 1
shard_weight (memory (shard_v02 _ _ _ _ _ _)) = 1
shard_weight _ = 0

abbrev pub declined_weight : Body → ℕ
declined_weight (memory (rejected category _ _)) =
    is_declined (strip_prefix (text "witness_") category)
declined_weight _ = 0

abbrev pub screened_weight : Body → ℕ
screened_weight (memory (rejected category _ _)) =
    is_screened (strip_prefix (text "witness_") category)
screened_weight _ = 0

abbrev in_residency : Option ResidencyParts → ℕ → ℕ
in_residency none n = 0
in_residency (some _) n = n

abbrev record_weight : (Body → ℕ) → Option Text → Body → ℕ
record_weight weight none body = 0
record_weight weight (some residency) body = in_residency (parse_residency residency) (weight body)

-- The sum over the records that belong to a residency.
abbrev pub records_total : (Body → ℕ) → List OspRecord → ℕ
records_total weight [] = 0
records_total weight (r ∷ rest) =
    record_weight weight r.residency r.body + records_total weight rest

abbrev pub slots_total : (Slot → ℕ) → List (Text × Slot) → ℕ
slots_total count [] = 0
slots_total count ((_, slot) ∷ rest) = count slot + slots_total count rest

abbrev known_count : (Slot → ℕ) → Option Slot → ℕ
known_count count none = 0
known_count count (some slot) = count slot

slots_total-put :
    (count : Slot → ℕ) (key : Text) (slot : Slot) (slots : List (Text × Slot))
    → slots_total count (put key slot slots) + known_count count (get key slots)
      ≡ slots_total count slots + count slot
slots_total-put count key slot [] = omega arith
slots_total-put count key slot ((j, s) ∷ rest) = elim (Bool-cases (j == key)) [
  | inl same ↦ rw same (omega arith)
  | inr differs ↦ rw differs (omega (arith, slots_total-put count key slot rest))
]

-- Every residency of the table has a readable name.
abbrev pub Named : List (Text × Slot) → Type 0
Named slots =
    (key : Text) (slot : Slot)
    → get key slots ≡ some slot
    → (parts : ResidencyParts) × (parse_residency key ≡ some parts)

-- A counter of the slots that a record raises by its weight.
pub record Counts (count : Slot → ℕ) (weight : Body → ℕ) : Type 0 where
  pub fresh : (residency : Text) (parts : ResidencyParts) → count (new_slot residency parts) ≡ 0
  pub body : (b : Body) (slot : Slot) → count (note_body b slot) ≡ count slot + weight b
  pub journals :
      (r : OspRecord) (ref : Option JournalRef) (slot : Slot)
      → count (note_journal r ref slot) ≡ count slot
  pub closed :
      (at : Text) (ended : Option ResidencyEnd) (slot : Slot)
      → count (close_open at ended slot) ≡ count slot

unknown-unreadable :
    (residency : Text) (known : Option Slot) (parts : Option ResidencyParts)
    → known_or_new residency known parts ≡ none
    → parts ≡ none
unfolding known_or_new
unknown-unreadable residency (some s) parts h = absurd (cc h)
unknown-unreadable residency none none h = refl
unknown-unreadable residency none (some parts) h = absurd (cc h)

known-readable :
    (residency : Text) (known : Option Slot) (parts : Option ResidencyParts) (slot : Slot)
    → ((s : Slot) → known ≡ some s → (p : ResidencyParts) × (parts ≡ some p))
    → known_or_new residency known parts ≡ some slot
    → (p : ResidencyParts) × (parts ≡ some p)
unfolding known_or_new
known-readable residency (some s) parts slot named h = named s refl
known-readable residency none none slot named h = absurd (cc h)
known-readable residency none (some parts) slot named h = (parts, refl)

close_others-known :
    (own at key : Text) (slots : List (Text × Slot)) (slot : Slot)
    → get key (close_others own at slots) ≡ some slot
    → (s : Slot) × (get key slots ≡ some s)
unfolding close_others
close_others-known own at key [] slot h = absurd (cc h)
close_others-known own at key ((j, s) ∷ rest) slot h = elim (Bool-cases (j == key)) [
  | inl same ↦ (s, rw same refl)
  | inr other ↦ rw other (close_others-known own at key rest slot (rw other at h))
]

closing-known :
    (own : Text) (at : Option Text) (key : Text) (slots : List (Text × Slot)) (slot : Slot)
    → get key (closing own at slots) ≡ some slot
    → (s : Slot) × (get key slots ≡ some s)
unfolding closing
closing-known own none key slots slot h = (slot, h)
closing-known own (some at) key slots slot h = close_others-known own at key slots slot h

put-Named :
    (residency : Text) (slot : Slot) (slots : List (Text × Slot)) (parts : ResidencyParts)
    → parse_residency residency ≡ some parts
    → Named slots
    → Named (put residency slot slots)
put-Named residency slot slots parts readable named key s h = elim (Bool-cases (residency == key)) [
  | inl same ↦ (parts, ap parse_residency (sym ((==_iff residency key).0 same)) ∙ readable)
  | inr differs ↦ named key s (sym (there differs) ∙ h)
]
  where
    there : (residency == key) ≡ false → get key (put residency slot slots) ≡ get key slots
    there k = get-put residency key slot slots ∙ rw k refl

note_in-Named :
    (r : OspRecord) (residency : Text) (slot : Option Slot) (slots : List (Text × Slot))
    → slot_of residency slots ≡ slot
    → Named slots
    → Named (note_in r residency slot slots)
unfolding note_in slot_of
note_in-Named r residency none slots e named key s h = named key s h
note_in-Named r residency (some slot) slots e named key s h =
    let (parts, readable) =
      known-readable residency (get residency slots) (parse_residency residency) slot
        (named residency) e in
    let (t, known) =
      closing-known residency (arrival_time r.body) key
        (put residency (note_body r.body (note_journal r (journal_ref_of r) slot)) slots) s h in
    put-Named residency (note_body r.body (note_journal r (journal_ref_of r) slot)) slots parts
      readable named key t known

module _ (count : Slot → ℕ) (weight : Body → ℕ) (counts : Counts count weight) where
  total-close_others :
      (own at : Text) (slots : List (Text × Slot))
      → slots_total count (close_others own at slots) ≡ slots_total count slots
  unfolding close_others close
  total-close_others own at [] = refl
  total-close_others own at ((key, slot) ∷ rest) = elim (Bool-cases (key == own)) [
    | inl same ↦ rw (same, total-close_others own at rest) refl
    | inr differs ↦
        rw (differs, total-close_others own at rest, counts.closed at slot.ended slot) refl
  ]

  total-closing :
      (own : Text) (at : Option Text) (slots : List (Text × Slot))
      → slots_total count (closing own at slots) ≡ slots_total count slots
  unfolding closing
  total-closing own none slots = refl
  total-closing own (some at) slots = total-close_others own at slots

  known_or_new-count :
      (residency : Text) (known : Option Slot) (parts : Option ResidencyParts) (slot : Slot)
      → known_or_new residency known parts ≡ some slot
      → known_count count known ≡ count slot
  unfolding known_or_new
  known_or_new-count residency (some s) parts slot h = ap (known_count count) h
  known_or_new-count residency none none slot h = absurd (cc h)
  known_or_new-count residency none (some parts) slot h =
      sym (counts.fresh residency parts) ∙ ap (known_count count) h

  total-note_in :
      (r : OspRecord) (residency : Text) (slot : Option Slot) (slots : List (Text × Slot))
      → Named slots
      → slot_of residency slots ≡ slot
      → slots_total count (note_in r residency slot slots)
        ≡ in_residency (parse_residency residency) (weight r.body) + slots_total count slots
  unfolding note_in slot_of
  total-note_in r residency none slots named e =
      rw (unknown-unreadable residency (get residency slots) (parse_residency residency) e)
        (omega arith)
  total-note_in r residency (some slot) slots named e =
      let noted = note_body r.body (note_journal r (journal_ref_of r) slot) in
      let (parts, readable) =
        known-readable residency (get residency slots) (parse_residency residency) slot
          (named residency) e in
      rw readable (
        total-closing residency (arrival_time r.body) (put residency noted slots)
        ∙ raised (slots_total count (put residency noted slots))
            (known_count count (get residency slots)) (slots_total count slots) (count noted)
            (count slot) (weight r.body) (slots_total-put count residency noted slots)
            (known_or_new-count residency (get residency slots) (parse_residency residency) slot e)
            (counts.body r.body (note_journal r (journal_ref_of r) slot)
              ∙ ap (λ n. n + weight r.body) (counts.journals r (journal_ref_of r) slot)))
    where
      raised :
          (after known before noted old w : ℕ)
          → after + known ≡ before + noted
          → known ≡ old
          → noted ≡ old + w
          → after ≡ w + before
      raised after known before noted old w a b c = omega (arith, a, b, c)

  total-note_at :
      (r : OspRecord) (residency : Option Text) (slots : List (Text × Slot))
      → Named slots
      → Named (note_at r residency slots)
        × (slots_total count (note_at r residency slots)
            ≡ record_weight weight residency r.body + slots_total count slots)
  unfolding note_at
  total-note_at r none slots named = (named, omega arith)
  total-note_at r (some residency) slots named = (
    note_in-Named r residency (slot_of residency slots) slots refl named,
    total-note_in r residency (slot_of residency slots) slots named refl,
  )

  pub total-note_records :
      (records : List OspRecord) (slots : List (Text × Slot))
      → Named slots
      → slots_total count (note_records records slots)
        ≡ records_total weight records + slots_total count slots
  unfolding note_records note_record
  total-note_records [] slots named = omega arith
  total-note_records (r ∷ rest) slots named =
      let (still, here) = total-note_at r r.residency slots named in
      omega (arith, total-note_records rest (note_at r r.residency slots) still, here)
