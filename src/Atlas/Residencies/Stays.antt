-- ===== src/Atlas/Residencies/Stays.antt =====
-- atlas/src/derive.ts: in `deriveResidencies` the Wanderer is in one place at a time.
use npc_of_the_internet.Shared.{
  ◌≡◌, refl, sym, ap, subst, ◌∙◌, ◌⊎◌, inl, inr, Option, none, some, List, [], ◌∷◌, true, false,
  Text, text, get, put, get-put, ==_iff, ◌==◌, text_eq, nat_eq, Bool-cases, Option-cases,
}
use npc_of_the_internet.Chain.Record.{
  shard_v01, shard_v02, journal, candidate_v01, candidate_v02, rejected, arrival, heartbeat,
  departure, travel, handover, Body, genesis, memory, drift, decision, transaction, attestation,
  sleep, tombstone, OspRecord, MemoryBody, AttestationBody,
}
use npc_of_the_internet.Chain.Residency.{ResidencyParts, parse_residency, strip_prefix}
use npc_of_the_internet.Atlas.Residencies.{
  JournalRef, journal_ref_of, ResidencyEnd, Slot, new_slot, count_rejected, note_memory,
  note_attestation, note_body, note_journal, close_open, close, close_others, arrival_time,
  known_or_new, slot_of, closing, note_in, note_at, note_record, note_records,
}

-- A residency that has been arrived at and has not ended.
abbrev pub Staying : Slot → Type 0
Staying slot = (slot.ended ≡ none) × (at : Text) × (slot.arrived_at ≡ some at)

abbrev pub StaysAt : Text → List (Text × Slot) → Type 0
StaysAt key slots = (slot : Slot) × (get key slots ≡ some slot) × Staying slot

abbrev pub InOnePlace : List (Text × Slot) → Type 0
InOnePlace slots = (k j : Text) → StaysAt k slots → StaysAt j slots → k ≡ j

count_rejected-Staying :
    (reason : Option Text) (slot : Slot) → Staying (count_rejected reason slot) → Staying slot
unfolding count_rejected
count_rejected-Staying none slot h = h
count_rejected-Staying (some reason) slot h = h

note_memory-Staying :
    (body : MemoryBody) (slot : Slot) → Staying (note_memory body slot) → Staying slot
unfolding note_memory
note_memory-Staying (shard_v01 _ _ _ _) slot h = h
note_memory-Staying (shard_v02 _ _ _ _ _ _) slot h = h
note_memory-Staying (journal _ _ _) slot h = h
note_memory-Staying (candidate_v01 _ _) slot h = h
note_memory-Staying (candidate_v02 _ _ _) slot h = h
note_memory-Staying (rejected category _ _) slot h =
    count_rejected-Staying (strip_prefix (text "witness_") category) slot h

note_attestation-Staying :
    (body : AttestationBody) (slot : Slot)
    → arrival_time (attestation body) ≡ none
    → Staying (note_attestation body slot)
    → Staying slot
unfolding note_attestation
note_attestation-Staying (arrival _ _ _ at) slot h k = absurd (cc h)
note_attestation-Staying (heartbeat _ _ _ _) slot h k = k
note_attestation-Staying (departure _ _ _) slot h k = absurd (cc k.0)
note_attestation-Staying (travel _ _ _ _) slot h k = absurd (cc k.0)
note_attestation-Staying (handover _ _ _ _ _ _ _ _) slot h k = absurd (cc k.0)

-- A record that is no arrival opens no stay.
note_body-Staying :
    (body : Body) (slot : Slot)
    → arrival_time body ≡ none
    → Staying (note_body body slot)
    → Staying slot
unfolding note_body
note_body-Staying (memory body) slot h k = note_memory-Staying body slot k
note_body-Staying (attestation body) slot h k = note_attestation-Staying body slot h k
note_body-Staying (genesis _) slot h k = k
note_body-Staying (drift _ _ _) slot h k = k
note_body-Staying (decision _ _ _ _) slot h k = k
note_body-Staying (transaction _ _ _ _ _ _ _) slot h k = k
note_body-Staying (sleep _ _ _ _) slot h k = k
note_body-Staying (tombstone _ _ _ _) slot h k = k

note_journal-Staying :
    (r : OspRecord) (ref : Option JournalRef) (slot : Slot)
    → Staying (note_journal r ref slot)
    → Staying slot
unfolding note_journal
note_journal-Staying r none slot h = h
note_journal-Staying r (some ref) slot h = h

close_open-ended :
    (at : Text) (ended : Option ResidencyEnd) (slot : Slot)
    → slot.ended ≡ ended
    → (close_open at ended slot).ended ≡ none
    → ⊥
unfolding close_open
close_open-ended at none slot e h = cc h
close_open-ended at (some end) slot e h = cc (sym e ∙ h)

get-close_others :
    (own at key : Text) (slots : List (Text × Slot)) (slot : Slot)
    → get key (close_others own at slots) ≡ some slot
    → (key == own) ≡ false
    → slot.ended ≡ none
    → ⊥
unfolding close_others close
get-close_others own at key [] slot h differs open_ = cc h
get-close_others own at key ((j, s) ∷ rest) slot h differs open_ = elim (Bool-cases (j == key)) [
  | inr other ↦ get-close_others own at key rest slot (rw other at h) differs open_
  | inl same ↦
      close_open-ended at s.ended s refl
        (ap (λ t. t.ended) (some_injective (rw (same, other_key j same) at h)) ∙ open_)
]
  where
    some_injective : {a b : Slot} → some a ≡ some b → a ≡ b
    some_injective k = cc k

    other_key : (i : Text) → (i == key) ≡ true → (i == own) ≡ false
    other_key i k = rw ((==_iff i key).0 k) differs

put-StaysAt :
    (residency key : Text) (slot : Slot) (slots : List (Text × Slot))
    → StaysAt key (put residency slot slots)
    → (Staying slot × (residency ≡ key)) ⊎ StaysAt key slots
put-StaysAt residency key slot slots (s, h, stays) = elim (Bool-cases (residency == key)) [
  | inl same ↦
      inl
        (subst Staying (some_injective (sym (here same) ∙ h)) stays, (==_iff residency key).0 same)
  | inr differs ↦ inr (s, sym (there differs) ∙ h, stays)
]
  where
    some_injective : {a b : Slot} → some a ≡ some b → b ≡ a
    some_injective k = cc k

    here : (residency == key) ≡ true → get key (put residency slot slots) ≡ some slot
    here k = get-put residency key slot slots ∙ rw k refl

    there : (residency == key) ≡ false → get key (put residency slot slots) ≡ get key slots
    there k = get-put residency key slot slots ∙ rw k refl

new_slot-Staying :
    (residency : Text) (parts : ResidencyParts) → Staying (new_slot residency parts) → ⊥
unfolding new_slot
new_slot-Staying residency parts (open_, at, h) = cc h

known_or_new-StaysAt :
    (residency : Text) (known : Option Slot) (parts : Option ResidencyParts) (slot : Slot)
    (slots : List (Text × Slot))
    → get residency slots ≡ known
    → known_or_new residency known parts ≡ some slot
    → Staying slot
    → StaysAt residency slots
unfolding known_or_new
known_or_new-StaysAt residency (some s) parts slot slots e h stays = (slot, e ∙ h, stays)
known_or_new-StaysAt residency none none slot slots e h stays = absurd (cc h)
known_or_new-StaysAt residency none (some parts) slot slots e h stays =
    absurd (new_slot-Staying residency parts (subst Staying (some_injective h) stays))
  where
    some_injective : {a b : Slot} → some a ≡ some b → b ≡ a
    some_injective k = cc k

noted : OspRecord → Slot → Slot
noted r slot = note_body r.body (note_journal r (journal_ref_of r) slot)

-- A record that is no arrival adds no stay.
quiet-StaysAt :
    (r : OspRecord) (residency key : Text) (slot : Slot) (slots : List (Text × Slot))
    → arrival_time r.body ≡ none
    → slot_of residency slots ≡ some slot
    → StaysAt key (put residency (noted r slot) slots)
    → StaysAt key slots
unfolding slot_of noted
quiet-StaysAt r residency key slot slots quiet e h =
    elim (put-StaysAt residency key (noted r slot) slots h) [
      | inr before ↦ before
      | inl (stays, same) ↦
          subst (λ k. StaysAt k slots) same
            (known_or_new-StaysAt residency (get residency slots) (parse_residency residency) slot
              slots refl e
              (note_journal-Staying r (journal_ref_of r) slot
                (note_body-Staying r.body (note_journal r (journal_ref_of r) slot) quiet stays)))
    ]

-- After an arrival the Wanderer stays at its residency only.
arrival-StaysAt :
    (own at key : Text) (slots : List (Text × Slot))
    → StaysAt key (close_others own at slots)
    → key ≡ own
arrival-StaysAt own at key slots (slot, h, (open_, _, _)) = elim (Bool-cases (key == own)) [
  | inl same ↦ (==_iff key own).0 same
  | inr differs ↦ absurd (get-close_others own at key slots slot h differs open_)
]

note_in-InOnePlace :
    (r : OspRecord) (residency : Text) (slot : Option Slot) (slots : List (Text × Slot))
    → slot_of residency slots ≡ slot
    → InOnePlace slots
    → InOnePlace (note_in r residency slot slots)
unfolding note_in closing noted
note_in-InOnePlace r residency none slots e h = h
note_in-InOnePlace r residency (some slot) slots e h = elim (Option-cases (arrival_time r.body)) [
  | inl quiet ↦ rw quiet (λ k j a b.
      h k j (quiet-StaysAt r residency k slot slots quiet e a)
        (quiet-StaysAt r residency j slot slots quiet e b))
  | inr (at, arrives) ↦ rw arrives (λ k j a b.
      arrival-StaysAt residency at k (put residency (noted r slot) slots) a
      ∙ sym (arrival-StaysAt residency at j (put residency (noted r slot) slots) b))
]

note_at-InOnePlace :
    (r : OspRecord) (residency : Option Text) (slots : List (Text × Slot))
    → InOnePlace slots
    → InOnePlace (note_at r residency slots)
unfolding note_at
note_at-InOnePlace r none slots h = h
note_at-InOnePlace r (some residency) slots h =
    note_in-InOnePlace r residency (slot_of residency slots) slots refl h

-- Over any records, from a table where the Wanderer stays at no more than one residency, at most one
-- residency has been arrived at and has not ended.
pub note_records-InOnePlace :
    (records : List OspRecord) (slots : List (Text × Slot))
    → InOnePlace slots
    → InOnePlace (note_records records slots)
unfolding note_records note_record
note_records-InOnePlace [] slots h = h
note_records-InOnePlace (r ∷ rest) slots h =
    note_records-InOnePlace rest (note_at r r.residency slots)
      (note_at-InOnePlace r r.residency slots h)
