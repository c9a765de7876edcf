-- ===== src/Atlas/Residencies/Counts.antt =====
-- atlas/src/derive.ts: the memory counts of `deriveResidencies` against a count of the records.
use npc_of_the_internet.Shared.{
  ℕ, ◌+◌, ◌≡◌, refl, Option, none, some, List, [], Text, text, text_eq, nat_eq, arith,
}
use npc_of_the_internet.Chain.Record.{
  shard_v01, shard_v02, journal, candidate_v01, candidate_v02, rejected, arrival, heartbeat,
  departure, travel, handover, Body, genesis, memory, drift, decision, transaction, attestation,
  sleep, tombstone, OspRecord, MemoryBody, AttestationBody,
}
use npc_of_the_internet.Chain.Residency.{ResidencyParts, strip_prefix}
use npc_of_the_internet.Atlas.Residencies.{
  JournalRef, ResidencyEnd, Slot, new_slot, count_rejected, note_memory, note_attestation,
  note_body, note_journal, close_open, note_records,
}
use npc_of_the_internet.Atlas.Residencies.Totals.{
  is_declined, is_screened, shard_weight, declined_weight, screened_weight, records_total,
  slots_total, Named, Counts, total-note_records,
}

-- The three counters of a slot after a change, over those before and what the change adds.
abbrev Adds : Slot → Slot → (w d x : ℕ) → Type 0
Adds before after w d x =
    (after.witnessed ≡ before.witnessed + w)
    × (after.declined ≡ before.declined + d)
    × (after.screened ≡ before.screened + x)

Adds-nothing : (slot : Slot) → Adds slot slot 0 0 0
Adds-nothing slot = (omega arith, omega arith, omega arith)

count_rejected-Adds :
    (reason : Option Text) (slot : Slot)
    → Adds slot (count_rejected reason slot) 0 (is_declined reason) (is_screened reason)
unfolding count_rejected
count_rejected-Adds none slot = (omega arith, omega arith, refl)
count_rejected-Adds (some reason) slot = (omega arith, refl, omega arith)

note_memory-Adds :
    (body : MemoryBody) (slot : Slot)
    → Adds slot
        (note_memory body slot)
        (shard_weight (memory body))
        (declined_weight (memory body))
        (screened_weight (memory body))
unfolding note_memory
note_memory-Adds (shard_v01 _ _ _ _) slot = (refl, omega arith, omega arith)
note_memory-Adds (shard_v02 _ _ _ _ _ _) slot = (refl, omega arith, omega arith)
note_memory-Adds (journal _ _ _) slot = Adds-nothing slot
note_memory-Adds (candidate_v01 _ _) slot = Adds-nothing slot
note_memory-Adds (candidate_v02 _ _ _) slot = Adds-nothing slot
note_memory-Adds (rejected category _ _) slot =
    count_rejected-Adds (strip_prefix (text "witness_") category) slot

note_attestation-Adds :
    (body : AttestationBody) (slot : Slot) → Adds slot (note_attestation body slot) 0 0 0
unfolding note_attestation
note_attestation-Adds (arrival _ _ _ _) slot = Adds-nothing slot
note_attestation-Adds (heartbeat _ _ _ _) slot = Adds-nothing slot
note_attestation-Adds (departure _ _ _) slot = Adds-nothing slot
note_attestation-Adds (travel _ _ _ _) slot = Adds-nothing slot
note_attestation-Adds (handover _ _ _ _ _ _ _ _) slot = Adds-nothing slot

note_body-Adds :
    (body : Body) (slot : Slot)
    → Adds slot
        (note_body body slot)
        (shard_weight body)
        (declined_weight body)
        (screened_weight body)
unfolding note_body
note_body-Adds (memory body) slot = note_memory-Adds body slot
note_body-Adds (attestation body) slot = note_attestation-Adds body slot
note_body-Adds (genesis _) slot = Adds-nothing slot
note_body-Adds (drift _ _ _) slot = Adds-nothing slot
note_body-Adds (decision _ _ _ _) slot = Adds-nothing slot
note_body-Adds (transaction _ _ _ _ _ _ _) slot = Adds-nothing slot
note_body-Adds (sleep _ _ _ _) slot = Adds-nothing slot
note_body-Adds (tombstone _ _ _ _) slot = Adds-nothing slot

abbrev Same : Slot → Slot → Type 0
Same before after =
    (after.witnessed ≡ before.witnessed)
    × (after.declined ≡ before.declined)
    × (after.screened ≡ before.screened)

note_journal-Same :
    (r : OspRecord) (ref : Option JournalRef) (slot : Slot) → Same slot (note_journal r ref slot)
unfolding note_journal
note_journal-Same r none slot = (refl, refl, refl)
note_journal-Same r (some ref) slot = (refl, refl, refl)

close_open-Same :
    (at : Text) (ended : Option ResidencyEnd) (slot : Slot) → Same slot (close_open at ended slot)
unfolding close_open
close_open-Same at none slot = (refl, refl, refl)
close_open-Same at (some end) slot = (refl, refl, refl)

new_slot_empty :
    (residency : Text) (parts : ResidencyParts)
    → ((new_slot residency parts).witnessed ≡ 0)
      × ((new_slot residency parts).declined ≡ 0)
      × ((new_slot residency parts).screened ≡ 0)
unfolding new_slot
new_slot_empty residency parts = (refl, refl, refl)

witnessed-Counts : Counts (λ s. s.witnessed) shard_weight
witnessed-Counts = record {
  fresh = λ residency parts. (new_slot_empty residency parts).0;
  body = λ b slot. (note_body-Adds b slot).0;
  journals = λ r ref slot. (note_journal-Same r ref slot).0;
  closed = λ at ended slot. (close_open-Same at ended slot).0;
}

declined-Counts : Counts (λ s. s.declined) declined_weight
declined-Counts = record {
  fresh = λ residency parts. (new_slot_empty residency parts).1;
  body = λ b slot. (note_body-Adds b slot).1;
  journals = λ r ref slot. (note_journal-Same r ref slot).1;
  closed = λ at ended slot. (close_open-Same at ended slot).1;
}

screened-Counts : Counts (λ s. s.screened) screened_weight
screened-Counts = record {
  fresh = λ residency parts. (new_slot_empty residency parts).2;
  body = λ b slot. (note_body-Adds b slot).2;
  journals = λ r ref slot. (note_journal-Same r ref slot).2;
  closed = λ at ended slot. (close_open-Same at ended slot).2;
}

-- The witnessed, declined and screened memories of all residencies together are the shards, the
-- rejections by a witness and the other rejections among the records that name a residency.
pub note_records-totals :
    (records : List OspRecord)
    → (slots_total (λ s. s.witnessed) (note_records records [])
        ≡ records_total shard_weight records)
      × (slots_total (λ s. s.declined) (note_records records [])
          ≡ records_total declined_weight records)
      × (slots_total (λ s. s.screened) (note_records records [])
          ≡ records_total screened_weight records)
note_records-totals records = (
  omega (
    arith,
    total-note_records (λ s. s.witnessed) shard_weight witnessed-Counts records [] nobody,
  ),
  omega (
    arith,
    total-note_records (λ s. s.declined) declined_weight declined-Counts records [] nobody,
  ),
  omega (
    arith,
    total-note_records (λ s. s.screened) screened_weight screened-Counts records [] nobody,
  ),
)
  where
    nobody : Named []
    nobody key slot h = absurd (cc h)
