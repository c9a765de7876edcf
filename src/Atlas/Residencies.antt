-- ===== src/Atlas/Residencies.antt =====
-- atlas/src/derive.ts: `deriveJournals` and `deriveResidencies`.
pub mod Stays
pub mod Totals
pub mod Counts
mod Tests
use npc_of_the_internet.Shared.{
  ℕ, ◌+◌, Option, none, some, List, [], ◌∷◌, ◌++◌, reverse, Bool, true, false, not, Text, text,
  includes, add, get, put, ◌==◌, nat_eq, text_eq, if◌then◌else◌,
}
use npc_of_the_internet.Chain.Record.{
  shard_v01, shard_v02, journal, rejected, arrival, heartbeat, departure, travel, handover, Body,
  memory, attestation, tombstone, OspRecord, MemoryBody, AttestationBody,
}
use npc_of_the_internet.Chain.Residency.{strip_prefix, ResidencyParts, parse_residency}
use npc_of_the_internet.Atlas.Pages.{Query, Page, paginate}

-- Where a memory record keeps its journal.
pub data JournalRef : Type 0 where
  inline blob_cid : Text → JournalRef

memory_journal : MemoryBody → Option JournalRef
memory_journal (journal journal_cid _ _) = some (blob_cid journal_cid)
memory_journal (shard_v01 _ _ (some inlined) _) = some (inline inlined)
memory_journal (shard_v02 _ _ _ (some journal_cid) _ _) = some (blob_cid journal_cid)
memory_journal _ = none

body_journal : Body → Option JournalRef
unfolding memory_journal
body_journal (memory body) = memory_journal body
body_journal _ = none

pub journal_ref_of : OspRecord → Option JournalRef
unfolding body_journal
journal_ref_of r = body_journal r.body

pub tombstoned_blobs : List OspRecord → List Text
tombstoned_blobs [] = []
tombstoned_blobs (r ∷ rest) =
    let later = tombstoned_blobs rest in
    elim r.body [ tombstone _ blob _ _ ↦ blob ∷ later | _ ↦ later ]

-- `getSideBlob` with the decoding of the blob, if Atlas has it: none where either throws.
abbrev pub Resolver : Type 0
Resolver = Option (Text → Option Text)

abbrev readable : Option Text → Text
readable none = text "[journal erased]"
readable (some journal_text) = journal_text

pub resolve_journal : JournalRef → List Text → Resolver → Text
resolve_journal (inline journal_text) erased resolver = journal_text
resolve_journal (blob_cid cid) erased resolver =
    if includes erased cid then text "[journal erased]" else elim resolver [
      | none ↦ text "[journal unavailable]"
      | some side_blob ↦ readable (side_blob cid)
    ]

pub record JournalEntry : Type 0 where
  pub epoch : ℕ
  pub door_id : Text
  pub cid : Text
  pub journal_text : Text

abbrev parsed : Option Text → Option ResidencyParts
parsed none = none
parsed (some residency) = parse_residency residency

journal_entry :
    (OspRecord → Text)
    → List Text
    → Resolver
    → OspRecord
    → Option ResidencyParts
    → Option JournalRef
    → List JournalEntry
journal_entry compute_cid erased resolver r (some parts) (some ref) =
    record {
      epoch = parts.epoch;
      door_id = parts.door_id;
      cid = compute_cid r;
      journal_text = resolve_journal ref erased resolver;
    }
    ∷ []
journal_entry compute_cid erased resolver r _ _ = []

journals_of : (OspRecord → Text) → List Text → Resolver → List OspRecord → List JournalEntry
unfolding journal_entry
journals_of compute_cid erased resolver [] = []
journals_of compute_cid erased resolver (r ∷ older) =
    journal_entry compute_cid erased resolver r (parsed r.residency) (journal_ref_of r)
    ++ journals_of compute_cid erased resolver older

pub derive_journals :
    (OspRecord → Text) → List OspRecord → Option Query → Resolver → Page JournalEntry
unfolding journals_of
derive_journals compute_cid records query resolver =
    paginate (journals_of compute_cid (tombstoned_blobs records) resolver (reverse records)) query

pub data ResidencyEnd : Type 0 where
  departed superseded : ResidencyEnd

-- An entry of `GET /residencies` while it is derived, with the record of its journal.
pub record Slot : Type 0 where
  pub residency : Text
  pub door_id : Text
  pub epoch : ℕ
  pub arrived_at : Option Text
  pub departed_at : Option Text
  pub traveled_to : Option Text
  pub ended : Option ResidencyEnd
  pub witnessed : ℕ
  pub declined : ℕ
  pub screened : ℕ
  pub declined_reasons : List Text
  pub journal_record : Option OspRecord

pub new_slot : Text → ResidencyParts → Slot
new_slot residency parts = record {
  residency = residency;
  door_id = parts.door_id;
  epoch = parts.epoch;
  arrived_at = none;
  departed_at = none;
  traveled_to = none;
  ended = none;
  witnessed = 0;
  declined = 0;
  screened = 0;
  declined_reasons = [];
  journal_record = none;
}

-- `??=`
abbrev pub or_set : Option Text → Text → Option Text
or_set none at = some at
or_set (some earlier) at = some earlier

pub count_rejected : Option Text → Slot → Slot
count_rejected (some reason) slot = record slot {
  declined = slot.declined + 1;
  declined_reasons = add reason slot.declined_reasons;
}
count_rejected none slot = record slot { screened = slot.screened + 1 }

pub note_memory : MemoryBody → Slot → Slot
unfolding count_rejected
note_memory (shard_v01 _ _ _ _) slot = record slot { witnessed = slot.witnessed + 1 }
note_memory (shard_v02 _ _ _ _ _ _) slot = record slot { witnessed = slot.witnessed + 1 }
note_memory (rejected category _ _) slot =
    count_rejected (strip_prefix (text "witness_") category) slot
note_memory _ slot = slot

-- What an attestation says of its own residency.
pub note_attestation : AttestationBody → Slot → Slot
note_attestation (arrival _ _ _ at) slot = record slot { arrived_at = or_set slot.arrived_at at }
note_attestation (heartbeat _ _ _ _) slot = slot
note_attestation (departure _ _ at) slot = record slot {
  departed_at = some at;
  ended = some departed;
}
note_attestation (travel _ _ to_door_id at) slot = record slot {
  departed_at = or_set slot.departed_at at;
  traveled_to = to_door_id;
  ended = some departed;
}
note_attestation (handover _ arrive_door_id _ _ _ _ _ at) slot = record slot {
  departed_at = or_set slot.departed_at at;
  traveled_to = some arrive_door_id;
  ended = some departed;
}

pub note_body : Body → Slot → Slot
unfolding note_memory note_attestation
note_body (memory body) slot = note_memory body slot
note_body (attestation body) slot = note_attestation body slot
note_body _ slot = slot

pub note_journal : OspRecord → Option JournalRef → Slot → Slot
note_journal r none slot = slot
note_journal r (some _) slot = record slot { journal_record = some r }

-- An arrival closes a residency that is still open.
pub close_open : Text → Option ResidencyEnd → Slot → Slot
close_open at none slot = record slot { departed_at = some at; ended = some superseded }
close_open at (some _) slot = slot

pub close : Text → Slot → Slot
unfolding close_open
close at slot = close_open at slot.ended slot

pub close_others : Text → Text → List (Text × Slot) → List (Text × Slot)
unfolding close
close_others own at [] = []
close_others own at ((key, slot) ∷ rest) =
    (key, if key == own then slot else close at slot) ∷ close_others own at rest

abbrev pub arrival_time : Body → Option Text
arrival_time (attestation (arrival _ _ _ at)) = some at
arrival_time _ = none

pub known_or_new : Text → Option Slot → Option ResidencyParts → Option Slot
unfolding new_slot
known_or_new residency (some slot) parts = some slot
known_or_new residency none none = none
known_or_new residency none (some parts) = some (new_slot residency parts)

-- The slot of the record's residency, known or new.
pub slot_of : Text → List (Text × Slot) → Option Slot
unfolding known_or_new
slot_of residency slots = known_or_new residency (get residency slots) (parse_residency residency)

pub closing : Text → Option Text → List (Text × Slot) → List (Text × Slot)
unfolding close_others
closing own none slots = slots
closing own (some at) slots = close_others own at slots

pub note_in : OspRecord → Text → Option Slot → List (Text × Slot) → List (Text × Slot)
unfolding note_body note_journal closing
note_in r residency none slots = slots
note_in r residency (some slot) slots =
    closing residency (arrival_time r.body)
      (put residency (note_body r.body (note_journal r (journal_ref_of r) slot)) slots)

pub note_at : OspRecord → Option Text → List (Text × Slot) → List (Text × Slot)
unfolding slot_of note_in
note_at r none slots = slots
note_at r (some residency) slots = note_in r residency (slot_of residency slots) slots

pub note_record : OspRecord → List (Text × Slot) → List (Text × Slot)
unfolding note_at
note_record r slots = note_at r r.residency slots

pub note_records : List OspRecord → List (Text × Slot) → List (Text × Slot)
unfolding note_record
note_records [] slots = slots
note_records (r ∷ rest) slots = note_records rest (note_record r slots)

pub record ResidencyEntry : Type 0 where
  pub slot : Slot
  pub journal_cid : Option Text
  pub journal_text : Option Text

with_journal :
    (OspRecord → Text)
    → List Text
    → Resolver
    → Slot
    → Option OspRecord
    → Option JournalRef
    → ResidencyEntry
with_journal compute_cid erased resolver slot (some r) (some ref) = record {
  slot = slot;
  journal_cid = some (compute_cid r);
  journal_text = some (resolve_journal ref erased resolver);
}
with_journal compute_cid erased resolver slot _ _ = record {
  slot = slot;
  journal_cid = none;
  journal_text = none;
}

abbrev ref_of_record : Option OspRecord → Option JournalRef
ref_of_record none = none
ref_of_record (some r) = journal_ref_of r

finish_entries :
    (OspRecord → Text) → List Text → Resolver → List (Text × Slot) → List ResidencyEntry
unfolding with_journal
finish_entries compute_cid erased resolver [] = []
finish_entries compute_cid erased resolver ((_, slot) ∷ rest) =
    with_journal compute_cid erased resolver slot slot.journal_record
      (ref_of_record slot.journal_record)
    ∷ finish_entries compute_cid erased resolver rest

pub derive_residencies :
    (OspRecord → Text) → List OspRecord → Option Query → Resolver → Page ResidencyEntry
unfolding note_records finish_entries
derive_residencies compute_cid records query resolver =
    paginate
      (finish_entries compute_cid (tombstoned_blobs records) resolver
        (reverse (note_records records [])))
      query
