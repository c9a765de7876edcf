-- ===== src/Session/Sound.antt =====
-- session.ts: the depart ledger against the chain, the stored blobs and what the Door was asked.
pub mod Changes
pub mod Keys
pub mod Slots
pub mod Calls
pub mod Appends
pub mod Verdicts
pub mod Departures
pub mod Notes
use npc_of_the_internet.Shared.{
  ℕ, suc, ◌+◌, ◌≡◌, refl, sym, ap, subst, ◌∙◌, ◌⊎◌, inl, inr, Option, none, some, List, [], ◌∷◌,
  ◌++◌, map, Bool, true, false, ◌&&◌, Text, In, ◌==◌, text_eq, if◌then◌else◌,
}
use npc_of_the_internet.Chain.Record.{OspRecord, Body, attestation, departure, travel}
use npc_of_the_internet.Door.{MemoryKind, shard, journal}
use npc_of_the_internet.Door.Witness.{is_journal}
use npc_of_the_internet.Session.{
  AddressedBlob, LedgerEntry, DepartLedger, AttestAnswer, cosigned, HeadInfo, Outside,
  SessionOptions, Ask, Moment,
}
use npc_of_the_internet.Session.Seal.{
  Slot, screened_slot, shard_slot, journal_slot, departure_slot, travel_slot, entry_at,
  ledger_or_empty,
}

abbrev pub Held : {A : Type 0} → Option A → Type 0
Held none = ⊥
Held (some a) = Unit

abbrev pub slot_of : MemoryKind → Text → Slot
slot_of shard prose = shard_slot prose
slot_of journal prose = journal_slot

abbrev slot_asked : Slot → Ask → Bool
slot_asked (shard_slot prose) ask = if is_journal ask.kind then false else ask.prose == prose
slot_asked journal_slot ask = is_journal ask.kind
slot_asked _ ask = false

-- How often the Door was asked about the memory of a slot: a shard text, or the journal.
pub asks_at : Slot → List Ask → ℕ
asks_at slot [] = 0
asks_at slot (ask ∷ rest) = (if slot_asked slot ask then 1 else 0) + asks_at slot rest

asks_at-append :
    (slot : Slot) (asks : List Ask) (ask : Ask)
    → slot_asked slot ask ≡ false
    → asks_at slot (asks ++ ask ∷ []) ≡ asks_at slot asks
unfolding asks_at
asks_at-append slot [] ask h = rw h refl
asks_at-append slot (first ∷ rest) ask h = rw (asks_at-append slot rest ask h) refl

slot_asked-slot_of :
    (slot : Slot) (kind : MemoryKind) (prose : Text) (answer : AttestAnswer)
    → slot_asked slot record { kind = kind; prose = prose; answer = answer } ≡ true
    → slot_of kind prose ≡ slot
slot_asked-slot_of (screened_slot category) kind prose answer h = absurd (cc h)
slot_asked-slot_of (shard_slot q) shard prose answer h =
    ap shard_slot ((text_eq.test_iff prose q).0 h)
slot_asked-slot_of (shard_slot q) journal prose answer h = absurd (cc h)
slot_asked-slot_of journal_slot shard prose answer h = absurd (cc h)
slot_asked-slot_of journal_slot journal prose answer h = refl
slot_asked-slot_of departure_slot kind prose answer h = absurd (cc h)
slot_asked-slot_of travel_slot kind prose answer h = absurd (cc h)

abbrev pub IsCosigned : AttestAnswer → Type 0
IsCosigned (cosigned _) = Unit
IsCosigned _ = ⊥

-- The blob of a memory that the Door has co-signed.
abbrev pub Witnessed : SessionOptions → List Ask → AddressedBlob → Type 0
Witnessed options asks blob =
    (ask : Ask) × In ask asks
    × IsCosigned ask.answer
    × (options.address_blob ask.kind ask.prose ≡ some blob)

abbrev pub cids : SessionOptions → List OspRecord → List Text
cids options chain = map options.crypto.compute_cid chain

-- The attestation that a slot is for.
abbrev pub Fits : SessionOptions → Slot → Body → Type 0
Fits options departure_slot body =
    (at : Text) × (body ≡ attestation (departure options.door_id options.epoch at))
Fits options travel_slot body =
    (to_door_id : Option Text) × (at : Text) × (body
      ≡ attestation (travel options.door_id options.epoch to_door_id at))
Fits options _ body = Unit

pub record Holds (options : SessionOptions) (chain : List OspRecord) (asks : List Ask) (slot : Slot)
    (entry : LedgerEntry) : Type 0 where
  pub named : entry.cid ≡ options.crypto.compute_cid entry.sealed
  pub on_chain : entry.appended ≡ true → In entry.cid (cids options chain)
  pub blob_witnessed : (blob : AddressedBlob) → entry.blob ≡ some blob → Witnessed options asks blob
  pub fits : Fits options slot entry.sealed.body

abbrev pub AppendedThere : Option LedgerEntry → Type 0
AppendedThere none = ⊥
AppendedThere (some entry) = entry.appended ≡ true

-- Only `departBare` seals a travel without a departure on the chain.
abbrev pub Travelled : DepartLedger → Type 0
Travelled ledger = Held ledger.travel → ledger.bare ≡ false → AppendedThere ledger.departure

-- Where a depart starts, and whether it is a `departBare`.
pub record Start (E : Type 0) : Type 0 where
  pub moment : Moment E
  pub best_effort : Bool

-- A moment of a session after `start`, within one of its departs.
pub record Inv {E : Type 0} (options : SessionOptions) (start : Start E) (s : Moment E)
    : Type 0 where
  pub stored : (blob : AddressedBlob) → In blob s.blobs → Witnessed options s.asks blob
  pub held :
      (slot : Slot) (entry : LedgerEntry)
      → entry_at slot (ledger_or_empty s.ledger) ≡ some entry
      → Holds options s.chain s.asks slot entry
  pub travelled : Travelled (ledger_or_empty s.ledger)
  -- `depart` seals no bare travel.
  pub calm :
      start.best_effort ≡ false
      → (ledger_or_empty start.moment.ledger).bare ≡ false
      → (ledger_or_empty s.ledger).bare ≡ false
  -- What had its record at the start has it still, and the Door was not asked about it.
  pub settled :
      (slot : Slot)
      → Held (entry_at slot (ledger_or_empty start.moment.ledger))
      → Held (entry_at slot (ledger_or_empty s.ledger))
        × (asks_at slot s.asks ≡ asks_at slot start.moment.asks)

-- A store's head is a record of its chain, not always its last one.
pub record IsStore {E : Type 0} (outside : Outside E) (options : SessionOptions) : Type 0 where
  pub head_stored :
      (chain : List OspRecord) (e : E) (head : HeadInfo)
      → (outside.head chain e).1 ≡ some (some head)
      → In head.cid (cids options chain)
