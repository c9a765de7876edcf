-- ===== src/Session/Sound/Slots.antt =====
-- session.ts: departure and travel of the depart ledger, and what an append marks.
use npc_of_the_internet.Shared.{
  ◌≡◌, refl, sym, ap, subst, ◌∙◌, ◌⊎◌, inl, inr, Option, none, some, Bool, get, put, text_eq,
}
use npc_of_the_internet.Session.{
  LedgerEntry, MemoryVerdict, witnessed, declined, JournalVerdict, undecided, skipped, decided,
  entry_of_verdict, DepartLedger,
}
use npc_of_the_internet.Session.Seal.{
  Slot, screened_slot, shard_slot, journal_slot, departure_slot, travel_slot, entry_at,
  entry_in_verdict, entry_in_journal, appended_journal, appended_option, appended_entry,
  appended_verdict, mark_appended,
}
use npc_of_the_internet.Session.Sound.{Held}
use npc_of_the_internet.Session.Sound.Changes.{Puts}
use npc_of_the_internet.Session.Sound.Keys.{some_equal, screened-Puts, shards-Puts, journal-Puts}

pub departure-Puts :
    (entry : LedgerEntry) (ledger : DepartLedger)
    → Puts departure_slot entry ledger (record ledger { departure = some entry })
departure-Puts entry ledger = record { at_most = most; keeps = keep; there = refl }
  where
    most :
        (k : Slot) (e : LedgerEntry)
        → entry_at k (record ledger { departure = some entry }) ≡ some e
        → (entry_at k ledger ≡ some e) ⊎ ((departure_slot ≡ k) × (entry ≡ e))
    most (screened_slot d) e at = inl at
    most (shard_slot d) e at = inl at
    most journal_slot e at = inl at
    most departure_slot e at = inr (refl, some_equal entry e at)
    most travel_slot e at = inl at

    keep :
        (k : Slot)
        → Held (entry_at k ledger)
        → Held (entry_at k (record ledger { departure = some entry }))
    keep (screened_slot d) h = h
    keep (shard_slot d) h = h
    keep journal_slot h = h
    keep departure_slot h = tt
    keep travel_slot h = h

pub travel-Puts :
    (entry : LedgerEntry) (bare : Bool) (ledger : DepartLedger)
    → Puts travel_slot entry ledger (record ledger { travel = some entry; bare = bare })
travel-Puts entry bare ledger = record { at_most = most; keeps = keep; there = refl }
  where
    most :
        (k : Slot) (e : LedgerEntry)
        → entry_at k (record ledger { travel = some entry; bare = bare }) ≡ some e
        → (entry_at k ledger ≡ some e) ⊎ ((travel_slot ≡ k) × (entry ≡ e))
    most (screened_slot d) e at = inl at
    most (shard_slot d) e at = inl at
    most journal_slot e at = inl at
    most departure_slot e at = inl at
    most travel_slot e at = inr (refl, some_equal entry e at)

    keep :
        (k : Slot)
        → Held (entry_at k ledger)
        → Held (entry_at k (record ledger { travel = some entry; bare = bare }))
    keep (screened_slot d) h = h
    keep (shard_slot d) h = h
    keep journal_slot h = h
    keep departure_slot h = h
    keep travel_slot h = tt

entry_of-appended_verdict :
    (verdict : MemoryVerdict)
    → entry_of_verdict (appended_verdict verdict) ≡ appended_entry (entry_of_verdict verdict)
entry_of-appended_verdict (witnessed entry) = refl
entry_of-appended_verdict (declined reason entry) = refl

Puts-at :
    (slot : Slot) (entry other : LedgerEntry) (before after : DepartLedger)
    → entry ≡ other
    → Puts slot entry before after
    → Puts slot other before after
Puts-at slot entry other before after same h = subst (λ e. Puts slot e before after) same h

appended_at_verdict :
    (o : Option MemoryVerdict) (entry : LedgerEntry)
    → entry_in_verdict o ≡ some entry
    → (verdict : MemoryVerdict) × (o ≡ some verdict) × (entry_of_verdict verdict ≡ entry)
appended_at_verdict none entry h = absurd (cc h)
appended_at_verdict (some verdict) entry h =
    (verdict, refl, some_equal (entry_of_verdict verdict) entry h)

mark_journal-Puts :
    (verdict : JournalVerdict) (entry : LedgerEntry) (ledger : DepartLedger)
    → ledger.journal ≡ verdict
    → entry_at journal_slot ledger ≡ some entry
    → Puts journal_slot (appended_entry entry) ledger (mark_appended journal_slot ledger)
unfolding mark_appended
mark_journal-Puts undecided entry ledger h at = absurd (cc (h, at))
mark_journal-Puts skipped entry ledger h at = absurd (cc (h, at))
mark_journal-Puts (decided verdict) entry ledger h at =
    subst
      (λ j.
        Puts journal_slot (appended_entry entry) ledger
          (record ledger { journal = appended_journal j }))
      (sym h)
      (Puts-at journal_slot (entry_of_verdict (appended_verdict verdict)) (appended_entry entry)
        ledger (record ledger { journal = decided (appended_verdict verdict) })
        (entry_of-appended_verdict verdict
          ∙ ap appended_entry
              (some_equal (entry_of_verdict verdict) entry (ap entry_in_journal (sym h) ∙ at)))
        (journal-Puts (appended_verdict verdict) ledger))

pub mark_appended-Puts :
    (slot : Slot) (entry : LedgerEntry) (ledger : DepartLedger)
    → entry_at slot ledger ≡ some entry
    → Puts slot (appended_entry entry) ledger (mark_appended slot ledger)
unfolding mark_appended
mark_appended-Puts (screened_slot category) entry ledger h =
    rw h (screened-Puts category (appended_entry entry) ledger)
mark_appended-Puts (shard_slot prose) entry ledger h =
    let (verdict, found, same) = appended_at_verdict (get prose ledger.shards) entry h in
    rw found (
      Puts-at (shard_slot prose) (entry_of_verdict (appended_verdict verdict))
        (appended_entry entry) ledger
        (record ledger { shards = put prose (appended_verdict verdict) ledger.shards })
        (entry_of-appended_verdict verdict ∙ ap appended_entry same)
        (shards-Puts prose (appended_verdict verdict) ledger))
mark_appended-Puts journal_slot entry ledger h =
    mark_journal-Puts ledger.journal entry ledger refl h
mark_appended-Puts departure_slot entry ledger h =
    subst
      (λ d.
        Puts departure_slot (appended_entry entry) ledger
          (record ledger { departure = appended_option d }))
      (sym h) (departure-Puts (appended_entry entry) ledger)
mark_appended-Puts travel_slot entry ledger h =
    subst
      (λ d.
        Puts travel_slot (appended_entry entry) ledger
          (record ledger { travel = appended_option d }))
      (sym h) (travel-Puts (appended_entry entry) ledger.bare ledger)
