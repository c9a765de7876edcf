-- ===== src/Session/Sound/Notes.antt =====
-- session.ts: changes of the depart ledger keep it in step.
use npc_of_the_internet.Shared.{◌≡◌, refl, ap, ◌∙◌, some, get, text_eq}
use npc_of_the_internet.Session.{LedgerEntry, DepartLedger, Outside, SessionOptions, Moment}
use npc_of_the_internet.Session.Rules.{Keeps}
use npc_of_the_internet.Session.Seal.{
  Slot, screened_slot, shard_slot, journal_slot, departure_slot, travel_slot, entry_at,
  entry_in_verdict, entry_in_journal, read_ledger, change_ledger, ledger_or_empty,
}
use npc_of_the_internet.Session.Sound.{Holds, Travelled, Start, Inv, IsStore}
use npc_of_the_internet.Session.Sound.Changes.{Puts, Inv-Puts, Inv-notes}

abbrev pub Done : {E A : Type 0} → A → Moment E → Type 0
Done a t = Unit

-- A change that leaves every entry where it is.
pub record Unchanged (before after : DepartLedger) : Type 0 where
  pub entries : (k : Slot) → entry_at k after ≡ entry_at k before
  pub bare : after.bare ≡ before.bare

pub notes-Unchanged :
    (before after : DepartLedger)
    → after.screened ≡ before.screened
    → after.shards ≡ before.shards
    → after.journal ≡ before.journal
    → after.departure ≡ before.departure
    → after.travel ≡ before.travel
    → after.bare ≡ before.bare
    → Unchanged before after
notes-Unchanged before after screened shards journals departure travel bare = record {
  entries = same;
  bare = bare;
}
  where
    same : (k : Slot) → entry_at k after ≡ entry_at k before
    same (screened_slot category) = ap (get category) screened
    same (shard_slot prose) = ap (λ m. entry_in_verdict (get prose m)) shards
    same journal_slot = ap entry_in_journal journals
    same departure_slot = departure
    same travel_slot = travel

module _ {E : Type 0} (outside : Outside E) (options : SessionOptions)
    (store : IsStore outside options) (start : Start E) where
  pub notes-Keeps :
      (f : DepartLedger → DepartLedger) (s : Moment E)
      → ((ledger : DepartLedger) → Unchanged ledger (f ledger))
      → Inv options start s
      → Keeps
          (Inv options start)
          (λ _ t. t.ledger ≡ some (f (ledger_or_empty s.ledger)))
          (change_ledger f s)
  notes-Keeps f s same i =
      let h = same (ledger_or_empty s.ledger) in
      record { ends = (Inv-notes s (f (ledger_or_empty s.ledger)) h.entries h.bare i, refl) }

  pub Puts-Keeps :
      (f : DepartLedger → DepartLedger) (slot : Slot) (entry : LedgerEntry) (s : Moment E)
      → ((ledger : DepartLedger) → Puts slot entry ledger (f ledger))
      → ((ledger : DepartLedger) → Travelled ledger → Travelled (f ledger))
      → ((ledger : DepartLedger) → (f ledger).bare ≡ ledger.bare)
      → Holds options s.chain s.asks slot entry
      → Inv options start s
      → Keeps
          (Inv options start)
          (λ _ t. t.ledger ≡ some (f (ledger_or_empty s.ledger)))
          (change_ledger f s)
  Puts-Keeps f slot entry s puts travelled bare holds i = record {
    ends = (
      Inv-Puts s slot entry (f (ledger_or_empty s.ledger)) (puts (ledger_or_empty s.ledger)) holds
          (travelled (ledger_or_empty s.ledger) i.travelled)
          (λ careful not_bare. bare (ledger_or_empty s.ledger) ∙ i.calm careful not_bare) i,
      refl,
    );
  }

  pub read_ledger-Keeps :
      (s : Moment E)
      → Inv options start s
      → Keeps
          (Inv options start)
          (λ ledger t. (t ≡ s) × (ledger ≡ ledger_or_empty s.ledger))
          (read_ledger s)
  read_ledger-Keeps s i = record { ends = (i, (refl, refl)) }
