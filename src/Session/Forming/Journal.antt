-- ===== src/Session/Forming/Journal.antt =====
-- session.ts: `journalStep` keeps the depart ledger in step.
use npc_of_the_internet.Shared.{
  ◌≡◌, refl, sym, ap, ◌∙◌, Option, none, some, List, [], ◌∷◌, Text, text_eq, Bool-cases, ltb, inl,
  inr,
}
use npc_of_the_internet.Door.{journal}
use npc_of_the_internet.Door.Core.{code_points_from}
use npc_of_the_internet.Session.{
  MemoryVerdict, witnessed, declined, JournalVerdict, undecided, skipped, decided, entry_of_verdict,
  DepartLedger, Outside, SessionOptions, Moment,
}
use npc_of_the_internet.Session.Rules.{Keeps, bind-Keeps, Keeps-weaken, pure-Keeps}
use npc_of_the_internet.Session.Seal.{
  Slot, screened_slot, shard_slot, journal_slot, departure_slot, travel_slot, entry_at,
  entry_in_journal, change_ledger, ledger_or_empty,
}
use npc_of_the_internet.Session.Sound.{Start, Inv, IsStore}
use npc_of_the_internet.Session.Sound.Changes.{Inv-notes}
use npc_of_the_internet.Session.Sound.Keys.{journal-Puts}
use npc_of_the_internet.Session.Sound.Appends.{append_entry-Keeps}
use npc_of_the_internet.Session.Sound.Calls.{call_or_raise-Keeps}
use npc_of_the_internet.Session.Sound.Verdicts.{ask_witness-Keeps}
use npc_of_the_internet.Session.Forming.{
  memory_attest_text_max, write_journal, finish_journal, journal_text_of, ask_journal,
  judge_journal, form_journal, journal_after, journal_step,
}
use npc_of_the_internet.Session.Sound.Notes.{
  Done, notes-Unchanged, notes-Keeps, Puts-Keeps, read_ledger-Keeps,
}

module _ {E : Type 0} (outside : Outside E) (options : SessionOptions)
    (store : IsStore outside options) (start : Start E) where
  write_journal-Keeps :
      (verdict : MemoryVerdict) (path prose : Option Text) (s : Moment E)
      → Inv options start s
      → Keeps (Inv options start) Done (write_journal outside options verdict path prose s)
  unfolding write_journal
  write_journal-Keeps (declined reason entry) path prose s i = pure-Keeps tt s i tt
  write_journal-Keeps (witnessed entry) (some path) prose s i = pure-Keeps tt s i tt
  write_journal-Keeps (witnessed entry) none none s i = pure-Keeps tt s i tt
  write_journal-Keeps (witnessed entry) none (some prose) s i =
      bind-Keeps _ _ _
        (call_or_raise-Keeps outside options store start (outside.write_journal_file prose) s i)
        λ path t j near.
          Keeps-weaken _
            (notes-Keeps outside options store start _ t
              (λ ledger.
                notes-Unchanged ledger (record ledger { journal_path = some path }) refl refl refl
                  refl refl refl)
              j)
            (λ v l. l) (λ _ v l _. tt)

  finish_journal-Keeps :
      (verdict : MemoryVerdict) (s : Moment E)
      → entry_at journal_slot (ledger_or_empty s.ledger) ≡ some (entry_of_verdict verdict)
      → Inv options start s
      → Keeps (Inv options start) Done (finish_journal outside options verdict s)
  unfolding finish_journal
  finish_journal-Keeps verdict s at i =
      bind-Keeps _ _ _ (append_entry-Keeps outside options store start journal_slot _ s at i)
        λ _ t j _.
          bind-Keeps _ _ _ (read_ledger-Keeps outside options store start t j)
            λ ledger u k _. write_journal-Keeps verdict ledger.journal_path ledger.journal_text u k

  -- No journal is decided yet.
  abbrev Open : Moment E → Type 0
  Open t = entry_at journal_slot (ledger_or_empty t.ledger) ≡ none

  journal_text_of-Keeps :
      (known : Option Text) (shard_texts : List Text) (s : Moment E)
      → Open s
      → Inv options start s
      → Keeps
          (Inv options start)
          (λ prose t. Open t)
          (journal_text_of outside options known shard_texts s)
  unfolding journal_text_of
  journal_text_of-Keeps (some prose) shard_texts s open_s i = pure-Keeps prose s i open_s
  journal_text_of-Keeps none shard_texts s open_s i =
      bind-Keeps _ _ _
        (call_or_raise-Keeps outside options store start (outside.generate_journal shard_texts) s i)
        λ prose t j near.
          bind-Keeps _ _ _
            (notes-Keeps outside options store start _ t
              (λ ledger.
                notes-Unchanged ledger (record ledger { journal_text = some prose }) refl refl refl
                  refl refl refl)
              j)
            λ _ u k there. pure-Keeps prose u k (
              ap (λ l. entry_in_journal (ledger_or_empty l).journal) there
              ∙ ap (λ l. entry_in_journal (ledger_or_empty l).journal) near.ledger
              ∙ open_s)

  ask_journal-Keeps :
      (prose : Text) (s : Moment E)
      → Open s
      → Inv options start s
      → Keeps (Inv options start) Done (ask_journal outside options prose s)
  unfolding ask_journal
  ask_journal-Keeps prose s open_s i =
      bind-Keeps _ _ _ (ask_witness-Keeps outside options store start journal prose s open_s i)
        λ verdict t j (same, holds).
          bind-Keeps _ _ _
            (Puts-Keeps outside options store start _ journal_slot (entry_of_verdict verdict) t
              (journal-Puts verdict) (λ ledger h. h) (λ ledger. refl) holds j)
            λ _ u k there.
              finish_journal-Keeps verdict u
                (ap (λ l. entry_in_journal (ledger_or_empty l).journal) there) k

  skip-Keeps :
      (s : Moment E)
      → Open s
      → Inv options start s
      → Keeps
          (Inv options start)
          Done
          (change_ledger (λ ledger. record ledger { journal = skipped }) s)
  skip-Keeps s open_s i = record {
    ends = (Inv-notes s (record (ledger_or_empty s.ledger) { journal = skipped }) same refl i, tt);
  }
    where
      same :
          (k : Slot)
          → entry_at k (record (ledger_or_empty s.ledger) { journal = skipped })
            ≡ entry_at k (ledger_or_empty s.ledger)
      same (screened_slot category) = refl
      same (shard_slot prose) = refl
      same journal_slot = sym open_s
      same departure_slot = refl
      same travel_slot = refl

  judge_journal-Keeps :
      (prose : Text) (s : Moment E)
      → Open s
      → Inv options start s
      → Keeps (Inv options start) Done (judge_journal outside options prose s)
  unfolding judge_journal
  judge_journal-Keeps prose s open_s i =
      elim (Bool-cases (ltb memory_attest_text_max (code_points_from none prose))) [
        | inl too_long ↦ rw too_long (skip-Keeps s open_s i)
        | inr fits ↦ rw fits (ask_journal-Keeps prose s open_s i)
      ]

  form_journal-Keeps :
      (known : Option Text) (shard_texts : List Text) (s : Moment E)
      → Open s
      → Inv options start s
      → Keeps (Inv options start) Done (form_journal outside options known shard_texts s)
  unfolding form_journal
  form_journal-Keeps known [] s open_s i = pure-Keeps tt s i tt
  form_journal-Keeps known (first ∷ rest) s open_s i =
      bind-Keeps _ _ _ (journal_text_of-Keeps known (first ∷ rest) s open_s i)
        λ prose t j open_t. judge_journal-Keeps prose t open_t j

  journal_after-Keeps :
      (verdict : JournalVerdict) (ledger : DepartLedger) (s : Moment E)
      → (ledger_or_empty s.ledger).journal ≡ verdict
      → Inv options start s
      → Keeps (Inv options start) Done (journal_after outside options verdict ledger s)
  unfolding journal_after
  journal_after-Keeps undecided ledger s is i =
      form_journal-Keeps ledger.journal_text _ s (ap entry_in_journal is) i
  journal_after-Keeps skipped ledger s is i = pure-Keeps tt s i tt
  journal_after-Keeps (decided verdict) ledger s is i =
      finish_journal-Keeps verdict s (ap entry_in_journal is) i

  pub journal_step-Keeps :
      (s : Moment E)
      → Inv options start s
      → Keeps (Inv options start) Done (journal_step outside options s)
  unfolding journal_step
  journal_step-Keeps s i =
      bind-Keeps _ _ _ (read_ledger-Keeps outside options store start s i) λ ledger t j (same, is).
        journal_after-Keeps ledger.journal ledger t
          (ap (λ l. l.journal) (ap (λ u. ledger_or_empty u.ledger) same ∙ sym is)) j
