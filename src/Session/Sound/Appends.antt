-- ===== src/Session/Sound/Appends.antt =====
-- session.ts: `appendEntry` keeps the depart ledger in step.
use npc_of_the_internet.Shared.{
  ◌≡◌, refl, sym, ap, subst, ◌∙◌, ◌⊎◌, inl, inr, Option, none, some, Bool, true, false, In, text_eq,
  nat_eq, if◌then◌else◌,
}
use npc_of_the_internet.Session.{
  LedgerEntry, DepartLedger, Outside, SessionOptions, Moment, pure, ◌>>=◌, ◌>>◌,
}
use npc_of_the_internet.Session.Rules.{Keeps, bind-Keeps, Keeps-weaken, pure-Keeps}
use npc_of_the_internet.Session.Seal.{
  Slot, departure_slot, entry_at, mark_appended, appended_entry, appended_option, change_ledger,
  ledger_or_empty, require_head, append_unless_head, append_entry,
}
use npc_of_the_internet.Session.Sound.{Held, cids, AppendedThere, Travelled, Start, Inv, IsStore}
use npc_of_the_internet.Session.Sound.Changes.{Inv-Puts}
use npc_of_the_internet.Session.Sound.Slots.{mark_appended-Puts}
use npc_of_the_internet.Session.Sound.Calls.{require_head-Keeps, append_unless_head-Keeps}

module _ {E : Type 0} (outside : Outside E) (options : SessionOptions)
    (store : IsStore outside options) (start : Start E) where
  land-Keeps :
      (slot : Slot) (entry : LedgerEntry) (s : Moment E)
      → entry_at slot (ledger_or_empty s.ledger) ≡ some entry
      → Inv options start s
      → Keeps
          (Inv options start)
          (λ _ t. (t.ledger ≡ s.ledger) × In entry.cid (cids options t.chain))
          ((require_head outside options >>= append_unless_head outside options entry) s)
  land-Keeps slot entry s at i =
      bind-Keeps _ _ _ (require_head-Keeps outside options store start s i)
        λ head t j (near, there).
          Keeps-weaken _
            (append_unless_head-Keeps outside options store start slot entry head t there
              (j.held slot entry (ap (λ l. entry_at slot (ledger_or_empty l)) near.ledger ∙ at)) j)
            (λ u k. k) (λ _ u k (same, landed). (same ∙ near.ledger, landed))

  pub mark_appended_bare :
      (slot : Slot) (ledger : DepartLedger) → (mark_appended slot ledger).bare ≡ ledger.bare
  unfolding mark_appended
  mark_appended_bare (Slot.screened_slot category) ledger = refl
  mark_appended_bare (Slot.shard_slot prose) ledger = refl
  mark_appended_bare Slot.journal_slot ledger = refl
  mark_appended_bare departure_slot ledger = refl
  mark_appended_bare Slot.travel_slot ledger = refl

  pub mark_appended-Travelled :
      (slot : Slot) (ledger : DepartLedger)
      → Travelled ledger
      → Travelled (mark_appended slot ledger)
  unfolding mark_appended
  mark_appended-Travelled (Slot.screened_slot category) ledger h travels not_bare =
      h travels not_bare
  mark_appended-Travelled (Slot.shard_slot prose) ledger h travels not_bare = h travels not_bare
  mark_appended-Travelled Slot.journal_slot ledger h travels not_bare = h travels not_bare
  mark_appended-Travelled departure_slot ledger h travels not_bare =
      go ledger.departure (h travels not_bare)
    where
      go : (o : Option LedgerEntry) → AppendedThere o → AppendedThere (appended_option o)
      go none k = k
      go (some entry) k = refl
  mark_appended-Travelled Slot.travel_slot ledger h travels not_bare =
      h (go ledger.travel travels) not_bare
    where
      go : (o : Option LedgerEntry) → Held (appended_option o) → Held o
      go none k = k
      go (some entry) k = tt

  -- The entry at the slot is on the chain, and known to be; the rest of the ledger is as it was.
  pub append_entry-Keeps :
      (slot : Slot) (entry : LedgerEntry) (s : Moment E)
      → entry_at slot (ledger_or_empty s.ledger) ≡ some entry
      → Inv options start s
      → Keeps
          (Inv options start)
          (λ _ t.
            AppendedThere (entry_at slot (ledger_or_empty t.ledger))
            × ((t.ledger ≡ s.ledger)
                ⊎ (t.ledger ≡ some (mark_appended slot (ledger_or_empty s.ledger)))))
          (append_entry outside options slot entry s)
  unfolding append_entry
  append_entry-Keeps slot entry s at i = go entry.appended refl
    where
      go :
          (b : Bool)
          → entry.appended ≡ b
          → Keeps
              (Inv options start)
              (λ _ t.
                AppendedThere (entry_at slot (ledger_or_empty t.ledger))
                × ((t.ledger ≡ s.ledger)
                    ⊎ (t.ledger ≡ some (mark_appended slot (ledger_or_empty s.ledger)))))
              ((if b
                  then pure tt
                  else (require_head outside options >>= append_unless_head outside options entry)
                    >> change_ledger (mark_appended slot))
                s)
      go true done = pure-Keeps tt s i (subst AppendedThere (sym at) done, inl refl)
      go false not_yet = bind-Keeps _ _ _ (land-Keeps slot entry s at i) λ _ t j (same, landed).
          let at' = ap (λ l. entry_at slot (ledger_or_empty l)) same ∙ at in
          let puts = mark_appended-Puts slot entry (ledger_or_empty t.ledger) at' in
          let h = j.held slot entry at' in
          record {
            ends = (
              Inv-Puts t slot (appended_entry entry) (mark_appended slot (ledger_or_empty t.ledger))
                  puts
                  record {
                    named = h.named;
                    on_chain = λ _. landed;
                    blob_witnessed = h.blob_witnessed;
                    fits = h.fits;
                  }
                  (mark_appended-Travelled slot (ledger_or_empty t.ledger) j.travelled)
                  (λ careful not_bare.
                    mark_appended_bare slot (ledger_or_empty t.ledger) ∙ j.calm careful not_bare)
                  j,
              (
                subst AppendedThere (sym puts.there) refl,
                inr (ap (λ l. some (mark_appended slot (ledger_or_empty l))) same),
              ),
            );
          }
