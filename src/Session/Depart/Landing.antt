-- ===== src/Session/Depart/Landing.antt =====
-- session.ts: a departure, and one that landed without an answer, keep the depart ledger in step.
use npc_of_the_internet.Shared.{
  ◌≡◌, refl, sym, ap, subst, ◌∙◌, inl, inr, Option, none, some, List, [], ◌∷◌, In, ◌==◌, text_eq,
  Bool-cases,
}
use npc_of_the_internet.Chain.Record.{OspRecord}
use npc_of_the_internet.Session.{LedgerEntry, HeadInfo, Outside, SessionOptions, Moment}
use npc_of_the_internet.Session.Rules.{Keeps, bind-Keeps, Keeps-weaken, pure-Keeps, or_raise-Keeps}
use npc_of_the_internet.Session.Seal.{
  departure_slot, appended_entry, mark_appended, ledger_or_empty,
}
use npc_of_the_internet.Session.Sound.{Held, cids, AppendedThere, Start, Inv, IsStore}
use npc_of_the_internet.Session.Sound.Changes.{In-cids, Inv-Puts}
use npc_of_the_internet.Session.Sound.Slots.{departure-Puts, mark_appended-Puts}
use npc_of_the_internet.Session.Sound.Appends.{
  append_entry-Keeps, mark_appended_bare, mark_appended-Travelled,
}
use npc_of_the_internet.Session.Sound.Calls.{call_or_raise-Keeps}
use npc_of_the_internet.Session.Sound.Departures.{attest_departure-Keeps}
use npc_of_the_internet.Session.Depart.{
  departure_entry, departure_step, last_record, actual_head, landed_departure,
}
use npc_of_the_internet.Session.Sound.Notes.{Done, read_ledger-Keeps}

module _ {E : Type 0} (outside : Outside E) (options : SessionOptions)
    (store : IsStore outside options) (start : Start E) where
  departure_of : Moment E → Option LedgerEntry
  departure_of t = (ledger_or_empty t.ledger).departure

  departure_entry-Keeps :
      (known : Option LedgerEntry) (s : Moment E)
      → (ledger_or_empty s.ledger).departure ≡ known
      → (ledger_or_empty s.ledger).travel ≡ none
      → Inv options start s
      → Keeps
          (Inv options start)
          (λ entry t. (ledger_or_empty t.ledger).departure ≡ some entry)
          (departure_entry outside options known s)
  unfolding departure_entry
  departure_entry-Keeps (some entry) s is stays i = pure-Keeps entry s i is
  departure_entry-Keeps none s is stays i =
      bind-Keeps _ _ _ (attest_departure-Keeps outside options store start s i)
        λ entry t j (same, holds).
          bind-Keeps {Q = λ _ u. (ledger_or_empty u.ledger).departure ≡ some entry} _ _ _
            record {
              ends = (
                Inv-Puts t departure_slot entry
                    (record (ledger_or_empty t.ledger) { departure = some entry })
                    (departure-Puts entry (ledger_or_empty t.ledger)) holds
                    (λ travels. absurd (subst Held (same.travel ∙ stays) travels)) j.calm j,
                refl,
              );
            }
            λ _ u k there. pure-Keeps entry u k there

  pub departure_step-Keeps :
      (s : Moment E)
      → (ledger_or_empty s.ledger).travel ≡ none
      → Inv options start s
      → Keeps
          (Inv options start)
          (λ _ t. AppendedThere (ledger_or_empty t.ledger).departure)
          (departure_step outside options s)
  unfolding departure_step
  departure_step-Keeps s stays i =
      bind-Keeps _ _ _ (read_ledger-Keeps outside options store start s i) λ ledger t j (same, is).
        let now = ap (λ u. ledger_or_empty u.ledger) same in
        bind-Keeps _ _ _
          (departure_entry-Keeps _ t (ap (λ l. l.departure) (now ∙ sym is))
            (ap (λ l. l.travel) now ∙ stays) j)
          λ entry u k at.
            Keeps-weaken _
              (append_entry-Keeps outside options store start departure_slot entry u at k)
              (λ v l. l) (λ _ v l (appended, _). appended)

  last_record-In :
      (chain : List OspRecord) (r : OspRecord)
      → last_record outside options chain ≡ some r
      → In r chain
  unfolding last_record
  last_record-In [] r h = absurd (cc h)
  last_record-In (q ∷ []) r h = inl (cc h)
  last_record-In (q ∷ p ∷ rest) r h = inr (last_record-In (p ∷ rest) r h)

  pub actual_head-Keeps :
      (s : Moment E)
      → Inv options start s
      → Keeps
          (Inv options start)
          (λ head t. In head.cid (cids options t.chain))
          (actual_head outside options s)
  unfolding actual_head
  actual_head-Keeps s i =
      bind-Keeps _ _ _ (call_or_raise-Keeps outside options store start outside.iterate s i)
        λ _ t j near.
          bind-Keeps _ _ _ (or_raise-Keeps (last_record outside options s.chain) _ t j)
            λ last u k (same, found). pure-Keeps _ u k (
              In-cids options last u.chain (
                subst (In last) (sym (ap (λ v. v.chain) same ∙ near.chain))
                  (last_record-In s.chain last found)))

  pub landed_departure-Keeps :
      (head : HeadInfo) (known : Option LedgerEntry) (s : Moment E)
      → (ledger_or_empty s.ledger).departure ≡ known
      → In head.cid (cids options s.chain)
      → Inv options start s
      → Keeps (Inv options start) Done (landed_departure outside options head known s)
  unfolding landed_departure
  landed_departure-Keeps head none s is there i = pure-Keeps tt s i tt
  landed_departure-Keeps head (some entry) s is there i =
      elim (Bool-cases (head.cid == entry.cid)) [
        | inr differs ↦ rw differs (pure-Keeps tt s i tt)
        | inl same ↦ rw same record {
          ends = (
            Inv-Puts s departure_slot (appended_entry entry)
                (mark_appended departure_slot (ledger_or_empty s.ledger))
                (mark_appended-Puts departure_slot entry (ledger_or_empty s.ledger) is)
                (let h = i.held departure_slot entry is in
                  record {
                    named = h.named;
                    on_chain = λ _.
                        subst (λ cid. In cid (cids options s.chain))
                          ((text_eq.test_iff head.cid entry.cid).0 same) there;
                    blob_witnessed = h.blob_witnessed;
                    fits = h.fits;
                  })
                (mark_appended-Travelled outside options store start departure_slot
                  (ledger_or_empty s.ledger) i.travelled)
                (λ careful not_bare.
                  mark_appended_bare outside options store start departure_slot
                    (ledger_or_empty s.ledger)
                  ∙ i.calm careful not_bare)
                i,
            tt,
          );
        }
      ]
