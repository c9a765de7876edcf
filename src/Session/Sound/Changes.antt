-- ===== src/Session/Sound/Changes.antt =====
-- session.ts: each change of a session's moment keeps the ledger in step.
use npc_of_the_internet.Shared.{
  ◌≡◌, refl, sym, ap, subst, ◌∙◌, ◌⊎◌, inl, inr, Option, none, some, List, [], ◌∷◌, ◌++◌, false,
  Text, In, In-append, map-append, text_eq, Bool-cases,
}
use npc_of_the_internet.Chain.Record.{OspRecord}
use npc_of_the_internet.Door.{MemoryKind}
use npc_of_the_internet.Session.{
  AddressedBlob, LedgerEntry, DepartLedger, AttestAnswer, SessionOptions, Ask, Moment,
}
use npc_of_the_internet.Distillation.{ResidencyTranscript}
use npc_of_the_internet.Session.Seal.{Slot, entry_at, ledger_or_empty}
use npc_of_the_internet.Session.Sound.{
  Held, slot_of, slot_asked, asks_at, asks_at-append, slot_asked-slot_of, Witnessed, cids, Holds,
  AppendedThere, Travelled, Start, Inv,
}

In-left : {A : Type 0} (a : A) (xs ys : List A) → In a xs → In a (xs ++ ys)
In-left a xs ys h = (In-append a xs ys).1 (inl h)

pub In-cids :
    (options : SessionOptions) (r : OspRecord) (chain : List OspRecord)
    → In r chain
    → In (options.crypto.compute_cid r) (cids options chain)
In-cids options r [] h = h
In-cids options r (q ∷ rest) (inl h) = inl (ap options.crypto.compute_cid h)
In-cids options r (q ∷ rest) (inr h) = inr (In-cids options r rest h)

pub In-last : {A : Type 0} (a : A) (xs : List A) → In a (xs ++ a ∷ [])
In-last a xs = (In-append a xs (a ∷ [])).1 (inr (inl refl))

pub cids-left :
    (options : SessionOptions) (cid : Text) (chain : List OspRecord) (r : OspRecord)
    → In cid (cids options chain)
    → In cid (cids options (chain ++ r ∷ []))
cids-left options cid chain r h =
    subst (In cid) (sym (map-append options.crypto.compute_cid chain (r ∷ [])))
      (In-left cid (cids options chain) (options.crypto.compute_cid r ∷ []) h)

Witnessed-left :
    (options : SessionOptions) (asks : List Ask) (ask : Ask) (blob : AddressedBlob)
    → Witnessed options asks blob
    → Witnessed options (asks ++ ask ∷ []) blob
Witnessed-left options asks ask blob (a, h, answered, named) =
    (a, In-left a asks (ask ∷ []) h, answered, named)

module _ {E : Type 0} {options : SessionOptions} {start : Start E} where
  pub Inv-outside :
      (s : Moment E) (e : E) → Inv options start s → Inv options start (record s { outside = e })
  Inv-outside s e i = record {
    stored = i.stored;
    held = i.held;
    travelled = i.travelled;
    calm = i.calm;
    settled = i.settled;
  }

  pub Inv-live :
      (s : Moment E) (live : Option ResidencyTranscript)
      → Inv options start s
      → Inv options start (record s { live_transcript = live })
  Inv-live s live i = record {
    stored = i.stored;
    held = i.held;
    travelled = i.travelled;
    calm = i.calm;
    settled = i.settled;
  }

  pub Inv-append :
      (s : Moment E) (e : E) (r : OspRecord)
      → Inv options start s
      → Inv options start (record s { chain = s.chain ++ r ∷ []; outside = e })
  Inv-append s e r i = record {
    stored = i.stored;
    held = λ slot entry at.
        let h = i.held slot entry at in
        record {
          named = h.named;
          on_chain = λ appended. cids-left options entry.cid s.chain r (h.on_chain appended);
          blob_witnessed = h.blob_witnessed;
          fits = h.fits;
        };
    travelled = i.travelled;
    calm = i.calm;
    settled = i.settled;
  }

  pub Inv-store :
      (s : Moment E) (e : E) (blob : AddressedBlob)
      → Inv options start s
      → Witnessed options s.asks blob
      → Inv options start (record s { blobs = s.blobs ++ blob ∷ []; outside = e })
  Inv-store s e blob i witnessed = record {
    stored = λ other h. elim ((In-append other s.blobs (blob ∷ [])).0 h) [
      | inl before ↦ i.stored other before
      | inr (inl same) ↦ subst (Witnessed options s.asks) same witnessed
      | inr (inr never) ↦ absurd never
    ];
    held = i.held;
    travelled = i.travelled;
    calm = i.calm;
    settled = i.settled;
  }

  -- The Door is asked about a memory without a record.
  pub Inv-ask :
      (s : Moment E) (e : E) (kind : MemoryKind) (prose : Text) (answer : AttestAnswer)
      → entry_at (slot_of kind prose) (ledger_or_empty s.ledger) ≡ none
      → Inv options start s
      → Inv options start (record s {
        asks = s.asks ++ record { kind = kind; prose = prose; answer = answer } ∷ [];
        outside = e;
      })
  Inv-ask s e kind prose answer fresh i = record {
    stored = λ blob h.
        Witnessed-left options s.asks record { kind = kind; prose = prose; answer = answer } blob
          (i.stored blob h);
    held = λ slot entry at.
        let h = i.held slot entry at in
        record {
          named = h.named;
          on_chain = h.on_chain;
          blob_witnessed = λ blob k.
              Witnessed-left options s.asks record { kind = kind; prose = prose; answer = answer }
                blob (h.blob_witnessed blob k);
          fits = h.fits;
        };
    travelled = i.travelled;
    calm = i.calm;
    settled = λ slot h. let (now, same) = i.settled slot h in (now, unasked slot now ∙ same);
  }
    where
      unasked :
          (slot : Slot)
          → Held (entry_at slot (ledger_or_empty s.ledger))
          → asks_at slot (s.asks ++ record { kind = kind; prose = prose; answer = answer } ∷ [])
            ≡ asks_at slot s.asks
      unasked slot now =
          elim (Bool-cases
            (slot_asked slot record { kind = kind; prose = prose; answer = answer })) [
              | inl asked ↦ absurd (
                  subst Held
                    (ap (λ k. entry_at k (ledger_or_empty s.ledger))
                        (sym (slot_asked-slot_of slot kind prose answer asked))
                      ∙ fresh)
                    now)
              | inr other ↦
                  asks_at-append slot s.asks record { kind = kind; prose = prose; answer = answer }
                    other
            ]

-- How a change of the ledger may touch its entries: only `entry` at `slot` is new.
pub record Puts (slot : Slot) (entry : LedgerEntry) (before after : DepartLedger) : Type 0 where
  pub at_most :
      (k : Slot) (e : LedgerEntry)
      → entry_at k after ≡ some e
      → (entry_at k before ≡ some e) ⊎ ((slot ≡ k) × (entry ≡ e))
  pub keeps : (k : Slot) → Held (entry_at k before) → Held (entry_at k after)
  pub there : entry_at slot after ≡ some entry

module _ {E : Type 0} {options : SessionOptions} {start : Start E} where
  pub Inv-Puts :
      (s : Moment E) (slot : Slot) (entry : LedgerEntry) (after : DepartLedger)
      → Puts slot entry (ledger_or_empty s.ledger) after
      → Holds options s.chain s.asks slot entry
      → Travelled after
      → (start.best_effort ≡ false
          → (ledger_or_empty start.moment.ledger).bare ≡ false
          → after.bare ≡ false)
      → Inv options start s
      → Inv options start (record s { ledger = some after })
  Inv-Puts s slot entry after puts holds travelled calm i = record {
    stored = i.stored;
    held = λ k e at. elim (puts.at_most k e at) [
      | inl before ↦ i.held k e before
      | inr (same_slot, same) ↦
          subst (λ k. Holds options s.chain s.asks k e) same_slot
            (subst (Holds options s.chain s.asks slot) same holds)
    ];
    travelled = travelled;
    calm = calm;
    settled = λ k h. let (now, same) = i.settled k h in (puts.keeps k now, same);
  }

  -- A change that touches no entry.
  pub Inv-notes :
      (s : Moment E) (after : DepartLedger)
      → ((k : Slot) → entry_at k after ≡ entry_at k (ledger_or_empty s.ledger))
      → after.bare ≡ (ledger_or_empty s.ledger).bare
      → Inv options start s
      → Inv options start (record s { ledger = some after })
  Inv-notes s after same bare i = record {
    stored = i.stored;
    held = λ k e at. i.held k e (sym (same k) ∙ at);
    travelled = λ h not_bare.
        subst AppendedThere (sym (same Slot.departure_slot))
          (i.travelled (subst Held (same Slot.travel_slot) h) (sym bare ∙ not_bare));
    calm = λ careful not_bare. bare ∙ i.calm careful not_bare;
    settled = λ k h. let (now, asked) = i.settled k h in (subst Held (sym (same k)) now, asked);
  }
