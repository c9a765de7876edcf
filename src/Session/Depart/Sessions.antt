-- ===== src/Session/Depart/Sessions.antt =====
-- session.ts: a sound session, and what an attempt to depart leaves as it was.
use npc_of_the_internet.Shared.{
  ◌≡◌, refl, sym, ap, subst, ◌∙◌, ◌⊎◌, inl, inr, Option, none, some, List, [], true, In,
}
use npc_of_the_internet.Chain.Record.{OspRecord}
use npc_of_the_internet.Distillation.{TranscriptLine}
use npc_of_the_internet.Session.{
  departed, LedgerEntry, empty_ledger, SessionOptions, Moment, Outcome,
}
use npc_of_the_internet.Session.Rules.{Keeps, Keeps-weaken}
use npc_of_the_internet.Session.Seal.{
  Slot, screened_slot, shard_slot, journal_slot, departure_slot, travel_slot, entry_at,
  ledger_or_empty,
}
use npc_of_the_internet.Session.Sound.{Held, asks_at, cids, Fits, AppendedThere, Start, Inv}

entry_at-empty :
    (slot : Slot) (entry : LedgerEntry) (lines : List TranscriptLine)
    → entry_at slot (empty_ledger lines) ≡ some entry
    → ⊥
entry_at-empty (screened_slot category) entry lines h = cc h
entry_at-empty (shard_slot prose) entry lines h = cc h
entry_at-empty journal_slot entry lines h = cc h
entry_at-empty departure_slot entry lines h = cc h
entry_at-empty travel_slot entry lines h = cc h

-- A session whose ledger, stored blobs and chain are in step.
pub record IsSound {E : Type 0} (options : SessionOptions) (s : Moment E) : Type 0 where
  pub inv : Inv options record { moment = s; best_effort = true } s

-- A session that has not begun to depart.
pub start-IsSound :
    {E : Type 0} (options : SessionOptions) (s : Moment E)
    → s.ledger ≡ none
    → s.blobs ≡ []
    → IsSound options s
start-IsSound options s none_yet no_blobs = record {
  inv = record {
    stored = λ blob h. absurd (subst (In blob) no_blobs h);
    held = λ slot entry at. absurd (
        entry_at-empty slot entry []
          (ap (λ l. entry_at slot (ledger_or_empty l)) (sym none_yet) ∙ at));
    travelled = λ h. absurd (subst (λ l. Held (ledger_or_empty l).travel) none_yet h);
    calm = λ careful. absurd (cc careful);
    settled = λ slot h. (h, refl);
  };
}

-- An attempt may end the residency; whatever had its record before has it still unless it has, and
-- the Door was not asked about it.
pub record Progress {E : Type 0} (options : SessionOptions) (s t : Moment E) : Type 0 where
  pub sound : IsSound options t
  pub settled :
      (slot : Slot)
      → Held (entry_at slot (ledger_or_empty s.ledger))
      → (asks_at slot t.asks ≡ asks_at slot s.asks)
        × ((t.phase ≡ departed) ⊎ Held (entry_at slot (ledger_or_empty t.ledger)))

-- The departure of this residency is a record of the chain, or its travel.
pub record OnChain (options : SessionOptions) (slot : Slot) (chain : List OspRecord) : Type 0 where
  pub sealed : OspRecord
  pub there : In (options.crypto.compute_cid sealed) (cids options chain)
  pub fits : Fits options slot sealed.body

module _ {E : Type 0} (options : SessionOptions) (start : Start E) where
  Inv-IsSound : (t : Moment E) → Inv options start t → IsSound options t
  Inv-IsSound t i = record {
    inv = record {
      stored = i.stored;
      held = i.held;
      travelled = i.travelled;
      calm = λ careful. absurd (cc careful);
      settled = λ slot h. (h, refl);
    };
  }

  pub Inv-Progress : (t : Moment E) → Inv options start t → Progress options start.moment t
  Inv-Progress t i = record {
    sound = Inv-IsSound t i;
    settled = λ slot h. let (now, same) = i.settled slot h in (same, inr now);
  }

  -- The part of an attempt that keeps `Inv`.
  pub within :
      {A : Type 0} {Q : A → Moment E → Type 0} (end : Moment E × Outcome A)
      → Keeps (Inv options start) Q end
      → Keeps (Progress options start.moment) (λ a t. Inv options start t × Q a t) end
  within end h = Keeps-weaken end h Inv-Progress (λ a t i q. (i, q))

  pub Holds-OnChain :
      (slot : Slot) (t : Moment E)
      → Inv options start t
      → AppendedThere (entry_at slot (ledger_or_empty t.ledger))
      → OnChain options slot t.chain
  Holds-OnChain slot t i h = go (entry_at slot (ledger_or_empty t.ledger)) refl h
    where
      go :
          (o : Option LedgerEntry)
          → entry_at slot (ledger_or_empty t.ledger) ≡ o
          → AppendedThere o
          → OnChain options slot t.chain
      go none is k = absurd k
      go (some entry) is k =
          let holds = i.held slot entry is in
          record {
            sealed = entry.sealed;
            there = subst (λ cid. In cid (cids options t.chain)) holds.named (holds.on_chain k);
            fits = holds.fits;
          }

  pub finished-Progress :
      (t : Moment E)
      → Inv options start t
      → Progress options start.moment (record t { phase = departed; ledger = none })
  finished-Progress t i = record {
    sound = record {
      inv = record {
        stored = i.stored;
        held = λ slot entry at. absurd (entry_at-empty slot entry [] at);
        travelled = λ h. absurd h;
        calm = λ careful. absurd (cc careful);
        settled = λ slot h. (h, refl);
      };
    };
    settled = λ slot h. ((i.settled slot h).1, inl refl);
  }
