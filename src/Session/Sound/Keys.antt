-- ===== src/Session/Sound/Keys.antt =====
-- session.ts: an entry put at a key of the depart ledger leaves the others where they are.
use npc_of_the_internet.Shared.{
  ◌≡◌, refl, sym, ap, subst, ◌∙◌, ◌⊎◌, inl, inr, Option, none, some, List, true, false, Text, get,
  put, get-put, ◌==◌, text_eq, Bool-cases,
}
use npc_of_the_internet.Session.{
  LedgerEntry, MemoryVerdict, decided, entry_of_verdict, DepartLedger,
}
use npc_of_the_internet.Session.Seal.{
  Slot, screened_slot, shard_slot, journal_slot, departure_slot, travel_slot, entry_at,
  entry_in_verdict,
}
use npc_of_the_internet.Session.Sound.{Held}
use npc_of_the_internet.Session.Sound.Changes.{Puts}

pub some_equal : {A : Type 0} (a b : A) → some a ≡ some b → a ≡ b
some_equal a b h = cc h

get-put_same :
    {A : Type 0} (key k : Text) (a : A) (m : List (Text × A))
    → (key == k) ≡ true
    → get k (put key a m) ≡ some a
get-put_same key k a m h = get-put key k a m ∙ rw h refl

get-put_other :
    {A : Type 0} (key k : Text) (a : A) (m : List (Text × A))
    → (key == k) ≡ false
    → get k (put key a m) ≡ get k m
get-put_other key k a m h = get-put key k a m ∙ rw h refl

-- One key of a map is put.
put-only :
    {A : Type 0} (key k : Text) (a b : A) (m : List (Text × A))
    → get k (put key a m) ≡ some b
    → (get k m ≡ some b) ⊎ ((key ≡ k) × (a ≡ b))
put-only key k a b m h = elim (Bool-cases (key == k)) [
  | inl same ↦
      inr ((text_eq.test_iff key k).0 same, some_equal a b (sym (get-put_same key k a m same) ∙ h))
  | inr differs ↦ inl (sym (get-put_other key k a m differs) ∙ h)
]

put-here : {A : Type 0} (key : Text) (a : A) (m : List (Text × A)) → get key (put key a m) ≡ some a
put-here key a m = get-put_same key key a m ((text_eq.test_iff key key).1 refl)

put-keeps :
    {A : Type 0} (key k : Text) (a : A) (m : List (Text × A))
    → Held (get k m)
    → Held (get k (put key a m))
put-keeps key k a m h = elim (Bool-cases (key == k)) [
  | inl same ↦ subst Held (sym (get-put_same key k a m same)) tt
  | inr differs ↦ subst Held (sym (get-put_other key k a m differs)) h
]

entry_in_verdict-Held : (o : Option MemoryVerdict) → Held (entry_in_verdict o) → Held o
entry_in_verdict-Held none h = h
entry_in_verdict-Held (some verdict) h = tt

Held-entry_in_verdict : (o : Option MemoryVerdict) → Held o → Held (entry_in_verdict o)
Held-entry_in_verdict none h = h
Held-entry_in_verdict (some verdict) h = tt

put_verdict-only :
    (key k : Text) (a : MemoryVerdict) (e : LedgerEntry) (m : List (Text × MemoryVerdict))
    → entry_in_verdict (get k (put key a m)) ≡ some e
    → (entry_in_verdict (get k m) ≡ some e) ⊎ ((key ≡ k) × (entry_of_verdict a ≡ e))
put_verdict-only key k a e m h = elim (Bool-cases (key == k)) [
  | inl same ↦ inr (
    (text_eq.test_iff key k).0 same,
    some_equal (entry_of_verdict a) e (sym (ap entry_in_verdict (get-put_same key k a m same)) ∙ h),
  )
  | inr differs ↦ inl (sym (ap entry_in_verdict (get-put_other key k a m differs)) ∙ h)
]

pub screened-Puts :
    (category : Text) (entry : LedgerEntry) (ledger : DepartLedger)
    → Puts
        (screened_slot category)
        entry
        ledger
        (record ledger { screened = put category entry ledger.screened })
screened-Puts category entry ledger = record {
  at_most = most;
  keeps = keep;
  there = put-here category entry ledger.screened;
}
  where
    most :
        (k : Slot) (e : LedgerEntry)
        → entry_at k (record ledger { screened = put category entry ledger.screened }) ≡ some e
        → (entry_at k ledger ≡ some e) ⊎ ((screened_slot category ≡ k) × (entry ≡ e))
    most (screened_slot d) e at = elim (put-only category d entry e ledger.screened at) [
      | inl before ↦ inl before
      | inr (same, is_entry) ↦ inr (ap screened_slot same, is_entry)
    ]
    most (shard_slot d) e at = inl at
    most journal_slot e at = inl at
    most departure_slot e at = inl at
    most travel_slot e at = inl at

    keep :
        (k : Slot)
        → Held (entry_at k ledger)
        → Held (entry_at k (record ledger { screened = put category entry ledger.screened }))
    keep (screened_slot d) h = put-keeps category d entry ledger.screened h
    keep (shard_slot d) h = h
    keep journal_slot h = h
    keep departure_slot h = h
    keep travel_slot h = h

pub shards-Puts :
    (prose : Text) (verdict : MemoryVerdict) (ledger : DepartLedger)
    → Puts
        (shard_slot prose)
        (entry_of_verdict verdict)
        ledger
        (record ledger { shards = put prose verdict ledger.shards })
shards-Puts prose verdict ledger = record {
  at_most = most;
  keeps = keep;
  there = ap entry_in_verdict (put-here prose verdict ledger.shards);
}
  where
    most :
        (k : Slot) (e : LedgerEntry)
        → entry_at k (record ledger { shards = put prose verdict ledger.shards }) ≡ some e
        → (entry_at k ledger ≡ some e) ⊎ ((shard_slot prose ≡ k) × ((entry_of_verdict verdict) ≡ e))
    most (screened_slot d) e at = inl at
    most (shard_slot d) e at = elim (put_verdict-only prose d verdict e ledger.shards at) [
      | inl before ↦ inl before
      | inr (same, is_entry) ↦ inr (ap shard_slot same, is_entry)
    ]
    most journal_slot e at = inl at
    most departure_slot e at = inl at
    most travel_slot e at = inl at

    keep :
        (k : Slot)
        → Held (entry_at k ledger)
        → Held (entry_at k (record ledger { shards = put prose verdict ledger.shards }))
    keep (screened_slot d) h = h
    keep (shard_slot d) h =
        Held-entry_in_verdict (get d (put prose verdict ledger.shards))
          (put-keeps prose d verdict ledger.shards (entry_in_verdict-Held (get d ledger.shards) h))
    keep journal_slot h = h
    keep departure_slot h = h
    keep travel_slot h = h

pub journal-Puts :
    (verdict : MemoryVerdict) (ledger : DepartLedger)
    → Puts journal_slot
        (entry_of_verdict verdict)
        ledger
        (record ledger { journal = decided verdict })
journal-Puts verdict ledger = record { at_most = most; keeps = keep; there = refl }
  where
    most :
        (k : Slot) (e : LedgerEntry)
        → entry_at k (record ledger { journal = decided verdict }) ≡ some e
        → (entry_at k ledger ≡ some e) ⊎ ((journal_slot ≡ k) × ((entry_of_verdict verdict) ≡ e))
    most (screened_slot d) e at = inl at
    most (shard_slot d) e at = inl at
    most journal_slot e at = inr (refl, some_equal (entry_of_verdict verdict) e at)
    most departure_slot e at = inl at
    most travel_slot e at = inl at

    keep :
        (k : Slot)
        → Held (entry_at k ledger)
        → Held (entry_at k (record ledger { journal = decided verdict }))
    keep (screened_slot d) h = h
    keep (shard_slot d) h = h
    keep journal_slot h = tt
    keep departure_slot h = h
    keep travel_slot h = h
