-- ===== src/Door/World/Within.antt =====
-- door-sdk/src/door.ts: the counts of one epoch memory, and what the steps of a call do to them.
use npc_of_the_internet.Shared.{
  ℕ, ◌+◌, ◌≤◌, ◌<◌, ◌≡◌, refl, ◌∙◌, inl, inr, List, [], ◌∷◌, ◌++◌, Bool, true, false, none, length,
  length-append, All, get, put, arith, if◌then◌else◌, Bool-cases, ◌==◌, nat_eq, text_eq,
}
use npc_of_the_internet.Door.{
  DoorOptions, MemoryKey, WitnessVerdict, not_witnessed, witnessed, WitnessReason, EpochMemory,
}
use npc_of_the_internet.Door.Witness.{
  is_journal, key_eq, memory_at, decide, MemoryCall, count_call, witness_memory,
}
use npc_of_the_internet.Door.World.{World}
use npc_of_the_internet.Door.World.Changes.{}

abbrev is_witnessed : WitnessVerdict → Bool
is_witnessed witnessed = true
is_witnessed (not_witnessed _) = false

-- 1 for a witnessed journal, 0 for any other decision; and likewise for a shard.
abbrev journal_weight : MemoryKey → WitnessVerdict → ℕ
journal_weight key verdict = if is_witnessed verdict then (if is_journal key.0 then 1 else 0) else 0

abbrev shard_weight : MemoryKey → WitnessVerdict → ℕ
shard_weight key verdict = if is_witnessed verdict then (if is_journal key.0 then 0 else 1) else 0

abbrev pub total : (MemoryKey → WitnessVerdict → ℕ) → List (MemoryKey × WitnessVerdict) → ℕ
total weight [] = 0
total weight ((key, verdict) ∷ rest) = weight key verdict + total weight rest

-- The journals and the shards that an epoch memory holds witnessed.
abbrev pub witnessed_journals : EpochMemory → ℕ
witnessed_journals m = total journal_weight m.decided

abbrev pub witnessed_shard_count : EpochMemory → ℕ
witnessed_shard_count m = total shard_weight m.decided

total-put :
    (weight : MemoryKey → WitnessVerdict → ℕ) (key : MemoryKey) (verdict : WitnessVerdict)
    (decided : List (MemoryKey × WitnessVerdict))
    → get key decided ≡ none
    → total weight (put key verdict decided) ≡ weight key verdict + total weight decided
total-put weight key verdict [] h = refl
total-put weight key verdict ((k, v) ∷ rest) h = elim (Bool-cases (k == key)) [
  | inl same ↦ absurd (cc (rw same at h))
  | inr differs ↦ rw differs (omega (arith, total-put weight key verdict rest (rw differs at h)))
]

-- The calls of one epoch memory that wait for the witness.
abbrev pub waiting : ℕ → List MemoryCall → ℕ
waiting place [] = 0
waiting place (call ∷ calls) = (if call.memory == place then 1 else 0) + waiting place calls

pub waiting-take :
    (place : ℕ) (before : List MemoryCall) (call : MemoryCall) (after : List MemoryCall)
    → waiting place (before ++ call ∷ after)
      ≡ (if call.memory == place then 1 else 0) + waiting place (before ++ after)
waiting-take place [] call after = refl
waiting-take place (c ∷ before) call after = omega (arith, waiting-take place before call after)

pub All-take :
    (P : MemoryCall → Type 0) (before : List MemoryCall) (call : MemoryCall)
    (after : List MemoryCall)
    → All P (before ++ call ∷ after)
    → P call × All P (before ++ after)
All-take P [] call after h = h
All-take P (c ∷ before) call after (p, h) =
    let (q, rest) = All-take P before call after h in (q, (p, rest))

pub All-weaken :
    (P Q : MemoryCall → Type 0) (calls : List MemoryCall)
    → ((c : MemoryCall) → P c → Q c)
    → All P calls
    → All Q calls
All-weaken P Q [] f h = tt
All-weaken P Q (c ∷ calls) f (p, h) = (f c p, All-weaken P Q calls f h)

-- One epoch memory and the number of its calls that wait for the witness.
pub record IsWithin (budget pending : ℕ) (m : EpochMemory) : Type 0 where
  pub counted_calls : pending + (witnessed_shard_count m + witnessed_journals m) ≤ m.witness_calls
  pub calls : m.witness_calls ≤ budget
  pub journals : witnessed_journals m ≡ (if m.journal_witnessed then 1 else 0)
  pub shards : witnessed_shard_count m ≡ length m.witnessed_shards
  pub based : m.journal_witnessed ≡ true → 0 < length m.witnessed_shards

-- A call's epoch memory is there, and has the shard that a journal needs.
abbrev pub IsBased : List EpochMemory → MemoryCall → Type 0
IsBased ms call =
    (call.memory < length ms)
    × (is_journal call.key.0 ≡ true → 0 < length (memory_at call.memory ms).witnessed_shards)

pub record IsWithinBudget (options : DoorOptions) (w : World) : Type 0 where
  pub each :
      (place : ℕ)
      → IsWithin options.max_memory_attests
          (waiting place w.asked)
          (memory_at place w.door.memories)
  pub current : w.door.epoch_memory < length w.door.memories
  pub placed : All (λ c. c.memory < length w.door.memories) w.started
  pub supported : All (IsBased w.door.memories) w.asked

-- The decision that `change` makes of a memory that was not decided: what it weighs, and what it
-- leaves as it was.
pub decide-IsWithin :
    (budget pending : ℕ) (key : MemoryKey) (reason : WitnessReason) (m : EpochMemory)
    → get key m.decided ≡ none
    → IsWithin budget pending m
    → IsWithin budget pending (decide key (not_witnessed reason) m)
unfolding decide
decide-IsWithin budget pending key reason m free h = record {
  counted_calls = rw (journal_total, shard_total) h.counted_calls;
  calls = h.calls;
  journals = journal_total ∙ h.journals;
  shards = shard_total ∙ h.shards;
  based = h.based;
}
  where
    journal_total :
        total journal_weight (put key (not_witnessed reason) m.decided)
        ≡ total journal_weight m.decided
    journal_total = total-put journal_weight key (not_witnessed reason) m.decided free ∙ omega arith

    shard_total :
        total shard_weight (put key (not_witnessed reason) m.decided) ≡ total shard_weight m.decided
    shard_total = total-put shard_weight key (not_witnessed reason) m.decided free ∙ omega arith

pub count_call-IsWithin :
    (budget pending : ℕ) (m : EpochMemory)
    → m.witness_calls < budget
    → IsWithin budget pending m
    → IsWithin budget (1 + pending) (count_call m)
unfolding count_call
count_call-IsWithin budget pending m room h = record {
  counted_calls = omega (arith, h.counted_calls);
  calls = omega (arith, room);
  journals = h.journals;
  shards = h.shards;
  based = h.based;
}

pub witness_memory-IsWithin :
    (budget pending : ℕ) (call : MemoryCall) (m : EpochMemory)
    → get call.key m.decided ≡ none
    → (is_journal call.key.0 ≡ true → m.journal_witnessed ≡ false)
    → (is_journal call.key.0 ≡ true → 0 < length m.witnessed_shards)
    → IsWithin budget (1 + pending) m
    → IsWithin budget pending (witness_memory call m)
unfolding witness_memory decide
witness_memory-IsWithin budget pending call m free single supported h =
    let journal_total = total-put journal_weight call.key witnessed m.decided free in
    let shard_total = total-put shard_weight call.key witnessed m.decided free in
    elim (Bool-cases (is_journal call.key.0)) [
      | inl j ↦ rw j record {
        counted_calls = ground (arith, journal_total, shard_total, j, h.counted_calls);
        calls = h.calls;
        journals = ground (arith, journal_total, j, h.journals, single j);
        shards = ground (arith, shard_total, j, h.shards);
        based = λ _. supported j;
      }
      | inr s ↦ rw s record {
        counted_calls = ground (arith, journal_total, shard_total, s, h.counted_calls);
        calls = h.calls;
        journals = ground (arith, journal_total, s, h.journals);
        shards =
            ground
              (arith, shard_total, s, h.shards, length-append m.witnessed_shards (call.prose ∷ []));
        based = λ _. omega (arith, length-append m.witnessed_shards (call.prose ∷ []));
      }
    ]
