-- ===== src/Door/World/Growth.antt =====
-- door-sdk/src/door.ts: epoch memories and their witnessed shards only grow in number.
use mathlib.Core.Bool.{false≢true}
use npc_of_the_internet.Shared.{
  ℕ, ◌+◌, ◌≤◌, ◌<◌, ◌≡◌, ◌≢◌, sym, ap, subst, ◌∙◌, inl, inr, List, [], ◌∷◌, ◌++◌, false, Text,
  length, length-append, All, ==_iff, arith, if◌then◌else◌, Bool-cases, ◌==◌, nat_eq, text_eq,
}
use npc_of_the_internet.Door.{
  answered, bind_answered, require, or_refuse, unsupported_kind, invalid_request, Host, DoorOptions,
  MemoryKey, EpochMemory, Door, AttestRequest,
}
use npc_of_the_internet.Base64Url.{Bytes}
use npc_of_the_internet.Door.Core.{assert_memory_core_bound}
use npc_of_the_internet.Door.Attest.{check_request, assert_session_request}
use npc_of_the_internet.Door.Witness.{
  is_journal, key_eq, memory_at, update_at, change_memory, decide, MemoryCall, witness_memory,
  start_memory,
}
use npc_of_the_internet.Door.World.{World}
use npc_of_the_internet.Door.World.Memories.{Keeps}
use npc_of_the_internet.Door.World.Changes.{
  update_at-cases, memory_at-update_at, memory_at-update_at_other, length-update_at, captured,
}
use npc_of_the_internet.Door.World.Within.{
  waiting, waiting-take, All-take, All-weaken, IsWithin, IsBased,
}

-- No epoch memory is lost and no witnessed shard is forgotten.
pub record Grows (old new : Door) : Type 0 where
  longer : length old.memories ≤ length new.memories
  more :
      (place : ℕ)
      → length (memory_at place old.memories).witnessed_shards
        ≤ length (memory_at place new.memories).witnessed_shards

pub Keeps-Grows : (old new : Door) → Keeps old new → Grows old new
Keeps-Grows old new v = record {
  longer = v.longer;
  more = λ place. rw (v.same place) (omega arith);
}

pub change_memory-Grows :
    (place : ℕ) (change : EpochMemory → EpochMemory) (d : Door)
    → ((m : EpochMemory) → length m.witnessed_shards ≤ length (change m).witnessed_shards)
    → Grows d (change_memory place change d)
unfolding change_memory
change_memory-Grows place change d grow = record {
  longer = omega (arith, length-update_at place change d.memories);
  more = λ p. elim (update_at-cases place p change d.memories) [
    | inl same ↦ rw same (omega arith)
    | inr (_, changed) ↦ rw changed (grow (memory_at p d.memories))
  ];
}

pub Grows-IsBased :
    (old new : Door) (calls : List MemoryCall)
    → Grows old new
    → All (IsBased old.memories) calls
    → All (IsBased new.memories) calls
Grows-IsBased old new calls v h =
    All-weaken (IsBased old.memories) (IsBased new.memories) calls
      (λ c k. (omega (arith, k.0, v.longer), λ j. omega (arith, k.1 j, v.more c.memory))) h

pub Grows-placed :
    (old new : Door) (calls : List MemoryCall)
    → Grows old new
    → All (λ c. c.memory < length old.memories) calls
    → All (λ c. c.memory < length new.memories) calls
Grows-placed old new calls v h =
    All-weaken (λ c. c.memory < length old.memories) (λ c. c.memory < length new.memories) calls
      (λ c k. omega (arith, k, v.longer)) h

-- A change of the call's epoch memory, with the numbers of waiting calls before and after.
pub change_memory_each :
    (budget : ℕ) (call : MemoryCall) (d : Door) (change : EpochMemory → EpochMemory)
    (old new : ℕ → ℕ)
    → call.memory < length d.memories
    → (IsWithin budget (old call.memory) (captured call d)
        → IsWithin budget (new call.memory) (change (captured call d)))
    → ((place : ℕ) → (call.memory == place) ≡ false → new place ≡ old place)
    → ((place : ℕ) → IsWithin budget (old place) (memory_at place d.memories))
    → (place : ℕ)
    → IsWithin budget (new place) (memory_at place (change_memory call.memory change d).memories)
unfolding change_memory
change_memory_each budget call d change old new inside here others each place =
    elim (Bool-cases (call.memory == place)) [
      | inl same ↦
          subst
            (λ p. IsWithin budget (new p) (memory_at p (update_at call.memory change d.memories)))
            ((==_iff call.memory place).0 same)
            (rw (memory_at-update_at call.memory change d.memories inside)
              (here (each call.memory)))
      | inr differs ↦
          rw
            (
              others place differs,
              memory_at-update_at_other call.memory place change d.memories (apart differs),
            )
            (each place)
    ]
  where
    apart : (call.memory == place) ≡ false → call.memory ≢ place
    apart h e = false≢true (sym h ∙ (==_iff call.memory place).1 e)

pub change_memory_current :
    (place : ℕ) (change : EpochMemory → EpochMemory) (d : Door)
    → d.epoch_memory < length d.memories
    → (change_memory place change d).epoch_memory < length (change_memory place change d).memories
unfolding change_memory
change_memory_current place change d h = omega (arith, h, length-update_at place change d.memories)

pub placed_take :
    (w : World) (call : MemoryCall) (before after : List MemoryCall)
    → w.started ≡ before ++ call ∷ after
    → All (λ c. c.memory < length w.door.memories) w.started
    → (call.memory < length w.door.memories)
      × All (λ c. c.memory < length w.door.memories) (before ++ after)
placed_take w call before after e h =
    All-take (λ c. c.memory < length w.door.memories) before call after
      (subst (All (λ c. c.memory < length w.door.memories)) e h)

pub supported_take :
    (w : World) (call : MemoryCall) (before after : List MemoryCall)
    → w.asked ≡ before ++ call ∷ after
    → All (IsBased w.door.memories) w.asked
    → IsBased w.door.memories call × All (IsBased w.door.memories) (before ++ after)
supported_take w call before after e h =
    All-take (IsBased w.door.memories) before call after (subst (All (IsBased w.door.memories)) e h)

pub settled_waiting :
    (w : World) (call : MemoryCall) (before after : List MemoryCall)
    → w.asked ≡ before ++ call ∷ after
    → (place : ℕ)
    → waiting place w.asked
      ≡ (if call.memory == place then 1 else 0) + waiting place (before ++ after)
settled_waiting w call before after e place =
    ap (waiting place) e ∙ waiting-take place before call after

-- Fewer waiting calls.
pub fewer :
    (budget pending less : ℕ) (m : EpochMemory)
    → less ≤ pending
    → IsWithin budget pending m
    → IsWithin budget less m
fewer budget pending less m l h = record {
  counted_calls = omega (arith, l, h.counted_calls);
  calls = h.calls;
  journals = h.journals;
  shards = h.shards;
  based = h.based;
}

pub witness_memory_grows :
    (call : MemoryCall) (m : EpochMemory)
    → length m.witnessed_shards ≤ length (witness_memory call m).witnessed_shards
unfolding witness_memory decide
witness_memory_grows call m = elim (Bool-cases (is_journal call.key.0)) [
  | inl j ↦ rw j (omega arith)
  | inr s ↦ rw s (omega (arith, length-append m.witnessed_shards (call.prose ∷ [])))
]

pub start_memory_place :
    (host : Host) (options : DoorOptions) (now : Text) (request : AttestRequest) (call : MemoryCall)
    (d : Door)
    → start_memory host options now request d ≡ answered call
    → d.epoch_memory < length d.memories
    → call.memory < length d.memories
unfolding start_memory
start_memory_place host options now request call d e h =
    let (signature, _, e1) = bind_answered (check_request host options now request) _ call e in
    let (_, _, e2) =
      bind_answered (assert_session_request host options request signature d) _ call e1 in
    let (_, _, e3) =
      bind_answered (require options.witnesses_memories unsupported_kind) _ call e2 in
    let (prose, _, e4) = bind_answered (or_refuse request.prose invalid_request) _ call e3 in
    let (key, _, e5) =
      bind_answered (assert_memory_core_bound host options request prose) _ call e4 in
    subst (λ c. c < length d.memories) (place call e5) h
  where
    place :
        {signature : Bytes} {prose : Text} {key : MemoryKey} (c : MemoryCall)
        → answered (record {
          request = request;
          signature = signature;
          prose = prose;
          memory = d.epoch_memory;
          key = key;
        })
          ≡ answered c
        → d.epoch_memory ≡ c.memory
    place c h = cc h
