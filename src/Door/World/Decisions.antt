-- ===== src/Door/World/Decisions.antt =====
-- door-sdk/src/door.ts: a decision about a memory is final for the epoch.
use npc_of_the_internet.Shared.{
  ℕ, ◌≡◌, refl, sym, ap, subst, ◌∙◌, inl, inr, List, ◌++◌, none, some, get, put, get-put, ==_iff,
  arith, Bool-cases, nat_eq, text_eq,
}
use npc_of_the_internet.Door.{
  Answer, Host, DoorOptions, MemoryKey, WitnessVerdict, not_witnessed, witnessed, EpochMemory, Door,
}
use npc_of_the_internet.Door.Witness.{
  is_journal, key_eq, memory_at, change_memory, decide, MemoryCall, over, asking, Asked, count_call,
  ask_memory, settle_memory, witness_memory,
}
use npc_of_the_internet.Door.World.{
  World, after_asking, Step, handled, memory_starts, memory_asks, memory_settles,
}
use npc_of_the_internet.Door.World.Memories.{handle-Keeps}
use npc_of_the_internet.Door.World.Changes.{
  update_at-cases, captured, Asking, settled, declined, counted, ask_memory-Asking, Settling,
  unchanged, declines, witnesses_it, settle_memory-Settling,
}

-- The epoch memory at `place` holds the verdict on the memory.
abbrev pub Decided : ℕ → MemoryKey → WitnessVerdict → Door → Type 0
Decided place key verdict d = get key (memory_at place d.memories).decided ≡ some verdict

pub after_asking_door :
    (call : MemoryCall) (rest : List MemoryCall) (r : Door × Asked) (w : World)
    → (after_asking call rest r w).door ≡ r.0
unfolding after_asking
after_asking_door call rest (d, over answer) w = refl
after_asking_door call rest (d, asking transcript shards) w = refl

put_keeps :
    (key other : MemoryKey) (v verdict : WitnessVerdict)
    (decided : List (MemoryKey × WitnessVerdict))
    → get other decided ≡ none
    → get key decided ≡ some verdict
    → get key (put other v decided) ≡ some verdict
put_keeps key other v verdict decided free h =
    ground (arith, get-put other key v decided, ==_iff other key, free, h)

change_keeps :
    (place : ℕ) (key : MemoryKey) (verdict : WitnessVerdict) (call : MemoryCall) (d : Door)
    (change : EpochMemory → EpochMemory)
    → ((m : EpochMemory)
        → (m ≡ captured call d)
        → get key m.decided ≡ some verdict
        → get key (change m).decided ≡ some verdict)
    → Decided place key verdict d
    → Decided place key verdict (change_memory call.memory change d)
unfolding change_memory
change_keeps place key verdict call d change keeps h =
    elim (update_at-cases call.memory place change d.memories) [
      | inl same ↦ ap (λ m. get key m.decided) same ∙ h
      | inr (here, changed) ↦
          ap (λ m. get key m.decided) changed
          ∙ keeps (memory_at place d.memories) (ap (λ p. memory_at p d.memories) (sym here)) h
    ]

Asking-keeps :
    (options : DoorOptions) (place : ℕ) (key : MemoryKey) (verdict : WitnessVerdict)
    (call : MemoryCall) (d : Door) (r : Door × Asked)
    → Asking options call d r
    → Decided place key verdict d
    → Decided place key verdict r.0
unfolding decide count_call
Asking-keeps options place key verdict call d _ (settled answer) h = h
Asking-keeps options place key verdict call d _ (declined reason answer free) h =
    change_keeps place key verdict call d (decide call.key (not_witnessed reason))
      (λ m e k.
        put_keeps key call.key (not_witnessed reason) verdict m.decided
          (ap (λ m'. get call.key m'.decided) e ∙ free) k)
      h
Asking-keeps options place key verdict call d _ (counted transcript shards free _ _) h =
    change_keeps place key verdict call d count_call (λ m e k. k) h

witness_memory_decided :
    (call : MemoryCall) (m : EpochMemory)
    → (witness_memory call m).decided ≡ put call.key witnessed m.decided
unfolding witness_memory decide
witness_memory_decided call m = elim (Bool-cases (is_journal call.key.0)) [
  | inl h ↦ rw h refl
  | inr h ↦ rw h refl
]

Settling-keeps :
    (place : ℕ) (key : MemoryKey) (verdict : WitnessVerdict) (call : MemoryCall) (d : Door)
    (r : Door × Answer (Unit {0}))
    → Settling call d r
    → Decided place key verdict d
    → Decided place key verdict r.0
unfolding decide
Settling-keeps place key verdict call d _ (unchanged answer) h = h
Settling-keeps place key verdict call d _ (declines reason answer free) h =
    change_keeps place key verdict call d (decide call.key (not_witnessed reason))
      (λ m e k.
        put_keeps key call.key (not_witnessed reason) verdict m.decided
          (ap (λ m'. get call.key m'.decided) e ∙ free) k)
      h
Settling-keeps place key verdict call d _ (witnesses_it free _) h =
    change_keeps place key verdict call d (witness_memory call)
      (λ m e k.
        ap (get key) (witness_memory_decided call m)
        ∙ put_keeps key call.key witnessed verdict m.decided
            (ap (λ m'. get call.key m'.decided) e ∙ free) k)
      h

-- A verdict that an epoch memory holds for a memory, be it witnessed or declined, stays the same in
-- every step of the Door, whatever else is under way.
pub Step-Decided :
    (host : Host) (options : DoorOptions) (w v : World) (place : ℕ) (key : MemoryKey)
    (verdict : WitnessVerdict)
    → Step host options w v
    → Decided place key verdict w.door
    → Decided place key verdict v.door
Step-Decided host options w _ place key verdict (handled now request) h =
    ap (λ m. get key m.decided) ((handle-Keeps host options now request w.door).same place) ∙ h
Step-Decided host options w _ place key verdict (memory_starts now request call e) h = h
Step-Decided host options w _ place key verdict (memory_asks call before after e) h =
    subst (Decided place key verdict)
      (sym (after_asking_door call (before ++ after) (ask_memory options call w.door) w))
      (Asking-keeps options place key verdict call w.door (ask_memory options call w.door)
        (ask_memory-Asking options call w.door) h)
Step-Decided host options w _ place key verdict (memory_settles call before after reply e) h =
    Settling-keeps place key verdict call w.door (settle_memory call reply w.door)
      (settle_memory-Settling call reply w.door) h
