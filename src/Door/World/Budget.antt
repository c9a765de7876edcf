-- ===== src/Door/World/Budget.antt =====
-- door-sdk/src/door.ts: the witnessed memories of an epoch stay within the Door's budget, and a
-- journal stands on a witnessed shard.
use npc_of_the_internet.Shared.{
  ℕ, zero, suc, ◌+◌, ◌≤◌, ◌<◌, ◌≡◌, refl, sym, subst, ◌∙◌, List, [], ◌∷◌, ◌++◌, false, length, All,
  ==_self, arith, ◌==◌, nat_eq, text_eq,
}
use npc_of_the_internet.Door.{
  Answer, Host, DoorOptions, not_witnessed, EpochMemory, empty_epoch_memory, Door, create,
}
use npc_of_the_internet.Door.Transcript.{ResidencyRecord}
use npc_of_the_internet.Door.Witness.{
  key_eq, memory_at, change_memory, decide, MemoryCall, Asked, count_call, ask_memory,
  settle_memory, witness_memory,
}
use npc_of_the_internet.Door.World.{
  handle, World, after_asking, Step, handled, memory_starts, memory_asks, memory_settles, Reachable,
  constructed, then_step,
}
use npc_of_the_internet.Door.World.Memories.{handle-Keeps}
use npc_of_the_internet.Door.World.Changes.{
  captured, Asking, settled, declined, counted, ask_memory-Asking, Settling, unchanged, declines,
  witnesses_it, settle_memory-Settling,
}
use npc_of_the_internet.Door.World.Within.{
  witnessed_journals, witnessed_shard_count, waiting, IsWithin, IsBased, IsWithinBudget,
  decide-IsWithin, count_call-IsWithin, witness_memory-IsWithin,
}
use npc_of_the_internet.Door.World.Growth.{
  Keeps-Grows, change_memory-Grows, Grows-IsBased, Grows-placed, change_memory_each,
  change_memory_current, placed_take, supported_take, settled_waiting, fewer, witness_memory_grows,
  start_memory_place,
}

-- The world after a change of the epoch memory of a call.
change-IsWithinBudget :
    (options : DoorOptions) (w : World) (call : MemoryCall) (change : EpochMemory → EpochMemory)
    (started asked : List MemoryCall)
    → IsWithinBudget options w
    → call.memory < length w.door.memories
    → ((m : EpochMemory) → length m.witnessed_shards ≤ length (change m).witnessed_shards)
    → (IsWithin options.max_memory_attests (waiting call.memory w.asked) (captured call w.door)
        → IsWithin options.max_memory_attests
            (waiting call.memory asked)
            (change (captured call w.door)))
    → ((place : ℕ) → (call.memory == place) ≡ false → waiting place asked ≡ waiting place w.asked)
    → All (λ c. c.memory < length w.door.memories) started
    → All (IsBased w.door.memories) asked
    → IsWithinBudget options
        record { door = change_memory call.memory change w.door; started = started; asked = asked }
change-IsWithinBudget options w call change started asked h inside grow here others placed based =
    let grows = change_memory-Grows call.memory change w.door grow in
    record {
      each =
          change_memory_each options.max_memory_attests call w.door change
            (λ place. waiting place w.asked) (λ place. waiting place asked) inside here others
            h.each;
      current = change_memory_current call.memory change w.door h.current;
      placed = Grows-placed w.door (change_memory call.memory change w.door) started grows placed;
      supported = Grows-IsBased w.door (change_memory call.memory change w.door) asked grows based;
    }

Asking-IsWithinBudget :
    (options : DoorOptions) (w : World) (call : MemoryCall) (before after : List MemoryCall)
    (r : Door × Asked)
    → w.started ≡ before ++ call ∷ after
    → Asking options call w.door r
    → IsWithinBudget options w
    → IsWithinBudget options (after_asking call (before ++ after) r w)
unfolding after_asking decide count_call
Asking-IsWithinBudget options w call before after _ e (settled answer) h =
    let taken = placed_take w call before after e h.placed in
    record { each = h.each; current = h.current; placed = taken.1; supported = h.supported }
Asking-IsWithinBudget options w call before after _ e (declined reason answer free) h =
    let taken = placed_take w call before after e h.placed in
    change-IsWithinBudget options w call (decide call.key (not_witnessed reason)) (before ++ after)
      w.asked h taken.0 (λ m. omega arith)
      (decide-IsWithin options.max_memory_attests (waiting call.memory w.asked) call.key reason
        (captured call w.door) free)
      (λ place differs. refl) taken.1 h.supported
Asking-IsWithinBudget options w call before after _ e (counted transcript shards free room based)
      h =
    let taken = placed_take w call before after e h.placed in
    change-IsWithinBudget options w call count_call (before ++ after) (call ∷ w.asked) h taken.0
      (λ m. omega arith)
      (λ k. rw (==_self call.memory) (
        count_call-IsWithin options.max_memory_attests (waiting call.memory w.asked)
          (captured call w.door) room k))
      (λ place differs. rw differs (omega arith)) taken.1 ((taken.0, based), h.supported)

Settling-IsWithinBudget :
    (options : DoorOptions) (w : World) (call : MemoryCall) (before after : List MemoryCall)
    (r : Door × Answer (Unit {0}))
    → w.asked ≡ before ++ call ∷ after
    → Settling call w.door r
    → IsWithinBudget options w
    → IsWithinBudget options record { door = r.0; started = w.started; asked = before ++ after }
unfolding decide
Settling-IsWithinBudget options w call before after _ e (unchanged answer) h = record {
  each = λ place.
      fewer options.max_memory_attests (waiting place w.asked) (waiting place (before ++ after))
        (memory_at place w.door.memories)
        (omega (arith, settled_waiting w call before after e place)) (h.each place);
  current = h.current;
  placed = h.placed;
  supported = (supported_take w call before after e h.supported).1;
}
Settling-IsWithinBudget options w call before after _ e (declines reason answer free) h =
    let taken = supported_take w call before after e h.supported in
    change-IsWithinBudget options w call (decide call.key (not_witnessed reason)) w.started
      (before ++ after) h taken.0.0 (λ m. omega arith)
      (λ k.
        decide-IsWithin options.max_memory_attests (waiting call.memory (before ++ after)) call.key
          reason (captured call w.door) free
          (fewer options.max_memory_attests (waiting call.memory w.asked)
            (waiting call.memory (before ++ after)) (captured call w.door)
            (omega (arith, settled_waiting w call before after e call.memory)) k))
      (λ place differs.
        sym (settled_waiting w call before after e place ∙ rw differs (omega arith)))
      h.placed taken.1
Settling-IsWithinBudget options w call before after _ e (witnesses_it free single) h =
    let taken = supported_take w call before after e h.supported in
    change-IsWithinBudget options w call (witness_memory call) w.started (before ++ after) h
      taken.0.0 (witness_memory_grows call)
      (λ k.
        witness_memory-IsWithin options.max_memory_attests (waiting call.memory (before ++ after))
          call (captured call w.door) free single taken.0.1
          (subst (λ n. IsWithin options.max_memory_attests n (captured call w.door))
            (settled_waiting w call before after e call.memory ∙ rw (==_self call.memory) refl) k))
      (λ place differs.
        sym (settled_waiting w call before after e place ∙ rw differs (omega arith)))
      h.placed taken.1

Step-IsWithinBudget :
    (host : Host) (options : DoorOptions) (w v : World)
    → Step host options w v
    → IsWithinBudget options w
    → IsWithinBudget options v
Step-IsWithinBudget host options w _ (handled now request) h =
    let keeps = handle-Keeps host options now request w.door in
    let grows = Keeps-Grows w.door (handle host options now request w.door) keeps in
    record {
      each = λ place. rw (keeps.same place) (h.each place);
      current = keeps.current h.current;
      placed =
          Grows-placed w.door (handle host options now request w.door) w.started grows h.placed;
      supported =
          Grows-IsBased w.door (handle host options now request w.door) w.asked grows h.supported;
    }
Step-IsWithinBudget host options w _ (memory_starts now request call e) h = record {
  each = h.each;
  current = h.current;
  placed = (start_memory_place host options now request call w.door e h.current, h.placed);
  supported = h.supported;
}
Step-IsWithinBudget host options w _ (memory_asks call before after e) h =
    Asking-IsWithinBudget options w call before after (ask_memory options call w.door) e
      (ask_memory-Asking options call w.door) h
Step-IsWithinBudget host options w _ (memory_settles call before after reply e) h =
    Settling-IsWithinBudget options w call before after (settle_memory call reply w.door) e
      (settle_memory-Settling call reply w.door) h

only_empty : (place : ℕ) → memory_at place (empty_epoch_memory ∷ []) ≡ empty_epoch_memory
unfolding memory_at
only_empty zero = refl
only_empty (suc place) = refl

empty-IsWithin : {budget : ℕ} → IsWithin budget 0 empty_epoch_memory
unfolding empty_epoch_memory
empty-IsWithin = record {
  counted_calls = omega arith;
  calls = omega arith;
  journals = refl;
  shards = refl;
  based = λ h. absurd (cc h);
}

create-IsWithinBudget :
    (options : DoorOptions) (transcript : ResidencyRecord)
    → IsWithinBudget options record { door = create transcript; started = []; asked = [] }
unfolding create
create-IsWithinBudget options transcript = record {
  each = λ place. rw (only_empty place) empty-IsWithin;
  current = omega arith;
  placed = tt;
  supported = tt;
}

Reachable-IsWithinBudget :
    (host : Host) (options : DoorOptions) (w : World)
    → Reachable host options w
    → IsWithinBudget options w
Reachable-IsWithinBudget host options _ (constructed transcript) =
    create-IsWithinBudget options transcript
Reachable-IsWithinBudget host options v (then_step {w} before step) =
    Step-IsWithinBudget host options w v step (Reachable-IsWithinBudget host options w before)

-- Whatever requests a Door has handled, and however they interleave, each epoch memory holds at most
-- `max_memory_attests` witnessed memories, at most one of them a journal, and a journal only besides
-- a witnessed shard.
pub Reachable-memories :
    (host : Host) (options : DoorOptions) (w : World) (place : ℕ)
    → Reachable host options w
    → (witnessed_shard_count (memory_at place w.door.memories)
          + witnessed_journals (memory_at place w.door.memories)
        ≤ options.max_memory_attests)
      × (witnessed_journals (memory_at place w.door.memories) ≤ 1)
      × (0 < witnessed_journals (memory_at place w.door.memories)
          → 0 < witnessed_shard_count (memory_at place w.door.memories))
Reachable-memories host options w place r =
    let m = memory_at place w.door.memories in
    let h = (Reachable-IsWithinBudget host options w r).each place in
    (
      omega (arith, h.counted_calls, h.calls),
      ground (arith, h.journals),
      λ some_journal. ground (arith, some_journal, h.journals, h.shards, h.based),
    )
