-- ===== src/Door/World/Changes.antt =====
-- door-sdk/src/door.ts: what the steps of a memory attest do to the epoch memory that it captured.
use npc_of_the_internet.Shared.{
  ℕ, zero, suc, ◌<◌, ◌≡◌, ◌≢◌, refl, ap, ◌⊎◌, inl, inr, List, [], ◌∷◌, Bool, true, false, ◌&&◌,
  Option, none, some, length, get, leb, arith, Bool-cases, nat_eq, text_eq, Text,
}
use npc_of_the_internet.Door.{
  WitnessReason, ungrounded, other, witness_unavailable, witness_declined, Answer, answered,
  refused, DoorOptions, WitnessVerdict, not_witnessed, EpochMemory, Door,
}
use npc_of_the_internet.Door.Transcript.{ResidencyLine, lines}
use npc_of_the_internet.Door.Witness.{
  is_journal, key_eq, memory_at, update_at, change_memory, decide, MemoryCall, over, asking, Asked,
  decline, no_shards, count_call, ask_undecided, ask_when, ask_memory, WitnessReply, witnesses,
  does_not_witness, malformed, fails, throws_door_error, witness_memory, settle_undecided,
  settle_when, settle_memory, replay_decision, reason_or_other,
}

pub memory_at-update_at :
    (place : ℕ) (change : EpochMemory → EpochMemory) (ms : List EpochMemory)
    → place < length ms
    → memory_at place (update_at place change ms) ≡ change (memory_at place ms)
unfolding memory_at update_at
memory_at-update_at place change [] h = absurd (omega (arith, h))
memory_at-update_at zero change (m ∷ ms) h = refl
memory_at-update_at (suc place) change (m ∷ ms) h =
    memory_at-update_at place change ms (omega (arith, h))

pub memory_at-update_at_other :
    (place p : ℕ) (change : EpochMemory → EpochMemory) (ms : List EpochMemory)
    → place ≢ p
    → memory_at p (update_at place change ms) ≡ memory_at p ms
unfolding memory_at update_at
memory_at-update_at_other place p change [] h = refl
memory_at-update_at_other zero zero change (m ∷ ms) h = absurd (h refl)
memory_at-update_at_other zero (suc p) change (m ∷ ms) h = refl
memory_at-update_at_other (suc place) zero change (m ∷ ms) h = refl
memory_at-update_at_other (suc place) (suc p) change (m ∷ ms) h =
    memory_at-update_at_other place p change ms (λ e. h (ap suc e))

-- Whatever the place is, either nothing is changed at `p` or the change is made there.
pub update_at-cases :
    (place p : ℕ) (change : EpochMemory → EpochMemory) (ms : List EpochMemory)
    → (memory_at p (update_at place change ms) ≡ memory_at p ms)
      ⊎ ((place ≡ p) × (memory_at p (update_at place change ms) ≡ change (memory_at p ms)))
unfolding memory_at update_at
update_at-cases place p change [] = inl refl
update_at-cases zero zero change (m ∷ ms) = inr (refl, refl)
update_at-cases zero (suc p) change (m ∷ ms) = inl refl
update_at-cases (suc place) zero change (m ∷ ms) = inl refl
update_at-cases (suc place) (suc p) change (m ∷ ms) = elim (update_at-cases place p change ms) [
  | inl h ↦ inl h
  | inr (e, h) ↦ inr (ap suc e, h)
]

pub length-update_at :
    (place : ℕ) (change : EpochMemory → EpochMemory) (ms : List EpochMemory)
    → length (update_at place change ms) ≡ length ms
unfolding update_at
length-update_at place change [] = refl
length-update_at zero change (m ∷ ms) = refl
length-update_at (suc place) change (m ∷ ms) = ap suc (length-update_at place change ms)

abbrev pub captured : MemoryCall → Door → EpochMemory
captured call d = memory_at call.memory d.memories

abbrev pub Undecided : MemoryCall → Door → Type 0
Undecided call d = get call.key (captured call d).decided ≡ none

-- What asking may come to.
pub data Asking (options : DoorOptions) (call : MemoryCall) (d : Door) : Door × Asked → Type 0 where
  settled : (answer : Answer (Unit {0})) → Asking options call d (d, over answer)
  declined :
      (reason : WitnessReason) (answer : Answer (Unit {0}))
      → Undecided call d
      → Asking options call d
          (change_memory call.memory (decide call.key (not_witnessed reason)) d, over answer)
  counted :
      (transcript : List ResidencyLine) (shards : List Text)
      → Undecided call d
      → (captured call d).witness_calls < options.max_memory_attests
      → (is_journal call.key.0 ≡ true → 0 < length (captured call d).witnessed_shards)
      → Asking options call d (change_memory call.memory count_call d, asking transcript shards)

ask_undecided-Asking :
    (options : DoorOptions) (call : MemoryCall) (d : Door)
    → Undecided call d
    → Asking options call d (ask_undecided options call (captured call d) d)
unfolding ask_undecided decline no_shards
ask_undecided-Asking options call d free =
    let m = captured call d in
    elim (Bool-cases (is_journal call.key.0 && m.journal_witnessed)) [
      | inl h ↦ rw h (declined other (refused (witness_declined other)) free)
      | inr h ↦ elim (Bool-cases (is_journal call.key.0 && no_shards m)) [
        | inl k ↦ rw (h, k) (declined ungrounded (refused (witness_declined ungrounded)) free)
        | inr k ↦ elim (Bool-cases (leb options.max_memory_attests m.witness_calls)) [
          | inl l ↦ rw (h, k, l) (settled (refused (witness_declined other)))
          | inr l ↦
              rw (h, k, l)
                (counted (lines d.transcript) m.witnessed_shards free (ground (arith, l))
                  (has_shards (is_journal call.key.0) m k))
        ]
      ]
    ]
  where
    has_shards :
        (b : Bool) (m : EpochMemory)
        → b && no_shards m ≡ false
        → b ≡ true
        → 0 < length m.witnessed_shards
    has_shards b m h k = ground (arith, h, k)

ask_when-Asking :
    (options : DoorOptions) (call : MemoryCall) (verdict : Option WitnessVerdict) (d : Door)
    → get call.key (captured call d).decided ≡ verdict
    → Asking options call d (ask_when options call verdict (captured call d) d)
unfolding ask_when
ask_when-Asking options call (some verdict) d h = settled (replay_decision verdict)
ask_when-Asking options call none d h = ask_undecided-Asking options call d h

pub ask_memory-Asking :
    (options : DoorOptions) (call : MemoryCall) (d : Door)
    → Asking options call d (ask_memory options call d)
unfolding ask_memory
ask_memory-Asking options call d =
    ask_when-Asking options call (get call.key (captured call d).decided) d refl

-- What the witness's answer may come to.
pub data Settling (call : MemoryCall) (d : Door) : Door × Answer (Unit {0}) → Type 0 where
  unchanged : (answer : Answer (Unit {0})) → Settling call d (d, answer)
  declines :
      (reason : WitnessReason) (answer : Answer (Unit {0}))
      → Undecided call d
      → Settling call d
          (change_memory call.memory (decide call.key (not_witnessed reason)) d, answer)
  witnesses_it :
      Undecided call d
      → (is_journal call.key.0 ≡ true → (captured call d).journal_witnessed ≡ false)
      → Settling call d (change_memory call.memory (witness_memory call) d, answered tt)

settle_witnesses-Settling :
    (call : MemoryCall) (d : Door)
    → Undecided call d
    → Settling call d (settle_undecided call witnesses (captured call d) d)
unfolding settle_undecided decline
settle_witnesses-Settling call d free =
    elim (Bool-cases (is_journal call.key.0 && (captured call d).journal_witnessed)) [
      | inl h ↦ rw h (declines other (refused (witness_declined other)) free)
      | inr h ↦ rw h (witnesses_it free (λ k. other_side _ _ k h))
    ]
  where
    other_side : (a b : Bool) → a ≡ true → a && b ≡ false → b ≡ false
    other_side a b h k = ground (arith, h, k)

settle_when-Settling :
    (call : MemoryCall) (reply : WitnessReply) (verdict : Option WitnessVerdict) (d : Door)
    → ((reply ≡ witnesses) ⊎ ((reason : Option WitnessReason) × (reply ≡ does_not_witness reason)))
    → get call.key (captured call d).decided ≡ verdict
    → Settling call d (settle_when call reply verdict (captured call d) d)
unfolding settle_when settle_undecided decline
settle_when-Settling call reply (some verdict) d k h = unchanged (replay_decision verdict)
settle_when-Settling call reply none d (inl k) h = rw k (settle_witnesses-Settling call d h)
settle_when-Settling call reply none d (inr (reason, k)) h =
    rw k (declines (reason_or_other reason) (refused (witness_declined (reason_or_other reason))) h)

pub settle_memory-Settling :
    (call : MemoryCall) (reply : WitnessReply) (d : Door)
    → Settling call d (settle_memory call reply d)
unfolding settle_memory
settle_memory-Settling call malformed d = unchanged (refused witness_unavailable)
settle_memory-Settling call fails d = unchanged (refused witness_unavailable)
settle_memory-Settling call (throws_door_error e) d = unchanged (refused e)
settle_memory-Settling call witnesses d =
    settle_when-Settling call witnesses (get call.key (captured call d).decided) d (inl refl) refl
settle_memory-Settling call (does_not_witness reason) d =
    settle_when-Settling call (does_not_witness reason) (get call.key (captured call d).decided) d
      (inr (reason, refl)) refl
