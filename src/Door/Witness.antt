-- ===== src/Door/Witness.antt =====
-- door-sdk/src/door.ts: `attest` for memories. The code awaits three times, so a memory attest is
-- four steps with other requests between them.
use npc_of_the_internet.Shared.{
  ℕ, zero, suc, ◌+◌, Option, none, some, List, [], ◌∷◌, ◌++◌, Bool, true, false, ◌&&◌, Text, length,
  leb, get, put, HasEq, ◌==◌, nat_eq, text_eq, if◌then◌else◌, ◌≡◌, ◌↔◌, sym, ap, ==_iff,
}
use npc_of_the_internet.Base64Url.{Bytes}
use npc_of_the_internet.Door.{
  WitnessReason, ungrounded, other, DoorError, unsupported_kind, invalid_request,
  witness_unavailable, witness_declined, Answer, answered, refused, ◌>>=◌, ◌>>◌, require, or_refuse,
  Host, DoorOptions, MemoryKind, shard, journal, WitnessVerdict, witnessed, not_witnessed,
  MemoryKey, EpochMemory, empty_epoch_memory, Door, AttestRequest, AttestResponse,
}
use npc_of_the_internet.Door.Transcript.{ResidencyLine, lines}
use npc_of_the_internet.Door.Core.{assert_memory_core_bound}
use npc_of_the_internet.Door.Attest.{check_request, assert_session_request, attest_response}

abbrev pub is_journal : MemoryKind → Bool
is_journal journal = true
is_journal shard = false

abbrev same_key : MemoryKey → MemoryKey → Bool
same_key (shard, hash) (shard, hash') = hash == hash'
same_key (journal, hash) (journal, hash') = hash == hash'
same_key _ _ = false

abbrev same_key_iff : (a b : MemoryKey) → (same_key a b ≡ true) ↔ (a ≡ b)
same_key_iff (shard, hash) (shard, hash') = (
  (λ h. ap (λ t. (shard, t)) ((==_iff hash hash').0 h)),
  λ h. (==_iff hash hash').1 (ap (λ k. k.1) h),
)
same_key_iff (journal, hash) (journal, hash') = (
  (λ h. ap (λ t. (journal, t)) ((==_iff hash hash').0 h)),
  λ h. (==_iff hash hash').1 (ap (λ k. k.1) h),
)
same_key_iff (shard, hash) (journal, hash') =
    ((λ h. absurd (cc h)), λ h. ap (λ k. is_journal k.0) h)
same_key_iff (journal, hash) (shard, hash') =
    ((λ h. absurd (cc h)), λ h. sym (ap (λ k. is_journal k.0) h))

instance abbrev pub key_eq : HasEq MemoryKey
key_eq = record { test = same_key; test_iff = same_key_iff }

-- The epoch memory at a place.
unfoldable pub memory_at : ℕ → List EpochMemory → EpochMemory
unfolding empty_epoch_memory
memory_at place [] = empty_epoch_memory
memory_at zero (memory ∷ rest) = memory
memory_at (suc place) (memory ∷ rest) = memory_at place rest

unfoldable pub update_at : ℕ → (EpochMemory → EpochMemory) → List EpochMemory → List EpochMemory
update_at place change [] = []
update_at zero change (memory ∷ rest) = change memory ∷ rest
update_at (suc place) change (memory ∷ rest) = memory ∷ update_at place change rest

unfoldable pub change_memory : ℕ → (EpochMemory → EpochMemory) → Door → Door
unfolding update_at
change_memory place change door = record door { memories = update_at place change door.memories }

-- `memory.decided.set(key, verdict)`
unfoldable pub decide : MemoryKey → WitnessVerdict → EpochMemory → EpochMemory
decide key verdict memory = record memory { decided = put key verdict memory.decided }

-- A memory attest under way, with the epoch memory that it captured.
pub record MemoryCall : Type 0 where
  pub request : AttestRequest
  pub signature : Bytes
  pub prose : Text
  pub memory : ℕ
  pub key : MemoryKey

-- The first step, up to the hashing of the text: nothing changes.
unfoldable pub start_memory :
    Host → DoorOptions → (now : Text) → AttestRequest → Door → Answer MemoryCall
unfolding check_request assert_session_request assert_memory_core_bound
start_memory host options now request door = do
  signature ← check_request host options now request
  assert_session_request host options request signature door
  require options.witnesses_memories unsupported_kind
  prose ← or_refuse request.prose invalid_request
  key ← assert_memory_core_bound host options request prose
  answered record {
    request = request;
    signature = signature;
    prose = prose;
    memory = door.epoch_memory;
    key = key;
  }

-- What a step leaves a call to do: it is over, or the witness is asked.
pub data Asked : Type 0 where
  over : Answer (Unit {0}) → Asked
  asking : (transcript : List ResidencyLine) (witnessed_shards : List Text) → Asked

-- `replayDecision` of a decision that there is
unfoldable pub replay_decision : WitnessVerdict → Answer (Unit {0})
replay_decision witnessed = answered tt
replay_decision (not_witnessed reason) = refused (witness_declined reason)

-- `decline(reason, why)`: the decision is recorded.
unfoldable pub decline : MemoryCall → WitnessReason → Door → Door × Answer (Unit {0})
unfolding change_memory decide
decline call reason door = (
  change_memory call.memory (decide call.key (not_witnessed reason)) door,
  refused (witness_declined reason),
)

unfoldable pub no_shards : EpochMemory → Bool
no_shards memory = length memory.witnessed_shards == 0

-- The call of the witness is counted before it is made.
unfoldable pub count_call : EpochMemory → EpochMemory
count_call memory = record memory { witness_calls = memory.witness_calls + 1 }

unfoldable pub ask_undecided : DoorOptions → MemoryCall → EpochMemory → Door → Door × Asked
unfolding decline change_memory no_shards count_call
ask_undecided options call memory door =
    let refusal = decline call other door in
    let baseless = decline call ungrounded door in
    if is_journal call.key.0 && memory.journal_witnessed
    then (refusal.0, over refusal.1)
    else if is_journal call.key.0 && no_shards memory
    then (baseless.0, over baseless.1)
    else if leb options.max_memory_attests memory.witness_calls
    then (door, over (refused (witness_declined other)))
    else (
      change_memory call.memory count_call door,
      asking (lines door.transcript) memory.witnessed_shards,
    )

unfoldable pub ask_when :
    DoorOptions → MemoryCall → Option WitnessVerdict → EpochMemory → Door → Door × Asked
unfolding replay_decision ask_undecided
ask_when options call (some verdict) memory door = (door, over (replay_decision verdict))
ask_when options call none memory door = ask_undecided options call memory door

-- The second step, up to the call of the witness.
unfoldable pub ask_memory : DoorOptions → MemoryCall → Door → Door × Asked
unfolding memory_at ask_when
ask_memory options call door =
    let memory = memory_at call.memory door.memories in
    ask_when options call (get call.key memory.decided) memory door

-- What the witness policy does: a verdict, with the reason that the schema reads; anything else that
-- it returns; an error.
pub data WitnessReply : Type 0 where
  witnesses : WitnessReply
  does_not_witness : Option WitnessReason → WitnessReply
  malformed fails : WitnessReply
  throws_door_error : DoorError → WitnessReply

abbrev pub reason_or_other : Option WitnessReason → WitnessReason
reason_or_other none = other
reason_or_other (some reason) = reason

-- A memory is witnessed: the journal, or one more shard.
unfoldable pub witness_memory : MemoryCall → EpochMemory → EpochMemory
unfolding decide
witness_memory call memory = decide call.key witnessed (
    if is_journal call.key.0
    then record memory { journal_witnessed = true }
    else record memory { witnessed_shards = memory.witnessed_shards ++ call.prose ∷ [] })

-- A verdict on a memory that is not decided yet; a failure does not come here.
unfoldable pub settle_undecided :
    MemoryCall → WitnessReply → EpochMemory → Door → Door × Answer (Unit {0})
unfolding decline change_memory witness_memory
settle_undecided call (does_not_witness reason) memory door =
    decline call (reason_or_other reason) door
settle_undecided call _ memory door =
    let refusal = decline call other door in
    if is_journal call.key.0 && memory.journal_witnessed
    then refusal
    else (change_memory call.memory (witness_memory call) door, answered tt)

unfoldable pub settle_when :
    MemoryCall
    → WitnessReply
    → Option WitnessVerdict
    → EpochMemory
    → Door
    → Door × Answer (Unit {0})
unfolding replay_decision settle_undecided
settle_when call reply (some verdict) memory door = (door, replay_decision verdict)
settle_when call reply none memory door = settle_undecided call reply memory door

-- The third step, when the witness has answered: no decision is read if it failed.
unfoldable pub settle_memory : MemoryCall → WitnessReply → Door → Door × Answer (Unit {0})
unfolding memory_at settle_when
settle_memory call malformed door = (door, refused witness_unavailable)
settle_memory call fails door = (door, refused witness_unavailable)
settle_memory call (throws_door_error e) door = (door, refused e)
settle_memory call witnesses door =
    let memory = memory_at call.memory door.memories in
    settle_when call witnesses (get call.key memory.decided) memory door
settle_memory call (does_not_witness reason) door =
    let memory = memory_at call.memory door.memories in
    settle_when call (does_not_witness reason) (get call.key memory.decided) memory door

-- The last step of a call that was not refused: the session must still be the one that asked.
unfoldable pub confirm_memory :
    Host → DoorOptions → (now : Text) → MemoryCall → Door → Answer AttestResponse
unfolding assert_session_request attest_response
confirm_memory host options now call door = do
  assert_session_request host options call.request call.signature door
  attest_response host now call.request
