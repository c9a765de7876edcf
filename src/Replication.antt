-- ===== src/Replication.antt =====
-- osp-core/src/replication/types.ts and queue.ts, and runtime/src/replication/drain.ts: the journal
-- of blobs to replicate and the drain that uploads them. The journal is the list of its parsed lines.
pub mod Journal
pub mod Acks
pub mod Ticks
mod Tests
use npc_of_the_internet.Shared.{
  ℕ, ◌+◌, Option, none, some, List, [], ◌∷◌, ◌++◌, map, Bool, true, false, not, ◌&&◌, ◌||◌, Text,
  length, leb, includes, add, ◌==◌, nat_eq, text_eq, if◌then◌else◌,
}

pub data ReplicationKind : Type 0 where
  osp_record manifest car : ReplicationKind

pub record ReplicationEnqueueEntry : Type 0 where
  pub cid : Text
  pub kind : ReplicationKind
  pub enqueued_at : Text

-- One line of the journal.
pub data ReplicationJournalEntry : Type 0 where
  enqueue : ReplicationEnqueueEntry → ReplicationJournalEntry
  ack : (acked target at : Text) → ReplicationJournalEntry

abbrev pub Journal : Type 0
Journal = List ReplicationJournalEntry

-- The CIDs with an ack line, added to those seen before.
pub acked_cids : List Text → Journal → List Text
acked_cids seen [] = seen
acked_cids seen (ack cid target at ∷ journal) = acked_cids (add cid seen) journal
acked_cids seen (enqueue e ∷ journal) = acked_cids seen journal

pub acked_for_target : Text → List Text → Journal → List Text
acked_for_target target seen [] = seen
acked_for_target target seen (ack cid t at ∷ journal) =
    acked_for_target target (if t == target then add cid seen else seen) journal
acked_for_target target seen (enqueue e ∷ journal) = acked_for_target target seen journal

-- The enqueue lines whose CID is not in the set, in journal order.
pub unacked : List Text → Journal → List ReplicationEnqueueEntry
unacked acked [] = []
unacked acked (ack _ _ _ ∷ journal) = unacked acked journal
unacked acked (enqueue e ∷ journal) =
    let rest = unacked acked journal in if includes acked e.cid then rest else e ∷ rest

pub list_pending_replication : Journal → List ReplicationEnqueueEntry
unfolding acked_cids unacked
list_pending_replication journal = unacked (acked_cids [] journal) journal

pub list_unacked_for_target : Journal → Text → List ReplicationEnqueueEntry
unfolding acked_for_target unacked
list_unacked_for_target journal target = unacked (acked_for_target target [] journal) journal

abbrev kind_beq : ReplicationKind → ReplicationKind → Bool
kind_beq osp_record osp_record = true
kind_beq manifest manifest = true
kind_beq car car = true
kind_beq _ _ = false

pub already_queued : List ReplicationEnqueueEntry → ReplicationEnqueueEntry → Bool
already_queued [] entry = false
already_queued (queued ∷ pending) entry =
    (queued.cid == entry.cid && kind_beq queued.kind entry.kind) || already_queued pending entry

pub enqueue_if_not_pending : ReplicationEnqueueEntry → Journal → Journal
unfolding list_pending_replication already_queued
enqueue_if_not_pending entry journal =
    if already_queued (list_pending_replication journal) entry
    then journal
    else journal ++ enqueue entry ∷ []

-- What the signed pin manifest of a cadence holds.
pub record PinManifest : Type 0 where
  pub records : List Text
  pub cid : Text
  pub generated_at : Text

abbrev pub entry_of : PinManifest → ReplicationKind → ReplicationEnqueueEntry
entry_of m kind = record { cid = m.cid; kind = kind; enqueued_at = m.generated_at }

-- `runManifestCadence`: the manifest and the CAR are queued.
pub run_manifest_cadence : PinManifest → Journal → Journal
unfolding enqueue_if_not_pending
run_manifest_cadence m journal =
    enqueue_if_not_pending (entry_of m car) (enqueue_if_not_pending (entry_of m manifest) journal)

-- What happens in the turn of one target: lines that appends of records add before the pending
-- entries are listed and during the upload, and the upload itself.
pub record Turn : Type 0 where
  pub appended : List ReplicationEnqueueEntry
  pub raced : List ReplicationEnqueueEntry
  pub uploaded : Bool
  pub at : Text

-- The ack lines for the pending entries that the uploaded CAR covers.
pub ack_covered : List Text → Text → Text → List ReplicationEnqueueEntry → Journal
ack_covered covered target at [] = []
ack_covered covered target at (entry ∷ pending) =
    let rest = ack_covered covered target at pending in
    if includes covered entry.cid then ack entry.cid target at ∷ rest else rest

pub upload_turn : List Text → Text → Turn → List ReplicationEnqueueEntry → Journal → Journal
unfolding ack_covered
upload_turn covered target turn [] journal = journal
upload_turn covered target turn (entry ∷ pending) journal =
    let during = journal ++ map enqueue turn.raced in
    if turn.uploaded then during ++ ack_covered covered target turn.at (entry ∷ pending) else during

pub drain_target : List Text → Text → Turn → Journal → Journal
unfolding upload_turn list_unacked_for_target
drain_target covered target turn journal =
    let before = journal ++ map enqueue turn.appended in
    upload_turn covered target turn (list_unacked_for_target before target) before

-- `for (const adapter of options.targets)`
pub drain_targets : List Text → List (Text × Turn) → Journal → Journal
drain_targets covered [] journal = journal
drain_targets covered ((target, turn) ∷ targets) journal =
    drain_targets covered targets (drain_target covered target turn journal)

pub any_target_has_unacked : List (Text × Turn) → Journal → Bool
unfolding list_unacked_for_target
any_target_has_unacked [] journal = false
any_target_has_unacked ((target, turn) ∷ targets) journal =
    not (length (list_unacked_for_target journal target) == 0)
    || any_target_has_unacked targets journal

-- The journal and the `last-manifest-seq` file, absent for -1.
pub record DrainState : Type 0 where
  pub journal : Journal
  pub last_manifest_seq : Option ℕ

-- What a tick meets: the chain's head before and after the cadence, the manifest that the cadence
-- builds (none if it throws), and the targets in order with their turns.
pub record Tick : Type 0 where
  pub head_seq : Option ℕ
  pub pin_manifest : Option PinManifest
  pub head_after : Option ℕ
  pub targets : List (Text × Turn)

abbrev manifest_cadence_seq : ℕ
manifest_cadence_seq = 500

-- `headSeq - lastManifestSeq >= MANIFEST_CADENCE_SEQ`
abbrev pub cadence_due : ℕ → Option ℕ → Bool
cadence_due head none = leb manifest_cadence_seq (head + 1)
cadence_due head (some last) = leb (last + manifest_cadence_seq) head

abbrev pub covered_by : PinManifest → List Text
covered_by m = m.records ++ m.cid ∷ []

abbrev later : Option ℕ → Option ℕ → Option ℕ
later none last = last
later (some head) last = some head

pub drained : Tick → PinManifest → DrainState → DrainState
unfolding run_manifest_cadence drain_targets drain_target
drained t m s = record {
  journal = drain_targets (covered_by m) t.targets (run_manifest_cadence m s.journal);
  last_manifest_seq = later t.head_after s.last_manifest_seq;
}

pub run_tick : Tick → DrainState → DrainState
unfolding drained any_target_has_unacked
run_tick t s = elim t.head_seq [
  | none ↦ s
  | some head ↦
      if not (cadence_due head s.last_manifest_seq)
        && not (any_target_has_unacked t.targets s.journal)
      then s
      else elim t.pin_manifest [ none ↦ s | some m ↦ drained t m s ]
]

pub tick : Tick → DrainState → DrainState
unfolding run_tick
tick t s = if length t.targets == 0 then s else run_tick t s
