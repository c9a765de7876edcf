-- ===== src/Replication/Acks.antt =====
-- drain.ts: what one tick acknowledges, and what stays pending.
use npc_of_the_internet.Shared.{
  ◌≡◌, ap, ◌⊎◌, inl, inr, List, [], ◌∷◌, ◌++◌, map, Bool, true, false, ◌&&◌, ◌||◌, Text, includes,
  ◌==◌, ==_iff, ==_self, nat_eq, text_eq, arith, In, In-append, Bool-cases,
}
use npc_of_the_internet.Replication.{
  ReplicationEnqueueEntry, ReplicationJournalEntry, enqueue, Journal, list_unacked_for_target, Turn,
  ack_covered, upload_turn, drain_target, drain_targets,
}
use npc_of_the_internet.Replication.Journal.{
  has_ack, has_ack-append, has_ack-enqueue, list_unacked_for_target_iff,
}

module _ (covered : List Text) where
  abbrev covers : Text → List ReplicationEnqueueEntry → Bool
  covers cid [] = false
  covers cid (e ∷ pending) = (includes covered e.cid && e.cid == cid) || covers cid pending

  ack_covered-has_ack :
      (t cid target at : Text) (pending : List ReplicationEnqueueEntry)
      → has_ack t cid (ack_covered covered target at pending) ≡ (target == t && covers cid pending)
  unfolding ack_covered
  ack_covered-has_ack t cid target at [] = ground arith
  ack_covered-has_ack t cid target at (e ∷ pending) =
      ground (arith, ack_covered-has_ack t cid target at pending)

  covers-includes :
      (cid : Text) (pending : List ReplicationEnqueueEntry)
      → covers cid pending ≡ true
      → includes covered cid ≡ true
  covers-includes cid [] h = absurd (cc h)
  covers-includes cid (e ∷ pending) h =
      ground (arith, covers-includes cid pending, ==_iff e.cid cid)

  In-covers :
      (e : ReplicationEnqueueEntry) (pending : List ReplicationEnqueueEntry)
      → includes covered e.cid ≡ true
      → In e pending
      → covers e.cid pending ≡ true
  In-covers e [] h k = absurd k
  In-covers e (d ∷ pending) h k = ground (arith, In-covers e pending h, ==_self e.cid)

  -- The ack lines of one turn.
  upload_turn-has_ack :
      (t cid target : Text) (turn : Turn) (pending : List ReplicationEnqueueEntry)
      (journal : Journal)
      → has_ack t cid (upload_turn covered target turn pending journal)
        ≡ (has_ack t cid journal || (turn.uploaded && (target == t && covers cid pending)))
  unfolding upload_turn
  upload_turn-has_ack t cid target turn [] journal = ground arith
  upload_turn-has_ack t cid target turn (e ∷ pending) journal = ground (
    arith,
    has_ack-append t cid journal (map enqueue turn.raced),
    has_ack-append t cid (journal ++ map enqueue turn.raced)
        (ack_covered covered target turn.at (e ∷ pending)),
    has_ack-enqueue t cid turn.raced,
    ack_covered-has_ack t cid target turn.at (e ∷ pending),
  )

  abbrev listed : Text → Turn → Journal → List ReplicationEnqueueEntry
  listed target turn journal = list_unacked_for_target (journal ++ map enqueue turn.appended) target

  drain_target-has_ack :
      (t cid target : Text) (turn : Turn) (journal : Journal)
      → has_ack t cid (drain_target covered target turn journal) ≡ (
          has_ack t cid journal
          || (turn.uploaded && (target == t && covers cid (listed target turn journal))))
  unfolding drain_target
  drain_target-has_ack t cid target turn journal = ground (
    arith,
    upload_turn-has_ack t cid target turn (listed target turn journal)
        (journal ++ map enqueue turn.appended),
    has_ack-append t cid journal (map enqueue turn.appended),
    has_ack-enqueue t cid turn.appended,
  )

  drain_target_acks :
      (t cid target : Text) (turn : Turn) (journal : Journal)
      → has_ack t cid (drain_target covered target turn journal) ≡ true
      → (has_ack t cid journal ≡ true)
        ⊎ ((target ≡ t) × (turn.uploaded ≡ true) × (includes covered cid ≡ true))
  drain_target_acks t cid target turn journal h = ground (
    arith,
    drain_target-has_ack t cid target turn journal,
    covers-includes cid (listed target turn journal),
    ==_iff target t,
  )

  -- A successful upload leaves no covered entry of the journal unacknowledged.
  drain_target_progress :
      (e : ReplicationEnqueueEntry) (target : Text) (turn : Turn) (journal : Journal)
      → turn.uploaded ≡ true
      → includes covered e.cid ≡ true
      → In (enqueue e) journal
      → has_ack target e.cid (drain_target covered target turn journal) ≡ true
  drain_target_progress e target turn journal up cov here =
      elim (Bool-cases (has_ack target e.cid journal)) [
        | inl acked ↦ ground (arith, drain_target-has_ack target e.cid target turn journal)
        | inr missing ↦ ground (
          arith,
          drain_target-has_ack target e.cid target turn journal,
          ==_self target,
          In-covers e (listed target turn journal) cov,
          list_unacked_for_target_iff (journal ++ map enqueue turn.appended) target e,
          has_ack-append target e.cid journal (map enqueue turn.appended),
          has_ack-enqueue target e.cid turn.appended,
          In-append (enqueue e) journal (map enqueue turn.appended),
        )
      ]

  upload_turn_keeps :
      (x : ReplicationJournalEntry) (target : Text) (turn : Turn)
      (pending : List ReplicationEnqueueEntry) (journal : Journal)
      → In x journal
      → In x (upload_turn covered target turn pending journal)
  unfolding upload_turn
  upload_turn_keeps x target turn [] journal h = h
  upload_turn_keeps x target turn (e ∷ pending) journal h = ground (
    arith,
    In-append x journal (map enqueue turn.raced),
    In-append x (journal ++ map enqueue turn.raced)
        (ack_covered covered target turn.at (e ∷ pending)),
  )

  drain_target_keeps :
      (x : ReplicationJournalEntry) (target : Text) (turn : Turn) (journal : Journal)
      → In x journal
      → In x (drain_target covered target turn journal)
  unfolding drain_target
  drain_target_keeps x target turn journal h =
      upload_turn_keeps x target turn (listed target turn journal)
        (journal ++ map enqueue turn.appended)
        ((In-append x journal (map enqueue turn.appended)).1 (inl h))

  -- A turn of the tick uploaded for the target, and the CAR covers the CID.
  abbrev pub IsUploaded : Text → Text → List (Text × Turn) → Type 0
  IsUploaded t cid targets =
      (turn : Turn) × In (t, turn) targets × (turn.uploaded ≡ true) × (includes covered cid ≡ true)

  pub drain_targets_acks :
      (t cid : Text) (targets : List (Text × Turn)) (journal : Journal)
      → has_ack t cid (drain_targets covered targets journal) ≡ true
      → (has_ack t cid journal ≡ true) ⊎ IsUploaded t cid targets
  unfolding drain_targets
  drain_targets_acks t cid [] journal h = inl h
  drain_targets_acks t cid ((target, turn) ∷ targets) journal h =
      elim (drain_targets_acks t cid targets (drain_target covered target turn journal) h) [
        | inl k ↦ elim (drain_target_acks t cid target turn journal k) [
          | inl l ↦ inl l
          | inr (same, up, cov) ↦ inr (turn, inl (ap (λ n. (n, turn)) same), up, cov)
        ]
        | inr (other, there, up, cov) ↦ inr (other, inr there, up, cov)
      ]

  pub drain_targets_keeps :
      (x : ReplicationJournalEntry) (targets : List (Text × Turn)) (journal : Journal)
      → In x journal
      → In x (drain_targets covered targets journal)
  unfolding drain_targets
  drain_targets_keeps x [] journal h = h
  drain_targets_keeps x ((target, turn) ∷ targets) journal h =
      drain_targets_keeps x targets (drain_target covered target turn journal)
        (drain_target_keeps x target turn journal h)

  has_ack_kept :
      (t cid : Text) (targets : List (Text × Turn)) (journal : Journal)
      → has_ack t cid journal ≡ true
      → has_ack t cid (drain_targets covered targets journal) ≡ true
  unfolding drain_targets
  has_ack_kept t cid [] journal h = h
  has_ack_kept t cid ((target, turn) ∷ targets) journal h =
      has_ack_kept t cid targets (drain_target covered target turn journal)
        (ground (arith, drain_target-has_ack t cid target turn journal))

  pub drain_targets_progress :
      (e : ReplicationEnqueueEntry) (t : Text) (turn : Turn) (targets : List (Text × Turn))
      (journal : Journal)
      → In (t, turn) targets
      → turn.uploaded ≡ true
      → includes covered e.cid ≡ true
      → In (enqueue e) journal
      → has_ack t e.cid (drain_targets covered targets journal) ≡ true
  unfolding drain_targets
  drain_targets_progress e t turn [] journal h up cov here = absurd h
  drain_targets_progress e t turn ((target, other) ∷ targets) journal h up cov here = elim h [
    | inl same ↦ has_ack_kept t e.cid targets (drain_target covered target other journal) (
        rw (ap (λ x. x.0) same, ap (λ x. x.1) same)
          (drain_target_progress e t turn journal up cov here))
    | inr there ↦
        drain_targets_progress e t turn targets (drain_target covered target other journal) there up
          cov (drain_target_keeps (enqueue e) target other journal here)
  ]
