-- ===== src/Replication/Ticks.antt =====
-- drain.ts: a whole tick of the drain, over whatever the uploads and concurrent appends do.
use npc_of_the_internet.Shared.{
  ℕ, ◌≡◌, refl, sym, ap, subst, ◌∙◌, ◌⊎◌, inl, inr, some, List, [], ◌∷◌, true, false, not, ◌&&◌,
  Text, includes, length, ◌==◌, nat_eq, text_eq, arith, In, In-append, Bool-cases, Option-cases,
}
use mathlib.Core.Bool.{false≢true}
use npc_of_the_internet.Replication.{
  ReplicationEnqueueEntry, ReplicationJournalEntry, enqueue, Journal, list_unacked_for_target,
  enqueue_if_not_pending, run_manifest_cadence, PinManifest, manifest, car, entry_of, Turn,
  any_target_has_unacked, DrainState, Tick, covered_by, cadence_due, drained, run_tick, tick,
}
use npc_of_the_internet.Replication.Journal.{has_ack, has_ack-append, list_unacked_for_target_iff}
use npc_of_the_internet.Replication.Acks.{
  IsUploaded, drain_targets_acks, drain_targets_keeps, drain_targets_progress,
}

enqueue_if_not_pending-has_ack :
    (t cid : Text) (e : ReplicationEnqueueEntry) (journal : Journal)
    → has_ack t cid (enqueue_if_not_pending e journal) ≡ has_ack t cid journal
unfolding enqueue_if_not_pending
enqueue_if_not_pending-has_ack t cid e journal =
    ground (arith, has_ack-append t cid journal (enqueue e ∷ []))

enqueue_if_not_pending_keeps :
    (x : ReplicationJournalEntry) (e : ReplicationEnqueueEntry) (journal : Journal)
    → In x journal
    → In x (enqueue_if_not_pending e journal)
unfolding enqueue_if_not_pending
enqueue_if_not_pending_keeps x e journal h = ground (arith, In-append x journal (enqueue e ∷ []))

run_manifest_cadence-has_ack :
    (t cid : Text) (m : PinManifest) (journal : Journal)
    → has_ack t cid (run_manifest_cadence m journal) ≡ has_ack t cid journal
unfolding run_manifest_cadence
run_manifest_cadence-has_ack t cid m journal =
    enqueue_if_not_pending-has_ack t cid (entry_of m car)
      (enqueue_if_not_pending (entry_of m manifest) journal)
    ∙ enqueue_if_not_pending-has_ack t cid (entry_of m manifest) journal

run_manifest_cadence_keeps :
    (x : ReplicationJournalEntry) (m : PinManifest) (journal : Journal)
    → In x journal
    → In x (run_manifest_cadence m journal)
unfolding run_manifest_cadence
run_manifest_cadence_keeps x m journal h =
    enqueue_if_not_pending_keeps x _ _ (enqueue_if_not_pending_keeps x _ journal h)

-- A tick does nothing, or drains under the manifest of its cadence.
tick-cases :
    (k : Tick) (s : DrainState)
    → (tick k s ≡ s) ⊎ ((m : PinManifest) × (k.pin_manifest ≡ some m) × (tick k s ≡ drained k m s))
unfolding tick run_tick
tick-cases k s = elim (Option-cases k.pin_manifest) [
  | inl missing ↦ inl (ground arith)
  | inr (m, built) ↦ elim (Option-cases k.head_seq) [
    | inl unborn ↦ inl (ground arith)
    | inr (head, born) ↦ elim (Bool-cases (length k.targets == 0)) [
      | inl idle ↦ inl (ground arith)
      | inr busy ↦
          elim (Bool-cases (
            not (cadence_due head s.last_manifest_seq)
            && not (any_target_has_unacked k.targets s.journal))) [
              | inl early ↦ inl (rw (busy, born, early) refl)
              | inr due ↦ inr (m, built, rw (busy, born, due, built) refl)
            ]
    ]
  ]
]

drained_acks :
    (t cid : Text) (k : Tick) (m : PinManifest) (s : DrainState)
    → has_ack t cid (drained k m s).journal ≡ true
    → (has_ack t cid s.journal ≡ true) ⊎ IsUploaded (covered_by m) t cid k.targets
unfolding drained
drained_acks t cid k m s h =
    elim (drain_targets_acks (covered_by m) t cid k.targets (run_manifest_cadence m s.journal) h) [
      | inl old ↦ inl (sym (run_manifest_cadence-has_ack t cid m s.journal) ∙ old)
      | inr up ↦ inr up
    ]

drained_keeps :
    (x : ReplicationJournalEntry) (k : Tick) (m : PinManifest) (s : DrainState)
    → In x s.journal
    → In x (drained k m s).journal
unfolding drained
drained_keeps x k m s h =
    drain_targets_keeps (covered_by m) x k.targets (run_manifest_cadence m s.journal)
      (run_manifest_cadence_keeps x m s.journal h)

-- A CID is acknowledged for a target after a tick only if it was before, or if the tick uploaded to
-- that target with success a CAR of a manifest that covers the CID.
pub tick_acks :
    (t cid : Text) (k : Tick) (s : DrainState)
    → has_ack t cid (tick k s).journal ≡ true
    → (has_ack t cid s.journal ≡ true)
      ⊎ ((m : PinManifest) × (k.pin_manifest ≡ some m) × IsUploaded (covered_by m) t cid k.targets)
tick_acks t cid k s h = elim (tick-cases k s) [
  | inl same ↦ inl (ap (λ x. has_ack t cid x.journal) (sym same) ∙ h)
  | inr (m, built, same) ↦
      elim (drained_acks t cid k m s (ap (λ x. has_ack t cid x.journal) (sym same) ∙ h)) [
        | inl old ↦ inl old
        | inr up ↦ inr (m, built, up)
      ]
]

tick_keeps :
    (x : ReplicationJournalEntry) (k : Tick) (s : DrainState)
    → In x s.journal
    → In x (tick k s).journal
tick_keeps x k s h = elim (tick-cases k s) [
  | inl same ↦ subst (λ y. In x y.journal) (sym same) h
  | inr (m, built, same) ↦ subst (λ y. In x y.journal) (sym same) (drained_keeps x k m s h)
]

-- An entry that is pending for a target is pending after a tick, unless the tick uploaded to that
-- target with success a CAR of a manifest that covers the entry.
pub tick_pending :
    (t : Text) (e : ReplicationEnqueueEntry) (k : Tick) (s : DrainState)
    → In e (list_unacked_for_target s.journal t)
    → In e (list_unacked_for_target (tick k s).journal t)
      ⊎ ((m : PinManifest) × (k.pin_manifest ≡ some m)
          × IsUploaded (covered_by m) t e.cid k.targets)
tick_pending t e k s h =
    let (here, unacked) = (list_unacked_for_target_iff s.journal t e).0 h in
    elim (Bool-cases (has_ack t e.cid (tick k s).journal)) [
      | inl acked ↦ elim (tick_acks t e.cid k s acked) [
        | inl old ↦ absurd (false≢true (sym unacked ∙ old))
        | inr up ↦ inr up
      ]
      | inr not_acked ↦ inl (
          (list_unacked_for_target_iff (tick k s).journal t e).1
            (tick_keeps (enqueue e) k s here, not_acked))
    ]

some_unacked :
    (t : Text) (turn : Turn) (e : ReplicationEnqueueEntry) (targets : List (Text × Turn))
    (journal : Journal)
    → In (t, turn) targets
    → In e (list_unacked_for_target journal t)
    → (any_target_has_unacked targets journal ≡ true) × ((length targets == 0) ≡ false)
unfolding any_target_has_unacked
some_unacked t turn e [] journal h k = absurd h
some_unacked t turn e ((target, other) ∷ targets) journal (inl same) k = (
  ground (
    arith,
    nonempty (list_unacked_for_target journal target)
        (subst (λ n. In e (list_unacked_for_target journal n)) (sym (ap (λ x. x.0) same)) k),
  ),
  ground arith,
)
  where
    nonempty : (l : List ReplicationEnqueueEntry) → In e l → (length l == 0) ≡ false
    nonempty [] h = absurd h
    nonempty (x ∷ l) h = ground arith
some_unacked t turn e ((target, other) ∷ targets) journal (inr there) k =
    (ground (arith, (some_unacked t turn e targets journal there k).0), ground arith)

run_tick-drained :
    (k : Tick) (s : DrainState) (head : ℕ) (m : PinManifest)
    → k.head_seq ≡ some head
    → k.pin_manifest ≡ some m
    → any_target_has_unacked k.targets s.journal ≡ true
    → (length k.targets == 0) ≡ false
    → tick k s ≡ drained k m s
unfolding tick run_tick
run_tick-drained k s head m born built some_left busy = ground arith

-- A tick on a chain that has a head, whose cadence builds a manifest and whose upload to a target
-- succeeds, leaves no entry pending for the target that was before and that the manifest covers.
pub tick_progress :
    (t : Text) (e : ReplicationEnqueueEntry) (k : Tick) (s : DrainState) (head : ℕ)
    (m : PinManifest) (turn : Turn)
    → k.head_seq ≡ some head
    → k.pin_manifest ≡ some m
    → In (t, turn) k.targets
    → turn.uploaded ≡ true
    → includes (covered_by m) e.cid ≡ true
    → In e (list_unacked_for_target s.journal t)
    → In e (list_unacked_for_target (tick k s).journal t)
    → ⊥
unfolding drained
tick_progress t e k s head m turn born built there up cov pending still =
    let (some_left, busy) = some_unacked t turn e k.targets s.journal there pending in
    let (here, _) = (list_unacked_for_target_iff s.journal t e).0 pending in
    let (_, unacked) = (list_unacked_for_target_iff (tick k s).journal t e).0 still in
    let acked =
      drain_targets_progress (covered_by m) e t turn k.targets (run_manifest_cadence m s.journal)
        there up cov (run_manifest_cadence_keeps (enqueue e) m s.journal here) in
    false≢true (
      sym unacked
      ∙ ap (λ x. has_ack t e.cid x.journal) (run_tick-drained k s head m born built some_left busy)
      ∙ acked)
