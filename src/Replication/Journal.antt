-- ===== src/Replication/Journal.antt =====
-- queue.ts: what is pending for a target, by the lines of the journal.
use npc_of_the_internet.Shared.{
  ◌≡◌, refl, ◌↔◌, inl, inr, List, [], ◌∷◌, ◌++◌, map, Bool, false, ◌&&◌, ◌||◌, Text, includes, add,
  includes-add, ◌==◌, text_eq, if◌then◌else◌, arith, In,
}
use npc_of_the_internet.Replication.{
  ReplicationEnqueueEntry, enqueue, ack, Journal, acked_for_target, unacked,
  list_unacked_for_target,
}

-- Does a line acknowledge the CID for the target?
abbrev pub has_ack : Text → Text → Journal → Bool
has_ack target cid [] = false
has_ack target cid (enqueue e ∷ journal) = has_ack target cid journal
has_ack target cid (ack acked t at ∷ journal) =
    (t == target && acked == cid) || has_ack target cid journal

pub has_ack-append :
    (target cid : Text) (xs ys : Journal)
    → has_ack target cid (xs ++ ys) ≡ (has_ack target cid xs || has_ack target cid ys)
has_ack-append target cid [] ys = refl
has_ack-append target cid (enqueue e ∷ xs) ys = has_ack-append target cid xs ys
has_ack-append target cid (ack c t at ∷ xs) ys = ground (arith, has_ack-append target cid xs ys)

pub has_ack-enqueue :
    (target cid : Text) (es : List ReplicationEnqueueEntry)
    → has_ack target cid (map enqueue es) ≡ false
has_ack-enqueue target cid [] = refl
has_ack-enqueue target cid (e ∷ es) = has_ack-enqueue target cid es

acked_for_target-has_ack :
    (target cid : Text) (seen : List Text) (journal : Journal)
    → includes (acked_for_target target seen journal) cid
      ≡ (includes seen cid || has_ack target cid journal)
unfolding acked_for_target
acked_for_target-has_ack target cid seen [] = ground arith
acked_for_target-has_ack target cid seen (enqueue e ∷ journal) =
    acked_for_target-has_ack target cid seen journal
acked_for_target-has_ack target cid seen (ack c t at ∷ journal) = ground (
  arith,
  acked_for_target-has_ack target cid (if t == target then add c seen else seen) journal,
  includes-add c seen cid,
)

enqueue-injective : (d e : ReplicationEnqueueEntry) → enqueue d ≡ enqueue e → d ≡ e
enqueue-injective d e h = cc

unacked_iff :
    (acked : List Text) (journal : Journal) (e : ReplicationEnqueueEntry)
    → In e (unacked acked journal) ↔ (In (enqueue e) journal × (includes acked e.cid ≡ false))
unfolding unacked
unacked_iff acked [] e = ((λ h. absurd h), λ h. absurd h.0)
unacked_iff acked (ack c t at ∷ journal) e = (
  (λ h. let (k, l) = (unacked_iff acked journal e).0 h in (inr k, l)),
  λ h. elim h.0 [ inl k ↦ absurd (cc k) | inr k ↦ (unacked_iff acked journal e).1 (k, h.1) ],
)
unacked_iff acked (enqueue d ∷ journal) e =
    ground (arith, unacked_iff acked journal e, enqueue-injective d e)

-- An entry is pending for a target exactly if the journal has its enqueue line and no ack line of
-- its CID for the target.
pub list_unacked_for_target_iff :
    (journal : Journal) (target : Text) (e : ReplicationEnqueueEntry)
    → In e (list_unacked_for_target journal target)
      ↔ (In (enqueue e) journal × (has_ack target e.cid journal ≡ false))
unfolding list_unacked_for_target
list_unacked_for_target_iff journal target e = ground (
  arith,
  unacked_iff (acked_for_target target [] journal) journal e,
  acked_for_target-has_ack target e.cid [] journal,
)
