-- ===== src/Replication/Tests.antt =====
-- Runs of the replication drain.
use npc_of_the_internet.Shared.{
  ◌≡◌, refl, ◌⊎◌, inl, some, [], ◌∷◌, true, false, text, nat_eq, text_eq, In,
}
use npc_of_the_internet.Replication.{
  ReplicationEnqueueEntry, osp_record, enqueue, ack, list_unacked_for_target, PinManifest, Turn,
  DrainState, Tick, covered_by, tick, manifest, car,
}
use npc_of_the_internet.Replication.Journal.{has_ack}
use npc_of_the_internet.Replication.Acks.{IsUploaded}
use npc_of_the_internet.Replication.Ticks.{tick_acks, tick_pending, tick_progress}

abbrev first_entry : ReplicationEnqueueEntry
first_entry = record { cid = text "cid1"; kind = osp_record; enqueued_at = text "t1" }

abbrev late_entry : ReplicationEnqueueEntry
late_entry = record { cid = text "cid2"; kind = osp_record; enqueued_at = text "t2" }

abbrev state_before : DrainState
state_before = record { journal = enqueue first_entry ∷ []; last_manifest_seq = some 3 }

abbrev pinned : PinManifest
pinned = record { records = text "cid1" ∷ []; cid = text "m"; generated_at = text "t3" }

abbrev good_turn : Turn
good_turn = record { appended = late_entry ∷ []; raced = []; uploaded = true; at = text "t4" }

abbrev bad_turn : Turn
bad_turn = record { appended = []; raced = []; uploaded = false; at = text "t4" }

abbrev sample_tick : Tick
sample_tick = record {
  head_seq = some 4;
  pin_manifest = some pinned;
  head_after = some 4;
  targets = (text "a", good_turn) ∷ (text "b", bad_turn) ∷ [];
}

tick_test : tick sample_tick state_before ≡ record {
  journal =
      enqueue first_entry
      ∷ enqueue (record { cid = text "m"; kind = manifest; enqueued_at = text "t3" })
      ∷ enqueue (record { cid = text "m"; kind = car; enqueued_at = text "t3" })
      ∷ enqueue late_entry
      ∷ ack (text "cid1") (text "a") (text "t4")
      ∷ ack (text "m") (text "a") (text "t4")
      ∷ ack (text "m") (text "a") (text "t4")
      ∷ [];
  last_manifest_seq = some 4;
}
unfolding tick
tick_test = refl

first_pending : In first_entry (list_unacked_for_target state_before.journal (text "a"))
unfolding list_unacked_for_target
first_pending = inl refl

first_acked : has_ack (text "a") (text "cid1") (tick sample_tick state_before).journal ≡ true
unfolding tick
first_acked = refl

tick_acks_example :
    (has_ack (text "a") (text "cid1") state_before.journal ≡ true)
    ⊎ ((m : PinManifest) × (sample_tick.pin_manifest ≡ some m)
        × IsUploaded (covered_by m) (text "a") (text "cid1") sample_tick.targets)
tick_acks_example = tick_acks (text "a") (text "cid1") sample_tick state_before first_acked

tick_pending_example :
    In first_entry (list_unacked_for_target (tick sample_tick state_before).journal (text "a"))
    ⊎ ((m : PinManifest) × (sample_tick.pin_manifest ≡ some m)
        × IsUploaded (covered_by m) (text "a") (text "cid1") sample_tick.targets)
tick_pending_example = tick_pending (text "a") first_entry sample_tick state_before first_pending

tick_progress_example :
    In first_entry (list_unacked_for_target (tick sample_tick state_before).journal (text "a")) → ⊥
tick_progress_example =
    tick_progress (text "a") first_entry sample_tick state_before 4 pinned good_turn refl refl
      (inl refl) refl refl first_pending
