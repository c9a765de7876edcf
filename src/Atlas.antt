-- ===== src/Atlas.antt =====
-- atlas/src/derive.ts: what Atlas reads off a soulchain: labels, presence and pages.
pub mod Pages
pub mod Residencies
use npc_of_the_internet.Shared.{
  ℕ, ◌+◌, ◌-◌, ◌*◌, Option, none, some, List, [], ◌∷◌, ◌++◌, reverse, Bool, true, false, ◌&&◌, Text,
  text, length, take, drop, ltb, leb, includes, ◌==◌, nat_eq, text_eq, if◌then◌else◌,
}
use npc_of_the_internet.Canonical.Strings.{decimal}
use npc_of_the_internet.Chain.Record.{
  shard_v01, shard_v02, journal, candidate_v01, candidate_v02, rejected, arrival, heartbeat,
  departure, travel, handover, Body, MemoryBody, AttestationBody, genesis, memory, drift, decision,
  transaction, attestation, sleep, tombstone, OspRecord,
}

pub data WandererStatus : Type 0 where
  present traveling sleeping : WandererStatus

pub record StateResponse : Type 0 where
  pub status : WandererStatus
  pub door_id : Option Text
  pub epoch : Option ℕ
  pub since : Option Text
  pub last_record_at : Option Text
  pub verified : Bool

-- Every body of the schemas has its timestamp.
memory_timestamp : MemoryBody → Text
memory_timestamp (shard_v01 _ _ _ distilled_at) = distilled_at
memory_timestamp (shard_v02 _ _ _ _ _ distilled_at) = distilled_at
memory_timestamp (journal _ _ written_at) = written_at
memory_timestamp (candidate_v01 _ proposed_at) = proposed_at
memory_timestamp (candidate_v02 _ _ proposed_at) = proposed_at
memory_timestamp (rejected _ _ rejected_at) = rejected_at

pub attested_at : AttestationBody → Text
attested_at (arrival _ _ _ at) = at
attested_at (heartbeat _ _ _ at) = at
attested_at (departure _ _ at) = at
attested_at (travel _ _ _ at) = at
attested_at (handover _ _ _ _ _ _ _ at) = at

timestamp : Body → Text
unfolding memory_timestamp attested_at
timestamp (genesis g) = g.created_at
timestamp (memory body) = memory_timestamp body
timestamp (drift _ _ effective_at) = effective_at
timestamp (decision _ _ _ decided_at) = decided_at
timestamp (transaction _ _ _ _ _ _ executed_at) = executed_at
timestamp (attestation body) = attested_at body
timestamp (sleep _ _ _ as_of) = as_of
timestamp (tombstone _ _ _ erased_at) = erased_at

pub extract_record_timestamp : OspRecord → Text
unfolding timestamp
extract_record_timestamp r = timestamp r.body

pub type_of : Body → Text
type_of (genesis _) = text "genesis"
type_of (memory _) = text "memory"
type_of (drift _ _ _) = text "drift"
type_of (decision _ _ _ _) = text "decision"
type_of (transaction _ _ _ _ _ _ _) = text "transaction"
type_of (attestation _) = text "attestation"
type_of (sleep _ _ _ _) = text "sleep"
type_of (tombstone _ _ _ _) = text "tombstone"

memory_kind : MemoryBody → Text
memory_kind (shard_v01 _ _ _ _) = text "shard"
memory_kind (shard_v02 _ _ _ _ _ _) = text "shard"
memory_kind (journal _ _ _) = text "journal"
memory_kind (candidate_v01 _ _) = text "candidate"
memory_kind (candidate_v02 _ _ _) = text "candidate"
memory_kind (rejected _ _ _) = text "rejected"

attestation_kind : AttestationBody → Text
attestation_kind (arrival _ _ _ _) = text "arrival"
attestation_kind (heartbeat _ _ _ _) = text "heartbeat"
attestation_kind (departure _ _ _) = text "departure"
attestation_kind (travel _ _ _ _) = text "travel"
attestation_kind (handover _ _ _ _ _ _ _ _) = text "handover"

kind_label : Body → Text
unfolding type_of memory_kind attestation_kind
kind_label (memory body) = text "memory/" ++ memory_kind body
kind_label (attestation body) = text "attestation/" ++ attestation_kind body
kind_label body = type_of body

pub format_record_kind : OspRecord → Text
unfolding kind_label
format_record_kind r = kind_label r.body

abbrev toward : Option Text → Text
toward none = []
toward (some to_door_id) = text " to=" ++ to_door_id

attestation_summary : AttestationBody → Text
attestation_summary (arrival door_id epoch _ _) =
    text "attestation/arrival door=" ++ door_id ++ text " epoch=" ++ decimal epoch
attestation_summary (heartbeat door_id epoch _ _) =
    text "attestation/heartbeat door=" ++ door_id ++ text " epoch=" ++ decimal epoch
attestation_summary (departure door_id epoch _) =
    text "attestation/departure door=" ++ door_id ++ text " epoch=" ++ decimal epoch
attestation_summary (travel from_door_id from_epoch to_door_id _) =
    text "attestation/travel from="
    ++ from_door_id
    ++ text " epoch="
    ++ decimal from_epoch
    ++ toward to_door_id
attestation_summary (handover depart_door_id _ depart_epoch _ _ _ _ _) =
    text "attestation/handover depart=" ++ depart_door_id ++ text " epoch=" ++ decimal depart_epoch

summary : Body → Text
unfolding type_of memory_kind attestation_summary
summary (memory (rejected category _ _)) = text "memory/rejected category=" ++ category
summary (memory body) = text "memory/" ++ memory_kind body
summary (attestation body) = attestation_summary body
summary body = type_of body

pub record_summary : OspRecord → Text
unfolding summary
record_summary r = summary r.body

-- `findStaySince` from the arrival on, over the older records, newest first.
stay_run : (door_id since : Text) → List OspRecord → Text
stay_run door_id since [] = since
stay_run door_id since (r ∷ older) =
    let unmoved = stay_run door_id since older in
    elim r.body [
      | sleep _ _ _ _ ↦ since
      | attestation (arrival d _ _ at) ↦
          let restarted = stay_run door_id at older in if d == door_id then restarted else since
      | attestation (heartbeat d _ _ _) ↦ if d == door_id then unmoved else since
      | attestation _ ↦ since
      | _ ↦ unmoved
    ]

-- `findStaySince`, over the records from the given one on, newest first.
pub find_stay_since : Text → ℕ → List OspRecord → Option Text
unfolding stay_run
find_stay_since door_id epoch [] = none
find_stay_since door_id epoch (r ∷ older) =
    let before = find_stay_since door_id epoch older in
    elim r.body [
      | attestation (arrival d e _ at) ↦
          if d == door_id && e == epoch then some (stay_run door_id at older) else before
      | _ ↦ before
    ]

abbrev or_at : Option Text → Text → Option Text
or_at none at = some at
or_at (some since) at = some since

abbrev state :
    Option Text → Bool → WandererStatus → Option Text → Option ℕ → Option Text → StateResponse
state last_record_at verified status door_id epoch since = record {
  status = status;
  door_id = door_id;
  epoch = epoch;
  since = since;
  last_record_at = last_record_at;
  verified = verified;
}

-- The loop of `deriveState`, newest record first.
state_from : Option Text → Bool → List OspRecord → StateResponse
unfolding find_stay_since
state_from last verified [] = state last verified sleeping none none none
state_from last verified (r ∷ older) =
    let before = state_from last verified older in
    elim r.body [
      | sleep _ _ _ as_of ↦ state last verified sleeping none none (some as_of)
      | attestation (arrival d e _ at) ↦
          state last verified present (some d) (some e) (or_at (find_stay_since d e (r ∷ older)) at)
      | attestation (heartbeat d e _ at) ↦
          state last verified present (some d) (some e) (or_at (find_stay_since d e (r ∷ older)) at)
      | attestation (departure _ e at) ↦ state last verified traveling none (some e) (some at)
      | attestation (travel _ e _ at) ↦ state last verified traveling none (some e) (some at)
      | attestation (handover _ _ e _ _ _ _ at) ↦
          state last verified traveling none (some e) (some at)
      | _ ↦ before
    ]

abbrev last_timestamp : List OspRecord → Option Text
last_timestamp [] = none
last_timestamp (newest ∷ _) = some (extract_record_timestamp newest)

pub derive_state : List OspRecord → Bool → StateResponse
unfolding state_from extract_record_timestamp
derive_state records verified =
    state_from (last_timestamp (reverse records)) verified (reverse records)

pub record HeadResponse : Type 0 where
  pub cid : Text
  pub seq : ℕ
  pub kind : Text
  pub verified : Bool

abbrev head_of : (OspRecord → Text) → Bool → List OspRecord → Option HeadResponse
head_of compute_cid verified [] = none
head_of compute_cid verified (newest ∷ _) = some record {
  cid = compute_cid newest;
  seq = newest.seq;
  kind = format_record_kind newest;
  verified = verified;
}

pub derive_head : (OspRecord → Text) → List OspRecord → Bool → Option HeadResponse
derive_head compute_cid records verified = head_of compute_cid verified (reverse records)
