-- ===== src/Chain/Verifier.antt =====
-- osp-core/src/verify-chain.ts: `ChainVerifier.evaluate`, `verifyRecords` and `verifyChain`.
pub mod Tracking
pub mod Rules
pub mod Sessions
pub mod Admission
pub mod Signatures
pub mod Steps
pub mod Valid
pub mod Append
pub mod Rejection
pub mod CrossCheck
mod Tests
use npc_of_the_internet.Shared.{
  ℕ, ◌+◌, Option, none, some, List, [], ◌∷◌, ◌++◌, map, Bool, true, false, not, ◌&&◌, Text, length,
  put, includes, add, ◌==◌, nat_eq, text_eq, if◌then◌else◌,
}
use npc_of_the_internet.Base64Url.{Bytes}
use npc_of_the_internet.Chain.Record.{
  MemoryBody, shard_v01, shard_v02, journal, AttestationBody, arrival, departure, heartbeat, Body,
  memory, attestation, tombstone, OspRecord, Crypto,
}
use npc_of_the_internet.Chain.Schema.{Raw, shaped, malformed, safe_parse}
use npc_of_the_internet.Chain.Signed.{
  RecordError, schema_error, encoding_error, soul_signature, door_keys_required, null_residency,
  residency_format, no_door_key, cosigner_signature, cid_mismatch, Thrown, returned, threw,
  DoorKeys, verify_record, ◌>>=◌,
}
use npc_of_the_internet.Chain.Presence.{
  bad_soul_sig, broken_prev_link, seq_gap, schema_violation, missing_cosigner, forked_head,
  bad_genesis, ChainRule, ChainFailure, PresenceState, evaluate_presence,
}
use npc_of_the_internet.Chain.Checks.{
  HeadInfo, ChainVerifier, fresh, fail, prose_blob_refs, is_shard, next_soul_key, chain_failures,
}

-- The result of evaluating one candidate.
pub record ChainStep : Type 0 where
  pub failures : List ChainFailure
  pub parsed : Option OspRecord
  pub cid : Option Text
  pub record_error : Option RecordError
  pub commit : ChainVerifier → ChainVerifier

pub requires_cosigner : Body → Bool
requires_cosigner (memory (shard_v01 _ _ _ _)) = true
requires_cosigner (memory (shard_v02 _ _ _ _ _ _)) = true
requires_cosigner (memory (journal _ _ _)) = true
requires_cosigner (attestation (arrival _ _ _ _)) = true
requires_cosigner (attestation (departure _ _ _)) = true
requires_cosigner (attestation (heartbeat _ _ _ _)) = true
requires_cosigner _ = false

-- The failure for an error of `verifyRecord`, or the error again if it maps to none.
pub map_verify_record_error : OspRecord → RecordError → Thrown (List ChainFailure)
map_verify_record_error r soul_signature = returned (fail r none bad_soul_sig)
map_verify_record_error r door_keys_required = returned (fail r none missing_cosigner)
map_verify_record_error r null_residency = returned (fail r none missing_cosigner)
map_verify_record_error r residency_format = returned (fail r none missing_cosigner)
map_verify_record_error r (no_door_key d) = returned (fail r none missing_cosigner)
map_verify_record_error r (cosigner_signature i) = returned (fail r none missing_cosigner)
map_verify_record_error r schema_error = returned (fail r none schema_violation)
map_verify_record_error r (encoding_error e) = threw (encoding_error e)
map_verify_record_error r (cid_mismatch e c) = threw (cid_mismatch e c)

abbrev pub with_cid : Text → ChainFailure → ChainFailure
with_cid cid f = record f { cid = some cid }

abbrev pub with_cids : Text → List ChainFailure → List ChainFailure
with_cids cid [] = []
with_cids cid (f ∷ fs) = with_cid cid f ∷ with_cids cid fs

-- The failures of the signatures, with `recordError`.
abbrev pub Signatures : Type 0
Signatures = List ChainFailure × Option RecordError

pub mapped : Text → RecordError → Thrown (List ChainFailure) → Thrown Signatures
mapped cid e (returned fs) = returned (with_cids cid fs, some e)
mapped cid e (threw e') = threw e'

pub caught : OspRecord → Text → Thrown (OspRecord × Text) → Thrown Signatures
unfolding mapped map_verify_record_error
caught r cid (returned _) = returned ([], none)
caught r cid (threw e) = mapped cid e (map_verify_record_error r e)

-- `commit` of a parsed record
pub admit : ChainVerifier → OspRecord → Text → ChainVerifier → ChainVerifier
unfolding is_shard prose_blob_refs next_soul_key
admit v r cid s = record {
  index = v.index + 1;
  previous_seq = some r.seq;
  previous_cid = some cid;
  soul_public_key = if v.index == 0 then next_soul_key v r else s.soul_public_key;
  chain_spec = elim s.chain_spec [ none ↦ some r.spec | some spec ↦ some spec ];
  seen_seq = if includes v.seen_seq r.seq then s.seen_seq else add r.seq s.seen_seq;
  shard_cids = if is_shard r.body then add cid s.shard_cids else s.shard_cids;
  record_blob_refs = put cid (prose_blob_refs r.body) s.record_blob_refs;
  tombstoned_blobs = elim r.body [
    | tombstone _ blob _ _ ↦ add blob s.tombstoned_blobs
    | _ ↦ s.tombstoned_blobs
  ];
  presence_state = (evaluate_presence r cid v.presence_state).apply s.presence_state;
  last_head = some (record { cid = cid; seq = r.seq });
}

-- The step of a record that the schema accepts, from the failures of its signatures.
pub parsed_step :
    ChainVerifier → OspRecord → Text → List ChainFailure → Option RecordError → ChainStep
parsed_step v r cid fs e = record {
  failures = chain_failures v r cid ++ fs;
  parsed = some r;
  cid = some cid;
  record_error = e;
  commit = admit v r cid;
}

pub evaluate_parsed : ChainVerifier → OspRecord → Text → Thrown Signatures → Thrown ChainStep
unfolding chain_failures parsed_step admit
evaluate_parsed v r cid (threw e) = threw e
evaluate_parsed v r cid (returned (fs, e)) = returned (parsed_step v r cid fs e)

-- A candidate that the schema refuses: `seq` falls back to the index.
pub refuse : ChainVerifier → ℕ → ChainStep
refuse v seq = record {
  failures = record { seq = seq; cid = none; rule = schema_violation } ∷ [];
  parsed = none;
  cid = none;
  record_error = none;
  commit = λ s. record s { index = v.index + 1 };
}

pub raw_seq : Raw → ℕ → ℕ
raw_seq (shaped r) index = r.seq
raw_seq (malformed none) index = index
raw_seq (malformed (some seq)) index = seq

-- `VerifyChainResult`
pub data VerifyChainResult : Type 0 where
  valid : Option HeadInfo → VerifyChainResult
  invalid : List ChainFailure → VerifyChainResult

pub result_of : ChainVerifier → List ChainFailure → VerifyChainResult
result_of v [] = valid v.last_head
result_of v (f ∷ fs) = invalid (f ∷ fs)

abbrev pub fork_at : HeadInfo → VerifyChainResult
fork_at head = invalid (record { seq = head.seq; cid = some head.cid; rule = forked_head } ∷ [])

-- The verified head against the store's.
pub cross_check : VerifyChainResult → Option HeadInfo → VerifyChainResult
cross_check (invalid fs) store = invalid fs
cross_check (valid none) none = valid none
cross_check (valid none) (some stored) = fork_at stored
cross_check (valid (some head)) none = fork_at head
cross_check (valid (some head)) (some stored) =
    if stored.cid == head.cid && stored.seq == head.seq then valid (some head) else fork_at stored

module _ (crypto : Crypto) (door_keys : Option DoorKeys) where
  pub check_signatures : OspRecord → Text → Option Bytes → Thrown Signatures
  unfolding caught requires_cosigner
  check_signatures r cid key =
      if requires_cosigner r.body && length r.cosigners == 0
      then returned (fail r (some cid) missing_cosigner, none)
      else elim key [
        | none ↦ returned ([], none)
        | some key ↦ caught r cid (verify_record crypto r key door_keys (some cid))
      ]

  pub evaluate : ChainVerifier → Raw → Thrown ChainStep
  unfolding evaluate_parsed refuse raw_seq check_signatures
  evaluate v raw = elim (safe_parse raw) [
    | none ↦ returned (refuse v (raw_seq raw v.index))
    | some r ↦
        evaluate_parsed v r (crypto.compute_cid r)
          (check_signatures r (crypto.compute_cid r) (next_soul_key v r))
  ]

  -- `for (const raw of ordered)`: every record is admitted, failing ones too.
  pub walk :
      ChainVerifier → List ChainFailure → List Raw → Thrown (ChainVerifier × List ChainFailure)
  walk v failures [] = returned (v, failures)
  walk v failures (raw ∷ rest) = do
    step ← evaluate v raw
    walk (step.commit v) (failures ++ step.failures) rest

  -- `verifyRecordsWithState`
  pub verify_records_with_state : List Raw → Thrown (VerifyChainResult × ChainVerifier)
  unfolding walk evaluate result_of
  verify_records_with_state ordered = do
    (v, failures) ← walk fresh [] ordered
    returned (result_of v failures, v)

  pub verify_records : List Raw → Thrown VerifyChainResult
  unfolding verify_records_with_state
  verify_records ordered = do (result, v) ← verify_records_with_state ordered; returned result

  -- `verifyChain`: the records and the head of a store.
  pub verify_chain : List OspRecord → Option HeadInfo → Thrown VerifyChainResult
  unfolding verify_records cross_check
  verify_chain records store_head = do
    result ← verify_records (map shaped records)
    returned (cross_check result store_head)

-- The typed error that `append` throws for the failures of its candidate.
pub data AppendError : Type 0 where
  chain_mismatch_error verification_error : AppendError

pub error_of : ChainRule → AppendError
error_of seq_gap = chain_mismatch_error
error_of broken_prev_link = chain_mismatch_error
error_of forked_head = chain_mismatch_error
error_of bad_genesis = chain_mismatch_error
error_of _ = verification_error

pub append_rejection_error : List ChainFailure → AppendError
unfolding error_of
append_rejection_error [] = verification_error
append_rejection_error (first ∷ _) = error_of first.rule
