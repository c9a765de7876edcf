-- ===== src/Chain/Checks.antt =====
-- osp-core/src/verify-chain.ts: the state of `ChainVerifier`, and the checks of one record against it.
use npc_of_the_internet.Shared.{
  ℕ, ◌+◌, Option, none, some, List, [], ◌∷◌, ◌++◌, Bool, true, false, not, ◌&&◌, ◌||◌, Text, get,
  includes, ◌==◌, nat_eq, text_eq, option_beq, if◌then◌else◌,
}
use npc_of_the_internet.Base64Url.{Bytes, ok, err, decode_public_key}
use npc_of_the_internet.Chain.Record.{
  Spec, v01, v02, shard_v01, shard_v02, journal, candidate_v02, Body, genesis, memory, drift,
  tombstone, OspRecord,
}
use npc_of_the_internet.Chain.Schema.{is_genesis}
use npc_of_the_internet.Chain.Presence.{
  ChainRule, broken_prev_link, seq_gap, schema_violation, forked_head, bad_genesis,
  bad_drift_evidence, bad_tombstone, ChainFailure, PresenceState, evaluate_presence,
}

pub record HeadInfo : Type 0 where
  pub cid : Text
  pub seq : ℕ

pub record ChainVerifier : Type 0 where
  pub index : ℕ
  pub previous_seq : Option ℕ
  pub previous_cid : Option Text
  pub soul_public_key : Option Bytes
  pub chain_spec : Option Spec
  pub seen_seq : List ℕ
  pub shard_cids : List Text
  pub record_blob_refs : List (Text × List Text)
  pub tombstoned_blobs : List Text
  pub presence_state : PresenceState
  pub last_head : Option HeadInfo

abbrev pub fresh : ChainVerifier
fresh = record {
  index = 0;
  previous_seq = none;
  previous_cid = none;
  soul_public_key = none;
  chain_spec = none;
  seen_seq = [];
  shard_cids = [];
  record_blob_refs = [];
  tombstoned_blobs = [];
  presence_state = record { active_sessions = []; epoch_doors = [] };
  last_head = none;
}

abbrev pub fail : OspRecord → Option Text → ChainRule → List ChainFailure
fail r cid rule = record { seq = r.seq; cid = cid; rule = rule } ∷ []

unfoldable pub is_null : Option Text → Bool
is_null none = true
is_null (some _) = false

unfoldable pub genesis_key : OspRecord → Body → List ChainFailure
genesis_key r (genesis g) = elim (decode_public_key g.soul_pubkey) [
  | ok _ ↦ []
  | err _ ↦ fail r none bad_genesis
]
genesis_key r _ = []

unfoldable pub collect_genesis_failures : OspRecord → Bool → List ChainFailure
unfolding genesis_key is_null
collect_genesis_failures r false = if is_genesis r.body then fail r none bad_genesis else []
collect_genesis_failures r true =
    if not (is_genesis r.body)
      || (not (r.seq == 0) || (not (is_null r.prev) || not (is_null r.residency)))
    then fail r none bad_genesis
    else genesis_key r r.body

-- `text_cid` and `journal_cid` of a memory body
abbrev pub optional : Option Text → List Text
optional none = []
optional (some cid) = cid ∷ []

unfoldable pub prose_blob_refs : Body → List Text
prose_blob_refs (memory (shard_v02 text_cid _ _ journal_cid _ _)) = text_cid ∷ optional journal_cid
prose_blob_refs (memory (journal journal_cid _ _)) = journal_cid ∷ []
prose_blob_refs (memory (candidate_v02 text_cid _ _)) = text_cid ∷ []
prose_blob_refs _ = []

unfoldable pub is_shard : Body → Bool
is_shard (memory (shard_v01 _ _ _ _)) = true
is_shard (memory (shard_v02 _ _ _ _ _ _)) = true
is_shard _ = false

unfoldable pub spec_beq : Spec → Spec → Bool
spec_beq v01 v01 = true
spec_beq v02 v02 = true
spec_beq _ _ = false

-- The checks of `evaluate` against the admitted prefix, one function for each.
unfoldable pub spec_failures : ChainVerifier → OspRecord → List ChainFailure
unfolding spec_beq
spec_failures v r = elim v.chain_spec [
  | none ↦ []
  | some spec ↦ if spec_beq r.spec spec then [] else fail r none schema_violation
]

unfoldable pub duplicate_failures : ChainVerifier → OspRecord → Text → List ChainFailure
duplicate_failures v r cid = if includes v.seen_seq r.seq then fail r (some cid) forked_head else []

unfoldable pub seq_failures : ChainVerifier → OspRecord → Text → List ChainFailure
seq_failures v r cid = elim v.previous_seq [
  | none ↦ []
  | some previous ↦ if r.seq == previous + 1 then [] else fail r (some cid) seq_gap
]

unfoldable pub prev_is : Option Text → Text → Bool
prev_is prev cid = option_beq prev (some cid)

unfoldable pub link_failures : ChainVerifier → OspRecord → Text → List ChainFailure
unfolding prev_is
link_failures v r cid = elim v.previous_seq [
  | none ↦ []
  | some _ ↦ elim v.previous_cid [
    | none ↦ []
    | some previous ↦ if prev_is r.prev previous then [] else fail r (some cid) broken_prev_link
  ]
]

unfoldable pub evidence_failures : List Text → OspRecord → Text → List Text → List ChainFailure
evidence_failures shards r cid [] = []
evidence_failures shards r cid (e ∷ es) =
    (if includes shards e then [] else fail r (some cid) bad_drift_evidence)
    ++ evidence_failures shards r cid es

unfoldable pub drift_failures : ChainVerifier → OspRecord → Text → Body → List ChainFailure
unfolding evidence_failures
drift_failures v r cid (drift _ evidence _) = evidence_failures v.shard_cids r cid evidence
drift_failures v r cid _ = []

unfoldable pub tombstone_failures : ChainVerifier → OspRecord → Text → Body → List ChainFailure
tombstone_failures v r cid (tombstone target blob _ _) = elim (get target v.record_blob_refs) [
  | none ↦ fail r (some cid) bad_tombstone
  | some refs ↦
      if not (includes refs blob) && not (includes v.tombstoned_blobs blob)
      then fail r (some cid) bad_tombstone
      else []
]
tombstone_failures v r cid _ = []

-- The soul key that the record is checked with.
unfoldable pub key_of_genesis : Body → Option Bytes
key_of_genesis (genesis g) = elim (decode_public_key g.soul_pubkey) [
  | ok key ↦ some key
  | err _ ↦ none
]
key_of_genesis _ = none

unfoldable pub next_soul_key : ChainVerifier → OspRecord → Option Bytes
unfolding key_of_genesis
next_soul_key v r =
    if v.index == 0 && (is_genesis r.body && r.seq == 0)
    then key_of_genesis r.body
    else v.soul_public_key

-- All chain rules but the signatures, in the order of the source.
unfoldable pub chain_failures : ChainVerifier → OspRecord → Text → List ChainFailure
unfolding spec_failures duplicate_failures collect_genesis_failures seq_failures link_failures
    drift_failures tombstone_failures
chain_failures v r cid =
    spec_failures v r
    ++ (duplicate_failures v r cid
        ++ (collect_genesis_failures r (v.index == 0)
            ++ (seq_failures v r cid
                ++ (link_failures v r cid
                    ++ (drift_failures v r cid r.body
                        ++ (tombstone_failures v r cid r.body
                            ++ (evaluate_presence r cid v.presence_state).failures))))))
