-- ===== src/Chain/Record.antt =====
-- osp-core/src/schemas/body.ts and envelope.ts: the shapes of soulchain records. Timestamps, amounts
-- and `decision` inputs (any JSON) are texts that the chain rules never look into.
use npc_of_the_internet.Shared.{ℕ, Option, List, Bool, Text}
use npc_of_the_internet.Base64Url.{Bytes}

-- `osp/0.1` and `osp/0.2`
pub data Spec : Type 0 where
  v01 v02 : Spec

pub record GenesisBody : Type 0 where
  pub charter : Text
  pub soul_pubkey : Text
  pub created_at : Text
  pub fork_point : Option Text
  pub fork_reason : Option Text

pub data MemoryBody : Type 0 where
  shard_v01 :
      (prose : Text) (candidate_cid journal : Option Text) (distilled_at : Text) → MemoryBody
  shard_v02 :
      (text_cid text_hash : Text) (candidate_cid journal_cid journal_hash : Option Text)
      (distilled_at : Text)
      → MemoryBody
  journal : (journal_cid journal_hash written_at : Text) → MemoryBody
  candidate_v01 : (prose proposed_at : Text) → MemoryBody
  candidate_v02 : (text_cid text_hash proposed_at : Text) → MemoryBody
  rejected : (category : Text) (candidate_cid : Option Text) (rejected_at : Text) → MemoryBody

pub data AttestationBody : Type 0 where
  arrival : (door_id : Text) (epoch : ℕ) (session_pubkey issued_at : Text) → AttestationBody
  heartbeat : (door_id : Text) (epoch : ℕ) (session_pubkey issued_at : Text) → AttestationBody
  departure : (door_id : Text) (epoch : ℕ) (issued_at : Text) → AttestationBody
  travel :
      (from_door_id : Text) (from_epoch : ℕ) (to_door_id : Option Text) (issued_at : Text)
      → AttestationBody
  handover :
      (depart_door_id arrive_door_id : Text) (depart_epoch arrive_epoch : ℕ)
      (depart_attestation rotate_attestation arrive_attestation : Option Text) (issued_at : Text)
      → AttestationBody

pub data TombstoneReason : Type 0 where
  erasure_request dmca illegal_content operator : TombstoneReason

pub data Direction : Type 0 where
  incoming outgoing : Direction

-- The body with its record's `type`.
pub data Body : Type 0 where
  genesis : GenesisBody → Body
  memory : MemoryBody → Body
  drift : (summary : Text) (evidence : List Text) (effective_at : Text) → Body
  decision : (chosen reasoning : Text) (inputs : Option Text) (decided_at : Text) → Body
  transaction :
      Direction
      → (amount currency : Text) (counterparty memo tx_ref : Option Text) (executed_at : Text)
      → Body
  attestation : AttestationBody → Body
  sleep : (reason balance threshold as_of : Text) → Body
  tombstone : (target_cid blob_cid : Text) (reason : TombstoneReason) (erased_at : Text) → Body

pub record OspRecord : Type 0 where
  pub spec : Spec
  pub seq : ℕ
  pub prev : Option Text
  pub residency : Option Text
  pub cosigners : List Text
  pub sig : Text
  pub body : Body

-- `corePayload`: what a Door signs.
pub record CoreFields : Type 0 where
  pub spec : Spec
  pub seq : ℕ
  pub prev : Option Text
  pub residency : Option Text
  pub body : Body

-- `soulPayload`: what the soul key signs.
pub record SoulFields : Type 0 where
  pub spec : Spec
  pub seq : ℕ
  pub prev : Option Text
  pub residency : Option Text
  pub cosigners : List Text
  pub body : Body

abbrev pub core_payload : OspRecord → CoreFields
core_payload r = record {
  spec = r.spec;
  seq = r.seq;
  prev = r.prev;
  residency = r.residency;
  body = r.body;
}

abbrev pub soul_payload : OspRecord → SoulFields
soul_payload r = record {
  spec = r.spec;
  seq = r.seq;
  prev = r.prev;
  residency = r.residency;
  cosigners = r.cosigners;
  body = r.body;
}

-- Canonical JSON, sha2-256 CIDs and Ed25519 come from packages outside the repository.
pub record Crypto : Type 0 where
  -- `canonicalize` of the two payloads
  pub core_bytes : CoreFields → Bytes
  pub soul_bytes : SoulFields → Bytes
  -- `computeCid`
  pub compute_cid : OspRecord → Text
  -- `verify(message, signature, publicKey)`
  pub verify : Bytes → Bytes → Bytes → Bool
