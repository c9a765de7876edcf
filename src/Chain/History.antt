-- ===== src/Chain/History.antt =====
-- What a soulchain is (spec/osp/records.md, Verification), over the records before a record, the
-- latest first. Nothing here uses the verifier's state or its checks.
use npc_of_the_internet.Shared.{
  ℕ, ◌≡◌, Option, none, some, List, [], ◌∷◌, Bool, true, false, ◌&&◌, ◌||◌, ◌⊎◌, Text, All, length,
  includes, ltb, ◌==◌, nat_eq, text_eq, if◌then◌else◌,
}
use npc_of_the_internet.Base64Url.{Bytes, ok, err, decode_public_key}
use npc_of_the_internet.Chain.Record.{
  Spec, shard_v01, shard_v02, journal, candidate_v02, arrival, heartbeat, departure, travel, Body,
  genesis, memory, drift, attestation, tombstone, OspRecord, Crypto,
}
use npc_of_the_internet.Chain.Schema.{issues, Presence, presence_of, is_genesis}
use npc_of_the_internet.Chain.Signed.{returned, DoorKeys, verify_record}
use npc_of_the_internet.Chain.Presence.{ActiveSession}

abbrev pub shard_body : Body → Bool
shard_body (memory (shard_v01 _ _ _ _)) = true
shard_body (memory (shard_v02 _ _ _ _ _ _)) = true
shard_body _ = false

-- the side blobs that hold a memory's prose
abbrev pub blobs_of : Body → List Text
blobs_of (memory (shard_v02 text_cid _ _ none _ _)) = text_cid ∷ []
blobs_of (memory (shard_v02 text_cid _ _ (some journal_cid) _ _)) = text_cid ∷ journal_cid ∷ []
blobs_of (memory (journal journal_cid _ _)) = journal_cid ∷ []
blobs_of (memory (candidate_v02 text_cid _ _)) = text_cid ∷ []
blobs_of _ = []

abbrev pub erases : Body → Text → Bool
erases (tombstone _ blob _ _) b = blob == b
erases _ b = false

abbrev pub soul_key_of : Body → Option Bytes
soul_key_of (genesis g) = elim (decode_public_key g.soul_pubkey) [
  | ok key ↦ some key
  | err _ ↦ none
]
soul_key_of _ = none

abbrev pub last_seq : List OspRecord → Option ℕ
last_seq [] = none
last_seq (q ∷ p) = some q.seq

abbrev pub last_spec : List OspRecord → Option Spec
last_spec [] = none
last_spec (q ∷ p) = some q.spec

-- The soul key is that of the first record.
abbrev pub soul_key : List OspRecord → Option Bytes
soul_key [] = none
soul_key (q ∷ []) = soul_key_of q.body
soul_key (q ∷ q' ∷ p) = soul_key (q' ∷ p)

-- Has the blob been erased?
abbrev pub erased : List OspRecord → Text → Bool
erased [] b = false
erased (q ∷ p) b = erases q.body b || erased p b

abbrev first_door : Option Presence → ℕ → Option Text
first_door none e = none
first_door (some p) e = if p.epoch == e then some p.door_id else none

-- The first Door that claimed the epoch, in force forever.
abbrev pub door_of : List OspRecord → ℕ → Option Text
door_of [] e = none
door_of (q ∷ p) e = elim (door_of p e) [
  | some d ↦ some d
  | none ↦ first_door (presence_of q.body) e
]

-- What a record does to the open session of an epoch.
abbrev pub session_after : Body → ℕ → Option ActiveSession → Option ActiveSession
session_after (attestation (arrival d n key _)) e before =
    if n == e
    then some (record { door_id = d; session_pubkey = key })
    else if ltb e n
    then none
    else before
session_after (attestation (departure d n _)) e before = if n == e then none else before
session_after (attestation (travel _ _ _ _)) e before = none
session_after _ e before = before

abbrev pub open_session : List OspRecord → ℕ → Option ActiveSession
open_session [] e = none
open_session (q ∷ p) e = session_after q.body e (open_session p e)

-- The presence rules: an arrival claims a new epoch, and a heartbeat or a departure is that of the
-- open session.
abbrev pub PresenceHolds : List OspRecord → Body → Type 0
PresenceHolds p (attestation (arrival d e key _)) = door_of p e ≡ none
PresenceHolds p (attestation (heartbeat d e key _)) =
    open_session p e ≡ some (record { door_id = d; session_pubkey = key })
PresenceHolds p (attestation (departure d e _)) =
    (key : Text) × (open_session p e ≡ some (record { door_id = d; session_pubkey = key }))
PresenceHolds p _ = Unit

module _ (crypto : Crypto) where
  abbrev pub last_cid : List OspRecord → Option Text
  last_cid [] = none
  last_cid (q ∷ p) = some (crypto.compute_cid q)

  -- Is the CID that of an earlier shard?
  abbrev pub earlier_shard : List OspRecord → Text → Bool
  earlier_shard [] c = false
  earlier_shard (q ∷ p) c = (shard_body q.body && crypto.compute_cid q == c) || earlier_shard p c

  -- The blobs of the earlier record with that CID.
  abbrev pub blobs_at : List OspRecord → Text → Option (List Text)
  blobs_at [] c = none
  blobs_at (q ∷ p) c = if crypto.compute_cid q == c then some (blobs_of q.body) else blobs_at p c

  -- The first record is a genesis. A later one is not, is linked to the record before it by that
  -- record's CID, and has its version.
  abbrev pub Follows : List OspRecord → OspRecord → Type 0
  Follows [] r = (is_genesis r.body ≡ true) × (r.prev ≡ none) × (r.residency ≡ none)
  Follows (q ∷ p) r =
      (is_genesis r.body ≡ false) × (r.prev ≡ some (crypto.compute_cid q)) × (r.spec ≡ q.spec)

  -- Drift cites earlier shards.
  abbrev pub EvidenceHolds : List OspRecord → Body → Type 0
  EvidenceHolds p (drift _ evidence _) = All (λ c. earlier_shard p c ≡ true) evidence
  EvidenceHolds p _ = Unit

  -- A tombstone names an earlier record, and a blob of that record or one erased before.
  abbrev pub ErasureHolds : List OspRecord → Body → Type 0
  ErasureHolds p (tombstone target blob _ _) =
      (refs : List Text) × (blobs_at p target ≡ some refs)
      × ((includes refs blob ≡ true) ⊎ (erased p blob ≡ true))
  ErasureHolds p _ = Unit

  module _ (door_keys : Option DoorKeys) where
    -- The record passes `verifyRecord` under the soul key of the first record.
    abbrev pub SignatureHolds : List OspRecord → OspRecord → Type 0
    SignatureHolds p r =
        (key : Bytes) × (soul_key (r ∷ p) ≡ some key)
        × (verify_record crypto r key door_keys (some (crypto.compute_cid r))
            ≡ returned (r, crypto.compute_cid r))

    -- The record may extend the chain.
    pub record Extends (p : List OspRecord) (r : OspRecord) : Type 0 where
      pub schema : issues r ≡ []
      pub numbered : r.seq ≡ length p
      pub follows : Follows p r
      pub evidence : EvidenceHolds p r.body
      pub erasure : ErasureHolds p r.body
      pub presence : PresenceHolds p r.body
      pub signed : SignatureHolds p r

    -- The records, first to last, extend the earlier ones one by one.
    abbrev pub IsChainFrom : List OspRecord → List OspRecord → Type 0
    IsChainFrom p [] = Unit
    IsChainFrom p (r ∷ rs) = Extends p r × IsChainFrom (r ∷ p) rs

    abbrev pub IsChain : List OspRecord → Type 0
    IsChain = IsChainFrom []
