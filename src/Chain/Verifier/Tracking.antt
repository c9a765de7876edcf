-- ===== src/Chain/Verifier/Tracking.antt =====
-- The state of the verifier after a valid prefix is a summary of the prefix.
use npc_of_the_internet.Shared.{
  ℕ, ◌<◌, ◌≡◌, refl, Option, none, some, List, [], ◌∷◌, true, Text, length, get, includes, nat_eq,
  text_eq,
}
use npc_of_the_internet.Chain.Record.{OspRecord, Crypto}
use npc_of_the_internet.Chain.Signed.{DoorKeys}
use npc_of_the_internet.Chain.Presence.{PresenceState}
use npc_of_the_internet.Chain.Checks.{HeadInfo, ChainVerifier, fresh}
use npc_of_the_internet.Chain.History.{
  last_seq, last_spec, soul_key, erased, door_of, open_session, last_cid, earlier_shard, blobs_at,
  Extends,
}

abbrev pub last_head : Crypto → List OspRecord → Option HeadInfo
last_head crypto [] = none
last_head crypto (q ∷ p) = some (record { cid = crypto.compute_cid q; seq = q.seq })

module _ (crypto : Crypto) (door_keys : Option DoorKeys) where
  -- A chain, the latest record first.
  abbrev pub History : List OspRecord → Type 0
  History [] = Unit
  History (r ∷ p) = Extends crypto door_keys p r × History p

pub record TracksPresence (p : List OspRecord) (s : PresenceState) : Type 0 where
  pub doors : (e : ℕ) → get e s.epoch_doors ≡ door_of p e
  pub sessions : (e : ℕ) → get e s.active_sessions ≡ open_session p e

pub record Tracks (crypto : Crypto) (p : List OspRecord) (v : ChainVerifier) : Type 0 where
  pub index : v.index ≡ length p
  pub seq : v.previous_seq ≡ last_seq p
  pub cid : v.previous_cid ≡ last_cid crypto p
  pub spec : v.chain_spec ≡ last_spec p
  pub key : v.soul_public_key ≡ soul_key p
  pub head : v.last_head ≡ last_head crypto p
  pub seen : (n : ℕ) → includes v.seen_seq n ≡ true → n < length p
  pub shards : (c : Text) → includes v.shard_cids c ≡ earlier_shard crypto p c
  pub refs : (c : Text) → get c v.record_blob_refs ≡ blobs_at crypto p c
  pub blobs : (b : Text) → includes v.tombstoned_blobs b ≡ erased p b
  pub presence : TracksPresence p v.presence_state

pub Tracks-fresh : (crypto : Crypto) → Tracks crypto [] fresh
Tracks-fresh crypto = record {
  index = refl;
  seq = refl;
  cid = refl;
  spec = refl;
  key = refl;
  head = refl;
  seen = λ n h. absurd (cc);
  shards = λ c. refl;
  refs = λ c. refl;
  blobs = λ b. refl;
  presence = record { doors = λ e. refl; sessions = λ e. refl };
}
