-- ===== src/Chain/Verifier/Admission.antt =====
-- `commit` of verify-chain.ts: admitting a record that extends the chain keeps the state a summary.
use npc_of_the_internet.Shared.{
  ℕ, suc, ◌<◌, ◌≡◌, refl, Option, some, List, [], ◌∷◌, true, Text, length, get-put, includes,
  includes-add, nat_eq, text_eq, arith, ==_iff,
}
use npc_of_the_internet.Chain.Record.{Body, genesis, tombstone, OspRecord, Crypto}
use npc_of_the_internet.Chain.Signed.{DoorKeys}
use npc_of_the_internet.Chain.Checks.{
  ChainVerifier, next_soul_key, key_of_genesis, is_shard, prose_blob_refs,
}
use npc_of_the_internet.Chain.History.{
  shard_body, blobs_of, soul_key_of, soul_key, erased, Follows, Extends,
}
use npc_of_the_internet.Chain.Verifier.{admit}
use npc_of_the_internet.Chain.Verifier.Tracking.{History, Tracks}
use npc_of_the_internet.Chain.Verifier.Sessions.{presence-tracked}

is_shard-shard_body : (b : Body) → is_shard b ≡ shard_body b
unfolding is_shard
is_shard-shard_body b = ground arith

prose_blob_refs-blobs_of : (b : Body) → prose_blob_refs b ≡ blobs_of b
unfolding prose_blob_refs
prose_blob_refs-blobs_of b = ground arith

key_of_genesis-soul_key_of : (b : Body) → key_of_genesis b ≡ soul_key_of b
unfolding key_of_genesis
key_of_genesis-soul_key_of (genesis g) = refl
key_of_genesis-soul_key_of _ = refl

module _ (crypto : Crypto) (door_keys : Option DoorKeys) (v : ChainVerifier) (r : OspRecord) where
  -- The key that signatures are checked with is that of the first record.
  pub next_soul_key-soul_key :
      (p : List OspRecord)
      → Tracks crypto p v
      → r.seq ≡ length p
      → Follows crypto p r
      → next_soul_key v r ≡ soul_key (r ∷ p)
  unfolding next_soul_key
  next_soul_key-soul_key [] t n f = ground (arith, key_of_genesis-soul_key_of r.body)
  next_soul_key-soul_key (q ∷ p) t n f = ground arith

  spec_after :
      (p : List OspRecord)
      → Tracks crypto p v
      → Extends crypto door_keys p r
      → (admit v r (crypto.compute_cid r) v).chain_spec ≡ some r.spec
  unfolding admit
  spec_after [] t x = ground arith
  spec_after (q ∷ p) t x = ground arith

  key_after :
      (p : List OspRecord)
      → Tracks crypto p v
      → Extends crypto door_keys p r
      → (admit v r (crypto.compute_cid r) v).soul_public_key ≡ soul_key (r ∷ p)
  unfolding admit
  key_after [] t x = ground (arith, next_soul_key-soul_key [] t x.numbered x.follows)
  key_after (q ∷ p) t x = ground arith

  seen_after :
      (p : List OspRecord)
      → Tracks crypto p v
      → Extends crypto door_keys p r
      → (n : ℕ) → includes (admit v r (crypto.compute_cid r) v).seen_seq n ≡ true
      → n < suc (length p)
  unfolding admit
  seen_after p t x n h =
      ground (arith, includes-add r.seq v.seen_seq n, t.seen n, t.seen r.seq, ==_iff r.seq n)

  blobs_after :
      (p : List OspRecord)
      → Tracks crypto p v
      → (b : Body) (blob : Text) → r.body ≡ b
      → includes (admit v r (crypto.compute_cid r) v).tombstoned_blobs blob ≡ erased (r ∷ p) blob
  unfolding admit
  blobs_after p t (tombstone target b _ _) blob eb =
      ground (arith, t.blobs blob, includes-add b v.tombstoned_blobs blob)
  blobs_after p t _ blob eb = ground (arith, t.blobs blob)

  pub admit-Tracks :
      (p : List OspRecord)
      → History crypto door_keys p
      → Tracks crypto p v
      → Extends crypto door_keys p r
      → Tracks crypto (r ∷ p) (admit v r (crypto.compute_cid r) v)
  unfolding admit
  admit-Tracks p valid t x = record {
    index = ground arith;
    seq = refl;
    cid = refl;
    spec = spec_after p t x;
    key = key_after p t x;
    head = refl;
    seen = seen_after p t x;
    shards = λ c. ground (
      arith,
      t.shards c,
      is_shard-shard_body r.body,
      includes-add (crypto.compute_cid r) v.shard_cids c,
    );
    refs = λ c. ground (
      arith,
      t.refs c,
      prose_blob_refs-blobs_of r.body,
      get-put (crypto.compute_cid r) c (prose_blob_refs r.body) v.record_blob_refs,
    );
    blobs = λ b. blobs_after p t r.body b refl;
    presence =
        presence-tracked crypto door_keys p v.presence_state valid t.presence r
          (crypto.compute_cid r) x.presence;
  }
