-- ===== src/Chain/Verifier/Rules.antt =====
-- Each check of verify-chain.ts finds no failure exactly where its rule holds, after a valid prefix.
use npc_of_the_internet.Shared.{
  ◌+◌, ◌≡◌, refl, inl, inr, none, some, List, [], ◌∷◌, true, false, Text, All, length, includes,
  nat_eq, text_eq, arith, option_beq_iff, Bool-cases,
}
use npc_of_the_internet.Chain.Record.{Spec, v01, v02, Body, drift, tombstone, OspRecord, Crypto}
use npc_of_the_internet.Chain.Schema.{is_genesis}
use npc_of_the_internet.Chain.Checks.{
  ChainVerifier, spec_failures, spec_beq, duplicate_failures, collect_genesis_failures, is_null,
  seq_failures, link_failures, prev_is, evidence_failures, drift_failures, tombstone_failures,
}
use npc_of_the_internet.Chain.History.{EvidenceHolds, ErasureHolds, earlier_shard}
use npc_of_the_internet.Chain.Verifier.Tracking.{Tracks}

spec_beq_iff : (a b : Spec) → spec_beq a b ≡ true → a ≡ b
unfolding spec_beq
spec_beq_iff v01 v01 h = refl
spec_beq_iff v02 v02 h = refl
spec_beq_iff v01 v02 h = cc
spec_beq_iff v02 v01 h = cc

spec_beq_self : (a : Spec) → spec_beq a a ≡ true
unfolding spec_beq
spec_beq_self v01 = refl
spec_beq_self v02 = refl

module _ (crypto : Crypto) (q : OspRecord) (p : List OspRecord) (v : ChainVerifier)
    (r : OspRecord) where
  pub spec_sound : Tracks crypto (q ∷ p) v → spec_failures v r ≡ [] → r.spec ≡ q.spec
  unfolding spec_failures
  spec_sound t h = ground (arith, spec_beq_iff r.spec q.spec)

  pub spec_complete : Tracks crypto (q ∷ p) v → r.spec ≡ q.spec → spec_failures v r ≡ []
  unfolding spec_failures
  spec_complete t h = ground (arith, spec_beq_self q.spec)

  pub seq_sound :
      Tracks crypto (q ∷ p) v → seq_failures v r (crypto.compute_cid r) ≡ [] → r.seq ≡ q.seq + 1
  unfolding seq_failures
  seq_sound t h = ground arith

  pub seq_complete :
      Tracks crypto (q ∷ p) v → r.seq ≡ q.seq + 1 → seq_failures v r (crypto.compute_cid r) ≡ []
  unfolding seq_failures
  seq_complete t h = ground arith

  pub link_sound :
      Tracks crypto (q ∷ p) v
      → link_failures v r (crypto.compute_cid r) ≡ []
      → r.prev ≡ some (crypto.compute_cid q)
  unfolding link_failures prev_is
  link_sound t h = ground (arith, option_beq_iff r.prev (some (crypto.compute_cid q)))

  pub link_complete :
      Tracks crypto (q ∷ p) v
      → r.prev ≡ some (crypto.compute_cid q)
      → link_failures v r (crypto.compute_cid r) ≡ []
  unfolding link_failures prev_is
  link_complete t h = ground (arith, option_beq_iff r.prev (some (crypto.compute_cid q)))

module _ (crypto : Crypto) (v : ChainVerifier) (r : OspRecord) where
  pub first_rules :
      Tracks crypto [] v
      → (spec_failures v r ≡ [])
        × (seq_failures v r (crypto.compute_cid r) ≡ [])
        × (link_failures v r (crypto.compute_cid r) ≡ [])
  unfolding spec_failures seq_failures link_failures
  first_rules t = (ground arith, ground arith, ground arith)

  pub genesis_sound :
      collect_genesis_failures r true ≡ []
      → (is_genesis r.body ≡ true) × (r.seq ≡ 0) × (r.prev ≡ none) × (r.residency ≡ none)
  unfolding collect_genesis_failures is_null
  genesis_sound h = (ground arith, ground arith, ground arith, ground arith)

  pub later_sound : collect_genesis_failures r false ≡ [] → is_genesis r.body ≡ false
  unfolding collect_genesis_failures
  later_sound h = ground arith

  pub later_complete : is_genesis r.body ≡ false → collect_genesis_failures r false ≡ []
  unfolding collect_genesis_failures
  later_complete h = ground arith

  pub duplicate_complete :
      (p : List OspRecord)
      → Tracks crypto p v
      → r.seq ≡ length p
      → duplicate_failures v r (crypto.compute_cid r) ≡ []
  unfolding duplicate_failures
  duplicate_complete p t h = elim (Bool-cases (includes v.seen_seq r.seq)) [
    | inl old ↦ absurd (omega (arith, t.seen r.seq old))
    | inr new ↦ rw new
  ]

module _ (crypto : Crypto) (p : List OspRecord) (v : ChainVerifier) (r : OspRecord)
    (t : Tracks crypto p v) where
  evidence_failures_sound :
      (es : List Text)
      → evidence_failures v.shard_cids r (crypto.compute_cid r) es ≡ []
      → All (λ c. earlier_shard crypto p c ≡ true) es
  unfolding evidence_failures
  evidence_failures_sound [] h = tt
  evidence_failures_sound (e ∷ es) h = elim (Bool-cases (includes v.shard_cids e)) [
    | inl here ↦ (rw (t.shards e) at here, evidence_failures_sound es (rw here at h))
    | inr missing ↦ absurd (cc (rw missing at h))
  ]

  evidence_failures_complete :
      (es : List Text)
      → All (λ c. earlier_shard crypto p c ≡ true) es
      → evidence_failures v.shard_cids r (crypto.compute_cid r) es ≡ []
  unfolding evidence_failures
  evidence_failures_complete [] h = refl
  evidence_failures_complete (e ∷ es) (here, h) =
      rw (t.shards e) (rw here (evidence_failures_complete es h))

  pub drift_sound :
      (b : Body) → drift_failures v r (crypto.compute_cid r) b ≡ [] → EvidenceHolds crypto p b
  unfolding drift_failures
  drift_sound (drift _ es _) h = evidence_failures_sound es h
  drift_sound _ h = tt

  pub drift_complete :
      (b : Body) → EvidenceHolds crypto p b → drift_failures v r (crypto.compute_cid r) b ≡ []
  unfolding drift_failures
  drift_complete (drift _ es _) h = evidence_failures_complete es h
  drift_complete _ h = refl

  pub tombstone_sound :
      (b : Body) → tombstone_failures v r (crypto.compute_cid r) b ≡ [] → ErasureHolds crypto p b
  unfolding tombstone_failures
  tombstone_sound (tombstone target blob _ _) h = ground (arith, t.refs target, t.blobs blob)
  tombstone_sound _ h = tt

  pub tombstone_complete :
      (b : Body) → ErasureHolds crypto p b → tombstone_failures v r (crypto.compute_cid r) b ≡ []
  unfolding tombstone_failures
  tombstone_complete (tombstone target blob _ _) h = ground (arith, t.refs target, t.blobs blob)
  tombstone_complete _ h = refl
