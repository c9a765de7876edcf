-- ===== src/Chain/Verifier/Rejection.antt =====
-- verify-chain.ts, `appendRejectionError`: what the failures of each check make of an append's error.
pub mod Mismatch
use npc_of_the_internet.Shared.{
  ℕ, ◌≡◌, refl, sym, ap, subst, ◌∙◌, inl, inr, Option, none, some, List, [], ◌∷◌, ◌++◌, Bool, true,
  false, not, ◌&&◌, Text, All, length, get, includes, ◌==◌, nat_eq, text_eq, arith, Bool-cases,
}
use mathlib.Core.List.{append_assoc}
use npc_of_the_internet.Base64Url.{Bytes}
use npc_of_the_internet.Chain.Record.{
  AttestationBody, arrival, heartbeat, departure, travel, handover, Body, drift, tombstone,
  attestation, OspRecord, Crypto,
}
use npc_of_the_internet.Chain.Schema.{is_genesis}
use npc_of_the_internet.Chain.Signed.{RecordError, Thrown, returned, threw, DoorKeys, verify_record}
use npc_of_the_internet.Chain.Presence.{
  ChainFailure, ActiveSession, PresenceState, evaluate_presence, evaluate_body,
  evaluate_attestation, evaluate_arrival, evaluate_heartbeat, evaluate_departure, door_conflict,
}
use npc_of_the_internet.Chain.Checks.{
  ChainVerifier, spec_failures, duplicate_failures, collect_genesis_failures, genesis_key,
  seq_failures, link_failures, evidence_failures, drift_failures, tombstone_failures,
}
use npc_of_the_internet.Chain.Verifier.{
  Signatures, requires_cosigner, caught, mapped, map_verify_record_error, check_signatures,
  AppendError, chain_mismatch_error, verification_error, error_of, append_rejection_error,
}

-- All failures of the list make a chain mismatch, or none does.
abbrev pub Mismatched : List ChainFailure → Type 0
Mismatched fs = All (λ f. error_of f.rule ≡ chain_mismatch_error) fs

abbrev pub Unmatched : List ChainFailure → Type 0
Unmatched fs = All (λ f. error_of f.rule ≡ verification_error) fs

pub Unmatched-both :
    (xs ys : List ChainFailure) → Unmatched xs → Unmatched ys → Unmatched (xs ++ ys)
Unmatched-both [] ys h k = k
Unmatched-both (x ∷ xs) ys (p, h) k = (p, Unmatched-both xs ys h k)

pub Mismatched-both :
    (xs ys : List ChainFailure) → Mismatched xs → Mismatched ys → Mismatched (xs ++ ys)
Mismatched-both [] ys h k = k
Mismatched-both (x ∷ xs) ys (p, h) k = (p, Mismatched-both xs ys h k)

-- The first failure decides.
pub Mismatched-append :
    (xs ys : List ChainFailure)
    → Mismatched xs
    → (xs ≡ [] → ⊥)
    → append_rejection_error (xs ++ ys) ≡ chain_mismatch_error
unfolding append_rejection_error
Mismatched-append [] ys h some_failure = absurd (some_failure refl)
Mismatched-append (x ∷ xs) ys (p, h) some_failure = p

pub Unmatched-error :
    (xs : List ChainFailure) → Unmatched xs → append_rejection_error xs ≡ verification_error
unfolding append_rejection_error
Unmatched-error [] h = refl
Unmatched-error (x ∷ xs) (p, h) = p

pub Unmatched-append :
    (xs ys : List ChainFailure)
    → Unmatched xs
    → (xs ≡ [] → ⊥)
    → append_rejection_error (xs ++ ys) ≡ verification_error
unfolding append_rejection_error
Unmatched-append [] ys h some_failure = absurd (some_failure refl)
Unmatched-append (x ∷ xs) ys (p, h) some_failure = p

module _ (v : ChainVerifier) (r : OspRecord) (cid : Text) where
  pub spec_failures-Unmatched : Unmatched (spec_failures v r)
  unfolding spec_failures error_of
  spec_failures-Unmatched = ground arith

  pub duplicate_failures-Mismatched : Mismatched (duplicate_failures v r cid)
  unfolding duplicate_failures error_of
  duplicate_failures-Mismatched = ground arith

  pub later_failures-Mismatched : Mismatched (collect_genesis_failures r false)
  unfolding collect_genesis_failures error_of
  later_failures-Mismatched = ground arith

  pub seq_failures-Mismatched : Mismatched (seq_failures v r cid)
  unfolding seq_failures error_of
  seq_failures-Mismatched = ground arith

  pub link_failures-Mismatched : Mismatched (link_failures v r cid)
  unfolding link_failures error_of
  link_failures-Mismatched = ground arith

  evidence_failures-Unmatched :
      (shards es : List Text) → Unmatched (evidence_failures shards r cid es)
  unfolding evidence_failures error_of
  evidence_failures-Unmatched shards [] = tt
  evidence_failures-Unmatched shards (e ∷ es) = elim (Bool-cases (includes shards e)) [
    | inl known ↦ rw known (evidence_failures-Unmatched shards es)
    | inr unknown ↦ rw unknown (refl, evidence_failures-Unmatched shards es)
  ]

  pub drift_failures-Unmatched : (b : Body) → Unmatched (drift_failures v r cid b)
  unfolding drift_failures
  drift_failures-Unmatched (drift _ evidence _) = evidence_failures-Unmatched v.shard_cids evidence
  drift_failures-Unmatched _ = tt

  pub tombstone_failures-Unmatched : (b : Body) → Unmatched (tombstone_failures v r cid b)
  unfolding tombstone_failures error_of
  tombstone_failures-Unmatched (tombstone target blob _ _) = ground arith
  tombstone_failures-Unmatched _ = tt

  door_conflict-Unmatched :
      (recorded : Option Text) (door_id : Text) → Unmatched (door_conflict r cid recorded door_id)
  unfolding door_conflict error_of
  door_conflict-Unmatched none door_id = tt
  door_conflict-Unmatched (some known) door_id = ground arith

  arrival-Unmatched :
      (d : Text) (e : ℕ) (key : Text) (recorded : Option Text) (session : Option ActiveSession)
      → Unmatched (evaluate_arrival r cid d e key recorded session).failures
  unfolding evaluate_arrival error_of
  arrival-Unmatched d e key (some known) session =
      Unmatched-both (door_conflict r cid (some known) d) _ (door_conflict-Unmatched (some known) d)
        (refl, tt)
  arrival-Unmatched d e key none (some session) = (refl, tt)
  arrival-Unmatched d e key none none = tt

  heartbeat-Unmatched :
      (d : Text) (e : ℕ) (key : Text) (recorded : Option Text) (session : Option ActiveSession)
      → Unmatched (evaluate_heartbeat r cid d e key recorded session).failures
  unfolding evaluate_heartbeat error_of
  heartbeat-Unmatched d e key recorded none =
      Unmatched-both (door_conflict r cid recorded d) _ (door_conflict-Unmatched recorded d)
        (refl, tt)
  heartbeat-Unmatched d e key recorded (some session) =
      Unmatched-both (door_conflict r cid recorded d) _ (door_conflict-Unmatched recorded d)
        (ground arith)

  departure-Unmatched :
      (d : Text) (e : ℕ) (recorded : Option Text) (session : Option ActiveSession)
      → Unmatched (evaluate_departure r cid d e recorded session).failures
  unfolding evaluate_departure error_of
  departure-Unmatched d e recorded none =
      Unmatched-both (door_conflict r cid recorded d) _ (door_conflict-Unmatched recorded d)
        (refl, tt)
  departure-Unmatched d e recorded (some session) = door_conflict-Unmatched recorded d

  attestation-Unmatched :
      (a : AttestationBody) (s : PresenceState)
      → Unmatched (evaluate_attestation r cid a s).failures
  unfolding evaluate_attestation
  attestation-Unmatched (arrival d e key _) s = arrival-Unmatched d e key _ _
  attestation-Unmatched (heartbeat d e key _) s = heartbeat-Unmatched d e key _ _
  attestation-Unmatched (departure d e _) s = departure-Unmatched d e _ _
  attestation-Unmatched (travel _ _ _ _) s = tt
  attestation-Unmatched (handover _ _ _ _ _ _ _ _) s = tt

  body-Unmatched : (b : Body) (s : PresenceState) → Unmatched (evaluate_body r cid b s).failures
  unfolding evaluate_body
  body-Unmatched (attestation a) s = attestation-Unmatched a s
  body-Unmatched _ s = tt

  pub presence-Unmatched : (s : PresenceState) → Unmatched (evaluate_presence r cid s).failures
  unfolding evaluate_presence
  presence-Unmatched s = body-Unmatched r.body s

same_signatures : {a b : Signatures} → returned a ≡ returned b → Unmatched a.0 → Unmatched b.0
same_signatures {a} {b} h k = subst (λ s. Unmatched s.0) (injective h) k
  where
    injective : returned a ≡ returned b → a ≡ b
    injective h = cc h

caught-Unmatched :
    (r : OspRecord) (cid : Text) (m : Thrown (OspRecord × Text)) (sig : Signatures)
    → caught r cid m ≡ returned sig
    → Unmatched sig.0
unfolding caught mapped map_verify_record_error error_of
caught-Unmatched r cid (returned x) sig h = same_signatures h tt
caught-Unmatched r cid (threw RecordError.schema_error) sig h = same_signatures h (refl, tt)
caught-Unmatched r cid (threw (RecordError.encoding_error e)) sig h = absurd (cc h)
caught-Unmatched r cid (threw (RecordError.cid_mismatch e c)) sig h = absurd (cc h)
caught-Unmatched r cid (threw _) sig h = same_signatures h (refl, tt)

pub check_signatures-Unmatched :
    (crypto : Crypto) (keys : Option DoorKeys) (r : OspRecord) (cid : Text) (key : Option Bytes)
    (sig : Signatures)
    → check_signatures crypto keys r cid key ≡ returned sig
    → Unmatched sig.0
unfolding check_signatures error_of
check_signatures-Unmatched crypto keys r cid key sig h =
    elim (Bool-cases (requires_cosigner r.body && length r.cosigners == 0)) [
      | inl unsigned ↦ same_signatures (rw unsigned at h) (refl, tt)
      | inr fine ↦ with_key key (rw fine at h)
    ]
  where
    with_key :
        (k : Option Bytes)
        → (elim k [
          | none ↦ returned ([], none)
          | some known ↦ caught r cid (verify_record crypto r known keys (some cid))
        ])
          ≡ returned sig
        → Unmatched sig.0
    with_key none e = same_signatures e tt
    with_key (some known) e =
        caught-Unmatched r cid (verify_record crypto r known keys (some cid)) sig e
