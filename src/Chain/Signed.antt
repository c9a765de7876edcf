-- ===== src/Chain/Signed.antt =====
-- osp-core/src/record.ts: `verifyRecord`.
use npc_of_the_internet.Shared.{
  ℕ, ◌+◌, Option, none, some, List, [], ◌∷◌, Bool, true, false, Text, length, get, ltb, ◌==◌,
  nat_eq, text_eq, if◌then◌else◌,
}
use npc_of_the_internet.Base64Url.{Bytes, EncodingError, Decoded, ok, err, decode_signature}
use npc_of_the_internet.Chain.Record.{OspRecord, Crypto, core_payload, soul_payload}
use npc_of_the_internet.Chain.Residency.{parse_residency}
use npc_of_the_internet.Chain.Schema.{shaped, safe_parse}

-- The errors that `verifyRecord` throws; a `VerificationError` by its message.
pub data RecordError : Type 0 where
  schema_error : RecordError
  encoding_error : EncodingError → RecordError
  soul_signature door_keys_required null_residency residency_format : RecordError
  no_door_key : Text → RecordError
  cosigner_signature : ℕ → RecordError
  cid_mismatch : (expected computed : Text) → RecordError

-- A result, or a thrown error.
pub data Thrown (A : Type 0) : Type 0 where
  returned : A → Thrown A
  threw : RecordError → Thrown A

infixl 5 ◌>>=◌ ◌>>◌
abbrev pub ◌>>=◌ : {A B : Type 0} → Thrown A → (A → Thrown B) → Thrown B
returned a >>= f = f a
threw e >>= f = threw e

abbrev pub ◌>>◌ : {B : Type 0} → Thrown (Unit {0}) → Thrown B → Thrown B
m >> k = m >>= λ _. k

abbrev pub guard : Bool → RecordError → Thrown (Unit {0})
guard true e = returned tt
guard false e = threw e

abbrev pub decoded : {A : Type 0} → Decoded A → Thrown A
decoded (ok a) = returned a
decoded (err e) = threw (encoding_error e)

abbrev pub or_throw : {A : Type 0} → Option A → RecordError → Thrown A
or_throw (some a) e = returned a
or_throw none e = threw e

-- Door id to public key
abbrev pub DoorKeys : Type 0
DoorKeys = List (Text × Bytes)

module _ (crypto : Crypto) where
  unfoldable pub check_cosigners : Bytes → Bytes → ℕ → List Text → Thrown (Unit {0})
  check_cosigners core door_key index [] = returned tt
  check_cosigners core door_key index (cosigner ∷ rest) = do
    let later = check_cosigners core door_key (index + 1) rest
    signature ← decoded (decode_signature cosigner)
    guard (crypto.verify core signature door_key) (cosigner_signature index)
    later

  unfoldable pub verify_cosigners : OspRecord → Option DoorKeys → Thrown (Unit {0})
  unfolding check_cosigners
  verify_cosigners r door_keys =
      if ltb 0 (length r.cosigners)
      then (do
        keys ← or_throw door_keys door_keys_required
        guard (ltb 0 (length keys)) door_keys_required
        residency ← or_throw r.residency null_residency
        parts ← or_throw (parse_residency residency) residency_format
        door_key ← or_throw (get parts.door_id keys) (no_door_key parts.door_id)
        check_cosigners (crypto.core_bytes (core_payload r)) door_key 0 r.cosigners)
      else returned tt

  unfoldable pub check_cid : Option Text → Text → Thrown (Unit {0})
  check_cid none cid = returned tt
  check_cid (some expected) cid = guard (expected == cid) (cid_mismatch expected cid)

  unfoldable pub verify_record :
      OspRecord → Bytes → Option DoorKeys → Option Text → Thrown (OspRecord × Text)
  unfolding verify_cosigners check_cid
  verify_record input soul_public_key door_keys expected_cid = do
    r ← or_throw (safe_parse (shaped input)) schema_error
    verify_cosigners r door_keys
    soul_sig ← decoded (decode_signature r.sig)
    guard (crypto.verify (crypto.soul_bytes (soul_payload r)) soul_sig soul_public_key)
        soul_signature
    check_cid expected_cid (crypto.compute_cid r)
    returned (r, crypto.compute_cid r)
