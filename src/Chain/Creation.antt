-- ===== src/Chain/Creation.antt =====
-- osp-core/src/record.ts: `signCore` and `createRecord`.
pub mod RoundTrip
mod Tests
use npc_of_the_internet.Shared.{
  ℕ, Option, none, some, List, [], ◌∷◌, Bool, true, false, Text, if◌then◌else◌,
}
use npc_of_the_internet.Base64Url.{Bytes, encode_signature}
use npc_of_the_internet.Canonical.{text_ltb}
use npc_of_the_internet.Chain.Record.{Spec, v01, Body, OspRecord, CoreFields, SoulFields, Crypto}
use npc_of_the_internet.Chain.Schema.{shaped, safe_parse}
use npc_of_the_internet.Chain.Signed.{Thrown, returned, ◌>>=◌, or_throw, decoded, schema_error}

pub record CreateRecordInput : Type 0 where
  pub spec : Option Spec
  pub seq : ℕ
  pub prev : Option Text
  pub body : Body
  pub residency : Option Text
  pub cosigners : List Text
  pub soul_private_key : Bytes

-- `input.spec ?? OSP_SPEC`
abbrev pub spec_of : Option Spec → Spec
spec_of none = v01
spec_of (some spec) = spec

unfoldable pub insert_text : Text → List Text → List Text
insert_text s [] = s ∷ []
insert_text s (t ∷ rest) =
    let later = insert_text s rest in if text_ltb t s then t ∷ later else s ∷ t ∷ rest

-- `[...cosigners].sort()`, by code units
unfoldable pub sorted : List Text → List Text
unfolding insert_text
sorted [] = []
sorted (s ∷ rest) = insert_text s (sorted rest)

abbrev pub core_fields : CreateRecordInput → CoreFields
core_fields input = record {
  spec = spec_of input.spec;
  seq = input.seq;
  prev = input.prev;
  residency = input.residency;
  body = input.body;
}

-- The payload that the soul key signs, with the cosigners sorted.
abbrev pub soul_fields : CreateRecordInput → SoulFields
soul_fields input = record {
  spec = spec_of input.spec;
  seq = input.seq;
  prev = input.prev;
  residency = input.residency;
  cosigners = sorted input.cosigners;
  body = input.body;
}

abbrev pub with_signature : CreateRecordInput → Text → OspRecord
with_signature input sig = record {
  spec = spec_of input.spec;
  seq = input.seq;
  prev = input.prev;
  residency = input.residency;
  cosigners = sorted input.cosigners;
  sig = sig;
  body = input.body;
}

-- `sign(message, privateKey)` is Ed25519 of a package outside the repository.
module _ (crypto : Crypto) (sign : Bytes → Bytes → Bytes) where
  pub sign_core : CreateRecordInput → (door_private_key : Bytes) → Thrown Text
  sign_core input door_private_key =
      decoded (encode_signature (sign (crypto.core_bytes (core_fields input)) door_private_key))

  unfoldable pub create_record : CreateRecordInput → Thrown (OspRecord × Text)
  create_record input = do
    sig ←
        decoded
          (encode_signature (sign (crypto.soul_bytes (soul_fields input)) input.soul_private_key))
    r ← or_throw (safe_parse (shaped (with_signature input sig))) schema_error
    returned (r, crypto.compute_cid r)
