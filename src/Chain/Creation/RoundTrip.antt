-- ===== src/Chain/Creation/RoundTrip.antt =====
-- record.ts: `verifyRecord` accepts what `createRecord` makes.
use npc_of_the_internet.Shared.{
  ℕ, ◌+◌, ◌≡◌, refl, sym, ap, subst, ◌∙◌, ◌⊎◌, inl, inr, Option, none, some, List, [], ◌∷◌, true,
  Text, length, All, get, ltb, ◌==◌, ==_self, nat_eq, text_eq, Bool-cases, arith,
}
use npc_of_the_internet.Base64Url.{Bytes, ok, err, Decoded, encode_signature, decode_signature}
use npc_of_the_internet.Base64Url.RoundTrip.{IsByte, decode_signature-encode_signature}
use npc_of_the_internet.Canonical.{text_ltb}
use npc_of_the_internet.Chain.Record.{OspRecord, Crypto}
use npc_of_the_internet.Chain.Residency.{ResidencyParts, parse_residency}
use npc_of_the_internet.Chain.Schema.{shaped, safe_parse, issues}
use npc_of_the_internet.Chain.Signed.{
  Thrown, returned, threw, ◌>>=◌, or_throw, decoded, RecordError, schema_error, DoorKeys,
  check_cosigners, verify_cosigners, check_cid, verify_record,
}
use npc_of_the_internet.Chain.Creation.{
  CreateRecordInput, insert_text, sorted, core_fields, soul_fields, with_signature, sign_core,
  create_record,
}

-- A private and a public key belong together: signatures are 64 bytes, and verify.
pub record IsKeyPair (crypto : Crypto) (sign : Bytes → Bytes → Bytes)
    (private_key public_key : Bytes) : Type 0 where
  pub bytes : (message : Bytes) → All IsByte (sign message private_key)
  pub verifies :
      (message : Bytes) → crypto.verify message (sign message private_key) public_key ≡ true

All-insert_text :
    (P : Text → Type 0) (s : Text) (xs : List Text) → P s → All P xs → All P (insert_text s xs)
unfolding insert_text
All-insert_text P s [] p h = (p, tt)
All-insert_text P s (t ∷ xs) p (q, h) = elim (Bool-cases (text_ltb t s)) [
  | inl below ↦ rw below (q, All-insert_text P s xs p h)
  | inr above ↦ rw above (p, (q, h))
]

All-sorted : (P : Text → Type 0) (xs : List Text) → All P xs → All P (sorted xs)
unfolding sorted
All-sorted P [] h = tt
All-sorted P (s ∷ xs) (p, h) = All-insert_text P s (sorted xs) p (All-sorted P xs h)

bind_returned :
    {A B : Type 0} (m : Thrown A) (f : A → Thrown B) (b : B)
    → (m >>= f) ≡ returned b
    → (a : A) × (m ≡ returned a) × (f a ≡ returned b)
bind_returned (returned a) f b h = (a, refl, h)
bind_returned (threw e) f b h = absurd (cc h)

module _ (crypto : Crypto) (sign : Bytes → Bytes → Bytes) where
  -- An encoded signature is decoded and verified.
  signed_decodes :
      (message private_key public_key : Bytes) (encoded : Text)
      → IsKeyPair crypto sign private_key public_key
      → decoded (encode_signature (sign message private_key)) ≡ returned encoded
      → decode_signature encoded ≡ ok (sign message private_key)
  signed_decodes message private_key public_key encoded pair h =
      decode_signature-encode_signature (sign message private_key) encoded (pair.bytes message)
        (returned_ok (encode_signature (sign message private_key)) h)
    where
      returned_ok : (d : Decoded Text) → decoded d ≡ returned encoded → d ≡ ok encoded
      returned_ok (ok t) k = cc k
      returned_ok (err e) k = absurd (cc k)

  check_cosigners_signed :
      (core private_key public_key : Bytes) (index : ℕ) (cosigners : List Text)
      → IsKeyPair crypto sign private_key public_key
      → All (λ c. decoded (encode_signature (sign core private_key)) ≡ returned c) cosigners
      → check_cosigners crypto core public_key index cosigners ≡ returned tt
  unfolding check_cosigners
  check_cosigners_signed core private_key public_key index [] pair h = refl
  check_cosigners_signed core private_key public_key index (c ∷ cosigners) pair (k, h) =
      rw
        (
          signed_decodes core private_key public_key c pair k,
          pair.verifies core,
          check_cosigners_signed core private_key public_key (index + 1) cosigners pair h,
        )
        refl

  -- The cosignatures of a record are a Door's, whose key the verifier has for the record's residency.
  pub record IsCosignedBy (input : CreateRecordInput) (keys : DoorKeys) : Type 0 where
    pub residency : Text
    pub stays : input.residency ≡ some residency
    pub parts : ResidencyParts
    pub parsed : parse_residency residency ≡ some parts
    pub door_private_key : Bytes
    pub door_public_key : Bytes
    pub known : get parts.door_id keys ≡ some door_public_key
    pub pair : IsKeyPair crypto sign door_private_key door_public_key
    pub signed :
        All (λ c. sign_core crypto sign input door_private_key ≡ returned c) input.cosigners

  sorted-nil : sorted [] ≡ []
  unfolding sorted
  sorted-nil = refl

  some_keys :
      (door_id : Text) (keys : DoorKeys) (key : Bytes)
      → get door_id keys ≡ some key
      → ltb 0 (length keys) ≡ true
  some_keys door_id [] key h = absurd (cc h)
  some_keys door_id (_ ∷ keys) key h = ground arith

  cosigners_verified :
      (input : CreateRecordInput) (sig : Text) (keys : DoorKeys)
      → (input.cosigners ≡ []) ⊎ IsCosignedBy input keys
      → verify_cosigners crypto (with_signature input sig) (some keys) ≡ returned tt
  unfolding verify_cosigners sign_core
  cosigners_verified input sig keys (inl none_signed) = rw (ap sorted none_signed ∙ sorted-nil) refl
  cosigners_verified input sig keys (inr by) =
      elim (Bool-cases (ltb 0 (length (sorted input.cosigners)))) [
        | inr nobody ↦ rw nobody refl
        | inl someone ↦
            rw
              (
                someone,
                some_keys by.parts.door_id keys by.door_public_key by.known,
                by.stays,
                by.parsed,
                by.known,
              )
              (subst
                (λ o.
                  check_cosigners crypto
                    (crypto.core_bytes (record (core_fields input) { residency = o }))
                    by.door_public_key 0 (sorted input.cosigners)
                  ≡ returned tt)
                by.stays
                (check_cosigners_signed (crypto.core_bytes (core_fields input)) by.door_private_key
                  by.door_public_key 0 (sorted input.cosigners) by.pair
                  (All-sorted (λ c. sign_core crypto sign input by.door_private_key ≡ returned c)
                    input.cosigners by.signed)))
      ]

  safe_parse_same : (r s : OspRecord) → safe_parse (shaped r) ≡ some s → r ≡ s
  unfolding safe_parse
  safe_parse_same r s h = elim (Bool-cases (length (issues r) == 0)) [
    | inl valid ↦ cc (rw valid at h)
    | inr broken ↦ absurd (cc (rw broken at h))
  ]

  or_throw-some :
      {A : Type 0} (o : Option A) (e : RecordError) (a : A) → or_throw o e ≡ returned a → o ≡ some a
  or_throw-some none e a h = absurd (cc h)
  or_throw-some (some b) e a h = cc h

  -- The record that is signed passes if it parses.
  signed_record_verified :
      (input : CreateRecordInput) (sig : Text) (soul_public_key : Bytes) (keys : DoorKeys)
      → IsKeyPair crypto sign input.soul_private_key soul_public_key
      → (input.cosigners ≡ []) ⊎ IsCosignedBy input keys
      → decoded
          (encode_signature (sign (crypto.soul_bytes (soul_fields input)) input.soul_private_key))
        ≡ returned sig
      → safe_parse (shaped (with_signature input sig)) ≡ some (with_signature input sig)
      → verify_record crypto
          (with_signature input sig)
          soul_public_key
          (some keys)
          (some (crypto.compute_cid (with_signature input sig)))
        ≡ returned (with_signature input sig, crypto.compute_cid (with_signature input sig))
  unfolding verify_record check_cid
  signed_record_verified input sig soul_public_key keys pair cosigned signed parsed =
      let message = crypto.soul_bytes (soul_fields input) in
      rw
        (
          parsed,
          cosigners_verified input sig keys cosigned,
          signed_decodes message input.soul_private_key soul_public_key sig pair signed,
          pair.verifies message,
          ==_self (crypto.compute_cid (with_signature input sig)),
        )
        refl

  -- Whatever `createRecord` returns, its record and its CID, passes `verifyRecord` with the soul's
  -- public key and that CID: cosignatures, if there are any, must be a Door's over the record's core,
  -- and the verifier must have that Door's key.
  pub verify_record-create_record :
      (input : CreateRecordInput) (r : OspRecord) (cid : Text) (soul_public_key : Bytes)
      (keys : DoorKeys)
      → IsKeyPair crypto sign input.soul_private_key soul_public_key
      → (input.cosigners ≡ []) ⊎ IsCosignedBy input keys
      → create_record crypto sign input ≡ returned (r, cid)
      → verify_record crypto r soul_public_key (some keys) (some cid) ≡ returned (r, cid)
  unfolding create_record
  verify_record-create_record input r cid soul_public_key keys pair cosigned h =
      let message = crypto.soul_bytes (soul_fields input) in
      let (sig, signed, h1) =
        bind_returned (decoded (encode_signature (sign message input.soul_private_key))) _ (r, cid)
          h in
      let (s, parsed, h2) =
        bind_returned (or_throw (safe_parse (shaped (with_signature input sig))) schema_error) _
          (r, cid) h1 in
      let parses =
        or_throw-some (safe_parse (shaped (with_signature input sig))) schema_error s parsed in
      let same = safe_parse_same (with_signature input sig) s parses in
      subst (λ p. verify_record crypto p.0 soul_public_key (some keys) (some p.1) ≡ returned p)
        (ap (λ t. (t, crypto.compute_cid t)) same
          ∙ returned_same (s, crypto.compute_cid s) (r, cid) h2)
        (signed_record_verified input sig soul_public_key keys pair cosigned signed
          (parses ∙ ap (λ t. some t) (sym same)))
    where
      returned_same : (p q : OspRecord × Text) → returned p ≡ returned q → p ≡ q
      returned_same p q k = cc k
