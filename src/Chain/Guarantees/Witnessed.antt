-- ===== src/Chain/Guarantees/Witnessed.antt =====
-- record.ts: what `verifyRecord` has checked of a record of a verified chain.
use npc_of_the_internet.Shared.{
  ℕ, ◌+◌, ◌<◌, ◌≡◌, refl, sym, ap, ◌∙◌, Option, none, some, List, [], ◌∷◌, arith, get_elem?, get,
  text_eq, Text, All, Bool, true, length, ltb, if◌then◌else◌,
}
use npc_of_the_internet.Base64Url.{Bytes, Decoded, ok, err, decode_signature}
use npc_of_the_internet.Chain.Record.{OspRecord, Crypto, core_payload, soul_payload}
use npc_of_the_internet.Chain.Residency.{ResidencyParts, parse_residency}
use npc_of_the_internet.Chain.Schema.{Raw, shaped, issues, needs_cosigners}
use npc_of_the_internet.Chain.Schema.Cosigned.{needs_cosigners-cosigned}
use npc_of_the_internet.Chain.Signed.{
  Thrown, returned, threw, DoorKeys, RecordError, door_keys_required, null_residency,
  residency_format, no_door_key, cosigner_signature, guard, decoded, or_throw, check_cosigners,
  verify_cosigners, verify_record, ◌>>=◌,
}
use npc_of_the_internet.Chain.Checks.{HeadInfo}
use npc_of_the_internet.Chain.History.{soul_key_of}
use npc_of_the_internet.Chain.Verifier.{valid, verify_records}
use npc_of_the_internet.Chain.Verifier.Steps.{returned-injective}
use npc_of_the_internet.Chain.Verifier.Signatures.{safe_parse-shaped}
use npc_of_the_internet.Chain.Guarantees.{verified_at}

-- The text is a signature of the message under the key.
abbrev pub IsSignatureOf : Crypto → Bytes → Bytes → Text → Type 0
IsSignatureOf crypto message key signature =
    (sig : Bytes) × (decode_signature signature ≡ ok sig) × (crypto.verify message sig key ≡ true)

-- Every cosigner is the Door's signature of the core payload, and there is one.
abbrev pub IsCosigned : Crypto → Option DoorKeys → OspRecord → Type 0
IsCosigned crypto keys r =
    (known : DoorKeys) × (residency : Text) × (parts : ResidencyParts) × (door_key : Bytes) × (keys
      ≡ some known)
    × (r.residency ≡ some residency)
    × (parse_residency residency ≡ some parts)
    × (get parts.door_id known ≡ some door_key)
    × (0 < length r.cosigners)
    × All (IsSignatureOf crypto (crypto.core_bytes (core_payload r)) door_key) r.cosigners

bind_returned :
    {A B C : Type 0} (m : Thrown A) (f : A → Thrown B) (b : B)
    → (m >>= f) ≡ returned b
    → ((a : A) → m ≡ returned a → f a ≡ returned b → C)
    → C
bind_returned (returned a) f b h k = k a refl h
bind_returned (threw e) f b h k = absurd (ground arith)

if_true : {A : Type 0} (b : Bool) (x y z : A) → b ≡ true → (if b then x else y) ≡ z → x ≡ z
if_true b x y z e h = rw e at h

guard_returned : (b : Bool) (e : RecordError) (u : Unit {0}) → guard b e ≡ returned u → b ≡ true
guard_returned b e u h = ground arith

or_throw_returned :
    {A : Type 0} (o : Option A) (e : RecordError) (a : A) → or_throw o e ≡ returned a → o ≡ some a
or_throw_returned none e a h = absurd (ground arith)
or_throw_returned (some x) e a h = ap some (returned-injective h)

decoded_returned : {A : Type 0} (d : Decoded A) (a : A) → decoded d ≡ returned a → d ≡ ok a
decoded_returned (ok x) a h = ap ok (returned-injective h)
decoded_returned (err e) a h = absurd (ground arith)

module _ (crypto : Crypto) where
  check_cosigners-signed :
      (core key : Bytes) (n : ℕ) (cs : List Text) (u : Unit {0})
      → check_cosigners crypto core key n cs ≡ returned u
      → All (IsSignatureOf crypto core key) cs
  unfolding check_cosigners
  check_cosigners-signed core key n [] u h = tt
  check_cosigners-signed core key n (c ∷ cs) u h =
      bind_returned (decoded (decode_signature c)) _ u h λ sig d h₁.
        bind_returned (guard (crypto.verify core sig key) (cosigner_signature n)) _ u h₁ λ _ g h₂. (
          (sig, decoded_returned (decode_signature c) sig d, guard_returned _ _ _ g),
          check_cosigners-signed core key (n + 1) cs u h₂,
        )

  verify_cosigners-IsCosigned :
      (keys : Option DoorKeys) (r : OspRecord) (u : Unit {0})
      → 0 < length r.cosigners
      → verify_cosigners crypto r keys ≡ returned u
      → IsCosigned crypto keys r
  unfolding verify_cosigners
  verify_cosigners-IsCosigned keys r u some_cosigner h =
      let signed : ltb 0 (length r.cosigners) ≡ true = ground arith in
      bind_returned (or_throw keys door_keys_required) _ u (if_true _ _ _ _ signed h) λ known k₁ h₁.
        bind_returned (guard (ltb 0 (length known)) door_keys_required) _ u h₁ λ _ _ h₂.
          bind_returned (or_throw r.residency null_residency) _ u h₂ λ residency k₂ h₃.
            bind_returned (or_throw (parse_residency residency) residency_format) _ u h₃
              λ parts k₃ h₄.
                bind_returned (or_throw (get parts.door_id known) (no_door_key parts.door_id)) _ u
                  h₄
                  λ door_key k₄ h₅. (
                    known,
                    residency,
                    parts,
                    door_key,
                    or_throw_returned keys _ known k₁,
                    or_throw_returned r.residency _ residency k₂,
                    or_throw_returned (parse_residency residency) _ parts k₃,
                    or_throw_returned (get parts.door_id known) _ door_key k₄,
                    some_cosigner,
                    check_cosigners-signed _ door_key 0 r.cosigners u h₅,
                  )

  verify_record-checked :
      (keys : Option DoorKeys) (r : OspRecord) (key : Bytes) (cid : Option Text)
      (x : OspRecord × Text)
      → issues r ≡ []
      → verify_record crypto r key keys cid ≡ returned x
      → (verify_cosigners crypto r keys ≡ returned tt)
        × IsSignatureOf crypto (crypto.soul_bytes (soul_payload r)) key r.sig
  unfolding verify_record
  verify_record-checked keys r key cid x passes h =
      bind_returned (verify_cosigners crypto r keys) _ x (rw (safe_parse-shaped r passes) at h)
        λ _ k₁ h₁. bind_returned (decoded (decode_signature r.sig)) _ x h₁ λ sig k₂ h₂.
          bind_returned (guard (crypto.verify _ sig key) _) _ x h₂ λ _ k₃ h₃.
            (k₁, (sig, decoded_returned (decode_signature r.sig) sig k₂, guard_returned _ _ _ k₃))

  -- In a verified chain the record on any line is signed, less its `sig`, by the soul key of the
  -- first record, and a shard, a journal, an arrival, a heartbeat or a departure has a cosigner,
  -- each one a signature of its core payload under the key of the Door that its residency names.
  pub verify_records-witnessed :
      (keys : Option DoorKeys) (raws : List Raw) (head : Option HeadInfo) (i : ℕ) (r : OspRecord)
      → verify_records crypto keys raws ≡ returned (valid head)
      → get_elem? raws i ≡ some (shaped r)
      → ((first : OspRecord) × (key : Bytes) × (get_elem? raws 0 ≡ some (shaped first))
          × (soul_key_of first.body ≡ some key)
          × IsSignatureOf crypto (crypto.soul_bytes (soul_payload r)) key r.sig)
        × (needs_cosigners r.body ≡ true → IsCosigned crypto keys r)
  verify_records-witnessed keys raws head i r h at_i =
      let (q, e, n, first, at_0, same) = verified_at crypto keys raws head i r h at_i in
      let (key, k, v) = e.signed in
      let (c, s) = verify_record-checked keys r key _ _ e.schema v in
      (
        (first, key, at_0, sym same ∙ k, s),
        λ needed.
            verify_cosigners-IsCosigned keys r tt (needs_cosigners-cosigned r e.schema needed) c,
      )
