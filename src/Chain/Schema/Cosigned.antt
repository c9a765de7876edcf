-- ===== src/Chain/Schema/Cosigned.antt =====
-- What the refinements of `RecordSchema` guarantee of a record that passes them.
use npc_of_the_internet.Shared.{
  ℕ, ◌+◌, ◌<◌, ◌≡◌, refl, List, [], ◌∷◌, Bool, true, false, Text, All, length, arith, append-eq-nil,
  text_eq, nat_eq, ◌==◌, if◌then◌else◌,
}
use npc_of_the_internet.Base64Url.{Bytes, ok, decode_signature, decode_public_key}
use npc_of_the_internet.Chain.Record.{GenesisBody, genesis, OspRecord}
use npc_of_the_internet.Chain.Schema.{
  Issue, when, issues, validate_body, validate_chain_link_fields, validate_cosigner_rules,
  validate_cosigner_ordering, validate_signature_fields, validate_attestation_door_id,
  validate_attestation_epoch, validate_spec_body_compatibility, signature_issue, cosigner_issues,
  needs_cosigners, key_issue, cosigner_encoding, sig_encoding,
}

pub record Passes (r : OspRecord) : Type 0 where
  pub body : validate_body r.body ≡ []
  pub links : validate_chain_link_fields r ≡ []
  pub cosigners : validate_cosigner_rules r ≡ []
  pub ordering : validate_cosigner_ordering r.cosigners ≡ []
  pub signatures : validate_signature_fields r ≡ []
  pub door_id : validate_attestation_door_id r ≡ []
  pub epoch : validate_attestation_epoch r ≡ []
  pub spec : validate_spec_body_compatibility r.spec r.body ≡ []

first_then : (b c : List Issue) → (if length b == 0 then c else b) ≡ [] → (b ≡ []) × (c ≡ [])
first_then [] c h = (refl, h)
first_then (x ∷ b) c h = ground arith

pub issues-Passes : (r : OspRecord) → issues r ≡ [] → Passes r
unfolding issues
issues-Passes r h =
    let (body, h₀) = first_then _ _ h in
    let (links, h₁) = append-eq-nil _ _ h₀ in
    let (cosigners, h₂) = append-eq-nil _ _ h₁ in
    let (ordering, h₃) = append-eq-nil _ _ h₂ in
    let (signatures, h₄) = append-eq-nil _ _ h₃ in
    let (door_id, h₅) = append-eq-nil _ _ h₄ in
    let (epoch, spec) = append-eq-nil _ _ h₅ in
    record {
      body = body;
      links = links;
      cosigners = cosigners;
      ordering = ordering;
      signatures = signatures;
      door_id = door_id;
      epoch = epoch;
      spec = spec;
    }

key_issue-nil : (s : Text) → key_issue s ≡ [] → (key : Bytes) × (decode_public_key s ≡ ok key)
key_issue-nil s h = ground arith

pub genesis_decodes :
    (r : OspRecord) (g : GenesisBody)
    → issues r ≡ []
    → r.body ≡ genesis g
    → (key : Bytes) × (decode_public_key g.soul_pubkey ≡ ok key)
unfolding validate_body
genesis_decodes r g h e =
    key_issue-nil g.soul_pubkey (append-eq-nil _ _ (rw e at (issues-Passes r h).body)).0

when-nil : (b : Bool) (i : Issue) → when b i ≡ [] → b ≡ false
when-nil b i h = ground arith

-- A record of a kind that a Door must witness has a cosigner.
pub needs_cosigners-cosigned :
    (r : OspRecord) → issues r ≡ [] → needs_cosigners r.body ≡ true → 0 < length r.cosigners
unfolding validate_cosigner_rules
needs_cosigners-cosigned r h needed = ground (arith, (issues-Passes r h).cosigners)

signature_issue-nil :
    (issue : Issue) (s : Text)
    → signature_issue issue s ≡ []
    → (sig : Bytes) × (decode_signature s ≡ ok sig)
signature_issue-nil issue s h = ground arith

cosigner_issues-nil :
    (n : ℕ) (cs : List Text)
    → cosigner_issues n cs ≡ []
    → All (λ c. (sig : Bytes) × (decode_signature c ≡ ok sig)) cs
unfolding cosigner_issues
cosigner_issues-nil n [] h = tt
cosigner_issues-nil n (c ∷ cs) h =
    let (p, q) = append-eq-nil _ _ h in
    (signature_issue-nil (cosigner_encoding n) c p, cosigner_issues-nil (n + 1) cs q)

-- Every signature decodes to 64 bytes.
pub signatures_decode :
    (r : OspRecord)
    → issues r ≡ []
    → ((sig : Bytes) × (decode_signature r.sig ≡ ok sig))
      × All (λ c. (sig : Bytes) × (decode_signature c ≡ ok sig)) r.cosigners
unfolding validate_signature_fields
signatures_decode r h =
    let (p, q) = append-eq-nil _ _ (issues-Passes r h).signatures in
    (signature_issue-nil sig_encoding r.sig p, cosigner_issues-nil 0 r.cosigners q)
