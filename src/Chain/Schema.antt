-- ===== src/Chain/Schema.antt =====
-- osp-core/src/schemas/envelope.ts and the refinements of body.ts: `RecordSchema` on a record whose
-- JSON has the shape of one of the record types. Each check gives its issues in the source's order.
pub mod Cosigned
use npc_of_the_internet.Shared.{
  ℕ, zero, suc, ◌+◌, Option, none, some, List, [], ◌∷◌, ◌++◌, Bool, true, false, not, ◌&&◌, ◌||◌,
  Text, length, ltb, leb, ◌==◌, nat_eq, text_eq, if◌then◌else◌,
}
use npc_of_the_internet.Base64Url.{Decoded, ok, err, decode_signature, decode_public_key}
use npc_of_the_internet.Chain.Record.{
  Spec, v01, v02, GenesisBody, MemoryBody, shard_v01, shard_v02, journal, candidate_v01,
  candidate_v02, rejected, AttestationBody, arrival, heartbeat, departure, travel, handover, Body,
  genesis, memory, attestation, tombstone, OspRecord,
}
use npc_of_the_internet.Chain.Residency.{
  residency_re, door_id_from_residency, ResidencyParts, parse_residency,
}

pub data Issue : Type 0 where
  tombstone_seq_zero tombstone_prev tombstone_residency : Issue
  prev_not_null residency_not_null prev_empty residency_empty residency_format : Issue
  genesis_cosigners tombstone_cosigners needs_cosigner cosigner_order : Issue
  sig_encoding door_id_mismatch epoch_mismatch : Issue
  cosigner_encoding : ℕ → Issue
  tombstone_spec journal_spec inline_text text_by_reference : Issue
  public_key fork_reason_missing memory_too_long : Issue

abbrev pub when : Bool → Issue → List Issue
when true issue = issue ∷ []
when false issue = []

abbrev is_empty_or_null : Option Text → Bool
is_empty_or_null none = true
is_empty_or_null (some s) = length s == 0

abbrev is_some : Option Text → Bool
is_some none = false
is_some (some s) = true

abbrev pub is_tombstone : Body → Bool
is_tombstone (tombstone _ _ _ _) = true
is_tombstone _ = false

abbrev pub is_genesis : Body → Bool
is_genesis (genesis _) = true
is_genesis _ = false

pub residency_issues : Option Text → List Issue
residency_issues none = residency_empty ∷ []
residency_issues (some s) =
    if length s == 0 then residency_empty ∷ [] else when (not (residency_re s)) residency_format

pub validate_chain_link_fields : OspRecord → List Issue
unfolding residency_issues
validate_chain_link_fields r =
    if is_tombstone r.body
    then when (r.seq == 0) tombstone_seq_zero
      ++ (when (is_empty_or_null r.prev) tombstone_prev
          ++ when (is_some r.residency) tombstone_residency)
    else if r.seq == 0
    then when (is_some r.prev) prev_not_null ++ when (is_some r.residency) residency_not_null
    else when (is_empty_or_null r.prev) prev_empty ++ residency_issues r.residency

-- A memory shard or journal, or an arrival, departure or heartbeat.
unfoldable pub needs_cosigners : Body → Bool
needs_cosigners (memory (shard_v01 _ _ _ _)) = true
needs_cosigners (memory (shard_v02 _ _ _ _ _ _)) = true
needs_cosigners (memory (journal _ _ _)) = true
needs_cosigners (attestation (arrival _ _ _ _)) = true
needs_cosigners (attestation (departure _ _ _)) = true
needs_cosigners (attestation (heartbeat _ _ _ _)) = true
needs_cosigners _ = false

pub validate_cosigner_rules : OspRecord → List Issue
unfolding needs_cosigners
validate_cosigner_rules r =
    let any = ltb 0 (length r.cosigners) in
    if is_genesis r.body && any
    then genesis_cosigners ∷ []
    else if is_tombstone r.body && any
    then tombstone_cosigners ∷ []
    else when (needs_cosigners r.body && ltb (length r.cosigners) 1) needs_cosigner

-- `current <= previous` on strings: by UTF-16 code units
unfoldable pub text_le : Text → Text → Bool
text_le [] t = true
text_le (a ∷ s) [] = false
text_le (a ∷ s) (b ∷ t) = ltb a b || (a == b && text_le s t)

pub validate_cosigner_ordering : List Text → List Issue
unfolding text_le
validate_cosigner_ordering [] = []
validate_cosigner_ordering (previous ∷ []) = []
validate_cosigner_ordering (previous ∷ current ∷ rest) =
    let later = validate_cosigner_ordering (current ∷ rest) in
    if text_le current previous then cosigner_order ∷ [] else later

abbrev pub signature_issue : Issue → Text → List Issue
signature_issue issue s = elim (decode_signature s) [ ok _ ↦ [] | err _ ↦ issue ∷ [] ]

pub cosigner_issues : ℕ → List Text → List Issue
cosigner_issues index [] = []
cosigner_issues index (c ∷ cs) =
    signature_issue (cosigner_encoding index) c ++ cosigner_issues (index + 1) cs

pub validate_signature_fields : OspRecord → List Issue
unfolding cosigner_issues
validate_signature_fields r = signature_issue sig_encoding r.sig ++ cosigner_issues 0 r.cosigners

-- `door_id` and `epoch` of an arrival, heartbeat or departure
pub record Presence : Type 0 where
  pub door_id : Text
  pub epoch : ℕ

abbrev pub presence_of : Body → Option Presence
presence_of (attestation (arrival d e _ _)) = some (record { door_id = d; epoch = e })
presence_of (attestation (heartbeat d e _ _)) = some (record { door_id = d; epoch = e })
presence_of (attestation (departure d e _)) = some (record { door_id = d; epoch = e })
presence_of _ = none

pub door_id_issues : Option Presence → Option Text → List Issue
door_id_issues (some p) (some residency) =
    when (not (p.door_id == door_id_from_residency residency)) door_id_mismatch
door_id_issues _ _ = []

pub validate_attestation_door_id : OspRecord → List Issue
unfolding door_id_issues
validate_attestation_door_id r = door_id_issues (presence_of r.body) r.residency

pub epoch_issues : Option Presence → Option Text → List Issue
epoch_issues (some p) (some residency) = elim (parse_residency residency) [
  | none ↦ []
  | some parts ↦ when (not (p.epoch == parts.epoch)) epoch_mismatch
]
epoch_issues _ _ = []

pub validate_attestation_epoch : OspRecord → List Issue
unfolding epoch_issues
validate_attestation_epoch r = epoch_issues (presence_of r.body) r.residency

pub validate_spec_body_compatibility : Spec → Body → List Issue
validate_spec_body_compatibility v01 (tombstone _ _ _ _) = tombstone_spec ∷ []
validate_spec_body_compatibility v01 (memory (journal _ _ _)) = journal_spec ∷ []
validate_spec_body_compatibility v01 (memory (shard_v02 _ _ _ _ _ _)) = inline_text ∷ []
validate_spec_body_compatibility v01 (memory (candidate_v02 _ _ _)) = inline_text ∷ []
validate_spec_body_compatibility v02 (memory (shard_v01 _ _ _ _)) = text_by_reference ∷ []
validate_spec_body_compatibility v02 (memory (candidate_v01 _ _)) = text_by_reference ∷ []
validate_spec_body_compatibility _ _ = []

-- `[...text].length`: a surrogate pair is one code point
count_code_points : Text → ℕ
count_code_points [] = 0
count_code_points (c ∷ []) = 1
count_code_points (c ∷ d ∷ s) =
    let pair = count_code_points s + 1 in
    let single = count_code_points (d ∷ s) + 1 in
    if (leb 0xd800 c && leb c 0xdbff) && (leb 0xdc00 d && leb d 0xdfff) then pair else single

abbrev memory_text_max_code_points : ℕ
memory_text_max_code_points = 500

abbrev pub key_issue : Text → List Issue
key_issue s = elim (decode_public_key s) [ ok _ ↦ [] | err _ ↦ public_key ∷ [] ]

abbrev lacks_reason : GenesisBody → Bool
lacks_reason g = is_some g.fork_point && not (is_some g.fork_reason)

-- The refinements of the body's own schema.
pub validate_body : Body → List Issue
unfolding count_code_points
validate_body (genesis g) = key_issue g.soul_pubkey ++ when (lacks_reason g) fork_reason_missing
validate_body (memory (shard_v01 prose _ _ _)) =
    when (ltb memory_text_max_code_points (count_code_points prose)) memory_too_long
validate_body (memory (candidate_v01 prose _)) =
    when (ltb memory_text_max_code_points (count_code_points prose)) memory_too_long
validate_body (attestation (arrival _ _ key _)) = key_issue key
validate_body (attestation (heartbeat _ _ key _)) = key_issue key
validate_body _ = []

-- The body's schema is part of the base schema; the envelope's refinements run if it passes.
unfoldable pub issues : OspRecord → List Issue
unfolding validate_chain_link_fields validate_cosigner_rules validate_cosigner_ordering
    validate_signature_fields validate_attestation_door_id validate_attestation_epoch
    validate_spec_body_compatibility validate_body
issues r =
    let refinements =
      validate_chain_link_fields r
      ++ (validate_cosigner_rules r
          ++ (validate_cosigner_ordering r.cosigners
              ++ (validate_signature_fields r
                  ++ (validate_attestation_door_id r
                      ++ (validate_attestation_epoch r
                          ++ validate_spec_body_compatibility r.spec r.body))))) in
    if length (validate_body r.body) == 0 then refinements else validate_body r.body

-- What a line of a chain holds: a record's shape, or JSON that no record type takes (a missing or
-- foreign key, a malformed CID or timestamp, a reserved key, a digest that does not match), with its
-- `seq` if that is a number.
pub data Raw : Type 0 where
  shaped : OspRecord → Raw
  malformed : Option ℕ → Raw

-- `RecordSchema.safeParse`
unfoldable pub safe_parse : Raw → Option OspRecord
safe_parse (malformed _) = none
safe_parse (shaped r) = if length (issues r) == 0 then some r else none
