-- ===== src/Door/Core.antt =====
-- door-sdk/src/door.ts: a Door signs a `core` only if it is bound to the request.
use npc_of_the_internet.Shared.{
  ℕ, ◌+◌, Option, none, some, List, [], ◌∷◌, ◌++◌, Bool, true, false, ◌&&◌, Text, text, text_beq,
  length, leb, ◌==◌, nat_eq, text_eq, if◌then◌else◌,
}
use npc_of_the_internet.Base64Url.{ok, err, encode_base64_url, decode_base64_url}
use npc_of_the_internet.Canonical.{
  Json, number_value, string_value, object_value, Members, no_members, member, text_ltb,
  canonical_json, canonical_bytes, permitted,
}
use npc_of_the_internet.Canonical.Strings.{decimal, is_low_surrogate, waits}
use npc_of_the_internet.Door.{
  core_invalid, Answer, answered, ◌>>=◌, ◌>>◌, require, or_refuse, Host, DoorOptions, MemoryKind,
  shard, journal, MemoryKey, AttestRequest, kind_text,
}

-- `parsed[key]` of an object that JSON.parse made, whose keys are distinct
unfoldable pub member_of : Text → Members → Option Json
member_of key no_members = none
member_of key (member k value rest) = if k == key then some value else member_of key rest

-- `isPlainRecord` of a field
unfoldable pub plain_record : Option Json → Option Members
plain_record (some (object_value members)) = some members
plain_record _ = none

-- A field is `===` to a string, and to a number.
unfoldable pub is_text : Option Json → Text → Bool
is_text (some (string_value s)) t = s == t
is_text _ t = false

unfoldable pub is_number : Option Json → ℕ → Bool
is_number (some (number_value m)) n = m == n
is_number _ n = false

-- A value that serializes to `core` itself; `TextDecoder` gives the encoded text back, which holds no
-- lone surrogate.
abbrev pub same_bytes : Text → Option Json → Option Members
same_bytes core (some (object_value members)) =
    if permitted (object_value members) && canonical_json (object_value members) == core
    then some members
    else none
same_bytes core _ = none

unfoldable pub parse_canonical_core : Host → Text → Option Members
parse_canonical_core host core = same_bytes core (host.json_parse core)

-- `door:<door_id>/epoch:<n>`
unfoldable pub residency_for : DoorOptions → ℕ → Text
residency_for options epoch = text "door:" ++ options.door_id ++ text "/epoch:" ++ decimal epoch

-- A field that is absent or is `===` to the string.
unfoldable pub is_absent_or_text : Option Json → Text → Bool
unfolding is_text
is_absent_or_text none t = true
is_absent_or_text (some value) t = is_text (some value) t

unfoldable pub assert_attest_core_bound : Host → DoorOptions → AttestRequest → Answer (Unit {0})
unfolding plain_record is_text is_number is_absent_or_text
assert_attest_core_bound host options request = do
  core ← or_refuse (parse_canonical_core host request.core) core_invalid
  require (is_text (member_of (text "type") core) (text "attestation")) core_invalid
  body ← or_refuse (plain_record (member_of (text "body") core)) core_invalid
  require (is_text (member_of (text "kind") body) (kind_text request.kind)) core_invalid
  require
      (is_text (member_of (text "residency") core) (residency_for options request.epoch)
        && is_text (member_of (text "door_id") body) options.door_id
        && is_number (member_of (text "epoch") body) request.epoch)
      core_invalid
  require (is_absent_or_text (member_of (text "session_pubkey") body) request.session_pubkey)
      core_invalid

-- `Object.keys(body).sort().join(",")`
insert_key : Text → List Text → List Text
insert_key key [] = key ∷ []
insert_key key (other ∷ rest) =
    let later = insert_key key rest in
    if text_ltb other key then other ∷ later else key ∷ other ∷ rest

sorted_keys : Members → List Text
unfolding insert_key
sorted_keys no_members = []
sorted_keys (member key _ rest) = insert_key key (sorted_keys rest)

join_keys : List Text → Text
join_keys [] = []
join_keys (key ∷ []) = key
join_keys (key ∷ other ∷ rest) = key ++ text "," ++ join_keys (other ∷ rest)

unfoldable pub keys_text : Members → Text
unfolding sorted_keys join_keys
keys_text body = join_keys (sorted_keys body)

-- A low surrogate behind a high one adds no code point.
abbrev code_points_of : Option ℕ → ℕ → ℕ
code_points_of none c = 1
code_points_of (some high) c = if is_low_surrogate c then 0 else 1

-- `[...text].length`
unfoldable pub code_points_from : Option ℕ → Text → ℕ
unfolding waits is_low_surrogate
code_points_from waiting [] = 0
code_points_from waiting (c ∷ rest) = code_points_of waiting c + code_points_from (waits c) rest

-- A body of one of the two kinds: its kind, its hash field and its CID field.
record MemoryBody : Type 0 where
  kind : MemoryKind
  hash_field : Option Json
  cid_field : Option Json

memory_text_max_code_points : ℕ
memory_text_max_code_points = 500

memory_body : Text → Members → Option MemoryBody
unfolding is_text keys_text code_points_from memory_text_max_code_points
memory_body prose body =
    if is_text (member_of (text "kind") body) (text "shard")
      && keys_text body == text "distilled_at,kind,text_cid,text_hash"
    then if leb (code_points_from none prose) memory_text_max_code_points
      then some record {
        kind = shard;
        hash_field = member_of (text "text_hash") body;
        cid_field = member_of (text "text_cid") body;
      }
      else none
    else if is_text (member_of (text "kind") body) (text "journal")
        && keys_text body == text "journal_cid,journal_hash,kind,written_at"
    then some record {
      kind = journal;
      hash_field = member_of (text "journal_hash") body;
      cid_field = member_of (text "journal_cid") body;
    }
    else none

-- `hashBlobBytes` of the side blob: the canonical JSON string.
unfoldable pub side_blob_hash : Host → Text → Text
side_blob_hash host prose = encode_base64_url (host.sha256 (canonical_bytes (string_value prose)))

-- `cidMatchesHash`
unfoldable pub cid_matches_hash : Host → Text → Text → Bool
cid_matches_hash host cid hash = elim (host.cid_digest cid) [
  | none ↦ false
  | some digest ↦ elim (decode_base64_url hash) [
    | err _ ↦ false
    | ok bytes ↦ length digest == 32 && length bytes == 32 && text_beq digest bytes
  ]
]

cid_references : Host → Option Json → Text → Bool
unfolding cid_matches_hash
cid_references host (some (string_value cid)) hash = cid_matches_hash host cid hash
cid_references host _ hash = false

-- The kind and the hash of the memory.
unfoldable pub assert_memory_core_bound :
    Host → DoorOptions → AttestRequest → Text → Answer MemoryKey
unfolding plain_record is_text memory_body cid_references
assert_memory_core_bound host options request prose = do
  core ← or_refuse (parse_canonical_core host request.core) core_invalid
  require
      (is_text (member_of (text "spec") core) (text "osp/0.2")
        && is_text (member_of (text "type") core) (text "memory"))
      core_invalid
  body ← or_refuse (plain_record (member_of (text "body") core)) core_invalid
  require (is_text (member_of (text "residency") core) (residency_for options request.epoch))
      core_invalid
  memory ← or_refuse (memory_body prose body) core_invalid
  require
      (is_text memory.hash_field (side_blob_hash host prose)
        && cid_references host memory.cid_field (side_blob_hash host prose))
      core_invalid
  answered (memory.kind, side_blob_hash host prose)
