-- ===== src/Door/Tests.antt =====
-- Runs of the Door.
use npc_of_the_internet.Shared.{
  ℕ, ◌+◌, ◌-◌, ◌≤◌, ◌<◌, ◌≡◌, refl, none, some, List, [], ◌∷◌, true, false, Text, text, ◌==◌,
  text_eq, nat_eq, if◌then◌else◌, drop,
}
use npc_of_the_internet.Base64Url.{decode_signature, decode_base64_url, decode_public_key, ok, err}
use npc_of_the_internet.Canonical.{
  Json, number_value, string_value, object_of, canonical_json, permitted,
}
use npc_of_the_internet.Canonical.Strings.{decimal, stringify}
use npc_of_the_internet.Door.{
  answered, Host, DoorOptions, shard, MemoryKey, not_witnessed, private_matter, Door, create,
  empty_epoch_memory, AttestRequest, AttestKind, arrival_kind, departure_kind, memory_kind,
  kind_text, attest_signing_payload, emit,
}
use npc_of_the_internet.Door.Core.{parse_canonical_core, member_of, residency_for}
use npc_of_the_internet.Door.Transcript.{ResidencyRecord, PerRole, nothing}
use npc_of_the_internet.Door.Attest.{
  accepts, check_request, check_presence, is_departure_retry, attest_departure, attest_response,
  attest_arrival,
}
use npc_of_the_internet.Door.Session.{SessionBindParams}
use npc_of_the_internet.Door.Session.Frames.{OutboundFrame}
use npc_of_the_internet.Door.Session.Replay.{
  Remembers, none_accepted, deliver_all, deliver_all-Remembers,
}
use npc_of_the_internet.Door.Witness.{MemoryCall, memory_at, ask_memory}
use npc_of_the_internet.Door.World.{
  arrives, departs, after_asking, handle, World, handled, memory_asks, constructed, then_step,
}
use npc_of_the_internet.Door.World.Decisions.{Decided, Step-Decided}
use npc_of_the_internet.Door.World.Budget.{Reachable-memories}
use npc_of_the_internet.Door.World.Within.{witnessed_journals, witnessed_shard_count}
use npc_of_the_internet.Door.Departures.{departure_again}
use npc_of_the_internet.Door.Lifecycle.{serve_all_history}
use npc_of_the_internet.Door.Events.{HasHistory, serve_all}

abbrev letters : ℕ → Text
letters n =
    drop (86 - n) (
      text "AAAAAAAAAAAAAAAAAAAAAAAAAAAAAAAAAAAAAAAAAAAAAAAAAAAAAAAAAAAAAAAAAAAAAAAAAAAAAAAAAAAAAA")

abbrev core_of : AttestKind → Json
core_of kind = object_of (
    (text "type", string_value (text "attestation"))
    ∷ (text "residency", string_value (text "door:lab/epoch:4"))
    ∷ (
      text "body",
      object_of (
          (text "kind", string_value (kind_text kind))
          ∷ (text "door_id", string_value (text "lab"))
          ∷ (text "epoch", number_value 4)
          ∷ []),
    )
    ∷ [])

abbrev request_of : AttestKind → AttestRequest
request_of kind = record {
  door_id = text "lab";
  epoch = 4;
  kind = kind;
  core = canonical_json (core_of kind);
  session_pubkey = letters 43;
  prose = none;
  issued_at = text "t";
  sig = letters 86;
}

abbrev lab_host : Host
lab_host = record {
  verify = λ message signature key. true;
  sign = λ message. 0 ∷ [];
  sha256 = λ bytes. bytes;
  json_parse = λ core.
      if core == canonical_json (core_of departure_kind)
      then some (core_of departure_kind)
      else some (core_of arrival_kind);
  date_parse = λ date. some 7;
  cid_digest = λ cid. none;
}

abbrev lab_options : DoorOptions
lab_options = record {
  door_id = text "lab";
  soul_public_key = [];
  max_issued_at_skew_ms = 300000;
  max_memory_attests = 32;
  witnesses_memories = true;
}

abbrev two_of_each : PerRole
two_of_each = record { of_community = 90; of_wanderer = 2 }

abbrev empty_record : ResidencyRecord
empty_record = record {
  max_chars = two_of_each;
  max_lines = two_of_each;
  chars = nothing;
  counts = nothing;
  entries = [];
}

abbrev arrived_door : Door
arrived_door =
    (attest_arrival lab_host lab_options (text "t") (request_of arrival_kind) accepts
      (create empty_record)).0

abbrev arrived_world : World
arrived_world = record {
  door =
      handle lab_host lab_options (text "t") (arrives accepts (request_of arrival_kind))
        (create empty_record);
  started = [];
  asked = [];
}

abbrev decoded_signature : Text → List ℕ
decoded_signature sig = elim (decode_signature sig) [ ok bytes ↦ bytes | err _ ↦ [] ]

arrived_test : arrived_door.last_known_epoch ≡ some 4
unfolding attest_arrival canonical_json create decimal stringify decode_signature decode_base64_url
    object_of kind_text attest_signing_payload emit parse_canonical_core permitted member_of
    residency_for
arrived_test = refl

departure_checked :
    (is_departure_retry (request_of departure_kind) arrived_door ≡ false)
    × (check_presence lab_host lab_options (text "t") (request_of departure_kind) arrived_door
        ≡ answered tt)
unfolding attest_arrival canonical_json create decimal stringify decode_signature decode_base64_url
    object_of kind_text attest_signing_payload emit parse_canonical_core permitted member_of
    residency_for check_presence is_departure_retry decode_public_key
departure_checked = (refl, refl)

fresh_request :
    check_request lab_host lab_options (text "u") (request_of departure_kind)
    ≡ answered (decoded_signature (letters 86))
unfolding attest_arrival canonical_json create decimal stringify decode_signature decode_base64_url
    object_of kind_text attest_signing_payload emit parse_canonical_core permitted member_of
    residency_for check_request
fresh_request = refl

departure_again_example :
    attest_departure lab_host lab_options
      (text "u")
      (request_of departure_kind)
      (attest_departure lab_host lab_options (text "t") (request_of departure_kind) arrived_door).0
    ≡ (
      (attest_departure lab_host lab_options (text "t") (request_of departure_kind) arrived_door).0,
      attest_response lab_host (text "u") (request_of departure_kind),
    )
departure_again_example =
    departure_again lab_host lab_options (text "t") (text "u") (request_of departure_kind)
      arrived_door (decoded_signature (letters 86)) departure_checked.0 departure_checked.1
      fresh_request

abbrev retired_door : Door
retired_door = record (create empty_record) { session_retired = true; last_known_epoch = some 4 }

abbrev shard_key : MemoryKey
shard_key = (shard, text "h")

abbrev shard_call : MemoryCall
shard_call = record {
  request = request_of memory_kind;
  signature = [];
  prose = text "we met";
  memory = 0;
  key = shard_key;
}

abbrev late_binding : SessionBindParams
late_binding = record {
  door_id = text "lab";
  epoch = 4;
  session_pubkey = letters 43;
  session_sig = letters 86;
}

serve_all_history_example : HasHistory (
    serve_all lab_host lab_options
      ((text "t", arrives accepts (request_of arrival_kind))
        ∷ (text "t", departs (request_of departure_kind))
        ∷ [])
      (create empty_record))
serve_all_history_example = serve_all_history lab_host lab_options empty_record (
    (text "t", arrives accepts (request_of arrival_kind))
    ∷ (text "t", departs (request_of departure_kind))
    ∷ [])

abbrev greeting : OutboundFrame
greeting = record {
  door_id = text "lab";
  epoch = 4;
  msg_id = text "m1";
  issued_at = text "t";
  prose = some (text "hello");
  reply_to = none;
  channel_id = none;
  reaction = none;
  sig = letters 86;
}

-- The second frame repeats an id, the third comes after two newer ones were forgotten.
deliver_all_test :
    (deliver_all lab_host lab_options 1
      ((text "t", greeting)
        ∷ (text "t", greeting)
        ∷ (text "t", record greeting { msg_id = text "m2" })
        ∷ (text "t", greeting)
        ∷ [])
      (arrived_door, [])).1
    ≡ text "m1" ∷ text "m2" ∷ text "m1" ∷ []
unfolding attest_arrival canonical_json create decimal stringify decode_signature decode_base64_url
    object_of kind_text attest_signing_payload emit parse_canonical_core permitted member_of
    residency_for deliver_all decode_public_key
deliver_all_test = refl

deliver_all-Remembers_example : Remembers 1 (
    deliver_all lab_host lab_options 1
      ((text "t", greeting) ∷ (text "t", greeting) ∷ [])
      (create empty_record, []))
unfolding create
deliver_all-Remembers_example =
    deliver_all-Remembers lab_host lab_options 1 ((text "t", greeting) ∷ (text "t", greeting) ∷ [])
      (create empty_record, []) record { seen = refl; no_replay = none_accepted }

abbrev declined_world : World
declined_world = record {
  door = record (create empty_record) {
    memories =
        record empty_epoch_memory {
          decided = (shard_key, not_witnessed private_matter) ∷ [];
          witness_calls = 1;
        }
        ∷ [];
  };
  started = shard_call ∷ [];
  asked = [];
}

Step-Decided_example :
    Decided 0 shard_key
      (not_witnessed private_matter)
      (after_asking shard_call []
        (ask_memory lab_options shard_call declined_world.door)
        declined_world).door
unfolding memory_at
Step-Decided_example =
    Step-Decided lab_host lab_options declined_world
      (after_asking shard_call [] (ask_memory lab_options shard_call declined_world.door)
        declined_world)
      0 shard_key (not_witnessed private_matter) (memory_asks shard_call [] [] refl) refl

Reachable-memories_example :
    (witnessed_shard_count (memory_at 0 arrived_world.door.memories)
        + witnessed_journals (memory_at 0 arrived_world.door.memories)
      ≤ 32)
    × (witnessed_journals (memory_at 0 arrived_world.door.memories) ≤ 1)
    × (0 < witnessed_journals (memory_at 0 arrived_world.door.memories)
        → 0 < witnessed_shard_count (memory_at 0 arrived_world.door.memories))
Reachable-memories_example = Reachable-memories lab_host lab_options arrived_world 0 (
    then_step (constructed empty_record)
      (handled (text "t") (arrives accepts (request_of arrival_kind))))
