-- ===== src/Door/Discovery.antt =====
-- door-sdk/src/door.ts: `hello`, and the control frames of the WebSocket transport.
use npc_of_the_internet.Shared.{
  ℕ, ◌+◌, Option, none, some, List, [], ◌∷◌, ◌++◌, Bool, true, false, Text, text, ◌==◌, text_eq,
  nat_eq, if◌then◌else◌,
}
use npc_of_the_internet.Base64Url.{Bytes, encode_public_key}
use npc_of_the_internet.Canonical.{
  Json, Elements, no_elements, element, null_value, number_value, string_value, array_value,
  object_value, object_of,
}
use npc_of_the_internet.Canonical.Strings.{decimal}
use npc_of_the_internet.Door.{
  unsupported_version, door_unavailable, invalid_request, Answer, answered, ◌>>=◌, ◌>>◌, require,
  decoded, Host, DoorOptions, ActiveSession, Door,
}
use npc_of_the_internet.Door.Core.{member_of}
use npc_of_the_internet.Door.Session.{sign_canonical}

-- The policy's descriptor is signed as the JSON that it is.
pub record HostPolicy : Type 0 where
  pub community : Json
  pub capabilities : List Text

abbrev door_protocol_version : Text
door_protocol_version = text "door/0.2"

abbrev active_epoch_of : Option ActiveSession → Option ℕ
active_epoch_of none = none
active_epoch_of (some session) = some session.epoch

-- `getActiveEpoch`
pub get_active_epoch : Door → Option ℕ
get_active_epoch door = active_epoch_of door.active_session

abbrev session_pubkey_of : Option ActiveSession → Option Text
session_pubkey_of none = none
session_pubkey_of (some session) = some session.session_pubkey

pub get_active_session_pubkey : Door → Option Text
get_active_session_pubkey door = session_pubkey_of door.active_session

without_memory : List Text → List Text
without_memory [] = []
without_memory (value ∷ rest) =
    let later = without_memory rest in
    if value == text "attest.memory" then later else value ∷ later

-- The policy's list, with `attest.memory` if and only if there is a witness.
pub capabilities : DoorOptions → HostPolicy → List Text
unfolding without_memory
capabilities options policy =
    without_memory policy.capabilities
    ++ (if options.witnesses_memories then text "attest.memory" ∷ [] else [])

-- `readProtocolVersion`: none for undefined
pub read_protocol_version : Json → Option Json
read_protocol_version (object_value members) = member_of (text "protocol_version") members
read_protocol_version _ = none

version_supported : Option Json → Bool
version_supported none = true
version_supported (some (string_value version)) = version == door_protocol_version
version_supported (some _) = false

-- `isAvailable`, if it does not throw; an absent one counts as available.
abbrev is_available : Option Bool → Bool
is_available none = true
is_available (some available) = available

pub record HelloResponse : Type 0 where
  pub door_id : Text
  pub door_pubkey : Text
  pub active_epoch : Option ℕ
  pub capabilities_listed : List Text
  pub community : Json
  pub issued_at : Text
  pub sig : Text

abbrev epoch_json : Option ℕ → Json
epoch_json none = null_value
epoch_json (some epoch) = number_value epoch

texts_json : List Text → Elements
texts_json [] = no_elements
texts_json (s ∷ rest) = element (string_value s) (texts_json rest)

-- The schema of the request is the schema library's: `well_formed` is its verdict.
pub hello :
    Host
    → DoorOptions
    → HostPolicy
    → (door_public_key : Bytes) → (well_formed : Json → Bool) → (available : Option Bool)
    → (now : Text) → Json
    → Door
    → Answer HelloResponse
unfolding get_active_epoch capabilities read_protocol_version version_supported texts_json
hello host options policy door_public_key well_formed available now request door = do
  require (version_supported (read_protocol_version request)) unsupported_version
  require (well_formed request) invalid_request
  require (is_available available) door_unavailable
  door_pubkey ← decoded (encode_public_key door_public_key)
  sig ← sign_canonical host (
      object_of (
        (text "protocol_version", string_value door_protocol_version)
        ∷ (text "door_id", string_value options.door_id)
        ∷ (text "door_pubkey", string_value door_pubkey)
        ∷ (text "active_epoch", epoch_json (get_active_epoch door))
        ∷ (text "capabilities", array_value (texts_json (capabilities options policy)))
        ∷ (text "community", policy.community)
        ∷ (text "issued_at", string_value now)
        ∷ []))
  answered record {
    door_id = options.door_id;
    door_pubkey = door_pubkey;
    active_epoch = get_active_epoch door;
    capabilities_listed = capabilities options policy;
    community = policy.community;
    issued_at = now;
    sig = sig;
  }

pub data ControlAction : Type 0 where
  ping pong session_end backpressure : ControlAction

action_text : ControlAction → Text
action_text ping = text "ping"
action_text pong = text "pong"
action_text session_end = text "session_end"
action_text backpressure = text "backpressure"

pub record ControlFrame : Type 0 where
  pub door_id : Text
  pub epoch : ℕ
  pub msg_id : Text
  pub issued_at : Text
  pub action : ControlAction
  pub reason : Option Text
  pub sig : Option Text

abbrev reason_json : Option Text → List (Text × Json)
reason_json none = []
reason_json (some reason) = (text "reason", string_value reason) ∷ []

-- A control frame with the Door's signature.
signed_control : Host → ControlFrame → Answer ControlFrame
unfolding action_text
signed_control host frame = do
  sig ← sign_canonical host (
      object_of (
        (text "type", string_value (text "control"))
        ∷ (text "door_id", string_value frame.door_id)
        ∷ (text "epoch", number_value frame.epoch)
        ∷ (text "msg_id", string_value frame.msg_id)
        ∷ (text "issued_at", string_value frame.issued_at)
        ∷ (
          text "body",
          object_of
              ((text "action", string_value (action_text frame.action)) ∷ reason_json frame.reason),
        )
        ∷ []))
  answered (record frame { sig = some sig })

pub create_session_end_frame :
    Host → DoorOptions → (now : Text) → ℕ → (reason : Text) → Door → Door × Answer ControlFrame
unfolding signed_control
create_session_end_frame host options now epoch reason door =
    let count = door.session_end_msg_counter + 1 in
    (
      record door { session_end_msg_counter = count },
      signed_control host record {
        door_id = options.door_id;
        epoch = epoch;
        msg_id = text "session_end_" ++ decimal count;
        issued_at = now;
        action = session_end;
        reason = some reason;
        sig = none;
      },
    )

-- A `ping` is answered by a `pong`, any other frame by nothing.
pub handle_control : Host → (now : Text) → ControlFrame → Answer (Option ControlFrame)
unfolding signed_control
handle_control host now frame = elim frame.action [
  | ping ↦
      signed_control host
        (record frame { issued_at = now; action = pong; reason = none; sig = none })
      >>= λ reply. answered (some reply)
  | _ ↦ answered none
]
