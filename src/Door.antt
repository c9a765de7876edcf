-- ===== src/Door.antt =====
-- door-sdk/src/door.ts: the state of a Door, its requests and its answers, with the payloads that
-- signing.ts signs.
pub mod Transcript
pub mod Core
pub mod Session
pub mod Attest
pub mod Discovery
pub mod Witness
pub mod World
pub mod Requests
pub mod Departures
pub mod Events
pub mod Lifecycle
mod Tests
use npc_of_the_internet.Shared.{
  ℕ, ◌+◌, Option, none, some, List, [], ◌∷◌, ◌++◌, Bool, true, false, Text, text, length, zero, suc,
  ◌≡◌, refl, ◌⊎◌, inl, inr,
}
use npc_of_the_internet.Base64Url.{Bytes, EncodingError, Decoded, ok, err}
use npc_of_the_internet.Canonical.{
  Json, number_value, string_value, bool_value, object_of, canonical_bytes,
}
use npc_of_the_internet.Door.Transcript.{ResidencyRecord, ResidencyLine}

pub data WitnessReason : Type 0 where
  ungrounded private_matter harmful manipulation other : WitnessReason

-- `DoorError` by its code, with what `details` carries of the reason; or an error of another class.
pub data DoorError : Type 0 where
  unsupported_version door_unavailable session_invalid timestamp_stale signature_invalid : DoorError
  epoch_replay core_invalid not_hosting epoch_closed epoch_mismatch seq_replay msg_replay :
      DoorError
  unsupported_kind invalid_request witness_unavailable : DoorError
  witness_declined : WitnessReason → DoorError
  encoding_error : EncodingError → DoorError

-- `defaultHttpStatusForDoorError`; an error that is no `DoorError` is answered by 500.
pub default_http_status : DoorError → ℕ
default_http_status signature_invalid = 401
default_http_status session_invalid = 401
default_http_status timestamp_stale = 401
default_http_status epoch_closed = 409
default_http_status epoch_mismatch = 409
default_http_status epoch_replay = 409
default_http_status seq_replay = 409
default_http_status msg_replay = 409
default_http_status not_hosting = 403
default_http_status (witness_declined _) = 422
default_http_status invalid_request = 400
default_http_status core_invalid = 400
default_http_status door_unavailable = 503
default_http_status witness_unavailable = 503
default_http_status unsupported_version = 400
default_http_status unsupported_kind = 400
default_http_status (encoding_error _) = 500

-- What an operation returns or throws.
pub data Answer (A : Type 0) : Type 0 where
  answered : A → Answer A
  refused : DoorError → Answer A

infixl 5 ◌>>=◌ ◌>>◌
abbrev pub ◌>>=◌ : {A B : Type 0} → Answer A → (A → Answer B) → Answer B
answered a >>= f = f a
refused e >>= f = refused e

abbrev pub ◌>>◌ : {B : Type 0} → Answer (Unit {0}) → Answer B → Answer B
m >> k = m >>= λ _. k

abbrev pub require : Bool → DoorError → Answer (Unit {0})
require true e = answered tt
require false e = refused e

-- What is answered in the end was answered at first.
pub bind_answered :
    {A B : Type 0} (m : Answer A) (f : A → Answer B) (b : B)
    → (m >>= f) ≡ answered b
    → (a : A) × (m ≡ answered a) × (f a ≡ answered b)
bind_answered (answered a) f b h = (a, refl, h)
bind_answered (refused e) f b h = absurd (cc h)

abbrev pub decoded : {A : Type 0} → Decoded A → Answer A
decoded (ok a) = answered a
decoded (err e) = refused (encoding_error e)

abbrev pub or_refuse : {A : Type 0} → Option A → DoorError → Answer A
or_refuse (some a) e = answered a
or_refuse none e = refused e

-- Ed25519 with the Door's private key, SHA-256, and what JavaScript and the CID library parse. Times
-- are in milliseconds since the earliest date that JavaScript has.
pub record Host : Type 0 where
  pub verify : (message signature public_key : Bytes) → Bool
  pub sign : Bytes → Bytes
  pub sha256 : Bytes → Bytes
  pub json_parse : Text → Option Json
  pub date_parse : Text → Option ℕ
  pub cid_digest : Text → Option Bytes

pub record DoorOptions : Type 0 where
  pub door_id : Text
  pub soul_public_key : Bytes
  pub max_issued_at_skew_ms : ℕ
  pub max_memory_attests : ℕ
  pub witnesses_memories : Bool

pub data MemoryKind : Type 0 where
  shard journal : MemoryKind

pub data WitnessVerdict : Type 0 where
  witnessed : WitnessVerdict
  not_witnessed : WitnessReason → WitnessVerdict

-- A decision's key `<kind>:<hash>` is the pair, as the kind holds no colon.
abbrev pub MemoryKey : Type 0
MemoryKey = MemoryKind × Text

pub record EpochMemory : Type 0 where
  pub decided : List (MemoryKey × WitnessVerdict)
  pub witnessed_shards : List Text
  pub journal_witnessed : Bool
  pub witness_calls : ℕ

unfoldable pub empty_epoch_memory : EpochMemory
empty_epoch_memory = record {
  decided = [];
  witnessed_shards = [];
  journal_witnessed = false;
  witness_calls = 0;
}

pub record ActiveSession : Type 0 where
  pub epoch : ℕ
  pub session_pubkey : Text

pub record Departure : Type 0 where
  pub epoch : ℕ
  pub session_pubkey : Text
  pub core : Text

pub data SessionLifecycleEvent : Type 0 where
  arrived retired superseded : ℕ → SessionLifecycleEvent

-- `memories` holds every epoch memory the Door has made, and `epoch_memory` is the place of the one
-- in use: a witness call keeps the place it captured. `emitted` is what the listeners were told.
pub record Door : Type 0 where
  pub active_session : Option ActiveSession
  pub session_retired : Bool
  pub last_departure : Option Departure
  pub last_known_epoch : Option ℕ
  pub last_heartbeat_seq : ℕ
  pub seen_outbound_msg_ids : List Text
  pub transcript : ResidencyRecord
  pub memories : List EpochMemory
  pub epoch_memory : ℕ
  pub emitted : List SessionLifecycleEvent
  pub session_end_msg_counter : ℕ

-- The fields that the constructor initialises.
unfoldable pub create : ResidencyRecord → Door
unfolding empty_epoch_memory
create transcript = record {
  active_session = none;
  session_retired = false;
  last_departure = none;
  last_known_epoch = none;
  last_heartbeat_seq = 0;
  seen_outbound_msg_ids = [];
  transcript = transcript;
  memories = empty_epoch_memory ∷ [];
  epoch_memory = 0;
  emitted = [];
  session_end_msg_counter = 0;
}

unfoldable pub emit : SessionLifecycleEvent → Door → Door
emit event door = record door { emitted = door.emitted ++ event ∷ [] }

pub data AttestKind : Type 0 where
  arrival_kind heartbeat_kind memory_kind departure_kind : AttestKind

pub kind_text : AttestKind → Text
kind_text arrival_kind = text "arrival"
kind_text heartbeat_kind = text "heartbeat"
kind_text memory_kind = text "memory"
kind_text departure_kind = text "departure"

pub record AttestRequest : Type 0 where
  pub door_id : Text
  pub epoch : ℕ
  pub kind : AttestKind
  pub core : Text
  pub session_pubkey : Text
  pub prose : Option Text
  pub issued_at : Text
  pub sig : Text

-- The payloads have no key `__proto__`, so `canonicalize` gives their bytes.
pub attest_signing_payload : AttestRequest → Bytes
unfolding kind_text
attest_signing_payload request = canonical_bytes (
    object_of (
      (text "door_id", string_value request.door_id)
      ∷ (text "epoch", number_value request.epoch)
      ∷ (text "kind", string_value (kind_text request.kind))
      ∷ (text "core", string_value request.core)
      ∷ (text "session_pubkey", string_value request.session_pubkey)
      ∷ (text "issued_at", string_value request.issued_at)
      ∷ []))

pub record AttestResponse : Type 0 where
  pub door_id : Text
  pub epoch : ℕ
  pub kind : AttestKind
  pub door_cosig : Text
  pub received_at : Text
  pub door_sig : Text

pub record HeartbeatRequest : Type 0 where
  pub protocol_version : Text
  pub door_id : Text
  pub epoch : ℕ
  pub session_pubkey : Text
  pub seq : ℕ
  pub issued_at : Text
  pub sig : Text

pub heartbeat_signing_payload : HeartbeatRequest → Bytes
heartbeat_signing_payload request = canonical_bytes (
    object_of (
      (text "protocol_version", string_value request.protocol_version)
      ∷ (text "door_id", string_value request.door_id)
      ∷ (text "epoch", number_value request.epoch)
      ∷ (text "session_pubkey", string_value request.session_pubkey)
      ∷ (text "seq", number_value request.seq)
      ∷ (text "issued_at", string_value request.issued_at)
      ∷ []))

pub record HeartbeatResponse : Type 0 where
  pub door_id : Text
  pub epoch : ℕ
  pub seq : ℕ
  pub accepted : Bool
  pub received_at : Text
  pub door_sig : Text
