-- ===== src/Door/Session.antt =====
-- door-sdk/src/door.ts: the operations of a bound session: heartbeats, session binding and frames.
pub mod Frames
pub mod Replay
use npc_of_the_internet.Shared.{
  ℕ, ◌+◌, ◌-◌, Option, none, some, List, [], ◌∷◌, ◌++◌, Bool, true, false, not, ◌&&◌, Text, text,
  length, drop, ltb, leb, includes, add, ◌==◌, nat_eq, text_eq, if◌then◌else◌,
}
use npc_of_the_internet.Base64Url.{
  Bytes, Decoded, encode_signature, decode_signature, decode_public_key,
}
use npc_of_the_internet.Canonical.{
  Json, bool_value, number_value, string_value, object_of, canonical_bytes,
}
use npc_of_the_internet.Canonical.Strings.{encode_utf8}
use npc_of_the_internet.Door.{
  DoorError, session_invalid, timestamp_stale, signature_invalid, epoch_closed, epoch_mismatch,
  seq_replay, msg_replay, Answer, answered, refused, ◌>>=◌, ◌>>◌, require, decoded, or_refuse, Host,
  DoorOptions, ActiveSession, Door, HeartbeatRequest, HeartbeatResponse, heartbeat_signing_payload,
}
use npc_of_the_internet.Door.Transcript.{community, wanderer, ResidencyLine, record_line}

abbrev pub distance : ℕ → ℕ → ℕ
distance a b = (a - b) + (b - a)

-- `assertIssuedAtFresh`, at the Door's time `now`
unfoldable pub assert_issued_at_fresh : Host → DoorOptions → Text → Text → Answer (Unit {0})
assert_issued_at_fresh host options now issued_at = do
  issued_ms ← or_refuse (host.date_parse issued_at) timestamp_stale
  now_ms ← or_refuse (host.date_parse now) timestamp_stale
  require (leb (distance now_ms issued_ms) options.max_issued_at_skew_ms) timestamp_stale

unfoldable pub require_active_session :
    DoorOptions → (door_id : Text) → ℕ → (session_pubkey : Text) → Door → Answer (Unit {0})
require_active_session options door_id epoch session_pubkey door = do
  require (not door.session_retired) epoch_closed
  session ← or_refuse door.active_session session_invalid
  require (session.epoch == epoch) session_invalid
  require (session.session_pubkey == session_pubkey) session_invalid
  require (door_id == options.door_id) session_invalid

-- `verify(payload, requestSig, decodePublicKey(sessionPubkey))`
unfoldable pub verify_session : Host → Bytes → Bytes → Text → Answer (Unit {0})
verify_session host payload signature session_pubkey = do
  key ← decoded (decode_public_key session_pubkey)
  require (host.verify payload signature key) signature_invalid

-- `signCanonical` with the Door's key
unfoldable pub sign_canonical : Host → Json → Answer Text
sign_canonical host fields = decoded (encode_signature (host.sign (canonical_bytes fields)))

-- `signDoorCosig`
unfoldable pub sign_door_cosig : Host → Text → Answer Text
sign_door_cosig host core = decoded (encode_signature (host.sign (encode_utf8 core)))

-- All checks of `heartbeat`, in their order.
unfoldable pub check_heartbeat : Host → DoorOptions → HeartbeatRequest → Door → Answer (Unit {0})
unfolding require_active_session verify_session
check_heartbeat host options request door = do
  require (request.door_id == options.door_id) session_invalid
  require_active_session options request.door_id request.epoch request.session_pubkey door
  require (ltb door.last_heartbeat_seq request.seq) seq_replay
  signature ← decoded (decode_signature request.sig)
  verify_session host (heartbeat_signing_payload request) signature request.session_pubkey

heartbeat_response : Host → (now : Text) → HeartbeatRequest → Answer HeartbeatResponse
unfolding sign_canonical
heartbeat_response host now request = do
  door_sig ← sign_canonical host (
      object_of (
        (text "door_id", string_value request.door_id)
        ∷ (text "epoch", number_value request.epoch)
        ∷ (text "seq", number_value request.seq)
        ∷ (text "accepted", bool_value true)
        ∷ (text "received_at", string_value now)
        ∷ []))
  answered record {
    door_id = request.door_id;
    epoch = request.epoch;
    seq = request.seq;
    accepted = true;
    received_at = now;
    door_sig = door_sig;
  }

-- The heartbeat after its checks.
unfoldable pub beat :
    Host
    → (now : Text) → HeartbeatRequest
    → Answer (Unit {0})
    → Door
    → Door × Answer HeartbeatResponse
unfolding heartbeat_response
beat host now request (refused e) door = (door, refused e)
beat host now request (answered _) door =
    (record door { last_heartbeat_seq = request.seq }, heartbeat_response host now request)

unfoldable pub heartbeat :
    Host → DoorOptions → (now : Text) → HeartbeatRequest → Door → Door × Answer HeartbeatResponse
unfolding check_heartbeat beat
heartbeat host options now request door =
    beat host now request (check_heartbeat host options request door) door

pub record SessionBindParams : Type 0 where
  pub door_id : Text
  pub epoch : ℕ
  pub session_pubkey : Text
  pub session_sig : Text

session_bind_signing_payload : SessionBindParams → Bytes
session_bind_signing_payload params = canonical_bytes (
    object_of (
      (text "door_id", string_value params.door_id)
      ∷ (text "epoch", number_value params.epoch)
      ∷ (text "session_pubkey", string_value params.session_pubkey)
      ∷ []))

unfoldable pub bind_session : Host → DoorOptions → SessionBindParams → Door → Answer (Unit {0})
unfolding require_active_session session_bind_signing_payload
bind_session host options params door = do
  require (params.door_id == options.door_id) session_invalid
  require_active_session options params.door_id params.epoch params.session_pubkey door
  key ← decoded (decode_public_key params.session_pubkey)
  signature ← decoded (decode_signature params.session_sig)
  require (host.verify (session_bind_signing_payload params) signature key) signature_invalid
