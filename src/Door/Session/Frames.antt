-- ===== src/Door/Session/Frames.antt =====
-- door-sdk/src/door.ts: inbound and outbound frames, and their record.
use npc_of_the_internet.Shared.{
  ℕ, ◌-◌, Option, none, some, List, [], ◌∷◌, ◌++◌, Bool, false, not, ◌||◌, Text, text, length, drop,
  includes, add, ◌==◌, nat_eq, text_eq, if◌then◌else◌,
}
use npc_of_the_internet.Base64Url.{Bytes, decode_signature, decode_public_key}
use npc_of_the_internet.Canonical.{Json, number_value, string_value, object_of, canonical_bytes}
use npc_of_the_internet.Door.{
  session_invalid, signature_invalid, msg_replay, Answer, answered, refused, ◌>>=◌, ◌>>◌, require,
  decoded, or_refuse, Host, DoorOptions, ActiveSession, Door,
}
use npc_of_the_internet.Door.Transcript.{community, wanderer, record_line}
use npc_of_the_internet.Door.Session.{assert_issued_at_fresh}

pub record OutboundReaction : Type 0 where
  pub emoji : Text
  pub target_msg_id : Text

pub record OutboundFrame : Type 0 where
  pub door_id : Text
  pub epoch : ℕ
  pub msg_id : Text
  pub issued_at : Text
  pub prose : Option Text
  pub reply_to : Option Text
  pub channel_id : Option Text
  pub reaction : Option OutboundReaction
  pub sig : Text

-- A member that is there only if the body has it.
abbrev optional_text : Text → Option Text → List (Text × Json)
optional_text key none = []
optional_text key (some value) = (key, string_value value) ∷ []

reaction_json : Option OutboundReaction → List (Text × Json)
reaction_json none = []
reaction_json (some reaction) =
    (
      text "reaction",
      object_of (
          (text "emoji", string_value reaction.emoji)
          ∷ (text "target_msg_id", string_value reaction.target_msg_id)
          ∷ []),
    )
    ∷ []

outbound_body : OutboundFrame → Json
unfolding reaction_json
outbound_body frame = object_of (
    optional_text (text "text") frame.prose
    ++ optional_text (text "reply_to") frame.reply_to
    ++ optional_text (text "channel_id") frame.channel_id
    ++ reaction_json frame.reaction)

unfoldable pub outbound_signing_payload : OutboundFrame → Bytes
unfolding outbound_body
outbound_signing_payload frame = canonical_bytes (
    object_of (
      (text "type", string_value (text "outbound"))
      ∷ (text "door_id", string_value frame.door_id)
      ∷ (text "epoch", number_value frame.epoch)
      ∷ (text "msg_id", string_value frame.msg_id)
      ∷ (text "issued_at", string_value frame.issued_at)
      ∷ (text "body", outbound_body frame)
      ∷ []))

-- `verifyOutbound`, which throws if a signature or the key does not decode
unfoldable pub verify_outbound : Host → DoorOptions → OutboundFrame → Door → Answer Bool
verify_outbound host options frame door = elim door.active_session [
  | none ↦ answered false
  | some session ↦
      if not (frame.door_id == options.door_id) || not (frame.epoch == session.epoch)
      then answered false
      else do
        signature ← decoded (decode_signature frame.sig)
        key ← decoded (decode_public_key session.session_pubkey)
        answered (host.verify (outbound_signing_payload frame) signature key)
]

-- All checks of `handleOutbound`, in their order.
unfoldable pub check_outbound :
    Host → DoorOptions → (now : Text) → OutboundFrame → Door → Answer (Unit {0})
unfolding verify_outbound assert_issued_at_fresh
check_outbound host options now frame door = do
  require (frame.door_id == options.door_id) session_invalid
  session ← or_refuse door.active_session session_invalid
  require (frame.epoch == session.epoch) session_invalid
  genuine ← verify_outbound host options frame door
  require genuine signature_invalid
  assert_issued_at_fresh host options now frame.issued_at
  require (not (includes door.seen_outbound_msg_ids frame.msg_id)) msg_replay

abbrev pub outbound_msg_id_memory : ℕ
outbound_msg_id_memory = 10000

-- The loop that forgets the oldest ids: one is added at a time, so the surplus is dropped.
unfoldable pub trim_seen : ℕ → List Text → List Text
trim_seen memory seen = drop (length seen - memory) seen

-- The Wanderer's words, if the frame has any, go on record.
unfoldable pub record_words : (issued_at : Text) → Option Text → Door → Door
record_words issued_at none door = door
record_words issued_at (some prose) door = record door {
  transcript =
      record_line record { role = wanderer; author = none; prose = prose; at = issued_at }
        door.transcript;
}

unfoldable pub accept_outbound : ℕ → OutboundFrame → Door → Door
unfolding trim_seen record_words
accept_outbound memory frame door = record (record_words frame.issued_at frame.prose door) {
  seen_outbound_msg_ids = trim_seen memory (add frame.msg_id door.seen_outbound_msg_ids);
}

-- A frame after its checks.
unfoldable pub deliver : ℕ → OutboundFrame → Answer (Unit {0}) → Door → Door × Answer (Unit {0})
unfolding accept_outbound
deliver memory frame (refused e) door = (door, refused e)
deliver memory frame (answered _) door = (accept_outbound memory frame door, answered tt)

-- `handleOutbound`, with the size of the memory of ids
unfoldable pub handle_outbound :
    Host → DoorOptions → ℕ → (now : Text) → OutboundFrame → Door → Door × Answer (Unit {0})
unfolding check_outbound deliver
handle_outbound host options memory now frame door =
    deliver memory frame (check_outbound host options now frame door) door

pub record InboundBody : Type 0 where
  pub prose : Text
  pub author_id : Text
  pub author_display : Option Text
  pub reply_to : Option Text
  pub channel_id : Option Text
  pub addressed : Option Bool

pub record InboundFrame : Type 0 where
  pub door_id : Text
  pub epoch : ℕ
  pub msg_id : Text
  pub issued_at : Text
  pub body : InboundBody

abbrev author_of : InboundBody → Text
author_of body = elim body.author_display [ none ↦ body.author_id | some display ↦ display ]

unfoldable pub inbound_in :
    DoorOptions
    → (now msg_id : Text) → InboundBody
    → Option ActiveSession
    → Door
    → Door × Answer InboundFrame
inbound_in options now msg_id body none door = (door, refused session_invalid)
inbound_in options now msg_id body (some session) door = (
  record door {
    transcript =
        record_line
          record { role = community; author = some (author_of body); prose = body.prose; at = now }
          door.transcript;
  },
  answered record {
    door_id = options.door_id;
    epoch = session.epoch;
    msg_id = msg_id;
    issued_at = now;
    body = body;
  },
)

unfoldable pub create_inbound_frame :
    DoorOptions → (now msg_id : Text) → InboundBody → Door → Door × Answer InboundFrame
unfolding inbound_in
create_inbound_frame options now msg_id body door =
    inbound_in options now msg_id body door.active_session door
