-- ===== src/RoomLog.antt =====
-- runtime/src/attention/room-log.ts: `RoomLog`, the bounded log of a residency's room.
pub mod Window
pub mod Latest
pub mod Index
pub mod Lookup
mod Tests
use npc_of_the_internet.Shared.{
  ℕ, suc, ◌+◌, Option, none, some, List, [], ◌∷◌, ◌++◌, Bool, true, false, Text, length, drop, ◌-◌,
  ltb, get, put, remove, ◌==◌, nat_eq, text_eq, if◌then◌else◌,
}

pub data RoomSpeaker : Type 0 where
  human : (author_id display : Text) → RoomSpeaker
  self : RoomSpeaker

pub record RoomEntry : Type 0 where
  pub ref : ℕ
  pub msg_id : Text
  pub speaker : RoomSpeaker
  pub prose : Text
  pub addressed : Bool
  pub reply_to_ref : Option ℕ
  pub channel_id : Option Text

pub record RoomLog : Type 0 where
  pub entries : List RoomEntry
  pub by_msg_id : List (Text × RoomEntry)
  pub next_ref : ℕ
  pub max_entries : ℕ

-- The constructor; `Math.max(1, maxEntries)`
pub create : ℕ → RoomLog
create max_entries = record {
  entries = [];
  by_msg_id = [];
  next_ref = 1;
  max_entries = if ltb max_entries 1 then 1 else max_entries;
}

-- `while (this.entries.length > this.maxEntries)`
pub evict : ℕ → List RoomEntry → List (Text × RoomEntry) → List RoomEntry × List (Text × RoomEntry)
evict max [] index = ([], index)
evict max (dropped ∷ rest) index =
    let shorter = evict max rest (remove dropped.msg_id index) in
    if ltb max (length (dropped ∷ rest)) then shorter else (dropped ∷ rest, index)

pub push : RoomEntry → RoomLog → RoomLog
unfolding evict
push entry log =
    let kept =
      evict log.max_entries (log.entries ++ entry ∷ []) (put entry.msg_id entry log.by_msg_id) in
    record log { entries = kept.0; by_msg_id = kept.1; next_ref = log.next_ref + 1 }

pub get_by_msg_id : Text → RoomLog → Option RoomEntry
get_by_msg_id msg_id log = get msg_id log.by_msg_id

abbrev ref_of : Option RoomEntry → Option ℕ
ref_of none = none
ref_of (some parent) = some parent.ref

-- The entry that `replyToMsgId` names, if it is known.
pub parent_of : Option Text → RoomLog → Option RoomEntry
unfolding get_by_msg_id
parent_of none log = none
parent_of (some reply_to) log = get_by_msg_id reply_to log

pub record HumanMessage : Type 0 where
  pub msg_id : Text
  pub author_id : Text
  pub author_display : Option Text
  pub prose : Text
  pub addressed : Bool
  pub reply_to_msg_id : Option Text
  pub channel_id : Option Text

-- `sanitizeDisplay` rests on Unicode tables, so it is a parameter.
pub human_entry : (Option Text → Text) → HumanMessage → RoomLog → RoomEntry
unfolding parent_of
human_entry sanitize_display args log = record {
  ref = log.next_ref;
  msg_id = args.msg_id;
  speaker = human args.author_id (sanitize_display args.author_display);
  prose = args.prose;
  addressed = args.addressed;
  reply_to_ref = ref_of (parent_of args.reply_to_msg_id log);
  channel_id = args.channel_id;
}

pub add_human : (Option Text → Text) → HumanMessage → RoomLog → RoomLog
unfolding push human_entry
add_human sanitize_display args log = push (human_entry sanitize_display args log) log

pub self_entry : (msg_id prose : Text) → Option ℕ → RoomLog → RoomEntry
self_entry msg_id prose reply_to_ref log = record {
  ref = log.next_ref;
  msg_id = msg_id;
  speaker = self;
  prose = prose;
  addressed = false;
  reply_to_ref = reply_to_ref;
  channel_id = none;
}

pub add_self : (msg_id prose : Text) → Option ℕ → RoomLog → RoomLog
unfolding push self_entry
add_self msg_id prose reply_to_ref log = push (self_entry msg_id prose reply_to_ref log) log

pub find_ref : ℕ → List RoomEntry → Option RoomEntry
find_ref n [] = none
find_ref n (entry ∷ entries) = if entry.ref == n then some entry else find_ref n entries

-- `resolveRef` of a text that reads `#<n>` or `<n>`
pub resolve_ref : ℕ → RoomLog → Option RoomEntry
unfolding find_ref
resolve_ref n log = find_ref n log.entries

abbrev pub is_self : RoomSpeaker → Bool
is_self self = true
is_self (human _ _) = false

pub is_self_message : Option Text → RoomLog → Bool
unfolding get_by_msg_id
is_self_message none log = false
is_self_message (some msg_id) log = elim (get_by_msg_id msg_id log) [
  | none ↦ false
  | some entry ↦ is_self entry.speaker
]

count_self : List RoomEntry → ℕ
count_self [] = 0
count_self (entry ∷ entries) =
    let rest = count_self entries in if is_self entry.speaker then rest + 1 else rest

-- `this.entries.slice(-Math.max(1, window))`
recent : ℕ → RoomLog → List RoomEntry
recent window log = drop (length log.entries - (if ltb window 1 then 1 else window)) log.entries

-- The share as a fraction: the Wanderer's entries over all recent ones, 0 over 1 if there are none.
pub self_share : ℕ → RoomLog → ℕ × ℕ
unfolding recent count_self
self_share window log =
    if length (recent window log) == 0
    then (0, 1)
    else (count_self (recent window log), length (recent window log))

-- A message of the room.
pub data Message : Type 0 where
  heard : HumanMessage → Message
  said : (msg_id prose : Text) → Option ℕ → Message

-- The log after the messages, in order.
pub replay : (Option Text → Text) → RoomLog → List Message → RoomLog
unfolding add_human add_self
replay sanitize_display log [] = log
replay sanitize_display log (heard args ∷ messages) =
    replay sanitize_display (add_human sanitize_display args log) messages
replay sanitize_display log (said msg_id prose reply_to ∷ messages) =
    replay sanitize_display (add_self msg_id prose reply_to log) messages
