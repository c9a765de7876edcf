-- ===== src/RoomLog/Latest.antt =====
-- room-log.ts: the log holds the latest messages of the room, in order and numbered.
use npc_of_the_internet.Shared.{
  ℕ, zero, suc, ◌+◌, ◌-◌, ◌≤◌, ◌≡◌, refl, sym, ap, subst, ◌∙◌, inl, inr, Option, List, [], ◌∷◌,
  ◌++◌, map, true, false, Text, length, drop, latest, latest-append, map-append, length-map,
  map-latest, ltb, put, remove, nat_eq, text_eq, arith, Bool-cases,
}
use mathlib.Core.List.{append_assoc, append-nil}
use npc_of_the_internet.RoomLog.{
  RoomSpeaker, human, self, RoomEntry, RoomLog, create, evict, push, human_entry, add_human,
  self_entry, add_self, Message, heard, said, replay,
}
use npc_of_the_internet.RoomLog.Window.{Numbered, Numbered-append}

abbrev pub at_least_one : ℕ → ℕ
at_least_one zero = 1
at_least_one (suc n) = suc n

-- The id, the text and the speaker of an entry, and of a message.
abbrev pub gist : RoomEntry → Text × Text × RoomSpeaker
gist e = (e.msg_id, e.prose, e.speaker)

abbrev pub gist_of : (Option Text → Text) → Message → Text × Text × RoomSpeaker
gist_of sanitize_display (heard args) =
    (args.msg_id, args.prose, human args.author_id (sanitize_display args.author_display))
gist_of sanitize_display (said msg_id prose _) = (msg_id, prose, self)

-- The log holds the latest `bound` of the messages, which are numbered from 1.
pub record HoldsLatest (sanitize_display : Option Text → Text) (bound : ℕ) (messages : List Message)
    (log : RoomLog) : Type 0 where
  pub latest_messages :
      map gist log.entries ≡ map (gist_of sanitize_display) (latest bound messages)
  pub numbered : Numbered (suc (length messages - bound)) log.entries (suc (length messages))
  pub next_number : log.next_ref ≡ suc (length messages)

nothing_before : (n : ℕ) → 0 ≡ 0 - n
nothing_before n = omega arith

evict-latest :
    (max : ℕ) (es : List RoomEntry) (index : List (Text × RoomEntry))
    → (evict max es index).0 ≡ latest max es
unfolding evict
evict-latest max [] index = ap (λ n. drop n []) (nothing_before max)
evict-latest max (e ∷ es) index = elim (Bool-cases (ltb max (length (e ∷ es)))) [
  | inl over ↦ rw over (
      evict-latest max es (remove e.msg_id index)
      ∙ ap (λ n. drop n (e ∷ es)) (later max (length es) (ground arith)))
  | inr fits ↦ rw fits (ap (λ n. drop n (e ∷ es)) (none_dropped max (length es) (ground arith)))
]
  where
    later : (m n : ℕ) → ltb m (suc n) ≡ true → suc (n - m) ≡ suc n - m
    later m n h = ground arith

    none_dropped : (m n : ℕ) → ltb m (suc n) ≡ false → 0 ≡ suc n - m
    none_dropped m n h = ground arith

-- The log keeps the latest of all entries that there ever were.
record Follows (sanitize_display : Option Text → Text) (bound : ℕ) (messages : List Message)
    (log : RoomLog) : Type 0 where
  every : List RoomEntry
  kept : log.entries ≡ latest bound every
  bounded : log.max_entries ≡ bound
  counted : Numbered 1 every log.next_ref
  told : map gist every ≡ map (gist_of sanitize_display) messages

push-Follows :
    (sanitize_display : Option Text → Text) (bound : ℕ) (messages : List Message) (log : RoomLog)
    (e : RoomEntry) (message : Message)
    → e.ref ≡ log.next_ref
    → gist e ≡ gist_of sanitize_display message
    → Follows sanitize_display bound messages log
    → Follows sanitize_display bound (messages ++ message ∷ []) (push e log)
unfolding push
push-Follows sanitize_display bound messages log e message next same h = record {
  every = h.every ++ e ∷ [];
  kept =
      evict-latest log.max_entries (log.entries ++ e ∷ []) (put e.msg_id e log.by_msg_id)
      ∙ ap (λ n. latest n (log.entries ++ e ∷ [])) h.bounded
      ∙ ap (λ es. latest bound (es ++ e ∷ [])) h.kept
      ∙ latest-append bound h.every e;
  bounded = h.bounded;
  counted = Numbered-append 1 log.next_ref h.every e h.counted next;
  told =
      map-append gist h.every (e ∷ [])
      ∙ ap (λ gs. gs ++ gist e ∷ []) h.told
      ∙ ap (λ g. map (gist_of sanitize_display) messages ++ g ∷ []) same
      ∙ sym (map-append (gist_of sanitize_display) messages (message ∷ []));
}

replay-Follows :
    (sanitize_display : Option Text → Text) (bound : ℕ) (before messages : List Message)
    (log : RoomLog)
    → Follows sanitize_display bound before log
    → Follows sanitize_display bound (before ++ messages) (replay sanitize_display log messages)
unfolding replay add_human add_self human_entry self_entry
replay-Follows sanitize_display bound before [] log h =
    subst (λ ms. Follows sanitize_display bound ms log) (sym (append-nil before)) h
replay-Follows sanitize_display bound before (heard args ∷ rest) log h =
    subst
      (λ ms.
        Follows sanitize_display bound ms
          (replay sanitize_display (add_human sanitize_display args log) rest))
      (append_assoc before (heard args ∷ []) rest)
      (replay-Follows sanitize_display bound (before ++ heard args ∷ []) rest
        (add_human sanitize_display args log)
        (push-Follows sanitize_display bound before log (human_entry sanitize_display args log)
          (heard args) refl refl h))
replay-Follows sanitize_display bound before (said msg_id prose reply_to ∷ rest) log h =
    subst
      (λ ms.
        Follows sanitize_display bound ms
          (replay sanitize_display (add_self msg_id prose reply_to log) rest))
      (append_assoc before (said msg_id prose reply_to ∷ []) rest)
      (replay-Follows sanitize_display bound (before ++ said msg_id prose reply_to ∷ []) rest
        (add_self msg_id prose reply_to log)
        (push-Follows sanitize_display bound before log (self_entry msg_id prose reply_to log)
          (said msg_id prose reply_to) refl refl h))

create-Follows :
    (sanitize_display : Option Text → Text) (max : ℕ)
    → Follows sanitize_display (at_least_one max) [] (create max)
unfolding create
create-Follows sanitize_display max = record {
  every = [];
  kept = ap (λ n. drop n []) (nothing_before (at_least_one max));
  bounded = positive max;
  counted = refl;
  told = refl;
}
  where
    positive : (max : ℕ) → (create max).max_entries ≡ at_least_one max
    positive zero = refl
    positive (suc n) = ground arith

Numbered-drop :
    (n first next : ℕ) (es : List RoomEntry)
    → Numbered first es next
    → n ≤ length es
    → Numbered (first + n) (drop n es) next
Numbered-drop zero first next es h k = subst (λ m. Numbered m es next) (omega arith) h
Numbered-drop (suc n) first next [] h k = absurd (omega (arith, k))
Numbered-drop (suc n) first next (e ∷ es) (r, h) k =
    subst (λ m. Numbered m (drop n es) next) (omega arith)
      (Numbered-drop n (suc first) next es h (omega (arith, k)))

Numbered-next :
    (first next : ℕ) (es : List RoomEntry) → Numbered first es next → next ≡ first + length es
Numbered-next first next [] h = omega (arith, h)
Numbered-next first next (e ∷ es) (r, h) = omega (arith, Numbered-next (suc first) next es h)

Follows-HoldsLatest :
    (sanitize_display : Option Text → Text) (bound : ℕ) (messages : List Message) (log : RoomLog)
    → Follows sanitize_display bound messages log
    → HoldsLatest sanitize_display bound messages log
Follows-HoldsLatest sanitize_display bound messages log h = record {
  latest_messages =
      ap (map gist) h.kept
      ∙ map-latest gist bound h.every
      ∙ ap (latest bound) h.told
      ∙ sym (map-latest (gist_of sanitize_display) bound messages);
  numbered =
      subst (λ next. Numbered (suc (length messages - bound)) log.entries next) next
        (subst (λ es. Numbered (suc (length messages - bound)) es log.next_ref) (sym h.kept)
          (subst (λ n. Numbered n (latest bound h.every) log.next_ref) first
            (Numbered-drop (length h.every - bound) 1 log.next_ref h.every h.counted
              (omega arith))));
  next_number = next;
}
  where
    as_many : length h.every ≡ length messages
    as_many =
        sym (length-map gist h.every)
        ∙ ap length h.told
        ∙ length-map (gist_of sanitize_display) messages

    first : 1 + (length h.every - bound) ≡ suc (length messages - bound)
    first = omega (arith, as_many)

    next : log.next_ref ≡ suc (length messages)
    next = omega (arith, as_many, Numbered-next 1 log.next_ref h.every h.counted)

-- After any messages, a log that was made for `max` entries holds exactly the latest of them, in order,
-- as many as `max` (or one, if `max` is 0) or all if there are fewer: their ids, texts and speakers, each
-- under the number that the message has when one counts from 1. The next number is one more than the
-- number of messages.
pub replay-HoldsLatest :
    (sanitize_display : Option Text → Text) (max : ℕ) (messages : List Message)
    → HoldsLatest sanitize_display
        (at_least_one max)
        messages
        (replay sanitize_display (create max) messages)
replay-HoldsLatest sanitize_display max messages =
    Follows-HoldsLatest sanitize_display (at_least_one max) messages
      (replay sanitize_display (create max) messages)
      (replay-Follows sanitize_display (at_least_one max) [] messages (create max)
        (create-Follows sanitize_display max))
