-- ===== src/RoomLog/Lookup.antt =====
-- room-log.ts: lookups by message id in a log that messages have filled, with unique ids
-- (spec/door/api.md: unique within a session stream).
use npc_of_the_internet.Shared.{
  ℕ, ◌≡◌, ◌≢◌, refl, sym, ap, subst, ◌∙◌, ◌↔◌, inl, inr, Option, some, List, [], ◌∷◌, ◌++◌, true,
  false, Text, length, ltb, put, remove, nat_eq, text_eq, In, In-append, In-map, latest, map,
  Bool-cases,
}
use npc_of_the_internet.RoomLog.Latest.{
  at_least_one, gist, gist_of, HoldsLatest, replay-HoldsLatest,
}
use npc_of_the_internet.RoomLog.{
  RoomEntry, RoomLog, create, evict, push, human_entry, add_human, self_entry, add_self,
  get_by_msg_id, Message, heard, said, replay,
}
use npc_of_the_internet.RoomLog.Index.{IsIndexed, push-IsIndexed, create-IsIndexed}

abbrev pub id_of : Message → Text
id_of (heard args) = args.msg_id
id_of (said msg_id _ _) = msg_id

-- No two messages have the same id.
abbrev pub DistinctMessages : List Message → Type 0
DistinctMessages [] = Unit
DistinctMessages (m ∷ ms) =
    ((other : Message) → In other ms → id_of m ≢ id_of other) × DistinctMessages ms

-- No entry has the id of a message to come.
abbrev Awaits : RoomLog → List Message → Type 0
Awaits log ms = (x : RoomEntry) (m : Message) → In x log.entries → In m ms → x.msg_id ≢ id_of m

evict-In :
    (max : ℕ) (es : List RoomEntry) (index : List (Text × RoomEntry)) (x : RoomEntry)
    → In x (evict max es index).0
    → In x es
unfolding evict
evict-In max [] index x h = h
evict-In max (e ∷ es) index x h = elim (Bool-cases (ltb max (length (e ∷ es)))) [
  | inl over ↦ inr (evict-In max es (remove e.msg_id index) x (subst (In x) (evict_over over) h))
  | inr fits ↦ subst (In x) (evict_fits fits) h
]
  where
    evict_over :
        ltb max (length (e ∷ es)) ≡ true
        → (evict max (e ∷ es) index).0 ≡ (evict max es (remove e.msg_id index)).0
    evict_over over = rw over refl

    evict_fits : ltb max (length (e ∷ es)) ≡ false → (evict max (e ∷ es) index).0 ≡ e ∷ es
    evict_fits fits = rw fits refl

push-Awaits :
    (e : RoomEntry) (log : RoomLog) (m : Message) (ms : List Message)
    → e.msg_id ≡ id_of m
    → DistinctMessages (m ∷ ms)
    → Awaits log (m ∷ ms)
    → Awaits (push e log) ms
unfolding push
push-Awaits e log m ms same (distinct, _) awaits x other h k =
    elim ((In-append x log.entries (e ∷ [])).0
      (evict-In log.max_entries (log.entries ++ e ∷ []) (put e.msg_id e log.by_msg_id) x h)) [
        | inl there ↦ awaits x other there (inr k)
        | inr last ↦ elim last [
          | inl here ↦ λ clash. distinct other k (sym same ∙ ap (λ y. y.msg_id) here ∙ clash)
          | inr nowhere ↦ absurd nowhere
        ]
      ]

push-IsIndexed_next :
    (e : RoomEntry) (log : RoomLog) (m : Message) (ms : List Message)
    → e.msg_id ≡ id_of m
    → Awaits log (m ∷ ms)
    → IsIndexed log
    → IsIndexed (push e log)
push-IsIndexed_next e log m ms same awaits h =
    push-IsIndexed e log (λ x k clash. awaits x m k (inl refl) (clash ∙ same)) h

replay-IsIndexed :
    (sanitize_display : Option Text → Text) (messages : List Message) (log : RoomLog)
    → DistinctMessages messages
    → Awaits log messages
    → IsIndexed log
    → IsIndexed (replay sanitize_display log messages)
unfolding replay add_human add_self human_entry self_entry
replay-IsIndexed sanitize_display [] log distinct awaits h = h
replay-IsIndexed sanitize_display (heard args ∷ rest) log distinct awaits h =
    let e = human_entry sanitize_display args log in
    replay-IsIndexed sanitize_display rest (push e log) distinct.1
      (push-Awaits e log (heard args) rest refl distinct awaits)
      (push-IsIndexed_next e log (heard args) rest refl awaits h)
replay-IsIndexed sanitize_display (said msg_id prose reply_to ∷ rest) log distinct awaits h =
    let e = self_entry msg_id prose reply_to log in
    replay-IsIndexed sanitize_display rest (push e log) distinct.1
      (push-Awaits e log (said msg_id prose reply_to) rest refl distinct awaits)
      (push-IsIndexed_next e log (said msg_id prose reply_to) rest refl awaits h)

create-Awaits : (max : ℕ) (ms : List Message) → Awaits (create max) ms
unfolding create
create-Awaits max ms x m h k = absurd h

ids-latest :
    (sanitize_display : Option Text → Text) (bound : ℕ) (messages : List Message) (log : RoomLog)
    → HoldsLatest sanitize_display bound messages log
    → map (λ e. e.msg_id) log.entries ≡ map id_of (latest bound messages)
ids-latest sanitize_display bound messages log h =
    firsts log.entries (latest bound messages) h.latest_messages
  where
    firsts :
        (es : List RoomEntry) (ms : List Message)
        → map gist es ≡ map (gist_of sanitize_display) ms
        → map (λ e. e.msg_id) es ≡ map id_of ms
    firsts [] [] k = refl
    firsts [] (m ∷ ms) k = absurd (cc k)
    firsts (e ∷ es) [] k = absurd (cc k)
    firsts (e ∷ es) (heard args ∷ ms) k = let rest = firsts es ms (cc k) in cc (k, rest)
    firsts (e ∷ es) (said msg_id prose reply_to ∷ ms) k =
        let rest = firsts es ms (cc k) in cc (k, rest)

-- If no two of the messages have the same id, then in the log after them, evictions included, an id
-- finds an entry exactly if the entry is in the log and has that id, and an id finds some entry exactly
-- if it is that of one of the latest messages, as many as the log was made for (or one).
pub replay_finds_iff :
    (sanitize_display : Option Text → Text) (max : ℕ) (messages : List Message) (msg_id : Text)
    (e : RoomEntry)
    → DistinctMessages messages
    → ((get_by_msg_id msg_id (replay sanitize_display (create max) messages) ≡ some e)
        ↔ (In e (replay sanitize_display (create max) messages).entries × (e.msg_id ≡ msg_id)))
      × (((found : RoomEntry) × (get_by_msg_id msg_id
                (replay sanitize_display (create max) messages)
              ≡ some found))
          ↔ In msg_id (map id_of (latest (at_least_one max) messages)))
unfolding get_by_msg_id
replay_finds_iff sanitize_display max messages msg_id e distinct = (
  h.indexes msg_id e,
  (
    (λ (found, k).
        let (there, same) = (h.indexes msg_id found).0 k in
        subst (In msg_id) ids ((In-map (λ x. x.msg_id) msg_id log.entries).1 (found, there, same))),
    λ k.
        let (found, there, same) =
          (In-map (λ x. x.msg_id) msg_id log.entries).0 (subst (In msg_id) (sym ids) k) in
        (found, (h.indexes msg_id found).1 (there, same)),
  ),
)
  where
    log : RoomLog
    log = replay sanitize_display (create max) messages

    h : IsIndexed log
    h =
        replay-IsIndexed sanitize_display messages (create max) distinct
          (create-Awaits max messages) (create-IsIndexed max)

    ids : map (λ x. x.msg_id) log.entries ≡ map id_of (latest (at_least_one max) messages)
    ids =
        ids-latest sanitize_display (at_least_one max) messages log
          (replay-HoldsLatest sanitize_display max messages)
