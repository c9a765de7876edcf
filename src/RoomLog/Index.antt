-- ===== src/RoomLog/Index.antt =====
-- room-log.ts: `byMsgId` finds exactly the entries of the log, as long as message ids are unique
-- among them (spec/door/api.md: unique within a session stream).
use npc_of_the_internet.Shared.{
  ℕ, ◌≡◌, ◌≢◌, refl, sym, ap, ◌∙◌, ◌↔◌, inl, inr, some, List, [], ◌∷◌, ◌++◌, true, Text, length,
  ltb, get, put, remove, get-put, get-remove, ==_iff, nat_eq, text_eq, arith, In, In-append,
  Bool-cases, Option-cases,
}
use npc_of_the_internet.RoomLog.{
  RoomSpeaker, human, self, is_self, is_self_message, RoomEntry, RoomLog, create, evict, push,
  get_by_msg_id,
}

abbrev pub DistinctIds : List RoomEntry → Type 0
DistinctIds [] = Unit
DistinctIds (e ∷ es) = ((x : RoomEntry) → In x es → x.msg_id ≢ e.msg_id) × DistinctIds es

-- The index finds an entry under its message id exactly if the entry is in the log.
abbrev pub Indexes : List (Text × RoomEntry) → List RoomEntry → Type 0
Indexes index es =
    (msg_id : Text) (e : RoomEntry) → (get msg_id index ≡ some e) ↔ (In e es × (e.msg_id ≡ msg_id))

pub record IsIndexed (log : RoomLog) : Type 0 where
  pub distinct : DistinctIds log.entries
  pub indexes : Indexes log.by_msg_id log.entries

remove-Indexes :
    (index : List (Text × RoomEntry)) (d : RoomEntry) (es : List RoomEntry)
    → DistinctIds (d ∷ es)
    → Indexes index (d ∷ es)
    → Indexes (remove d.msg_id index) es
remove-Indexes index d es (fresh, _) h msg_id e =
    ground (arith, get-remove d.msg_id msg_id index, ==_iff d.msg_id msg_id, h msg_id e, fresh e)

evict-Indexes :
    (max : ℕ) (es : List RoomEntry) (index : List (Text × RoomEntry))
    → DistinctIds es
    → Indexes index es
    → DistinctIds (evict max es index).0 × Indexes (evict max es index).1 (evict max es index).0
unfolding evict
evict-Indexes max [] index d h = (tt, h)
evict-Indexes max (e ∷ es) index d h = elim (Bool-cases (ltb max (length (e ∷ es)))) [
  | inl over ↦
      rw over (evict-Indexes max es (remove e.msg_id index) d.1 (remove-Indexes index e es d h))
  | inr fits ↦ rw fits (d, h)
]

DistinctIds-append :
    (es : List RoomEntry) (e : RoomEntry)
    → DistinctIds es
    → ((x : RoomEntry) → In x es → x.msg_id ≢ e.msg_id)
    → DistinctIds (es ++ e ∷ [])
DistinctIds-append [] e d fresh = ((λ x h. absurd h), tt)
DistinctIds-append (y ∷ es) e (d, ds) fresh = (
  (λ x h k. elim ((In-append x es (e ∷ [])).0 h) [
    | inl there ↦ d x there k
    | inr last ↦ elim last [
      | inl same ↦ fresh y (inl refl) (sym k ∙ ap (λ z. z.msg_id) (sym same))
      | inr nowhere ↦ absurd nowhere
    ]
  ]),
  DistinctIds-append es e ds (λ x h. fresh x (inr h)),
)

put-Indexes :
    (index : List (Text × RoomEntry)) (es : List RoomEntry) (e : RoomEntry)
    → ((x : RoomEntry) → In x es → x.msg_id ≢ e.msg_id)
    → Indexes index es
    → Indexes (put e.msg_id e index) (es ++ e ∷ [])
put-Indexes index es e fresh h msg_id x = ground (
  arith,
  get-put e.msg_id msg_id e index,
  ==_iff e.msg_id msg_id,
  h msg_id x,
  fresh x,
  In-append x es (e ∷ []),
)

pub push-IsIndexed :
    (e : RoomEntry) (log : RoomLog)
    → ((x : RoomEntry) → In x log.entries → x.msg_id ≢ e.msg_id)
    → IsIndexed log
    → IsIndexed (push e log)
unfolding push
push-IsIndexed e log fresh h =
    let (distinct, indexes) =
      evict-Indexes log.max_entries (log.entries ++ e ∷ []) (put e.msg_id e log.by_msg_id)
        (DistinctIds-append log.entries e h.distinct fresh)
        (put-Indexes log.by_msg_id log.entries e fresh h.indexes) in
    record { distinct = distinct; indexes = indexes }

pub create-IsIndexed : (max : ℕ) → IsIndexed (create max)
unfolding create
create-IsIndexed max = record {
  distinct = tt;
  indexes = λ msg_id e. ((λ h. absurd (cc h)), λ h. absurd h.0);
}

is_self_iff : (s : RoomSpeaker) → (is_self s ≡ true) ↔ (s ≡ self)
is_self_iff self = ((λ _. refl), λ _. refl)
is_self_iff (human a d) = ((λ h. absurd (cc h)), λ h. absurd (cc h))

-- In a log with an exact index, a message id is that of one of the Wanderer's own messages exactly if
-- an entry of the log with that id was said by the Wanderer.
pub is_self_message_iff :
    (msg_id : Text) (log : RoomLog)
    → IsIndexed log
    → (is_self_message (some msg_id) log ≡ true)
      ↔ ((e : RoomEntry) × In e log.entries × (e.msg_id ≡ msg_id) × (e.speaker ≡ self))
unfolding is_self_message get_by_msg_id
is_self_message_iff msg_id log h = (to, from)
  where
    to :
        is_self_message (some msg_id) log ≡ true
        → (e : RoomEntry) × In e log.entries × (e.msg_id ≡ msg_id) × (e.speaker ≡ self)
    to k = elim (Option-cases (get msg_id log.by_msg_id)) [
      | inl missing ↦ absurd (ground arith)
      | inr (e, found) ↦
          (let (live, same) = (h.indexes msg_id e).0 found in
            (e, live, same, (is_self_iff e.speaker).0 (ground arith)))
    ]

    from :
        ((e : RoomEntry) × In e log.entries × (e.msg_id ≡ msg_id) × (e.speaker ≡ self))
        → is_self_message (some msg_id) log ≡ true
    from (e, live, same, by_self) =
        rw ((h.indexes msg_id e).1 (live, same), is_self_message)
          ((is_self_iff e.speaker).1 by_self)
