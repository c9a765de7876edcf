-- ===== src/RoomLog/Window.antt =====
-- room-log.ts: the log is a window of consecutive references that ends with the latest message.
use npc_of_the_internet.Shared.{
  ℕ, suc, ◌+◌, ◌≤◌, ◌<◌, ◌≡◌, refl, sym, subst, ◌∙◌, ◌↔◌, inl, inr, Option, some, List, [], ◌∷◌,
  ◌++◌, Text, length, ltb, put, remove, ==_iff, nat_eq, text_eq, arith, In, Bool-cases,
}
use npc_of_the_internet.RoomLog.{
  RoomEntry, RoomLog, create, evict, push, HumanMessage, human_entry, add_human, self_entry,
  add_self, find_ref, resolve_ref, Message, heard, said, replay,
}

-- The references run from `first` up to `next`.
abbrev pub Numbered : ℕ → List RoomEntry → ℕ → Type 0
Numbered first [] next = first ≡ next
Numbered first (e ∷ es) next = (e.ref ≡ first) × Numbered (suc first) es next

pub record IsWindow (log : RoomLog) : Type 0 where
  pub bounded : length log.entries ≤ log.max_entries
  pub positive : 0 < log.max_entries
  pub numbered : (first : ℕ) × Numbered first log.entries log.next_ref

pub Numbered-append :
    (first next : ℕ) (es : List RoomEntry) (e : RoomEntry)
    → Numbered first es next
    → e.ref ≡ next
    → Numbered first (es ++ e ∷ []) (next + 1)
Numbered-append first next [] e h k = (k ∙ sym h, omega arith)
Numbered-append first next (x ∷ es) e (r, h) k = (r, Numbered-append (suc first) next es e h k)

evict-Numbered :
    (max first next : ℕ) (es : List RoomEntry) (index : List (Text × RoomEntry))
    → Numbered first es next
    → (later : ℕ) × Numbered later (evict max es index).0 next
unfolding evict
evict-Numbered max first next [] index h = (first, h)
evict-Numbered max first next (e ∷ es) index (r, h) =
    elim (Bool-cases (ltb max (length (e ∷ es)))) [
      | inl over ↦ rw over (evict-Numbered max (suc first) next es (remove e.msg_id index) h)
      | inr fits ↦ rw fits (first, (r, h))
    ]

evict_bounded :
    (max : ℕ) (es : List RoomEntry) (index : List (Text × RoomEntry))
    → length (evict max es index).0 ≤ max
unfolding evict
evict_bounded max [] index = omega arith
evict_bounded max (e ∷ es) index = ground (arith, evict_bounded max es (remove e.msg_id index))

-- The latest entry stays: the bound is positive.
evict_latest :
    (max : ℕ) (es : List RoomEntry) (e : RoomEntry) (index : List (Text × RoomEntry))
    → 0 < max
    → In e (evict max (es ++ e ∷ []) index).0
unfolding evict
evict_latest max [] e index h = ground arith
evict_latest max (x ∷ es) e index h = elim (Bool-cases (ltb max (length (x ∷ es ++ e ∷ [])))) [
  | inl over ↦ rw over (evict_latest max es e (remove x.msg_id index) h)
  | inr fits ↦ rw fits (inr (last es))
]
  where
    last : (xs : List RoomEntry) → In e (xs ++ e ∷ [])
    last [] = inl refl
    last (y ∷ xs) = inr (last xs)

push-IsWindow :
    (e : RoomEntry) (log : RoomLog)
    → e.ref ≡ log.next_ref
    → IsWindow log
    → IsWindow (push e log) × In e (push e log).entries
unfolding push
push-IsWindow e log h w =
    let (first, n) = w.numbered in
    (
      record {
        bounded =
            evict_bounded log.max_entries (log.entries ++ e ∷ []) (put e.msg_id e log.by_msg_id);
        positive = w.positive;
        numbered =
            evict-Numbered log.max_entries first (log.next_ref + 1) (log.entries ++ e ∷ [])
              (put e.msg_id e log.by_msg_id) (Numbered-append first log.next_ref log.entries e n h);
      },
      evict_latest log.max_entries log.entries e (put e.msg_id e log.by_msg_id) w.positive,
    )

pub create-IsWindow : (max : ℕ) → IsWindow (create max)
unfolding create
create-IsWindow max = record {
  bounded = omega arith;
  positive = ground arith;
  numbered = (1, refl);
}

-- A log that is a window of at most `max_entries` entries with consecutive references up to the next
-- one is such a window after a human message, and holds that message's entry.
pub add_human-IsWindow :
    (sanitize_display : Option Text → Text) (args : HumanMessage) (log : RoomLog)
    → IsWindow log
    → IsWindow (add_human sanitize_display args log)
      × In (human_entry sanitize_display args log) (add_human sanitize_display args log).entries
unfolding add_human human_entry
add_human-IsWindow sanitize_display args log w =
    push-IsWindow (human_entry sanitize_display args log) log refl w

pub add_self-IsWindow :
    (msg_id prose : Text) (reply_to : Option ℕ) (log : RoomLog)
    → IsWindow log
    → IsWindow (add_self msg_id prose reply_to log)
unfolding add_self self_entry
add_self-IsWindow msg_id prose reply_to log w =
    (push-IsWindow (self_entry msg_id prose reply_to log) log refl w).0

-- After any messages from an empty log, the log is a window of at most `max_entries` entries (a
-- positive bound) with consecutive references up to the next one.
pub replay-IsWindow :
    (sanitize_display : Option Text → Text) (max : ℕ) (messages : List Message)
    → IsWindow (replay sanitize_display (create max) messages)
unfolding replay
replay-IsWindow sanitize_display max messages = from (create max) messages (create-IsWindow max)
  where
    from :
        (log : RoomLog) (rest : List Message)
        → IsWindow log
        → IsWindow (replay sanitize_display log rest)
    from log [] w = w
    from log (heard args ∷ rest) w =
        from (add_human sanitize_display args log) rest
          (add_human-IsWindow sanitize_display args log w).0
    from log (said msg_id prose reply_to ∷ rest) w =
        from (add_self msg_id prose reply_to log) rest
          (add_self-IsWindow msg_id prose reply_to log w)

Numbered-lower :
    (first next : ℕ) (es : List RoomEntry) (e : RoomEntry)
    → Numbered first es next
    → In e es
    → first ≤ e.ref
Numbered-lower first next [] e h k = absurd k
Numbered-lower first next (x ∷ es) e (r, h) k = elim k [
  | inl same ↦ subst (λ y. first ≤ y.ref) same (omega (arith, r))
  | inr there ↦ omega (arith, Numbered-lower (suc first) next es e h there)
]

find_ref_iff :
    (first next n : ℕ) (es : List RoomEntry) (e : RoomEntry)
    → Numbered first es next
    → (find_ref n es ≡ some e) ↔ (In e es × (e.ref ≡ n))
unfolding find_ref
find_ref_iff first next n [] e h = ((λ k. absurd (cc k)), λ k. absurd k.0)
find_ref_iff first next n (x ∷ es) e (r, h) = ground (
  arith,
  ==_iff x.ref n,
  find_ref_iff (suc first) next n es e h,
  Numbered-lower (suc first) next es e h,
)

-- In a log that is a window, a reference resolves to an entry exactly if the entry is in the log and
-- carries the reference.
pub resolve_ref_iff :
    (n : ℕ) (log : RoomLog) (e : RoomEntry)
    → IsWindow log
    → (resolve_ref n log ≡ some e) ↔ (In e log.entries × (e.ref ≡ n))
unfolding resolve_ref
resolve_ref_iff n log e w =
    let (first, h) = w.numbered in find_ref_iff first log.next_ref n log.entries e h
