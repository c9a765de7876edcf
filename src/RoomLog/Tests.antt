-- ===== src/RoomLog/Tests.antt =====
-- Runs of the room log.
use npc_of_the_internet.Shared.{
  ◌≡◌, ◌≢◌, refl, sym, subst, ◌∙◌, ◌↔◌, inl, inr, Option, none, some, List, [], ◌∷◌, map, latest,
  ◌==◌, ==_iff, false, Text, text, length, nat_eq, text_eq, In,
}
use npc_of_the_internet.RoomLog.{
  RoomEntry, create, HumanMessage, self_share, self, get_by_msg_id, Message, heard, said, replay,
}
use npc_of_the_internet.RoomLog.Latest.{HoldsLatest, replay-HoldsLatest}
use npc_of_the_internet.RoomLog.Lookup.{id_of, DistinctMessages, replay_finds_iff}

abbrev plain : Option Text → Text
plain none = text "someone"
plain (some name) = name

abbrev hello : HumanMessage
hello = record {
  msg_id = text "m1";
  author_id = text "u";
  author_display = none;
  prose = text "hi";
  addressed = false;
  reply_to_msg_id = none;
  channel_id = none;
}

-- The first message is evicted by the third.
replay_test :
    (length
        (replay plain
          (create 2)
          (heard hello ∷ said (text "m2") (text "yo") none ∷ heard hello ∷ [])).entries
      ≡ 2)
    × (self_share 5 (
          replay plain
            (create 2)
            (heard hello ∷ said (text "m2") (text "yo") none ∷ heard hello ∷ []))
        ≡ (1, 2))
unfolding replay create self_share
replay_test = (refl, refl)

abbrev three : List Message
three =
    heard hello
    ∷ said (text "m2") (text "yo") none
    ∷ heard (record hello { msg_id = text "m3" })
    ∷ []

replay-HoldsLatest_example : HoldsLatest plain 2 three (replay plain (create 2) three)
replay-HoldsLatest_example = replay-HoldsLatest plain 2 three

different : (a b : Text) → (a == b) ≡ false → a ≢ b
different a b h same = cc (sym h ∙ (==_iff a b).1 same)

three-DistinctMessages : DistinctMessages three
three-DistinctMessages = (
  (λ other h. elim h [
    | inl second ↦ subst (λ m. text "m1" ≢ id_of m) second (different (text "m1") (text "m2") refl)
    | inr later ↦ elim later [
      | inl third ↦ subst (λ m. text "m1" ≢ id_of m) third (different (text "m1") (text "m3") refl)
      | inr nowhere ↦ absurd nowhere
    ]
  ]),
  (
    (λ other h. elim h [
      | inl third ↦ subst (λ m. text "m2" ≢ id_of m) third (different (text "m2") (text "m3") refl)
      | inr nowhere ↦ absurd nowhere
    ]),
    ((λ other h. absurd h), tt),
  ),
)

abbrev second_entry : RoomEntry
second_entry = record {
  ref = 2;
  msg_id = text "m2";
  speaker = self;
  prose = text "yo";
  addressed = false;
  reply_to_ref = none;
  channel_id = none;
}

-- The first message is evicted.
lookup_test :
    (get_by_msg_id (text "m2") (replay plain (create 2) three) ≡ some second_entry)
    × (get_by_msg_id (text "m1") (replay plain (create 2) three) ≡ none)
unfolding replay create get_by_msg_id
lookup_test = (refl, refl)

replay_finds_iff_example :
    ((get_by_msg_id (text "m2") (replay plain (create 2) three) ≡ some second_entry) ↔ (
      In second_entry (replay plain (create 2) three).entries × (second_entry.msg_id ≡ text "m2")))
    × (((found : RoomEntry) × (get_by_msg_id (text "m2") (replay plain (create 2) three)
            ≡ some found))
        ↔ In (text "m2") (map id_of (latest 2 three)))
replay_finds_iff_example =
    replay_finds_iff plain 2 three (text "m2") second_entry three-DistinctMessages
