-- ===== src/DiscordChunk/Tests.antt =====
-- Runs of the Discord chunker.
use npc_of_the_internet.Shared.{
  ◌<◌, ℕ, ◌≤◌, ◌≡◌, refl, some, List, [], ◌∷◌, ◌++◌, false, Text, text, length, take, All, arith,
}
use npc_of_the_internet.DiscordChunk.{
  is_blank, drop_blank, chunk_discord_message, clamp_discord_message, ellipsis,
}
use npc_of_the_internet.DiscordChunk.Pieces.{
  IsPieces, chunk_discord_message-IsPieces, clamp_discord_message-fits, IsLongestCut,
}

chunk_test :
    chunk_discord_message 8 (text "one two three four")
    ≡ some (text "one two" ∷ text "three" ∷ text "four" ∷ [])
unfolding chunk_discord_message
chunk_test = refl

abbrev smile : Text
smile = 97 ∷ 0xd83d ∷ 0xde00 ∷ 98 ∷ []

-- A surrogate pair at the limit goes whole to the second message.
surrogate_test :
    chunk_discord_message 2 (97 ∷ 0xd83d ∷ 0xde00 ∷ [])
    ≡ some ((97 ∷ []) ∷ (0xd83d ∷ 0xde00 ∷ []) ∷ [])
unfolding chunk_discord_message
surrogate_test = refl

clamp_test : clamp_discord_message 3 (97 ∷ 0xd83d ∷ 0xde00 ∷ 98 ∷ []) ≡ 97 ∷ 0x2026 ∷ []
unfolding clamp_discord_message
clamp_test = refl

chunk_discord_message-IsPieces_example :
    (pieces : List Text) × (chunk_discord_message 8 (text "one two three four")
      ≡ some (drop_blank pieces))
    × IsPieces 8 (text "one two three four") pieces
    × All (λ c. (length c ≤ 8) × (is_blank c ≡ false)) (drop_blank pieces)
chunk_discord_message-IsPieces_example =
    chunk_discord_message-IsPieces 8 (text "one two three four") (omega arith)

clamp_discord_message-fits_example :
    (length (clamp_discord_message 3 smile) ≤ 3)
    × (length smile ≤ 3 → clamp_discord_message 3 smile ≡ smile)
    × (3 < length smile
        → (cut : ℕ) × (clamp_discord_message 3 smile ≡ take cut smile ++ ellipsis)
          × IsLongestCut 3 smile cut)
clamp_discord_message-fits_example = clamp_discord_message-fits 3 smile (omega arith)
