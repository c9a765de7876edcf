-- ===== src/Canonical/Strings/Tests.antt =====
-- Runs of the printing of strings.
use npc_of_the_internet.Shared.{◌≡◌, refl, text, [], ◌∷◌}
use npc_of_the_internet.Canonical.Strings.{decimal, stringify, encode_utf8}

stringify_test : stringify (97 ∷ 10 ∷ 55357 ∷ []) ≡ text "\"a\\n\\ud83d\""
unfolding stringify
stringify_test = refl

decimal_test : decimal 1207 ≡ text "1207"
unfolding decimal
decimal_test = refl

encode_utf8_test :
    encode_utf8 (233 ∷ 8364 ∷ 55357 ∷ 56832 ∷ [])
    ≡ 195 ∷ 169 ∷ 226 ∷ 130 ∷ 172 ∷ 240 ∷ 159 ∷ 152 ∷ 128 ∷ []
unfolding encode_utf8
encode_utf8_test = refl
