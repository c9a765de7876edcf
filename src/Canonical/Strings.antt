-- ===== src/Canonical/Strings.antt =====
-- JavaScript's `JSON.stringify` of a string and of an integer, and `TextEncoder`, as osp-core's
-- canonical.ts uses them.
mod Tests
use npc_of_the_internet.Shared.{
  ℕ, zero, suc, ◌+◌, ◌-◌, ◌*◌, ◌/◌, ◌%◌, Option, none, some, List, [], ◌∷◌, ◌++◌, Bool, true, false,
  ◌&&◌, Text, text, ltb, leb, ◌==◌, nat_eq, if◌then◌else◌,
}

-- The digits of `n` in front of `later`, on fuel: `n + 1` is enough, since `n / 10` is below `n`.
unfoldable pub digits : ℕ → ℕ → Text → Text
digits zero n later = later
digits (suc fuel) n later =
    let more = digits fuel (n / 10) ((48 + n % 10) ∷ later) in
    if ltb n 10 then (48 + n) ∷ later else more

-- `String(n)`
unfoldable pub decimal : ℕ → Text
unfolding digits
decimal n = digits (suc n) n []

unfoldable pub is_high_surrogate : ℕ → Bool
is_high_surrogate c = leb 55296 c && ltb c 56320

unfoldable pub is_low_surrogate : ℕ → Bool
is_low_surrogate c = leb 56320 c && ltb c 57344

hex_digit : ℕ → ℕ
hex_digit n = if ltb n 10 then 48 + n else 87 + n

-- `\uXXXX`
unfoldable pub unicode_escape : ℕ → Text
unfolding hex_digit
unicode_escape c =
    92
    ∷ 117
    ∷ hex_digit (c / 4096 % 16)
    ∷ hex_digit (c / 256 % 16)
    ∷ hex_digit (c / 16 % 16)
    ∷ hex_digit (c % 16)
    ∷ []

-- The letter of a two-character escape.
unfoldable pub short_escape : ℕ → Option ℕ
short_escape c =
    if c == 34
    then some 34
    else if c == 92
    then some 92
    else if c == 8
    then some 98
    else if c == 9
    then some 116
    else if c == 10
    then some 110
    else if c == 12
    then some 102
    else if c == 13
    then some 114
    else none

-- What stands for a code unit that is not a surrogate.
unfoldable pub escape_unit : ℕ → Text
unfolding unicode_escape short_escape
escape_unit c = elim (short_escape c) [
  | some letter ↦ 92 ∷ letter ∷ []
  | none ↦ if ltb c 32 then unicode_escape c else c ∷ []
]

-- The high surrogate that waits for the unit after it, if `c` is one.
unfoldable pub waits : ℕ → Option ℕ
unfolding is_high_surrogate
waits c = if is_high_surrogate c then some c else none

-- What is written at the unit `c`, a surrogate pair as itself, a lone surrogate as an escape.
unfoldable pub escape_step : Option ℕ → ℕ → Text
unfolding is_high_surrogate is_low_surrogate unicode_escape escape_unit
escape_step none c =
    if is_high_surrogate c
    then []
    else if is_low_surrogate c
    then unicode_escape c
    else escape_unit c
escape_step (some high) c =
    if is_low_surrogate c
    then high ∷ c ∷ []
    else unicode_escape high ++ (if is_high_surrogate c then [] else escape_unit c)

unfoldable pub escape_from : Option ℕ → Text → Text
unfolding unicode_escape waits escape_step
escape_from none [] = []
escape_from (some high) [] = unicode_escape high
escape_from waiting (c ∷ rest) = escape_step waiting c ++ escape_from (waits c) rest

-- `JSON.stringify` of a string
unfoldable pub stringify : Text → Text
unfolding escape_from
stringify s = 34 ∷ escape_from none s ++ 34 ∷ []

-- The UTF-8 bytes of a code point.
pub utf8_bytes : ℕ → List ℕ
utf8_bytes c =
    if ltb c 128
    then c ∷ []
    else if ltb c 2048
    then (192 + c / 64) ∷ (128 + c % 64) ∷ []
    else if ltb c 65536
    then (224 + c / 4096) ∷ (128 + c / 64 % 64) ∷ (128 + c % 64) ∷ []
    else (240 + c / 262144) ∷ (128 + c / 4096 % 64) ∷ (128 + c / 64 % 64) ∷ (128 + c % 64) ∷ []

-- What is encoded at the unit `c`: a lone surrogate becomes U+FFFD.
pub encode_step : Option ℕ → ℕ → List ℕ
unfolding is_high_surrogate is_low_surrogate utf8_bytes
encode_step none c =
    if is_high_surrogate c then [] else utf8_bytes (if is_low_surrogate c then 65533 else c)
encode_step (some high) c =
    if is_low_surrogate c
    then utf8_bytes (65536 + (high - 55296) * 1024 + (c - 56320))
    else utf8_bytes 65533 ++ (if is_high_surrogate c then [] else utf8_bytes c)

pub encode_from : Option ℕ → Text → List ℕ
unfolding utf8_bytes waits encode_step
encode_from none [] = []
encode_from (some high) [] = utf8_bytes 65533
encode_from waiting (c ∷ rest) = encode_step waiting c ++ encode_from (waits c) rest

-- `new TextEncoder().encode`
unfoldable pub encode_utf8 : Text → List ℕ
unfolding encode_from
encode_utf8 s = encode_from none s
