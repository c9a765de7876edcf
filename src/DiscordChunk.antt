-- ===== src/DiscordChunk.antt =====
-- door-discord/src/discord/chunk.ts: long texts cut into Discord messages.
pub mod Splits
pub mod Pieces
mod Tests
use npc_of_the_internet.Shared.{
  ℕ, zero, suc, ◌+◌, ◌-◌, ◌/◌, Option, none, some, List, [], ◌∷◌, ◌++◌, Bool, true, false, not,
  ◌&&◌, ◌||◌, Text, length, take, drop, get_elem?, ltb, leb, ◌==◌, nat_eq, if◌then◌else◌,
}

abbrev discord_message_max_chars : ℕ
discord_message_max_chars = 2000

abbrev pub is_high_surrogate : ℕ → Bool
is_high_surrogate code = leb 0xd800 code && leb code 0xdbff

-- `isHighSurrogate(text.charCodeAt(index))`; the code of a missing unit is NaN
pub high_at : Text → ℕ → Bool
high_at s index = elim (get_elem? s index) [ none ↦ false | some code ↦ is_high_surrogate code ]

-- `text.lastIndexOf(separator, limit)` for one unit, with `none` for -1
pub last_index_of_unit : ℕ → ℕ → Text → Option ℕ
last_index_of_unit separator limit [] = none
last_index_of_unit separator zero (c ∷ s) = if c == separator then some 0 else none
last_index_of_unit separator (suc limit) (c ∷ s) = elim (last_index_of_unit separator limit s) [
  | some index ↦ some (suc index)
  | none ↦ if c == separator then some 0 else none
]

pub record Split : Type 0 where
  pub cut : ℕ
  pub skip : ℕ

-- The split at a separator, unless its last index is below the least one.
pub boundary : ℕ → Option ℕ → Option Split → Option Split
boundary least none otherwise = otherwise
boundary least (some index) otherwise =
    if leb least index then some (record { cut = index; skip = 1 }) else otherwise

abbrev newline : ℕ
newline = 10

abbrev space : ℕ
space = 32

-- No boundary: never between the halves of a surrogate pair.
pub hard_split : Text → ℕ → Split
unfolding high_at
hard_split s limit =
    if high_at s (limit - 1)
    then record { cut = limit - 1; skip = 0 }
    else record { cut = limit; skip = 0 }

pub find_boundary : Text → ℕ → Option Split
unfolding boundary last_index_of_unit
find_boundary s limit =
    let at_newline = last_index_of_unit newline limit s in
    let at_space = last_index_of_unit space limit s in
    boundary (limit / 2) at_newline
      (boundary (limit / 2) at_space (boundary 1 at_newline (boundary 1 at_space none)))

pub find_split : Text → ℕ → Split
unfolding find_boundary hard_split
find_split s limit = elim (find_boundary s limit) [ some split ↦ split | none ↦ hard_split s limit ]

abbrev pub prepend : Text → Option (List Text) → Option (List Text)
prepend chunk none = none
prepend chunk (some chunks) = some (chunk ∷ chunks)

-- The loop, with fuel; `none` if the fuel runs out.
pub split_all : ℕ → ℕ → Text → Option (List Text)
unfolding find_split
split_all zero limit rest = if ltb limit (length rest) then none else some (rest ∷ [])
split_all (suc fuel) limit rest = do
  let split = find_split rest limit
  let later = split_all fuel limit (drop (split.cut + split.skip) rest)
  if ltb limit (length rest) then prepend (take split.cut rest) later else some (rest ∷ [])

-- White space by `String.prototype.trim`
abbrev is_space : ℕ → Bool
is_space c =
    (leb 9 c && leb c 13)
    || (c == 32
        || (c == 0xa0
            || (c == 0x1680
                || ((leb 0x2000 c && leb c 0x200a)
                    || (c == 0x2028
                        || (c == 0x2029
                            || (c == 0x202f || (c == 0x205f || (c == 0x3000 || c == 0xfeff)))))))))

pub is_blank : Text → Bool
is_blank [] = true
is_blank (c ∷ s) = is_space c && is_blank s

pub drop_blank : List Text → List Text
unfolding is_blank
drop_blank [] = []
drop_blank (chunk ∷ chunks) =
    let rest = drop_blank chunks in if is_blank chunk then rest else chunk ∷ rest

-- Each round of the loop removes a unit, so the length is fuel enough.
pub chunk_discord_message : ℕ → Text → Option (List Text)
unfolding split_all drop_blank
chunk_discord_message limit s = elim (split_all (length s) limit s) [
  | none ↦ none
  | some chunks ↦ some (drop_blank chunks)
]

abbrev ellipsis : Text
ellipsis = 0x2026 ∷ []

-- For a limit of at least 1.
pub clamp_discord_message : ℕ → Text → Text
unfolding high_at
clamp_discord_message limit s =
    let cut = limit - length ellipsis in
    if leb (length s) limit
    then s
    else if high_at s (cut - 1)
    then take (cut - 1) s ++ ellipsis
    else take cut s ++ ellipsis
