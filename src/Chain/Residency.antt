-- ===== src/Chain/Residency.antt =====
-- The residency descriptor `door:<platform>:<door-id>/epoch:<n>` of osp-core/src/schemas/envelope.ts.
-- Epochs are exact numbers: a JavaScript number is exact up to 2 ^ 53, and `parseInt` rounds above.
use npc_of_the_internet.Shared.{
  ℕ, suc, ◌+◌, ◌-◌, ◌*◌, Option, none, some, [], ◌∷◌, Bool, true, false, not, ◌&&◌, ◌||◌, Text,
  text, length, take, drop, leb, ◌==◌, nat_eq, text_eq, if◌then◌else◌,
}

-- the rest of a text behind a prefix
abbrev pub strip_prefix : Text → Text → Option Text
strip_prefix [] s = some s
strip_prefix (c ∷ p) [] = none
strip_prefix (c ∷ p) (d ∷ s) = if c == d then strip_prefix p s else none

-- the longest prefix of a character class, and the rest
abbrev pub span : (ℕ → Bool) → Text → Text × Text
span p [] = ([], [])
span p (c ∷ s) = let rest = span p s in if p c then (c ∷ rest.0, rest.1) else ([], c ∷ s)

abbrev between : ℕ → ℕ → ℕ → Bool
between lo hi c = leb lo c && leb c hi

abbrev is_digit : ℕ → Bool
is_digit c = between 48 57 c

-- `[a-z0-9-]`
is_platform_char : ℕ → Bool
is_platform_char c = between 97 122 c || is_digit c || c == 45

-- `[A-Za-z0-9_-]`
is_door_char : ℕ → Bool
is_door_char c = between 65 90 c || between 97 122 c || is_digit c || c == 95 || c == 45

-- `(0|[1-9][0-9]*)$`
is_epoch_text : Text → Bool
is_epoch_text [] = false
is_epoch_text (c ∷ s) =
    let (digits, rest) = span is_digit s in
    (c == 48 && length s == 0) || (between 49 57 c && length rest == 0)

abbrev is_empty : Text → Bool
is_empty s = length s == 0

after_door : Text → Bool
unfolding is_epoch_text
after_door rest = elim (strip_prefix (text "/epoch:") rest) [
  | none ↦ false
  | some epoch ↦ is_epoch_text epoch
]

after_platform : Text → Bool
unfolding is_door_char after_door
after_platform rest = elim (strip_prefix (text ":") rest) [
  | none ↦ false
  | some s ↦ not (is_empty (span is_door_char s).0) && after_door (span is_door_char s).1
]

-- `RESIDENCY_RE.test`: the classes hold no `:` and no `/`, so each longest prefix is the match.
pub residency_re : Text → Bool
unfolding is_platform_char after_platform
residency_re residency = elim (strip_prefix (text "door:") residency) [
  | none ↦ false
  | some s ↦
      not (is_empty (span is_platform_char s).0) && after_platform (span is_platform_char s).1
]

abbrev starts : Text → Text → Bool
starts p s = elim (strip_prefix p s) [ none ↦ false | some _ ↦ true ]

-- `s.lastIndexOf(p)`, with `none` for -1
last_index_of : Text → Text → Option ℕ
last_index_of p [] = if starts p [] then some 0 else none
last_index_of p (c ∷ s) =
    let here = if starts p (c ∷ s) then some 0 else none in
    elim (last_index_of p s) [ none ↦ here | some i ↦ some (suc i) ]

-- `s.slice(0, i)` where `i` is an index, or -1 for all but the last code unit
abbrev slice_to : Text → Option ℕ → Text
slice_to s none = take (length s - 1) s
slice_to s (some i) = take i s

unfoldable pub door_id_from_residency : Text → Text
unfolding last_index_of
door_id_from_residency residency =
    let without_prefix = drop (length (text "door:")) residency in
    slice_to without_prefix (last_index_of (text "/epoch:") without_prefix)

-- `Number.parseInt(text, 10)` on a text of digits, exact as JavaScript's is below 2 ^ 53
parse_digits : ℕ → Text → ℕ
parse_digits n [] = n
parse_digits n (c ∷ s) = if is_digit c then parse_digits (n * 10 + (c - 48)) s else n

-- `slice(epochSuffix + "/epoch:".length)`; -1 + 7 is 6
abbrev epoch_text : Text → Option ℕ → Text
epoch_text s none = drop 6 s
epoch_text s (some i) = drop (i + length (text "/epoch:")) s

pub record ResidencyParts : Type 0 where
  pub door_id : Text
  pub epoch : ℕ

unfoldable pub parse_residency : Text → Option ResidencyParts
unfolding residency_re door_id_from_residency last_index_of parse_digits
parse_residency residency =
    if residency_re residency
    then some (record {
      door_id = door_id_from_residency residency;
      epoch = parse_digits 0 (epoch_text residency (last_index_of (text "/epoch:") residency));
    })
    else none
