-- ===== src/Canonical.antt =====
-- osp-core/src/canonical.ts: the canonical JSON bytes that signatures and CIDs are computed over.
pub mod Strings
pub mod Order
mod Tests
use npc_of_the_internet.Shared.{
  ℕ, ◌+◌, Option, none, some, List, [], ◌∷◌, ◌++◌, Bool, true, false, ◌&&◌, Text, text, ltb, ◌==◌,
  nat_eq, text_eq, if◌then◌else◌,
}
use npc_of_the_internet.Canonical.Strings.{decimal, stringify, encode_utf8}

mutual
  -- `JsonValue`: a number is a natural number, or another finite one by the text JavaScript prints.
  pub data Json : Type 0 where
    null_value : Json
    bool_value : Bool → Json
    number_value : ℕ → Json
    other_number : Text → Json
    string_value : Text → Json
    array_value : Elements → Json
    object_value : Members → Json

  pub data Elements : Type 0 where
    no_elements : Elements
    element : Json → Elements → Elements

  -- The members of an object in the order of its keys.
  pub data Members : Type 0 where
    no_members : Members
    member : Text → Json → Members → Members

-- The order of the code units, which `sort` uses.
pub text_ltb : Text → Text → Bool
text_ltb s [] = false
text_ltb [] (d ∷ t) = true
text_ltb (c ∷ s) (d ∷ t) =
    let rest = text_ltb s t in if ltb c d then true else if c == d then rest else false

-- A printed member in its place behind all smaller keys.
pub insert_entry : Text → Text → List (Text × Text) → List (Text × Text)
unfolding text_ltb
insert_entry key printed [] = (key, printed) ∷ []
insert_entry key printed ((other, value) ∷ rest) =
    let later = insert_entry key printed rest in
    if text_ltb other key then (other, value) ∷ later else (key, printed) ∷ (other, value) ∷ rest

-- `${JSON.stringify(key)}:${canonicalJson(child)}`, joined by commas
pub join_entries : List (Text × Text) → Text
join_entries [] = []
join_entries ((key, printed) ∷ []) = stringify key ++ text ":" ++ printed
join_entries ((key, printed) ∷ (other, value) ∷ rest) =
    stringify key ++ text ":" ++ printed ++ text "," ++ join_entries ((other, value) ∷ rest)

unfoldable mutual
  unfolding insert_entry join_entries

  pub canonical_json : Json → Text
  canonical_json null_value = text "null"
  canonical_json (bool_value true) = text "true"
  canonical_json (bool_value false) = text "false"
  canonical_json (number_value n) = decimal n
  canonical_json (other_number printed) = printed
  canonical_json (string_value s) = stringify s
  canonical_json (array_value elements) = text "[" ++ join_elements elements ++ text "]"
  canonical_json (object_value members) =
      text "{" ++ join_entries (sorted_entries members) ++ text "}"

  pub join_elements : Elements → Text
  join_elements no_elements = []
  join_elements (element e no_elements) = canonical_json e
  join_elements (element e (element f rest)) =
      canonical_json e ++ text "," ++ join_elements (element f rest)

  -- The members with their children printed, sorted by key.
  pub sorted_entries : Members → List (Text × Text)
  sorted_entries no_members = []
  sorted_entries (member key child rest) =
      insert_entry key (canonical_json child) (sorted_entries rest)

unfoldable mutual
  -- `toJsonValue` copies a JSON value unless an object in it has the key `__proto__`.
  pub permitted : Json → Bool
  permitted (array_value elements) = elements_permitted elements
  permitted (object_value members) = members_permitted members
  permitted _ = true

  pub elements_permitted : Elements → Bool
  elements_permitted no_elements = true
  elements_permitted (element e rest) = permitted e && elements_permitted rest

  pub members_permitted : Members → Bool
  members_permitted no_members = true
  members_permitted (member key child rest) =
      if key == text "__proto__" then false else permitted child && members_permitted rest

-- `new TextEncoder().encode(canonicalJson(...))`
unfoldable pub canonical_bytes : Json → List ℕ
unfolding canonical_json
canonical_bytes value = encode_utf8 (canonical_json value)

-- An object literal with these members.
unfoldable pub object_of : List (Text × Json) → Json
object_of fields = object_value (members_of fields)
  where
    members_of : List (Text × Json) → Members
    members_of [] = no_members
    members_of ((key, value) ∷ rest) = member key value (members_of rest)

-- `canonicalize`: none where it throws an `EncodingError`.
unfoldable pub canonicalize : Json → Option (List ℕ)
unfolding canonical_bytes permitted
canonicalize value = if permitted value then some (canonical_bytes value) else none
