-- ===== src/Canonical/Tests.antt =====
-- Runs of the canonical form.
use npc_of_the_internet.Shared.{◌≡◌, ◌≢◌, refl, text, [], ◌∷◌, ==_iff, text_eq}
use mathlib.Core.Bool.{false≢true}
use npc_of_the_internet.Canonical.Order.{in_object, exchange, canonicalize-Reordered}
use npc_of_the_internet.Canonical.{
  Members, no_elements, element, number_value, string_value, array_value, object_value, no_members,
  member, canonical_json, canonicalize,
}
use npc_of_the_internet.Canonical.Strings.{decimal, stringify}

canonical_json_test :
    canonical_json (
      object_value (
        member (text "b") (number_value 120) (
          member
            (text "a")
            (array_value (element (string_value (10 ∷ 55357 ∷ [])) no_elements))
            no_members)))
    ≡ text "{\"a\":[\"\\n\\ud83d\"],\"b\":120}"
unfolding canonical_json decimal stringify
canonical_json_test = refl

abbrev one_order : Members
one_order = member (text "a") (number_value 1) (member (text "b") (number_value 2) no_members)

abbrev another_order : Members
another_order = member (text "b") (number_value 2) (member (text "a") (number_value 1) no_members)

a_not_b : text "a" ≢ text "b"
a_not_b h = false≢true ((==_iff (text "a") (text "b")).1 h)

canonicalize-Reordered_example :
    canonicalize (object_value one_order) ≡ canonicalize (object_value another_order)
canonicalize-Reordered_example = canonicalize-Reordered (in_object (exchange a_not_b))
