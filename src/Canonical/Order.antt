-- ===== src/Canonical/Order.antt =====
-- canonical.ts: the canonical form does not depend on the order in which an object was filled.
use npc_of_the_internet.Shared.{
  ◌&&◌, ◌≡◌, ◌≢◌, refl, ap₂, ◌∙◌, Bool, true, false, List, [], ◌∷◌, Text, text, ◌==◌, nat_eq,
  text_eq, if◌then◌else◌, arith,
}
use npc_of_the_internet.Canonical.{
  Json, array_value, object_value, Elements, no_elements, element, Members, member, text_ltb,
  insert_entry, canonical_json, join_elements, sorted_entries, permitted, elements_permitted,
  members_permitted, canonicalize, canonical_bytes,
}

-- The same JSON value, with the members of its objects filled in any order (an object has a key once,
-- so only members with different keys change places).
mutual
  pub data Reordered : Json → Json → Type 0 where
    unchanged : {j : Json} → Reordered j j
    in_array :
        {es fs : Elements} → ElementsReordered es fs → Reordered (array_value es) (array_value fs)
    in_object : {m n : Members} → MembersReordered m n → Reordered (object_value m) (object_value n)

  pub data ElementsReordered : Elements → Elements → Type 0 where
    no_more : ElementsReordered no_elements no_elements
    each :
        {i j : Json} {es fs : Elements}
        → Reordered i j
        → ElementsReordered es fs
        → ElementsReordered (element i es) (element j fs)

  pub data MembersReordered : Members → Members → Type 0 where
    same_members : {m : Members} → MembersReordered m m
    keep_first :
        {key : Text} {i j : Json} {m n : Members}
        → Reordered i j
        → MembersReordered m n
        → MembersReordered (member key i m) (member key j n)
    exchange :
        {key other : Text} {i j : Json} {m : Members}
        → key ≢ other
        → MembersReordered (member key i (member other j m)) (member other j (member key i m))
    then_again :
        {l m n : Members} → MembersReordered l m → MembersReordered m n → MembersReordered l n

text_ltb-total : (s t : Text) → text_ltb s t ≡ false → text_ltb t s ≡ false → s ≡ t
unfolding text_ltb
text_ltb-total [] [] h k = refl
text_ltb-total [] (d ∷ t) h k = absurd (cc h)
text_ltb-total (c ∷ s) [] h k = absurd (cc k)
text_ltb-total (c ∷ s) (d ∷ t) h k =
    ap₂ (λ x y. x ∷ y) heads
      (text_ltb-total s t (ground (arith, h, heads)) (ground (arith, k, heads)))
  where
    heads : c ≡ d
    heads = ground (arith, h, k)

text_ltb-asym : (s t : Text) → text_ltb s t ≡ true → text_ltb t s ≡ false
unfolding text_ltb
text_ltb-asym [] [] h = absurd (cc h)
text_ltb-asym [] (d ∷ t) h = refl
text_ltb-asym (c ∷ s) [] h = absurd (cc h)
text_ltb-asym (c ∷ s) (d ∷ t) h = ground (arith, h, text_ltb-asym s t)

text_ltb_trans : (s t u : Text) → text_ltb s t ≡ true → text_ltb t u ≡ true → text_ltb s u ≡ true
unfolding text_ltb
text_ltb_trans s [] u h k = absurd (cc h)
text_ltb_trans s (d ∷ t) [] h k = absurd (cc k)
text_ltb_trans [] (d ∷ t) (e ∷ u) h k = refl
text_ltb_trans (c ∷ s) (d ∷ t) (e ∷ u) h k = ground (arith, h, k, text_ltb_trans s t u)

insert_entry-exchange :
    (key other a b : Text) (rest : List (Text × Text))
    → key ≢ other
    → insert_entry key a (insert_entry other b rest)
      ≡ insert_entry other b (insert_entry key a rest)
unfolding insert_entry
insert_entry-exchange key other a b [] h =
    ground (arith, h, text_ltb-total key other, text_ltb-asym key other)
insert_entry-exchange key other a b ((k, v) ∷ rest) h = ground (
  arith,
  h,
  text_ltb-total key other,
  text_ltb-asym key other,
  text_ltb-asym other key,
  text_ltb-total k other,
  text_ltb-total k key,
  text_ltb_trans other k key,
  text_ltb_trans key k other,
  insert_entry-exchange key other a b rest h,
)

mutual
  unfolding canonical_json

  canonical_json-Reordered : {i j : Json} → Reordered i j → canonical_json i ≡ canonical_json j
  canonical_json-Reordered unchanged = refl
  canonical_json-Reordered (in_array h) = rw (join_elements-Reordered h) refl
  canonical_json-Reordered (in_object h) = rw (sorted_entries-Reordered h) refl

  join_elements-Reordered :
      {es fs : Elements} → ElementsReordered es fs → join_elements es ≡ join_elements fs
  join_elements-Reordered no_more = refl
  join_elements-Reordered (each h no_more) = canonical_json-Reordered h
  join_elements-Reordered (each h (each k more)) =
      rw (canonical_json-Reordered h, join_elements-Reordered (each k more)) refl

  sorted_entries-Reordered :
      {m n : Members} → MembersReordered m n → sorted_entries m ≡ sorted_entries n
  sorted_entries-Reordered same_members = refl
  sorted_entries-Reordered (keep_first {key} h more) =
      ap₂ (insert_entry key) (canonical_json-Reordered h) (sorted_entries-Reordered more)
  sorted_entries-Reordered (exchange {key} {other} {i} {j} {m} differ) =
      insert_entry-exchange key other (canonical_json i) (canonical_json j) (sorted_entries m)
        differ
  sorted_entries-Reordered (then_again h k) =
      sorted_entries-Reordered h ∙ sorted_entries-Reordered k

refusals_exchange :
    (p q a b c : Bool)
    → (if p then false else a && (if q then false else b && c))
      ≡ (if q then false else b && (if p then false else a && c))
refusals_exchange true true a b c = refl
refusals_exchange true false a true c = refl
refusals_exchange true false a false c = refl
refusals_exchange false true true b c = refl
refusals_exchange false true false b c = refl
refusals_exchange false false true true c = refl
refusals_exchange false false true false c = refl
refusals_exchange false false false true c = refl
refusals_exchange false false false false c = refl

mutual
  unfolding permitted

  permitted-Reordered : {i j : Json} → Reordered i j → permitted i ≡ permitted j
  permitted-Reordered unchanged = refl
  permitted-Reordered (in_array h) = elements_permitted-Reordered h
  permitted-Reordered (in_object h) = members_permitted-Reordered h

  elements_permitted-Reordered :
      {es fs : Elements} → ElementsReordered es fs → elements_permitted es ≡ elements_permitted fs
  elements_permitted-Reordered no_more = refl
  elements_permitted-Reordered (each h more) =
      ap₂ (λ x y. x && y) (permitted-Reordered h) (elements_permitted-Reordered more)

  members_permitted-Reordered :
      {m n : Members} → MembersReordered m n → members_permitted m ≡ members_permitted n
  members_permitted-Reordered same_members = refl
  members_permitted-Reordered (keep_first h more) =
      rw (permitted-Reordered h, members_permitted-Reordered more) refl
  members_permitted-Reordered (exchange {key} {other} {i} {j} {m} differ) =
      refusals_exchange (key == text "__proto__") (other == text "__proto__") (permitted i)
        (permitted j) (members_permitted m)
  members_permitted-Reordered (then_again h k) =
      members_permitted-Reordered h ∙ members_permitted-Reordered k

-- Two JSON values that differ only in the order in which their objects' members stand are both
-- refused, or have the same canonical bytes, and so are signed and addressed alike.
pub canonicalize-Reordered : {i j : Json} → Reordered i j → canonicalize i ≡ canonicalize j
unfolding canonicalize canonical_bytes
canonicalize-Reordered h = rw (permitted-Reordered h, canonical_json-Reordered h) refl
