-- ===== src/Atlas/Pages/Partition.antt =====
-- atlas/src/derive.ts: the pages of a listing, one after the other, are the listing.
use npc_of_the_internet.Shared.{
  ℕ, zero, suc, ◌+◌, ◌-◌, ◌*◌, ◌≤◌, ◌<◌, ◌≡◌, refl, sym, ap, ◌∙◌, some, List, [], ◌∷◌, ◌++◌, length,
  take, drop, ltb, leb, if◌then◌else◌, arith, Bool-cases, inl, inr,
}
use npc_of_the_internet.Atlas.Pages.{page_size, slice_page, paginate}

-- The items of the pages 1 to `n`.
unfoldable pub first_pages : {A : Type 0} → ℕ → ℕ → List A → List A
first_pages zero per_page items = []
first_pages (suc n) per_page items =
    first_pages n per_page items
    ++ (paginate items (some record { page = some (suc n); per_page = some per_page })).items

take-nil : {A : Type 0} (n : ℕ) → take {A = A} n [] ≡ []
take-nil zero = refl
take-nil (suc n) = refl

suc_plus : (n m : ℕ) → suc n + m ≡ suc (n + m)
suc_plus n m = omega arith

take-take-drop :
    {A : Type 0} (a b : ℕ) (xs : List A) → take a xs ++ take b (drop a xs) ≡ take (a + b) xs
take-take-drop zero b xs = ap (λ n. take n xs) (plain b)
  where
    plain : (n : ℕ) → n ≡ 0 + n
    plain n = omega arith
take-take-drop (suc a) b [] = take-nil b ∙ sym (take-nil (suc a + b))
take-take-drop (suc a) b (x ∷ xs) =
    ap (λ l. x ∷ l) (take-take-drop a b xs) ∙ ap (λ n. take n (x ∷ xs)) (sym (suc_plus a b))

take-all : {A : Type 0} (n : ℕ) (xs : List A) → length xs ≤ n → take n xs ≡ xs
take-all n [] h = take-nil n
take-all zero (x ∷ xs) h = absurd (omega (arith, h))
take-all (suc n) (x ∷ xs) h = ap (λ l. x ∷ l) (take-all n xs (omega (arith, h)))

append-nil : {A : Type 0} (xs : List A) → xs ++ [] ≡ xs
append-nil [] = refl
append-nil (x ∷ xs) = ap (λ l. x ∷ l) (append-nil xs)

slice_page-next :
    {A : Type 0} (n per_page : ℕ) (items : List A)
    → take (n * per_page) items ++ slice_page (suc n) per_page items
      ≡ take (n * per_page + per_page) items
unfolding slice_page
slice_page-next n per_page items =
    ap
      (λ start.
        take (n * per_page) items
        ++ (if leb (length items) start then [] else take per_page (drop start items)))
      (ap (λ m. m * per_page) (before n))
    ∙ from (n * per_page)
  where
    before : (m : ℕ) → suc m - 1 ≡ m
    before m = omega arith

    from :
        (start : ℕ)
        → take start items
            ++ (if leb (length items) start then [] else take per_page (drop start items))
          ≡ take (start + per_page) items
    from start = elim (Bool-cases (leb (length items) start)) [
      | inl past ↦ rw past (
          append-nil (take start items)
          ∙ take-all start items (ground (arith, past))
          ∙ sym (take-all (start + per_page) items (ground (arith, past))))
      | inr inside ↦ rw inside (take-take-drop start per_page items)
    ]

-- A page size from 1 to 200 is used as it is.
page_size-same :
    (page per_page : ℕ)
    → 0 < per_page
    → per_page ≤ 200
    → page_size (record { page = some page; per_page = some per_page }) ≡ per_page
page_size-same page per_page h k = ground (arith, h, k)

page_number-suc : (n : ℕ) → (if ltb (suc n) 1 then 1 else suc n) ≡ suc n
page_number-suc n = ground arith

-- The pages 1 to `n` of a size from 1 to 200, one after the other, are the first `n` times that many
-- items: no page leaves an item out or shows one twice.
pub first_pages-take :
    {A : Type 0} (n per_page : ℕ) (items : List A)
    → 0 < per_page
    → per_page ≤ 200
    → first_pages n per_page items ≡ take (n * per_page) items
unfolding first_pages paginate
first_pages-take zero per_page items h k = ap (λ m. take m items) (sym (none_yet per_page))
  where
    none_yet : (m : ℕ) → 0 * m ≡ 0
    none_yet m = omega arith
first_pages-take (suc n) per_page items h k =
    rw (page_size-same (suc n) per_page h k, page_number-suc n)
      (ap (λ l. l ++ slice_page (suc n) per_page items) (first_pages-take n per_page items h k)
        ∙ slice_page-next n per_page items
        ∙ ap (λ m. take m items) (one_more n per_page))
  where
    one_more : (a b : ℕ) → a * b + b ≡ suc a * b
    one_more a b = omega arith
