-- ===== src/Atlas/Pages/Tests.antt =====
-- Runs of the pages.
use npc_of_the_internet.Shared.{◌*◌, ◌≡◌, refl, ℕ, List, [], ◌∷◌, take, arith}
use npc_of_the_internet.Atlas.Pages.{paginate}
use npc_of_the_internet.Atlas.Pages.Partition.{first_pages, first_pages-take}

abbrev five : List ℕ
five = 1 ∷ 2 ∷ 3 ∷ 4 ∷ 5 ∷ []

-- Two pages of two of five items.
first_pages_test : first_pages 2 2 five ≡ 1 ∷ 2 ∷ 3 ∷ 4 ∷ []
unfolding first_pages paginate
first_pages_test = refl

first_pages-take_example : first_pages 2 2 five ≡ take (2 * 2) five
first_pages-take_example = first_pages-take 2 2 five (omega arith) (omega arith)
