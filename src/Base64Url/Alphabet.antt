-- ===== src/Base64Url/Alphabet.antt =====
-- The alphabet of base64url.ts: `charAt` and `indexOf` are inverse on it.
use npc_of_the_internet.Shared.{
  ℕ, zero, suc, ◌%◌, ◌<◌, ◌≡◌, refl, Bool, true, ◌&&◌, some, [], ◌∷◌, Text, arith, ==_iff, nat_eq,
  includes, length, option_beq, option_beq_iff,
}
use npc_of_the_internet.Base64Url.{base64url_chars, char_in, char_at, index_in, index_of}

-- the code unit that `char_at` writes
code_in : Text → ℕ → ℕ
code_in [] i = 0
code_in (c ∷ cs) zero = c
code_in (c ∷ cs) (suc i) = code_in cs i

pub code_at : ℕ → ℕ
code_at = code_in base64url_chars

char_in-code_in : (cs : Text) (i : ℕ) → i < length cs → char_in cs i ≡ code_in cs i ∷ []
unfolding char_in code_in
char_in-code_in [] i h = absurd (omega arith)
char_in-code_in (c ∷ cs) zero h = refl
char_in-code_in (c ∷ cs) (suc i) h = char_in-code_in cs i (omega arith)

pub char_at-code_at : (i : ℕ) → i < 64 → char_at i ≡ code_at i ∷ []
unfolding char_at code_at
char_at-code_at i h = char_in-code_in base64url_chars i h

holds_up_to : (ℕ → Bool) → ℕ → Bool
holds_up_to test zero = true
holds_up_to test (suc last) = holds_up_to test last && test last

each_holds :
    (test : ℕ → Bool) (i last : ℕ) → i < last → holds_up_to test last ≡ true → test i ≡ true
unfolding holds_up_to
each_holds test i zero below all = absurd (omega arith)
each_holds test i (suc last) below all = ground (arith, each_holds test i last)

index_table : holds_up_to (λ i. option_beq (index_of (code_at i)) (some i)) 64 ≡ true
unfolding holds_up_to index_of code_at code_in
index_table = refl

pub index_of-code_at : (i : ℕ) → i < 64 → index_of (code_at i) ≡ some i
index_of-code_at i h = (option_beq_iff _ _).0 (each_holds _ i 64 h index_table)

index_in-code_in :
    (ds : Text) (c i : ℕ) → index_in ds c ≡ some i → (code_in ds i ≡ c) × (i < length ds)
unfolding index_in code_in
index_in-code_in [] c i h = absurd (cc h)
index_in-code_in (d ∷ ds) c zero h = ground (arith, ==_iff d c)
index_in-code_in (d ∷ ds) c (suc i) h = ground (arith, index_in-code_in ds c i)

pub code_at-index_of : (c i : ℕ) → index_of c ≡ some i → (code_at i ≡ c) × (i < 64)
unfolding index_of code_at
code_at-index_of c i h = index_in-code_in base64url_chars c i h

includes-code_in : (ds : Text) (i : ℕ) → i < length ds → includes ds (code_in ds i) ≡ true
unfolding code_in
includes-code_in [] i h = absurd (omega arith)
includes-code_in (d ∷ ds) zero h = ground (arith, ==_iff d d)
includes-code_in (d ∷ ds) (suc i) h = ground (arith, includes-code_in ds i)

pub includes-code_at : (i : ℕ) → i < 64 → includes base64url_chars (code_at i) ≡ true
unfolding code_at
includes-code_at i h = includes-code_in base64url_chars i h

pub char_at_mod : (x : ℕ) → char_at (x % 64) ≡ code_at (x % 64) ∷ []
char_at_mod x = char_at-code_at (x % 64) (omega arith)

pub index_of_mod : (x : ℕ) → index_of (code_at (x % 64)) ≡ some (x % 64)
index_of_mod x = index_of-code_at (x % 64) (omega arith)
