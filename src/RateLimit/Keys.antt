-- ===== src/RateLimit/Keys.antt =====
-- rate-limit.ts: the map of histories, each key of which stands in it once.
use npc_of_the_internet.Shared.{
  ℕ, ◌≤◌, ◌≡◌, refl, ap, subst, ◌∙◌, inl, inr, none, List, [], ◌∷◌, false, Text, arith, Bool-cases,
  if◌then◌else◌, get, put, get-put, text_eq, ◌==◌,
}
use npc_of_the_internet.RateLimit.{still_recent, sweep_keys, keep_key, or_empty}
use npc_of_the_internet.RateLimit.Windows.{still_recent-still_recent}

abbrev pub KeysOnce : List (Text × List ℕ) → Type 0
KeysOnce [] = Unit
KeysOnce ((key, history) ∷ rest) = (get key rest ≡ none) × KeysOnce rest

-- A missing key is neither the first one nor a later one.
get-none :
    (key k : Text) (history : List ℕ) (m : List (Text × List ℕ))
    → get key ((k, history) ∷ m) ≡ none
    → ((k == key) ≡ false) × (get key m ≡ none)
get-none key k history m h = ground (arith, h)

keep_key-none :
    (key k : Text) (kept : List ℕ) (m : List (Text × List ℕ))
    → (k == key) ≡ false
    → get key m ≡ none
    → get key (keep_key k kept m) ≡ none
keep_key-none key k [] m differs h = h
keep_key-none key k (at ∷ kept) m differs h = rw differs h

keep_key-get :
    (key k : Text) (kept : List ℕ) (m : List (Text × List ℕ))
    → get k m ≡ none
    → or_empty (get key (keep_key k kept m)) ≡ (if k == key then kept else or_empty (get key m))
keep_key-get key k [] m h = elim (Bool-cases (k == key)) [
  | inl same ↦
      rw same (ap or_empty (subst (λ j. get j m ≡ none) ((text_eq.test_iff k key).0 same) h))
  | inr differs ↦ rw differs refl
]
keep_key-get key k (at ∷ kept) m h = elim (Bool-cases (k == key)) [
  | inl same ↦ rw same refl
  | inr differs ↦ rw differs refl
]

sweep_keys-none :
    (key : Text) (now wide : ℕ) (m : List (Text × List ℕ))
    → get key m ≡ none
    → get key (sweep_keys now wide m) ≡ none
unfolding sweep_keys
sweep_keys-none key now wide [] h = refl
sweep_keys-none key now wide ((k, history) ∷ rest) h =
    let (differs, none_left) = get-none key k history rest h in
    keep_key-none key k (still_recent now wide history) (sweep_keys now wide rest) differs
      (sweep_keys-none key now wide rest none_left)

keep_key-KeysOnce :
    (k : Text) (kept : List ℕ) (m : List (Text × List ℕ))
    → get k m ≡ none
    → KeysOnce m
    → KeysOnce (keep_key k kept m)
keep_key-KeysOnce k [] m h once = once
keep_key-KeysOnce k (at ∷ kept) m h once = (h, once)

pub sweep_keys-KeysOnce :
    (now wide : ℕ) (m : List (Text × List ℕ)) → KeysOnce m → KeysOnce (sweep_keys now wide m)
unfolding sweep_keys
sweep_keys-KeysOnce now wide [] once = tt
sweep_keys-KeysOnce now wide ((k, history) ∷ rest) (fresh, once) =
    keep_key-KeysOnce k (still_recent now wide history) (sweep_keys now wide rest)
      (sweep_keys-none k now wide rest fresh) (sweep_keys-KeysOnce now wide rest once)

pub sweep_keys-get :
    (key : Text) (first now wide narrow : ℕ) (m : List (Text × List ℕ))
    → first ≤ now
    → narrow ≤ wide
    → KeysOnce m
    → still_recent now narrow (or_empty (get key (sweep_keys first wide m)))
      ≡ still_recent now narrow (or_empty (get key m))
unfolding sweep_keys
sweep_keys-get key first now wide narrow [] h k once = refl
sweep_keys-get key first now wide narrow ((j, history) ∷ rest) h k (fresh, once) =
    ap (still_recent now narrow) (
      keep_key-get key j (still_recent first wide history) (sweep_keys first wide rest)
        (sweep_keys-none j first wide rest fresh))
    ∙ elim (Bool-cases (j == key)) [
      | inl same ↦ rw same (still_recent-still_recent first now wide narrow history h k)
      | inr differs ↦ rw differs (sweep_keys-get key first now wide narrow rest h k once)
    ]

pub put-KeysOnce :
    (key : Text) (history : List ℕ) (m : List (Text × List ℕ))
    → KeysOnce m
    → KeysOnce (put key history m)
put-KeysOnce key history [] once = (refl, tt)
put-KeysOnce key history ((j, w) ∷ rest) (fresh, once) = elim (Bool-cases (j == key)) [
  | inl same ↦
      rw same (subst (λ k. get k rest ≡ none) ((text_eq.test_iff j key).0 same) fresh, once)
  | inr differs ↦ rw differs (
    ground (
      arith,
      fresh,
      differs,
      get-put key j history rest,
      text_eq.test_iff j key,
      text_eq.test_iff key j,
    ),
    put-KeysOnce key history rest once,
  )
]
