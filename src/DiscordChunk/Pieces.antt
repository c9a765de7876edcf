-- ===== src/DiscordChunk/Pieces.antt =====
-- chunk.ts, `chunkDiscordMessage`: the loop ends, and its chunks are the text.
use npc_of_the_internet.Shared.{
  ℕ, zero, suc, ◌+◌, ◌-◌, ◌≤◌, ◌<◌, ◌≡◌, refl, sym, ap, subst, ◌∙◌, ◌⊎◌, inl, inr, some, List, [],
  ◌∷◌, ◌++◌, true, false, Text, length, take, drop, get_elem?, length-append, length-take,
  length-drop, take-append-drop, All, ltb, leb, nat_eq, arith, Bool-cases,
}
use npc_of_the_internet.DiscordChunk.{
  Split, newline, space, find_split, split_all, is_blank, drop_blank, chunk_discord_message,
  high_at, clamp_discord_message, ellipsis,
}
use npc_of_the_internet.DiscordChunk.Splits.{pair_at, IsSplit, high_not_low, find_split-IsSplit}

-- Between two chunks one separator is missing, or nothing and no surrogate pair is parted.
abbrev pub IsGap : Text → Text → Text → Type 0
IsGap s chunk gap =
    (gap ≡ newline ∷ []) ⊎ ((gap ≡ space ∷ []) ⊎ ((gap ≡ []) × (pair_at s (length chunk) ≡ false)))

-- The chunks, none above the limit, with their gaps are the text.
abbrev pub IsPieces : ℕ → Text → List Text → Type 0
IsPieces limit s [] = ⊥
IsPieces limit s (chunk ∷ chunks) =
    (length chunk ≤ limit)
    × (((s ≡ chunk) × (chunks ≡ []))
        ⊎ ((gap : Text) × (rest : Text) × (s ≡ chunk ++ (gap ++ rest))
            × IsGap s chunk gap
            × IsPieces limit rest chunks))

take-separator-drop :
    (s : Text) (cut separator : ℕ)
    → get_elem? s cut ≡ some separator
    → s ≡ take cut s ++ (separator ∷ drop (suc cut) s)
take-separator-drop [] cut separator h = absurd (cc h)
take-separator-drop (c ∷ s) zero separator h = ap (λ x. x ∷ s) same
  where
    same : c ≡ separator
    same = cc
take-separator-drop (c ∷ s) (suc cut) separator h =
    ap (λ x. c ∷ x) (take-separator-drop s cut separator h)

module _ (limit : ℕ) (big : 2 ≤ limit) where
  -- One round: the chunk, the gap and the rest.
  round :
      (s : Text) (split : Split) (later : List Text)
      → limit < length s
      → IsSplit s limit split
      → IsPieces limit (drop (split.cut + split.skip) s) later
      → IsPieces limit s (take split.cut s ∷ later)
  round s split later long (below, positive, gap) h = (
    omega (arith, length-take split.cut s),
    inr (elim gap [
      | inl (one, inl nl) ↦ (
        newline ∷ [],
        drop (split.cut + split.skip) s,
        take-separator-drop s split.cut newline nl
            ∙ ap (λ n. take split.cut s ++ (newline ∷ drop n s)) (after_one one),
        inl refl,
        h,
      )
      | inl (one, inr sp) ↦ (
        space ∷ [],
        drop (split.cut + split.skip) s,
        take-separator-drop s split.cut space sp
            ∙ ap (λ n. take split.cut s ++ (space ∷ drop n s)) (after_one one),
        inr (inl refl),
        h,
      )
      | inr (nothing, whole) ↦ (
        [],
        drop (split.cut + split.skip) s,
        sym (take-append-drop split.cut s)
            ∙ ap (λ n. take split.cut s ++ drop n s) (after_none nothing),
        inr (inr (refl, subst (λ n. pair_at s n ≡ false) chunk_length whole)),
        h,
      )
    ]),
  )
    where
      after_one : split.skip ≡ 1 → suc split.cut ≡ split.cut + split.skip
      after_one one = omega arith

      after_none : split.skip ≡ 0 → split.cut ≡ split.cut + split.skip
      after_none nothing = omega arith

      chunk_length : split.cut ≡ length (take split.cut s)
      chunk_length = omega (arith, length-take split.cut s)

  -- Fuel for every unit is enough, and the chunks are the text.
  pub split_all-IsPieces :
      (fuel : ℕ) (s : Text)
      → length s ≤ fuel
      → (chunks : List Text) × (split_all fuel limit s ≡ some chunks) × IsPieces limit s chunks
  unfolding split_all
  split_all-IsPieces zero s enough = (s ∷ [], rw short refl, (omega arith, inl (refl, refl)))
    where
      short : ltb limit (length s) ≡ false
      short = ground arith
  split_all-IsPieces (suc fuel) s enough = elim (Bool-cases (ltb limit (length s))) [
    | inr short ↦ (s ∷ [], rw short refl, (ground arith, inl (refl, refl)))
    | inl long ↦
        (let split = find_split s limit in
          let fits = find_split-IsSplit s limit big in
          let (later, e, h) =
            split_all-IsPieces fuel (drop (split.cut + split.skip) s)
              (shorter split fits (ground arith)) in
          (take split.cut s ∷ later, rw (long, e) refl, round s split later (ground arith) fits h))
  ]
    where
      shorter :
          (split : Split)
          → IsSplit s limit split
          → limit < length s
          → length (drop (split.cut + split.skip) s) ≤ fuel
      shorter split (below, positive, _) long =
          omega (arith, length-drop (split.cut + split.skip) s)

drop_blank-All :
    (limit : ℕ) (s : Text) (pieces : List Text)
    → IsPieces limit s pieces
    → All (λ c. (length c ≤ limit) × (is_blank c ≡ false)) (drop_blank pieces)
unfolding drop_blank
drop_blank-All limit s [] h = absurd h
drop_blank-All limit s (chunk ∷ chunks) (fits, h) = elim (Bool-cases (is_blank chunk)) [
  | inl blank ↦ rw blank (elim h [
    | inl (_, alone) ↦
        subst (λ l. All (λ c. (length c ≤ limit) × (is_blank c ≡ false)) (drop_blank l)) (sym alone)
          tt
    | inr (gap, rest, _, _, more) ↦ drop_blank-All limit rest chunks more
  ])
  | inr prose ↦ rw prose (elim h [
    | inl (_, alone) ↦ (
      (fits, prose),
      subst (λ l. All (λ c. (length c ≤ limit) × (is_blank c ≡ false)) (drop_blank l)) (sym alone)
          tt,
    )
    | inr (gap, rest, _, _, more) ↦ ((fits, prose), drop_blank-All limit rest chunks more)
  ])
]

chunked :
    (limit : ℕ) (s : Text) (pieces : List Text)
    → split_all (length s) limit s ≡ some pieces
    → chunk_discord_message limit s ≡ some (drop_blank pieces)
unfolding chunk_discord_message
chunked limit s pieces e = rw (e, chunk_discord_message) refl

-- For a limit of at least 2 the loop ends. The messages are the pieces that are not blank, each
-- within the limit; the pieces are the text less one newline or space at each cut, or cut where no
-- surrogate pair is parted.
pub chunk_discord_message-IsPieces :
    (limit : ℕ) (s : Text)
    → 2 ≤ limit
    → (pieces : List Text) × (chunk_discord_message limit s ≡ some (drop_blank pieces))
      × IsPieces limit s pieces
      × All (λ c. (length c ≤ limit) × (is_blank c ≡ false)) (drop_blank pieces)
chunk_discord_message-IsPieces limit s big =
    let (pieces, e, h) = split_all-IsPieces limit big (length s) s (omega arith) in
    (pieces, chunked limit s pieces e, h, drop_blank-All limit s pieces h)

module _ (limit : ℕ) (s : Text) (positive : 1 ≤ limit) where
  abbrev clamped : Text
  clamped = clamp_discord_message limit s

  clamped_short : leb (length s) limit ≡ true → clamped ≡ s
  unfolding clamp_discord_message
  clamped_short fits = ground arith

  clamped_high :
      leb (length s) limit ≡ false
      → high_at s (limit - 1 - 1) ≡ true
      → clamped ≡ take (limit - 1 - 1) s ++ ellipsis
  unfolding clamp_discord_message
  clamped_high long high = rw (long, high) refl

  clamped_plain :
      leb (length s) limit ≡ false
      → high_at s (limit - 1 - 1) ≡ false
      → clamped ≡ take (limit - 1) s ++ ellipsis
  unfolding clamp_discord_message
  clamped_plain long plain = rw (long, plain) refl

  prefix_fits : (cut : ℕ) → cut ≤ limit - 1 → length (take cut s ++ ellipsis) ≤ limit
  prefix_fits cut below = omega (arith, length-append (take cut s) ellipsis, length-take cut s)

parted : (n : ℕ) (s : Text) → high_at s (n - 1) ≡ true → pair_at s (n - 1) ≡ false
parted zero s high = refl
parted (suc zero) s high = refl
parted (suc (suc n)) s high = ground (arith, high_not_low s (suc n))

kept : (n : ℕ) (s : Text) → high_at s (n - 1) ≡ false → pair_at s n ≡ false
kept zero s plain = refl
kept (suc n) s plain = ground arith

-- Of a cut before the limit: every longer one would end in the first half of a pair.
abbrev pub IsLongestCut : ℕ → Text → ℕ → Type 0
IsLongestCut limit s cut =
    (cut < limit)
    × (pair_at s cut ≡ false)
    × ((longer : ℕ) → cut < longer → longer < limit → high_at s (longer - 1) ≡ true)

high_cut :
    (limit : ℕ) (s : Text)
    → 1 ≤ limit
    → high_at s (limit - 1 - 1) ≡ true
    → IsLongestCut limit s (limit - 1 - 1)
high_cut limit s positive high = (
  omega arith,
  parted (limit - 1) s high,
  λ longer above below.
      let last = last_cut longer above below in subst (λ n. high_at s (n - 1) ≡ true) last high,
)
  where
    last_cut : (longer : ℕ) → limit - 1 - 1 < longer → longer < limit → limit - 1 ≡ longer
    last_cut longer above below = omega arith

plain_cut :
    (limit : ℕ) (s : Text)
    → 1 ≤ limit
    → high_at s (limit - 1 - 1) ≡ false
    → IsLongestCut limit s (limit - 1)
plain_cut limit s positive plain = (
  omega arith,
  kept (limit - 1) s plain,
  λ longer above below. absurd (nothing_between longer above below),
)
  where
    nothing_between : (longer : ℕ) → limit - 1 < longer → longer < limit → ⊥
    nothing_between longer above below = omega arith

-- For a limit of at least 1: the result is within the limit; a text within the limit stays as it is;
-- of a longer one, what is left before the ellipsis is cut short of the limit, parts no surrogate pair,
-- and is the longest such: any longer one would end in a high surrogate.
pub clamp_discord_message-fits :
    (limit : ℕ) (s : Text)
    → 1 ≤ limit
    → (length (clamp_discord_message limit s) ≤ limit)
      × (length s ≤ limit → clamp_discord_message limit s ≡ s)
      × (limit < length s
          → (cut : ℕ) × (clamp_discord_message limit s ≡ take cut s ++ ellipsis)
            × IsLongestCut limit s cut)
clamp_discord_message-fits limit s big = elim (Bool-cases (leb (length s) limit)) [
  | inl fits ↦ (
    subst (λ t. length t ≤ limit) (sym (clamped_short limit s big fits)) (ground arith),
    (λ short. clamped_short limit s big fits),
    λ long. absurd (ground arith),
  )
  | inr long ↦ elim (Bool-cases (high_at s (limit - 1 - 1))) [
    | inl high ↦ (
      subst (λ t. length t ≤ limit) (sym (clamped_high limit s big long high))
          (prefix_fits limit s big (limit - 1 - 1) (omega arith)),
      (λ short. absurd (ground arith)),
      λ _. (limit - 1 - 1, clamped_high limit s big long high, high_cut limit s big high),
    )
    | inr plain ↦ (
      subst (λ t. length t ≤ limit) (sym (clamped_plain limit s big long plain))
          (prefix_fits limit s big (limit - 1) (omega arith)),
      (λ short. absurd (ground arith)),
      λ _. (limit - 1, clamped_plain limit s big long plain, plain_cut limit s big plain),
    )
  ]
]
