-- ===== src/Base64Url/Canonical.antt =====
-- Every text that base64url.ts decodes is the encoding of its bytes: no two texts decode alike.
use npc_of_the_internet.Shared.{
  ℕ, ◌*◌, ◌/◌, ◌%◌, ◌^◌, ◌≡◌, ◌≢◌, refl, sym, ap, ◌∙◌, [], ◌∷◌, Text, length, arith, Option-cases,
  inl, inr,
}
use npc_of_the_internet.Base64Url.{
  Bytes, Decoded, ok, err, ◌>>=◌, encode_from, decode_from, index_of, encode_base64_url,
  decode_base64_url,
}
use npc_of_the_internet.Base64Url.Alphabet.{code_at, code_at-index_of}
use npc_of_the_internet.Base64Url.Groups.{
  shift, join, encode_three, encode_two, encode_one, decode_at_0, decode_at_6, decode_at_4,
  decode_at_2,
}

-- A chain that gives a result gave one at its first step.
first_step :
    {A B : Type 0} (first : Decoded A) (next : A → Decoded B) {result : B}
    → (first >>= next) ≡ ok result
    → (a : A) × (next a ≡ ok result) × (first ≡ ok a)
first_step (err _) next returns = absurd (cc returns)
first_step (ok a) next returns = (a, returns, refl)

-- A character that the loop accepts stands in the alphabet.
accepted :
    (d bits c : ℕ) (cs : Text) {bytes : Bytes}
    → decode_from d bits (c ∷ cs) ≡ ok bytes
    → (i : ℕ) × (c ≡ code_at (i % 64))
unfolding decode_from
accepted d bits c cs h = elim (Option-cases (index_of c)) [
  | inl missing ↦ absurd (cc (rw (missing, decode_from) at h))
  | inr (i, found) ↦
      (let (same, small) = code_at-index_of c i found in
        (i, sym same ∙ ap code_at (omega (arith, small))))
]

-- One accepted character: its index, the loop's next state, and the byte that came out.
module _ (d c : ℕ) (cs : Text) {bytes : Bytes} where
  step_0 :
      decode_from d 0 (c ∷ cs) ≡ ok bytes
      → (i : ℕ) × (c ≡ code_at (i % 64)) × (decode_from (join d (i % 64)) 6 cs ≡ ok bytes)
  step_0 h = let (i, e) = accepted d 0 c cs h in (i, e, sym (decode_at_0 d i cs) ∙ (rw e at h))

  step_6 :
      decode_from d 6 (c ∷ cs) ≡ ok bytes
      → (i : ℕ) × (c ≡ code_at (i % 64))
        × (rest : Bytes) × (decode_from (join d (i % 64)) 4 cs ≡ ok rest)
        × (bytes ≡ (join d (i % 64) / 2 ^ 4 % 256) ∷ rest)
  step_6 h =
      let (i, e) = accepted d 6 c cs h in
      let (rest, q, p) = first_step _ _ (sym (decode_at_6 d i cs) ∙ (rw e at h)) in
      (i, e, rest, p, cc)

  step_4 :
      decode_from d 4 (c ∷ cs) ≡ ok bytes
      → (i : ℕ) × (c ≡ code_at (i % 64))
        × (rest : Bytes) × (decode_from (join d (i % 64)) 2 cs ≡ ok rest)
        × (bytes ≡ (join d (i % 64) / 2 ^ 2 % 256) ∷ rest)
  step_4 h =
      let (i, e) = accepted d 4 c cs h in
      let (rest, q, p) = first_step _ _ (sym (decode_at_4 d i cs) ∙ (rw e at h)) in
      (i, e, rest, p, cc)

  step_2 :
      decode_from d 2 (c ∷ cs) ≡ ok bytes
      → (i : ℕ) × (c ≡ code_at (i % 64))
        × (rest : Bytes) × (decode_from (join d (i % 64)) 0 cs ≡ ok rest)
        × (bytes ≡ (join d (i % 64) / 2 ^ 0 % 256) ∷ rest)
  step_2 h =
      let (i, e) = accepted d 2 c cs h in
      let (rest, q, p) = first_step _ _ (sym (decode_at_2 d i cs) ∙ (rw e at h)) in
      (i, e, rest, p, cc)

end_0 : (d : ℕ) {bytes : Bytes} → decode_from d 0 [] ≡ ok bytes → bytes ≡ []
unfolding decode_from
end_0 d h = cc

end_4 : (d : ℕ) {bytes : Bytes} → decode_from d 4 [] ≡ ok bytes → (bytes ≡ []) × (d % 2 ^ 4 ≡ 0)
unfolding decode_from
end_4 d h = ground arith

end_2 : (d : ℕ) {bytes : Bytes} → decode_from d 2 [] ≡ ok bytes → (bytes ≡ []) × (d % 2 ^ 2 ≡ 0)
unfolding decode_from
end_2 d h = ground arith

-- The sextets of the bytes that four indices gave are those indices.
module _ (buffer d i j k l : ℕ) where
  abbrev first : ℕ
  first = join (join d (i % 64)) (j % 64) / 2 ^ 4 % 256

  abbrev second : ℕ
  second = join (join (join d (i % 64)) (j % 64)) (k % 64) / 2 ^ 2 % 256

  abbrev third : ℕ
  third = join (join (join (join d (i % 64)) (j % 64)) (k % 64)) (l % 64) / 2 ^ 0 % 256

  sextet_1 : shift buffer first / 2 ^ 2 % 64 ≡ i % 64
  sextet_1 = omega arith

  sextet_2 : shift (shift buffer first) second / 2 ^ 4 % 64 ≡ j % 64
  sextet_2 = omega arith

  sextet_3 : shift (shift (shift buffer first) second) third / 2 ^ 6 % 64 ≡ k % 64
  sextet_3 = omega arith

  sextet_4 : shift (shift (shift buffer first) second) third / 2 ^ 0 % 64 ≡ l % 64
  sextet_4 = omega arith

  last_2 : join (join d (i % 64)) (j % 64) % 2 ^ 4 ≡ 0 → shift buffer first * 2 ^ 4 % 64 ≡ j % 64
  last_2 h = omega arith

  last_3 :
      join (join (join d (i % 64)) (j % 64)) (k % 64) % 2 ^ 2 ≡ 0
      → shift (shift buffer first) second * 2 ^ 2 % 64 ≡ k % 64
  last_3 h = omega arith

  -- Four characters come back from three bytes, if the later ones come back from theirs.
  encode_four :
      (c₁ c₂ c₃ c₄ : ℕ) (cs : Text) {bytes r s t : Bytes}
      → c₁ ≡ code_at (i % 64)
      → c₂ ≡ code_at (j % 64)
      → c₃ ≡ code_at (k % 64)
      → c₄ ≡ code_at (l % 64)
      → bytes ≡ first ∷ r
      → r ≡ second ∷ s
      → s ≡ third ∷ t
      → ((b : ℕ) → encode_from b 0 t ≡ cs)
      → encode_from buffer 0 bytes ≡ c₁ ∷ c₂ ∷ c₃ ∷ c₄ ∷ cs
  encode_four c₁ c₂ c₃ c₄ cs e₁ e₂ e₃ e₄ eb er es later =
      rw (eb, er, es, e₁, e₂, e₃, e₄, encode_three)
        (rw sextet_1 (rw sextet_2 (rw sextet_3 (rw sextet_4 (rw (later _))))))

encode_from-decode_from :
    (buffer d : ℕ) (cs : Text) (bytes : Bytes)
    → length cs % 4 ≢ 1
    → decode_from d 0 cs ≡ ok bytes
    → encode_from buffer 0 bytes ≡ cs
encode_from-decode_from buffer d [] bytes len h = rw (end_0 d h) (unfold encode_from in refl)
encode_from-decode_from buffer d (c₁ ∷ []) bytes len h = absurd (len (omega arith))
encode_from-decode_from buffer d (c₁ ∷ c₂ ∷ []) bytes len h =
    let (i, ei, h₁) = step_0 d c₁ _ h in
    let (j, ej, r, h₂, eb) = step_6 _ c₂ _ h₁ in
    let (er, tail) = end_4 _ h₂ in
    rw (eb, er, ei, ej, encode_one)
      (rw (sextet_1 buffer d i j 0 0) (rw (last_2 buffer d i j 0 0 tail)))
encode_from-decode_from buffer d (c₁ ∷ c₂ ∷ c₃ ∷ []) bytes len h =
    let (i, ei, h₁) = step_0 d c₁ _ h in
    let (j, ej, r, h₂, eb) = step_6 _ c₂ _ h₁ in
    let (k, ek, s, h₃, er) = step_4 _ c₃ _ h₂ in
    let (es, tail) = end_2 _ h₃ in
    rw (eb, er, es, ei, ej, ek, encode_two)
      (rw (sextet_1 buffer d i j 0 0)
        (rw (sextet_2 buffer d i j k 0) (rw (last_3 buffer d i j k 0 tail))))
encode_from-decode_from buffer d (c₁ ∷ c₂ ∷ c₃ ∷ c₄ ∷ cs) bytes len h =
    let (i, ei, h₁) = step_0 d c₁ _ h in
    let (j, ej, r, h₂, eb) = step_6 _ c₂ _ h₁ in
    let (k, ek, s, h₃, er) = step_4 _ c₃ _ h₂ in
    let (l, el, t, h₄, es) = step_2 _ c₄ _ h₃ in
    encode_four buffer d i j k l c₁ c₂ c₃ c₄ cs ei ej ek el eb er es
      (λ b. encode_from-decode_from b _ cs t (λ q. len (omega (arith, q))) h₄)

-- A text that decodes is the encoding of the bytes it decodes to, so at most one text decodes to
-- given bytes: padding, foreign characters and non-zero trailing bits are all refused.
pub encode-decode :
    (encoded : Text) (bytes : Bytes)
    → decode_base64_url encoded ≡ ok bytes
    → encode_base64_url bytes ≡ encoded
unfolding decode_base64_url encode_base64_url
encode-decode encoded bytes h =
    encode_from-decode_from 0 0 encoded bytes (ground arith) (ground arith)
