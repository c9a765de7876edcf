-- ===== src/Base64Url/RoundTrip.antt =====
-- Decoding what base64url.ts encoded gives back the bytes.
use npc_of_the_internet.Shared.{
  ℕ, ◌+◌, ◌*◌, ◌/◌, ◌%◌, ◌^◌, ◌<◌, ◌≡◌, ◌≢◌, refl, true, [], ◌∷◌, Text, length, All, arith,
  Bool-cases, inl, inr, subst, if◌then◌else◌, ◌==◌, nat_eq,
}
use npc_of_the_internet.Base64Url.{
  Bytes, ok, encode_from, decode_from, in_alphabet, encode_base64_url, decode_base64_url,
  encode_signature, decode_signature, signature_length, wrong_size, err, ◌>>=◌,
}
use npc_of_the_internet.Base64Url.Alphabet.{code_at, includes-code_at}
use npc_of_the_internet.Base64Url.Groups.{
  shift, join, encode_three, encode_two, encode_one, decode_at_0, decode_at_6, decode_at_4,
  decode_at_2,
}

abbrev pub IsByte : ℕ → Type 0
IsByte b = b < 256

-- The bytes that a group of characters gives, whatever stood in the buffers before.
module _ (buffer d : ℕ) where
  byte_1 :
      (a b : ℕ)
      → IsByte a
      → IsByte b
      → join (join d (shift buffer a / 2 ^ 2 % 64)) (shift (shift buffer a) b / 2 ^ 4 % 64)
          / 2 ^ 4
          % 256
        ≡ a
  byte_1 a b h k = omega arith

  byte_2 :
      (b c : ℕ)
      → IsByte b
      → IsByte c
      → join (join d (shift buffer b / 2 ^ 4 % 64)) (shift (shift buffer b) c / 2 ^ 6 % 64)
          / 2 ^ 2
          % 256
        ≡ b
  byte_2 b c h k = omega arith

  byte_3 :
      (c : ℕ)
      → IsByte c
      → join (join d (shift buffer c / 2 ^ 6 % 64)) (shift buffer c / 2 ^ 0 % 64) / 2 ^ 0 % 256 ≡ c
  byte_3 c h = omega arith

  byte_1_of_1 :
      (a : ℕ)
      → IsByte a
      → join (join d (shift buffer a / 2 ^ 2 % 64)) (shift buffer a * 2 ^ 4 % 64) / 2 ^ 4 % 256 ≡ a
  byte_1_of_1 a h = omega arith

  byte_2_of_2 :
      (b : ℕ)
      → IsByte b
      → join (join d (shift buffer b / 2 ^ 4 % 64)) (shift buffer b * 2 ^ 2 % 64) / 2 ^ 2 % 256 ≡ b
  byte_2_of_2 b h = omega arith

-- The bits after the last byte are zero.
decode_end_4 : (d x : ℕ) → decode_from (join d (x * 2 ^ 4 % 64)) 4 [] ≡ ok []
unfolding decode_from
decode_end_4 d x = ground arith

decode_end_2 : (d x : ℕ) → decode_from (join d (x * 2 ^ 2 % 64)) 2 [] ≡ ok []
unfolding decode_from
decode_end_2 d x = ground arith

decode_end_0 : (buffer : ℕ) → decode_from buffer 0 [] ≡ ok []
unfolding decode_from
decode_end_0 buffer = refl

ruleset decode_steps =
    (decode_at_0, decode_at_6, decode_at_4, decode_at_2, decode_end_4, decode_end_2)

decode_from-encode_from :
    (buffer d : ℕ) (bytes : Bytes)
    → All IsByte bytes
    → decode_from d 0 (encode_from buffer 0 bytes) ≡ ok bytes
decode_from-encode_from buffer d [] h = unfold encode_from in decode_end_0 d
decode_from-encode_from buffer d (a ∷ []) (ha, h) =
    simp (encode_one, decode_steps, byte_1_of_1 buffer d a ha)
decode_from-encode_from buffer d (a ∷ b ∷ []) (ha, (hb, h)) =
    simp (encode_two, decode_steps, byte_1 buffer d a b ha hb, byte_2_of_2 (shift buffer a) _ b hb)
decode_from-encode_from buffer d (a ∷ b ∷ c ∷ bytes) (ha, (hb, (hc, h))) =
    let later =
      λ (d' : ℕ). decode_from-encode_from (shift (shift (shift buffer a) b) c) d' bytes h in
    simp (
      encode_three,
      decode_steps,
      later,
      byte_1 buffer d a b ha hb,
      byte_2 (shift buffer a) _ b c hb hc,
      byte_3 (shift (shift buffer a) b) _ c hc,
    )

-- What is written has an accepted length and alphabet.
in_alphabet-cons : (x : ℕ) (cs : Text) → in_alphabet (code_at (x % 64) ∷ cs) ≡ in_alphabet cs
unfolding in_alphabet
in_alphabet-cons x cs = rw (includes-code_at (x % 64) (omega arith))

in_alphabet-encode_from :
    (buffer : ℕ) (bytes : Bytes) → in_alphabet (encode_from buffer 0 bytes) ≡ true
in_alphabet-encode_from buffer [] = unfold encode_from in_alphabet in refl
in_alphabet-encode_from buffer (a ∷ []) =
    simp (encode_one, in_alphabet-cons) (unfold in_alphabet in refl)
in_alphabet-encode_from buffer (a ∷ b ∷ []) =
    simp (encode_two, in_alphabet-cons) (unfold in_alphabet in refl)
in_alphabet-encode_from buffer (a ∷ b ∷ c ∷ bytes) =
    simp (encode_three, in_alphabet-cons)
      (in_alphabet-encode_from (shift (shift (shift buffer a) b) c) bytes)

length-encode_from :
    (buffer : ℕ) (bytes : Bytes) → length (encode_from buffer 0 bytes) ≡ (length bytes * 4 + 2) / 3
length-encode_from buffer [] = unfold encode_from in refl
length-encode_from buffer (a ∷ []) = rw encode_one refl
length-encode_from buffer (a ∷ b ∷ []) = rw encode_two refl
length-encode_from buffer (a ∷ b ∷ c ∷ bytes) =
    rw encode_three (omega (arith, length-encode_from (shift (shift (shift buffer a) b) c) bytes))

-- Encoding a non-empty list of bytes, of any length, and decoding the result gives back the bytes.
pub decode-encode :
    (bytes : Bytes)
    → bytes ≢ []
    → All IsByte bytes
    → decode_base64_url (encode_base64_url bytes) ≡ ok bytes
unfolding decode_base64_url encode_base64_url
decode-encode [] h k = absurd (h refl)
decode-encode (a ∷ bytes) h k = ground (
  arith,
  length-encode_from 0 (a ∷ bytes),
  in_alphabet-encode_from 0 (a ∷ bytes),
  decode_from-encode_from 0 0 (a ∷ bytes) k,
)

-- A signature of 64 bytes is encoded, and decodes to itself.
pub decode_signature-encode_signature :
    (signature : Bytes) (encoded : Text)
    → All IsByte signature
    → encode_signature signature ≡ ok encoded
    → decode_signature encoded ≡ ok signature
unfolding encode_signature decode_signature
decode_signature-encode_signature signature encoded bytes h =
    elim (Bool-cases (length signature == signature_length)) [
      | inl long ↦
          subst
            (λ e.
              (decode_base64_url e >>= λ b.
              if length b == signature_length then ok b else err (wrong_size (length b)))
              ≡ ok signature)
            (ok_injective (rw long at h))
            (rw (decode-encode signature (nonempty signature long) bytes, long) refl)
      | inr short ↦ absurd (cc (rw short at h))
    ]
  where
    ok_injective : {a b : Text} → ok a ≡ ok b → a ≡ b
    ok_injective k = cc k

    nonempty : (s : Bytes) → (length s == signature_length) ≡ true → s ≢ []
    nonempty [] k = absurd (cc k)
    nonempty (b ∷ s) k = λ e. cc e
