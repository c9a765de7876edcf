-- ===== src/Base64Url/Groups.antt =====
-- The loops of base64url.ts, a group of three bytes and four characters at a time.
use npc_of_the_internet.Shared.{ℕ, ◌+◌, ◌*◌, ◌/◌, ◌%◌, ◌^◌, ◌≡◌, [], ◌∷◌, Text}
use npc_of_the_internet.Base64Url.{Bytes, ok, ◌>>=◌, encode_from, decode_from}
use npc_of_the_internet.Base64Url.Alphabet.{code_at, char_at_mod, index_of_mod}

-- the buffer after one more byte
abbrev pub shift : ℕ → ℕ → ℕ
shift buffer byte = (buffer * 2 ^ 8 + byte) % 2 ^ 32

pub encode_three :
    (buffer a b c : ℕ) (bytes : Bytes)
    → encode_from buffer 0 (a ∷ b ∷ c ∷ bytes)
      ≡ code_at (shift buffer a / 2 ^ 2 % 64)
        ∷ code_at (shift (shift buffer a) b / 2 ^ 4 % 64)
        ∷ code_at (shift (shift (shift buffer a) b) c / 2 ^ 6 % 64)
        ∷ code_at (shift (shift (shift buffer a) b) c / 2 ^ 0 % 64)
        ∷ encode_from (shift (shift (shift buffer a) b) c) 0 bytes
unfolding encode_from
encode_three buffer a b c bytes = simp char_at_mod

pub encode_two :
    (buffer a b : ℕ)
    → encode_from buffer 0 (a ∷ b ∷ [])
      ≡ code_at (shift buffer a / 2 ^ 2 % 64)
        ∷ code_at (shift (shift buffer a) b / 2 ^ 4 % 64)
        ∷ code_at (shift (shift buffer a) b * 2 ^ 2 % 64)
        ∷ []
unfolding encode_from
encode_two buffer a b = simp char_at_mod

pub encode_one :
    (buffer a : ℕ)
    → encode_from buffer 0 (a ∷ [])
      ≡ code_at (shift buffer a / 2 ^ 2 % 64) ∷ code_at (shift buffer a * 2 ^ 4 % 64) ∷ []
unfolding encode_from
encode_one buffer a = simp char_at_mod

abbrev pub join : ℕ → ℕ → ℕ
join buffer index = (buffer * 2 ^ 6 + index) % 2 ^ 32

-- One character in the alphabet: a byte comes out once 8 bits are there.
module _ (buffer w : ℕ) (cs : Text) where
  pub decode_at_0 :
      decode_from buffer 0 (code_at (w % 64) ∷ cs) ≡ decode_from (join buffer (w % 64)) 6 cs
  unfolding decode_from
  decode_at_0 = rw (index_of_mod w, decode_from)

  pub decode_at_6 : decode_from buffer 6 (code_at (w % 64) ∷ cs) ≡ (
      decode_from (join buffer (w % 64)) 4 cs >>= λ rest.
      ok ((join buffer (w % 64) / 2 ^ 4 % 256) ∷ rest))
  unfolding decode_from
  decode_at_6 = rw (index_of_mod w, decode_from)

  pub decode_at_4 : decode_from buffer 4 (code_at (w % 64) ∷ cs) ≡ (
      decode_from (join buffer (w % 64)) 2 cs >>= λ rest.
      ok ((join buffer (w % 64) / 2 ^ 2 % 256) ∷ rest))
  unfolding decode_from
  decode_at_4 = rw (index_of_mod w, decode_from)

  pub decode_at_2 : decode_from buffer 2 (code_at (w % 64) ∷ cs) ≡ (
      decode_from (join buffer (w % 64)) 0 cs >>= λ rest.
      ok ((join buffer (w % 64) / 2 ^ 0 % 256) ∷ rest))
  unfolding decode_from
  decode_at_2 = rw (index_of_mod w, decode_from)
