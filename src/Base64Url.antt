-- ===== src/Base64Url.antt =====
-- osp-core/src/encoding/base64url.ts: unpadded base64url, and the fixed-length keys and signatures.
-- `<<` and `>>` work on 32 bits: the buffer is kept modulo 2 ^ 32. Every read takes the low 6 or 8
-- bits of `buffer >> bits` with `bits` below 8, so the sign that JavaScript sees makes no difference.
-- `for (const char of encoded)` walks code points; past the alphabet test they are the code units.
mod Alphabet
mod Groups
pub mod Canonical
pub mod RoundTrip
mod Tests
use npc_of_the_internet.Shared.{
  ℕ, zero, suc, ◌+◌, ◌-◌, ◌*◌, ◌/◌, ◌%◌, ◌^◌, Bool, true, false, not, ◌&&◌, Option, none, some,
  List, [], ◌∷◌, ◌++◌, Text, text, length, get_elem?, includes, ltb, leb, ◌==◌, nat_eq,
  if◌then◌else◌,
}

-- `EncodingError`, by the message.
pub data EncodingError : Type 0 where
  empty_input invalid_length invalid_alphabet trailing_bits : EncodingError
  wrong_size : ℕ → EncodingError

pub data Decoded (A : Type 0) : Type 0 where
  ok : A → Decoded A
  err : EncodingError → Decoded A

infixl 5 ◌>>=◌
abbrev pub ◌>>=◌ : {A B : Type 0} → Decoded A → (A → Decoded B) → Decoded B
ok a >>= f = f a
err e >>= f = err e

abbrev pub Bytes : Type 0
Bytes = List ℕ

abbrev pub base64url_chars : Text
base64url_chars = text "ABCDEFGHIJKLMNOPQRSTUVWXYZabcdefghijklmnopqrstuvwxyz0123456789-_"

-- `BASE64URL_CHARS.charAt(index)`
char_in : Text → ℕ → Text
char_in [] i = []
char_in (c ∷ cs) zero = c ∷ []
char_in (c ∷ cs) (suc i) = char_in cs i

pub char_at : ℕ → Text
unfolding char_in
char_at = char_in base64url_chars

-- `BASE64URL_CHARS.indexOf(char)`, with `none` for -1
index_in : Text → ℕ → Option ℕ
index_in [] c = none
index_in (d ∷ ds) c =
    let later = index_in ds c in
    if d == c then some 0 else elim later [ none ↦ none | some i ↦ some (suc i) ]

pub index_of : ℕ → Option ℕ
unfolding index_in
index_of = index_in base64url_chars

-- The inner `while (bits >= 6)`: the characters written, and the bits left. Fuel: the bits.
flush : ℕ → ℕ → ℕ → Text × ℕ
flush zero buffer bits = ([], bits)
flush (suc fuel) buffer bits =
    let left = bits - 6 in
    let rest = flush fuel buffer left in
    if leb 6 bits then (char_at (buffer / 2 ^ left % 64) ++ rest.0, rest.1) else ([], bits)

-- The loop over the bytes from `buffer` and `bits`, and the last character.
unfoldable pub encode_from : ℕ → ℕ → Bytes → Text
unfolding flush
encode_from buffer bits [] = if ltb 0 bits then char_at (buffer * 2 ^ (6 - bits) % 64) else []
encode_from buffer bits (byte ∷ bytes) =
    let buffer' = (buffer * 2 ^ 8 + byte) % 2 ^ 32 in
    let written = flush (bits + 8) buffer' (bits + 8) in
    written.0 ++ encode_from buffer' written.1 bytes

unfoldable pub encode_base64_url : Bytes → Text
unfolding encode_from char_at
encode_base64_url bytes = encode_from 0 0 bytes

-- The loop over the characters, and the test of the trailing bits.
pub decode_from : ℕ → ℕ → Text → Decoded Bytes
decode_from buffer bits [] =
    if ltb 0 bits && not (buffer % 2 ^ bits == 0) then err trailing_bits else ok []
decode_from buffer bits (c ∷ cs) = elim (index_of c) [
  | none ↦ err invalid_alphabet
  | some index ↦
      (let buffer' = (buffer * 2 ^ 6 + index) % 2 ^ 32 in
        let bits' = bits + 6 in
        let with_byte = decode_from buffer' (bits' - 8) cs >>= λ rest.
        ok ((buffer' / 2 ^ (bits' - 8) % 256) ∷ rest) in
        let without = decode_from buffer' bits' cs in if leb 8 bits' then with_byte else without)
]

pub in_alphabet : Text → Bool
in_alphabet [] = true
in_alphabet (c ∷ cs) = includes base64url_chars c && in_alphabet cs

unfoldable pub decode_base64_url : Text → Decoded Bytes
unfolding decode_from in_alphabet index_of
decode_base64_url encoded =
    if length encoded == 0
    then err empty_input
    else if length encoded % 4 == 1
    then err invalid_length
    else if not (in_alphabet encoded)
    then err invalid_alphabet
    else decode_from 0 0 encoded

abbrev public_key_length : ℕ
public_key_length = 32

abbrev signature_length : ℕ
signature_length = 64

unfoldable pub encode_public_key : Bytes → Decoded Text
encode_public_key public_key =
    if length public_key == public_key_length
    then ok (encode_base64_url public_key)
    else err (wrong_size (length public_key))

unfoldable pub decode_public_key : Text → Decoded Bytes
decode_public_key encoded = decode_base64_url encoded >>= λ bytes.
    if length bytes == public_key_length then ok bytes else err (wrong_size (length bytes))

unfoldable pub encode_signature : Bytes → Decoded Text
encode_signature signature =
    if length signature == signature_length
    then ok (encode_base64_url signature)
    else err (wrong_size (length signature))

unfoldable pub decode_signature : Text → Decoded Bytes
decode_signature encoded = decode_base64_url encoded >>= λ bytes.
    if length bytes == signature_length then ok bytes else err (wrong_size (length bytes))
