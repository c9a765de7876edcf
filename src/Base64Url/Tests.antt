-- ===== src/Base64Url/Tests.antt =====
-- Runs of base64url.ts.
use npc_of_the_internet.Shared.{◌≡◌, refl, [], ◌∷◌, text, arith}
use npc_of_the_internet.Base64Url.RoundTrip.{decode-encode}
use npc_of_the_internet.Base64Url.Canonical.{encode-decode}
use npc_of_the_internet.Base64Url.{
  ok, err, trailing_bits, invalid_length, encode_base64_url, decode_base64_url,
}

encode_test : encode_base64_url (102 ∷ 111 ∷ 111 ∷ 98 ∷ []) ≡ text "Zm9vYg"
unfolding encode_base64_url
encode_test = refl

decode_test : decode_base64_url (text "Zm9vYg") ≡ ok (102 ∷ 111 ∷ 111 ∷ 98 ∷ [])
unfolding decode_base64_url
decode_test = refl

decode_errors :
    (decode_base64_url (text "Zm9vYh") ≡ err trailing_bits)
    × (decode_base64_url (text "Zm9vY") ≡ err invalid_length)
unfolding decode_base64_url
decode_errors = (refl, refl)

decode-encode_example :
    decode_base64_url (encode_base64_url (255 ∷ 0 ∷ 7 ∷ [])) ≡ ok (255 ∷ 0 ∷ 7 ∷ [])
decode-encode_example =
    decode-encode (255 ∷ 0 ∷ 7 ∷ []) (λ e. absurd (ground arith))
      (omega arith, (omega arith, (omega arith, tt)))

encode-decode_example : encode_base64_url (102 ∷ 111 ∷ 111 ∷ 98 ∷ []) ≡ text "Zm9vYg"
encode-decode_example = encode-decode (text "Zm9vYg") (102 ∷ 111 ∷ 111 ∷ 98 ∷ []) decode_test
