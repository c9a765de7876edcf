-- ===== src/Chain/Creation/Tests.antt =====
-- Runs of the creation of a record.
use npc_of_the_internet.Shared.{
  ℕ, zero, suc, ◌≡◌, refl, inr, some, [], ◌∷◌, ◌++◌, text, All, arith, nat_eq, text_eq,
}
use npc_of_the_internet.Base64Url.{
  Bytes, encode_signature, decode_signature, decode_base64_url, decode_public_key,
  encode_base64_url,
}
use npc_of_the_internet.Base64Url.RoundTrip.{IsByte}
use npc_of_the_internet.Chain.Record.{v02, arrival, attestation}
use npc_of_the_internet.Chain.Residency.{parse_residency, door_id_from_residency}
use npc_of_the_internet.Chain.Schema.{safe_parse, issues}
use npc_of_the_internet.Chain.Signed.{returned, verify_record, DoorKeys}
use npc_of_the_internet.Chain.Samples.{
  zeros, sample_crypto, sample_key, sample_signature, sample_arrival,
}
use npc_of_the_internet.Chain.Creation.{
  CreateRecordInput, sorted, insert_text, sign_core, create_record,
}
use npc_of_the_internet.Chain.Creation.RoundTrip.{
  IsKeyPair, IsCosignedBy, verify_record-create_record,
}

abbrev sample_sign : Bytes → Bytes → Bytes
sample_sign message private_key = zeros 64

abbrev the_door_keys : DoorKeys
the_door_keys = (text "web:a", zeros 32) ∷ []

abbrev arrival_input : CreateRecordInput
arrival_input = record {
  spec = some v02;
  seq = 1;
  prev = some (text "cid" ++ 0 ∷ []);
  body = attestation (arrival (text "web:a") 1 sample_key (text "t"));
  residency = some (text "door:web:a/epoch:1");
  cosigners = sample_signature ∷ [];
  soul_private_key = [];
}

zeros-IsByte : (n : ℕ) → All IsByte (zeros n)
zeros-IsByte zero = tt
zeros-IsByte (suc n) = (omega arith, zeros-IsByte n)

sample_pair : IsKeyPair sample_crypto sample_sign [] (zeros 32)
sample_pair = record { bytes = λ _. zeros-IsByte 64; verifies = λ _. refl }

arrival_created :
    create_record sample_crypto sample_sign arrival_input
    ≡ returned (sample_arrival, text "cid" ++ 1 ∷ [])
unfolding create_record encode_signature encode_base64_url sorted insert_text safe_parse issues
    parse_residency door_id_from_residency decode_public_key decode_signature decode_base64_url
arrival_created = refl

arrival_cosigned : IsCosignedBy sample_crypto sample_sign arrival_input the_door_keys
unfolding sign_core encode_signature encode_base64_url parse_residency door_id_from_residency
arrival_cosigned = record {
  residency = text "door:web:a/epoch:1";
  stays = refl;
  parts = record { door_id = text "web:a"; epoch = 1 };
  parsed = refl;
  door_private_key = [];
  door_public_key = zeros 32;
  known = refl;
  pair = sample_pair;
  signed = (refl, tt);
}

verify_record-create_record_example :
    verify_record sample_crypto sample_arrival
      (zeros 32)
      (some the_door_keys)
      (some (text "cid" ++ 1 ∷ []))
    ≡ returned (sample_arrival, text "cid" ++ 1 ∷ [])
verify_record-create_record_example =
    verify_record-create_record sample_crypto sample_sign arrival_input sample_arrival
      (text "cid" ++ 1 ∷ []) (zeros 32) the_door_keys sample_pair (inr arrival_cosigned)
      arrival_created
