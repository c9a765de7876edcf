-- ===== src/Chain/Samples.antt =====
-- A short soulchain, and functions in place of the cryptography that the records rely on.
use npc_of_the_internet.Shared.{
  ℕ, zero, suc, ◌++◌, Option, none, some, List, [], ◌∷◌, Text, text, ◌==◌, nat_eq, text_eq, map,
}
use npc_of_the_internet.Base64Url.{Bytes}
use npc_of_the_internet.Chain.Record.{
  v02, arrival, heartbeat, departure, Body, genesis, attestation, OspRecord, Crypto,
}
use npc_of_the_internet.Chain.Schema.{Raw, shaped}
use npc_of_the_internet.Chain.Signed.{DoorKeys}

-- A signature is good if its first byte is that of the key.
abbrev first_byte : Bytes → ℕ
first_byte [] = 256
first_byte (b ∷ _) = b

abbrev pub sample_crypto : Crypto
sample_crypto = record {
  core_bytes = λ c. c.seq ∷ [];
  soul_bytes = λ s. s.seq ∷ [];
  compute_cid = λ r. text "cid" ++ r.seq ∷ [];
  verify = λ _ sig key. first_byte sig == first_byte key;
}

abbrev repeat : ℕ → Text → Text
repeat zero s = s
repeat (suc n) s = 65 ∷ repeat n s

abbrev pub sample_key : Text
sample_key = repeat 43 []

abbrev pub sample_signature : Text
sample_signature = repeat 86 []

abbrev pub zeros : ℕ → Bytes
zeros zero = []
zeros (suc n) = 0 ∷ zeros n

abbrev pub sample_keys : Option DoorKeys
sample_keys = some ((text "web:a", zeros 32) ∷ [])

abbrev pub sample_genesis : OspRecord
sample_genesis = record {
  spec = v02;
  seq = 0;
  prev = none;
  residency = none;
  cosigners = [];
  sig = sample_signature;
  body = genesis (record {
    charter = text "charter";
    soul_pubkey = sample_key;
    created_at = text "2026-01-01T00:00:00.000Z";
    fork_point = none;
    fork_reason = none;
  });
}

abbrev later : ℕ → Text → Body → OspRecord
later seq prev body = record {
  spec = v02;
  seq = seq;
  prev = some prev;
  residency = some (text "door:web:a/epoch:1");
  cosigners = sample_signature ∷ [];
  sig = sample_signature;
  body = body;
}

abbrev pub sample_arrival : OspRecord
sample_arrival =
    later 1 (text "cid" ++ 0 ∷ []) (attestation (arrival (text "web:a") 1 sample_key (text "t")))

abbrev pub sample_heartbeat : OspRecord
sample_heartbeat =
    later 2 (text "cid" ++ 1 ∷ []) (attestation (heartbeat (text "web:a") 1 sample_key (text "t")))

abbrev pub sample_departure : OspRecord
sample_departure =
    later 3 (text "cid" ++ 2 ∷ []) (attestation (departure (text "web:a") 1 (text "t")))

abbrev pub sample_records : List OspRecord
sample_records = sample_genesis ∷ sample_arrival ∷ sample_heartbeat ∷ []

abbrev pub sample_chain : List Raw
sample_chain = map shaped sample_records
