-- ===== src/Chain/Verifier/Tests.antt =====
-- Runs of the verifier on a short soulchain.
use npc_of_the_internet.Shared.{
  ℕ, ◌≡◌, refl, ◌↔◌, Option, none, some, List, [], ◌∷◌, ◌++◌, map, true, text, get_elem?, nat_eq,
  text_eq,
}
use npc_of_the_internet.Base64Url.{Bytes, decode_base64_url, decode_public_key, decode_signature}
use npc_of_the_internet.Chain.Residency.{parse_residency, door_id_from_residency}
use npc_of_the_internet.Chain.Record.{OspRecord, soul_payload}
use npc_of_the_internet.Chain.Schema.{shaped, issues, safe_parse, needs_cosigners, is_genesis}
use npc_of_the_internet.Chain.Signed.{Thrown, returned, threw, verify_record}
use npc_of_the_internet.Chain.Presence.{bad_genesis, evaluate_presence}
use npc_of_the_internet.Chain.Checks.{HeadInfo, ChainVerifier, fresh, chain_failures}
use npc_of_the_internet.Chain.History.{IsChain, soul_key_of}
use npc_of_the_internet.Chain.Verifier.{
  ChainStep, VerifyChainResult, valid, invalid, refuse, verify_records, verify_records_with_state,
  evaluate, verify_chain,
}
use npc_of_the_internet.Chain.Verifier.Tracking.{last_head}
use npc_of_the_internet.Chain.Verifier.Valid.{after, verify_records_iff}
use npc_of_the_internet.Chain.Verifier.Append.{evaluate-verify_records}
use npc_of_the_internet.Chain.Verifier.CrossCheck.{verify_chain_iff}
use npc_of_the_internet.Chain.Guarantees.{verify_records-numbered}
use npc_of_the_internet.Chain.Guarantees.Presence.{verify_records-single_door}
use npc_of_the_internet.Chain.Guarantees.Witnessed.{
  IsSignatureOf, IsCosigned, verify_records-witnessed,
}
use npc_of_the_internet.Chain.Samples.{
  sample_crypto, sample_keys, sample_arrival, sample_heartbeat, sample_departure, sample_chain,
  sample_records,
}

abbrev sample_head : HeadInfo
sample_head = record { cid = text "cid" ++ 2 ∷ []; seq = 2 }

sample_chain-valid :
    verify_records sample_crypto sample_keys sample_chain ≡ returned (valid (some sample_head))
unfolding verify_records safe_parse issues decode_public_key decode_signature verify_record
    evaluate_presence parse_residency decode_base64_url door_id_from_residency chain_failures
sample_chain-valid = refl

-- A chain that starts with an arrival fails.
broken_chain_test :
    verify_records sample_crypto sample_keys (shaped sample_arrival ∷ [])
    ≡ returned (invalid (record { seq = 1; cid = none; rule = bad_genesis } ∷ []))
unfolding verify_records safe_parse issues decode_public_key decode_signature verify_record
    evaluate_presence parse_residency decode_base64_url door_id_from_residency chain_failures
broken_chain_test = refl

verify_records_iff_example :
    (rs : List OspRecord) × (sample_chain ≡ map shaped rs)
    × IsChain sample_crypto sample_keys rs
    × (some sample_head ≡ last_head sample_crypto (after [] rs))
verify_records_iff_example =
    (verify_records_iff sample_crypto sample_keys sample_chain (some sample_head)).0
      sample_chain-valid

sample_records-valid :
    verify_chain sample_crypto sample_keys sample_records (some sample_head)
    ≡ returned (valid (some sample_head))
unfolding verify_chain safe_parse issues decode_public_key decode_signature verify_record
    evaluate_presence parse_residency decode_base64_url door_id_from_residency chain_failures
sample_records-valid = refl

verify_chain_iff_example :
    IsChain sample_crypto sample_keys sample_records
    × (some sample_head ≡ last_head sample_crypto (after [] sample_records))
    × (some sample_head ≡ some sample_head)
verify_chain_iff_example =
    (verify_chain_iff sample_crypto sample_keys sample_records (some sample_head)
        (some sample_head)).0
      sample_records-valid

-- The verifier of the sample chain, and the step of a departure after it.
abbrev state_of : Thrown (VerifyChainResult × ChainVerifier) → ChainVerifier
state_of (returned x) = x.1
state_of (threw e) = fresh

abbrev sample_state : ChainVerifier
sample_state = state_of (verify_records_with_state sample_crypto sample_keys sample_chain)

abbrev step_of : Thrown ChainStep → ChainStep
step_of (returned s) = s
step_of (threw e) = refuse fresh 0

abbrev sample_step : ChainStep
sample_step = step_of (evaluate sample_crypto sample_keys sample_state (shaped sample_departure))

sample_state-valid :
    verify_records_with_state sample_crypto sample_keys sample_chain
    ≡ returned (valid (some sample_head), sample_state)
unfolding verify_records_with_state safe_parse issues decode_public_key decode_signature
    verify_record evaluate_presence parse_residency decode_base64_url door_id_from_residency
    chain_failures
sample_state-valid = refl

sample_step-returned :
    evaluate sample_crypto sample_keys sample_state (shaped sample_departure) ≡ returned sample_step
unfolding verify_records_with_state safe_parse issues decode_public_key decode_signature
    verify_record evaluate_presence parse_residency decode_base64_url door_id_from_residency
    chain_failures
sample_step-returned = refl

evaluate-verify_records_example : (sample_step.failures ≡ []) ↔ (
    (longer : Option HeadInfo) × (verify_records sample_crypto sample_keys
        (sample_chain ++ shaped sample_departure ∷ [])
      ≡ returned (valid longer)))
evaluate-verify_records_example =
    evaluate-verify_records sample_crypto sample_keys sample_chain (shaped sample_departure)
      sample_state (some sample_head) sample_step sample_state-valid sample_step-returned

-- An arrival that is on the chain already.
abbrev repeated_step : ChainStep
repeated_step = step_of (evaluate sample_crypto sample_keys sample_state (shaped sample_arrival))

verify_records-numbered_example :
    (sample_heartbeat.seq ≡ 2) × ((is_genesis sample_heartbeat.body ≡ true) ↔ (◌≡◌ {A = ℕ} 2 0))
verify_records-numbered_example =
    verify_records-numbered sample_crypto sample_keys sample_chain (some sample_head) 2
      sample_heartbeat sample_chain-valid refl

verify_records-single_door_example : text "web:a" ≡ text "web:a"
verify_records-single_door_example =
    verify_records-single_door sample_crypto sample_keys sample_chain (some sample_head) 1 2
      sample_arrival sample_heartbeat (record { door_id = text "web:a"; epoch = 1 })
      (record { door_id = text "web:a"; epoch = 1 }) sample_chain-valid refl refl refl refl refl

verify_records-witnessed_example :
    ((first : OspRecord) × (key : Bytes) × (get_elem? sample_chain 0 ≡ some (shaped first))
      × (soul_key_of first.body ≡ some key)
      × IsSignatureOf sample_crypto
          (sample_crypto.soul_bytes (soul_payload sample_arrival))
          key
          sample_arrival.sig)
    × (needs_cosigners sample_arrival.body ≡ true
        → IsCosigned sample_crypto sample_keys sample_arrival)
verify_records-witnessed_example =
    verify_records-witnessed sample_crypto sample_keys sample_chain (some sample_head) 1
      sample_arrival sample_chain-valid refl

parse_test :
    parse_residency (text "door:discord:guild123/epoch:77")
    ≡ some (record { door_id = text "discord:guild123"; epoch = 77 })
unfolding parse_residency
parse_test = refl
