-- ===== src/Atlas/Residencies/Tests.antt =====
-- Runs of the table of residencies.
use npc_of_the_internet.Shared.{◌≡◌, refl, none, some, List, [], ◌∷◌, Text, text, text_eq}
use npc_of_the_internet.Chain.Record.{
  v02, shard_v02, rejected, arrival, Body, memory, attestation, OspRecord,
}
use npc_of_the_internet.Chain.Residency.{parse_residency, door_id_from_residency}
use npc_of_the_internet.Atlas.Residencies.{journal_ref_of, note_records}
use npc_of_the_internet.Atlas.Residencies.Stays.{InOnePlace, note_records-InOnePlace}
use npc_of_the_internet.Atlas.Residencies.Counts.{note_records-totals}
use npc_of_the_internet.Atlas.Residencies.Totals.{
  shard_weight, declined_weight, screened_weight, records_total, slots_total,
}

abbrev of_residency : Text → Body → OspRecord
of_residency residency body = record {
  spec = v02;
  seq = 1;
  prev = none;
  residency = some residency;
  cosigners = [];
  sig = [];
  body = body;
}

-- A stay with a shard and a declined memory, then a restart at the same Door.
abbrev two_stays : List OspRecord
two_stays =
    of_residency (text "door:web:a/epoch:1")
      (attestation (arrival (text "web:a") 1 (text "k") (text "t1")))
    ∷ of_residency (text "door:web:a/epoch:1")
        (memory (shard_v02 (text "c") (text "h") none none none (text "t2")))
    ∷ of_residency (text "door:web:a/epoch:1")
        (memory (rejected (text "witness_private") none (text "t3")))
    ∷ of_residency (text "door:web:a/epoch:2")
        (attestation (arrival (text "web:a") 2 (text "k") (text "t4")))
    ∷ []

two_stays_test :
    (slots_total (λ s. s.witnessed) (note_records two_stays []) ≡ 1)
    × (slots_total (λ s. s.declined) (note_records two_stays []) ≡ 1)
unfolding note_records parse_residency door_id_from_residency journal_ref_of
two_stays_test = (refl, refl)

note_records-InOnePlace_example : InOnePlace (note_records two_stays [])
note_records-InOnePlace_example = note_records-InOnePlace two_stays [] nowhere
  where
    nowhere : InOnePlace []
    nowhere k j (slot, h, _) b = absurd (cc h)

note_records-totals_example :
    (slots_total (λ s. s.witnessed) (note_records two_stays [])
      ≡ records_total shard_weight two_stays)
    × (slots_total (λ s. s.declined) (note_records two_stays [])
        ≡ records_total declined_weight two_stays)
    × (slots_total (λ s. s.screened) (note_records two_stays [])
        ≡ records_total screened_weight two_stays)
note_records-totals_example = note_records-totals two_stays
