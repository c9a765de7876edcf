-- ===== src/Door/Transcript/Tests.antt =====
-- Runs of the residency record.
use npc_of_the_internet.Shared.{◌≡◌, refl, some, [], text, length}
use npc_of_the_internet.Canonical.Strings.{stringify}
use npc_of_the_internet.Door.Transcript.{
  community, PerRole, ResidencyLine, ResidencyRecord, nothing, create, record_line,
}
use npc_of_the_internet.Door.Transcript.Budgets.{
  create-IsResidencyRecord, record_line-IsResidencyRecord,
}
use npc_of_the_internet.Door.Transcript.Eviction.{IsResidencyRecord}

abbrev two_of_each : PerRole
two_of_each = record { of_community = 90; of_wanderer = 2 }

abbrev empty_record : ResidencyRecord
empty_record = record {
  max_chars = two_of_each;
  max_lines = two_of_each;
  chars = nothing;
  counts = nothing;
  entries = [];
}

abbrev long_line : ResidencyLine
long_line = record {
  role = community;
  author = some (text "ann");
  prose = text "a line of words that is longer than its budget";
  at = text "t";
}

empty_record-IsResidencyRecord : IsResidencyRecord empty_record
unfolding create
empty_record-IsResidencyRecord =
    create-IsResidencyRecord two_of_each two_of_each empty_record created
  where
    created : create two_of_each two_of_each ≡ some empty_record
    created = refl

record_line-IsResidencyRecord_example : IsResidencyRecord (record_line long_line empty_record)
record_line-IsResidencyRecord_example =
    record_line-IsResidencyRecord long_line empty_record empty_record-IsResidencyRecord

-- Of two long lines the latest is kept.
record_line_test : length (record_line long_line (record_line long_line empty_record)).entries ≡ 1
unfolding record_line stringify
record_line_test = refl
