-- ===== src/Session/Depart.antt =====
-- session.ts: `depart` and `departBare`, with the steps that they share.
pub mod Landing
pub mod Travel
pub mod Sessions
pub mod Attempts
pub mod Endings
pub mod Outcomes
mod Tests
use npc_of_the_internet.Shared.{
  ℕ, suc, ◌+◌, Option, none, some, List, [], ◌∷◌, ◌++◌, Bool, true, false, not, ◌||◌, Text, text,
  length, get, put, ltb, ◌==◌, text_eq, if◌then◌else◌,
}
use npc_of_the_internet.Chain.Record.{OspRecord, memory, rejected, attestation, travel}
use npc_of_the_internet.Distillation.{
  TranscriptLine, ResidencyTranscript, read_transcript, destroy_transcript,
}
use npc_of_the_internet.Door.{shard, journal}
use npc_of_the_internet.Door.Core.{code_points_from}
use npc_of_the_internet.Session.{
  live, departing, departed, LedgerEntry, MemoryVerdict, witnessed, declined, JournalVerdict,
  undecided, skipped, decided, entry_of_verdict, DepartLedger, empty_ledger, HeadInfo, Distilled,
  distilled, nothing_usable, distill_failed, Outside, SessionOptions, Moment, has_departed,
  bare_only, no_transcript, no_head, call_failed, Outcome, returned, threw, Run, pure, raise,
  or_raise, call, attempt, ◌>>=◌, ◌>>◌, call_or_raise,
}
use npc_of_the_internet.Session.Seal.{
  Slot, screened_slot, shard_slot, journal_slot, departure_slot, travel_slot, mark_appended,
  read_ledger, change_ledger, require_head, append_entry, seal_at, ask_witness, attest_departure,
}
use npc_of_the_internet.Session.Forming.{is_witnessed, witnessed_texts, form_memories}

-- `DepartOptions`: whether a transcript is passed (it is another source than the live one), and the
-- rest but for what is outside.
pub record DepartOptions : Type 0 where
  pub passes_transcript : Bool
  pub min_memory_lines : ℕ
  pub to_door_id : Option Text

abbrev pub default_min_memory_lines : ℕ
default_min_memory_lines = 10

pub record DepartResult : Type 0 where
  pub witnessed : ℕ
  pub declined : ℕ
  pub screened : ℕ
  pub journal_path : Option Text

declined_texts : List (Text × MemoryVerdict) → List Text
declined_texts [] = []
declined_texts ((prose, verdict) ∷ rest) =
    let later = declined_texts rest in if is_witnessed verdict then later else prose ∷ later

abbrev declined_journal : JournalVerdict → ℕ
declined_journal (decided (declined _ _)) = 1
declined_journal _ = 0

abbrev pub is_appended : Option LedgerEntry → Bool
is_appended none = false
is_appended (some entry) = entry.appended

pub result_of : DepartLedger → DepartResult
result_of ledger = record {
  witnessed = length (witnessed_texts ledger.shards);
  declined = length (declined_texts ledger.shards) + declined_journal ledger.journal;
  screened = length ledger.screened;
  journal_path = ledger.journal_path;
}

abbrev destroyed : Option ResidencyTranscript → Option ResidencyTranscript
destroyed none = none
destroyed (some transcript) = some (destroy_transcript transcript)

module _ {E : Type 0} where
  -- `beginDepart`. What it waits for (queued appends and inbound frames) are other calls.
  pub begin_depart : Run E (Unit {0})
  begin_depart s = elim s.phase [
    | departed ↦ (s, threw has_departed)
    | _ ↦ (record s { phase = departing }, returned tt)
  ]

  -- `finishDepart`
  pub finish_depart : Run E (Unit {0})
  finish_depart s = (record s { phase = departed; ledger = none }, returned tt)

  destroy_live : Run E (Unit {0})
  destroy_live s = (record s { live_transcript = destroyed s.live_transcript }, returned tt)

  start_ledger : List TranscriptLine → Run E (Unit {0})
  start_ledger lines s = (record s { ledger = some (empty_ledger lines) }, returned tt)

  read_live : Option ResidencyTranscript → Run E (Unit {0})
  read_live none = raise no_transcript
  read_live (some transcript) = destroy_live >> start_ledger (read_transcript transcript)

  pub refuse_bare : Bool → Run E (Unit {0})
  refuse_bare true = raise bare_only
  refuse_bare false = pure tt

module _ {E : Type 0} (outside : Outside E) (options : SessionOptions) where
  read_passed : Run E (Unit {0})
  read_passed = do
    lines ← call_or_raise outside.read_source
    call_or_raise outside.destroy_source
    destroy_live
    start_ledger lines

  -- `openLedger`
  pub open_ledger : (passes_transcript : Bool) → Run E (Unit {0})
  open_ledger passes_transcript s = elim s.ledger [
    | some ledger ↦ (s, returned tt)
    | none ↦ if passes_transcript then read_passed s else read_live s.live_transcript s
  ]

  departure_entry : Option LedgerEntry → Run E LedgerEntry
  departure_entry (some entry) = pure entry
  departure_entry none = do
    entry ← attest_departure outside options
    change_ledger (λ ledger. record ledger { departure = some entry })
    pure entry

  pub departure_step : Run E (Unit {0})
  departure_step = do
    ledger ← read_ledger
    entry ← departure_entry ledger.departure
    append_entry outside options departure_slot entry

  last_record : List OspRecord → Option OspRecord
  last_record [] = none
  last_record (r ∷ []) = some r
  last_record (r ∷ q ∷ rest) = last_record (q ∷ rest)

  -- `actualHead`
  pub actual_head : Run E HeadInfo
  actual_head s =
      (call_or_raise outside.iterate >>= λ _. or_raise (last_record s.chain) no_head >>= λ last.
      pure record { cid = options.crypto.compute_cid last; seq = last.seq })
        s

  pub landed_departure : HeadInfo → Option LedgerEntry → Run E (Unit {0})
  landed_departure head none = pure tt
  landed_departure head (some entry) =
      if head.cid == entry.cid then change_ledger (mark_appended departure_slot) else pure tt

  -- The `catch` of `departAndTravel`.
  after_departure : (best_effort : Bool) → Outcome (Unit {0}) → Run E (Option HeadInfo)
  after_departure best_effort (returned _) = pure none
  after_departure false (threw fault) = raise fault
  after_departure true (threw fault) = do
    head ← actual_head
    ledger ← read_ledger
    landed_departure head ledger.departure
    pure (some head)

  head_or_required : Option HeadInfo → Run E HeadInfo
  head_or_required (some head) = pure head
  head_or_required none = require_head outside options

  seal_travel : Option Text → (best_effort : Bool) → Run E LedgerEntry
  seal_travel to_door_id best_effort = do
    outcome ← attempt departure_step
    known ← after_departure best_effort outcome
    at ← call outside.now
    head ← head_or_required known
    entry ←
        seal_at outside options head
          (attestation (travel options.door_id options.epoch to_door_id at)) []
    change_ledger (λ ledger. record ledger { travel = some entry; bare = best_effort })
    pure entry

  travel_entry : Option LedgerEntry → Option Text → (best_effort : Bool) → Run E LedgerEntry
  travel_entry (some entry) to_door_id best_effort = pure entry
  travel_entry none to_door_id best_effort = seal_travel to_door_id best_effort

  -- `departAndTravel`
  pub depart_and_travel : Option Text → (best_effort : Bool) → Run E Bool
  depart_and_travel to_door_id best_effort = do
    ledger ← read_ledger
    entry ← travel_entry ledger.travel to_door_id best_effort
    append_entry outside options travel_slot entry
    after ← read_ledger
    pure (is_appended after.departure)

  pub memories_unless : Option LedgerEntry → (min_memory_lines : ℕ) → Run E (Unit {0})
  memories_unless (some departure) min_memory_lines = pure tt
  memories_unless none min_memory_lines = form_memories outside options min_memory_lines

  pub depart : DepartOptions → Run E DepartResult
  depart depart_options = do
    begin_depart
    before ← read_ledger
    refuse_bare before.bare
    open_ledger depart_options.passes_transcript
    ledger ← read_ledger
    memories_unless ledger.departure depart_options.min_memory_lines
    departure ← depart_and_travel depart_options.to_door_id false
    after ← read_ledger
    finish_depart
    pure (result_of after)

  pub bare_ledger : Run E (Unit {0})
  bare_ledger s = elim s.ledger [
    | some ledger ↦ (s, returned tt)
    | none ↦ (destroy_live >> start_ledger []) s
  ]

  pub depart_bare : Option Text → Run E Bool
  depart_bare to_door_id = do
    begin_depart
    bare_ledger
    departure ← depart_and_travel to_door_id true
    finish_depart
    pure departure

pub data Attempt : Type 0 where
  departs : DepartOptions → Attempt
  departs_bare : Option Text → Attempt

module _ {E : Type 0} (outside : Outside E) (options : SessionOptions) where
  -- One attempt to depart, whether it returns or throws.
  unfoldable pub try_depart : Attempt → Moment E → Moment E
  try_depart (departs depart_options) s = (depart outside options depart_options s).0
  try_depart (departs_bare to_door_id) s = (depart_bare outside options to_door_id s).0

  unfoldable pub try_all : List Attempt → Moment E → Moment E
  try_all [] s = s
  try_all (attempt ∷ rest) s = try_all rest (try_depart attempt s)
