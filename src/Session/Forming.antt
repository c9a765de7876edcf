-- ===== src/Session/Forming.antt =====
-- session.ts: `formMemories`, what a departing session makes of its transcript.
pub mod Candidates
pub mod Shards
pub mod Journal
pub mod Memories
use npc_of_the_internet.Shared.{
  ℕ, suc, ◌+◌, Option, none, some, List, [], ◌∷◌, ◌++◌, Bool, true, false, not, ◌||◌, Text, text,
  length, get, put, ltb, ◌==◌, text_eq, if◌then◌else◌,
}
use npc_of_the_internet.Chain.Record.{OspRecord, memory, rejected, attestation, travel}
use npc_of_the_internet.Distillation.{
  TranscriptLine, ResidencyTranscript, read_transcript, destroy_transcript,
}
use npc_of_the_internet.Door.{shard, journal}
use npc_of_the_internet.Door.Core.{code_points_from}
use npc_of_the_internet.Session.{
  live, departing, departed, LedgerEntry, MemoryVerdict, witnessed, declined, JournalVerdict,
  undecided, skipped, decided, entry_of_verdict, DepartLedger, empty_ledger, HeadInfo, Distilled,
  distilled, nothing_usable, distill_failed, Outside, SessionOptions, Moment, has_departed,
  bare_only, no_transcript, no_head, call_failed, Outcome, returned, threw, Run, pure, raise,
  or_raise, call, attempt, ◌>>=◌, ◌>>◌, call_or_raise,
}
use npc_of_the_internet.Session.Seal.{
  Slot, screened_slot, shard_slot, journal_slot, departure_slot, travel_slot, mark_appended,
  read_ledger, change_ledger, require_head, append_entry, seal_at, ask_witness, attest_departure,
}

abbrev pub memory_attest_text_max : ℕ
memory_attest_text_max = 32000

abbrev pub is_witnessed : MemoryVerdict → Bool
is_witnessed (witnessed _) = true
is_witnessed (declined _ _) = false

-- The texts of the witnessed shards, in the order of the map.
unfoldable pub witnessed_texts : List (Text × MemoryVerdict) → List Text
witnessed_texts [] = []
witnessed_texts ((prose, verdict) ∷ rest) =
    let later = witnessed_texts rest in if is_witnessed verdict then prose ∷ later else later

module _ {E : Type 0} (outside : Outside E) (options : SessionOptions) where
  unfoldable pub keep_distilled : (texts categories : List Text) → Run E (List Text)
  keep_distilled texts categories =
      change_ledger
        (λ ledger. record ledger { candidates = some texts; screen_categories = categories })
      >> pure texts

  unfoldable pub skip_distill : Run E (List Text)
  skip_distill = change_ledger (λ ledger. record ledger { candidates = some [] }) >> pure []

  unfoldable pub after_distill : Distilled → Run E (List Text)
  after_distill (distilled texts categories) = keep_distilled texts categories
  after_distill (nothing_usable categories) = keep_distilled [] categories
  after_distill distill_failed = raise call_failed

  unfoldable pub run_distill : List TranscriptLine → Run E (List Text)
  run_distill lines = call (outside.distill lines) >>= after_distill

  unfoldable pub distill_unless :
      Option (List Text) → (quiet : Bool) → List TranscriptLine → Run E (List Text)
  distill_unless (some texts) quiet lines = pure texts
  distill_unless none quiet lines = if quiet then skip_distill else run_distill lines

  -- `distillOnce`
  unfoldable pub distill_once : (min_memory_lines : ℕ) → Run E (List Text)
  distill_once min_memory_lines = read_ledger >>= λ ledger.
      distill_unless ledger.candidates
        (not options.witnesses_memories || ltb (length ledger.lines) min_memory_lines) ledger.lines

  unfoldable pub seal_screened : Text → Run E LedgerEntry
  seal_screened category = do
    at ← call outside.now
    head ← require_head outside options
    entry ← seal_at outside options head (memory (rejected category none at)) []
    change_ledger (λ ledger. record ledger { screened = put category entry ledger.screened })
    pure entry

  unfoldable pub screened_entry : Text → Option LedgerEntry → Run E LedgerEntry
  screened_entry category (some entry) = pure entry
  screened_entry category none = seal_screened category

  -- One turn of the loop over the screen's categories.
  unfoldable pub screen_step : Text → Run E (Unit {0})
  screen_step category = do
    ledger ← read_ledger
    entry ← screened_entry category (get category ledger.screened)
    append_entry outside options (screened_slot category) entry

  unfoldable pub ask_shard : Text → Run E MemoryVerdict
  ask_shard prose = do
    verdict ← ask_witness outside options shard prose
    change_ledger (λ ledger. record ledger { shards = put prose verdict ledger.shards })
    pure verdict

  unfoldable pub shard_verdict : Text → Option MemoryVerdict → Run E MemoryVerdict
  shard_verdict prose (some verdict) = pure verdict
  shard_verdict prose none = ask_shard prose

  -- One turn of the loop over the candidates.
  unfoldable pub shard_step : Text → Run E (Unit {0})
  shard_step prose = do
    ledger ← read_ledger
    verdict ← shard_verdict prose (get prose ledger.shards)
    append_entry outside options (shard_slot prose) (entry_of_verdict verdict)

  unfoldable pub write_journal : MemoryVerdict → (path prose : Option Text) → Run E (Unit {0})
  write_journal (witnessed _) none (some prose) =
      call_or_raise (outside.write_journal_file prose) >>= λ path.
      change_ledger (λ ledger. record ledger { journal_path = some path })
  write_journal _ _ _ = pure tt

  unfoldable pub finish_journal : MemoryVerdict → Run E (Unit {0})
  finish_journal verdict = do
    append_entry outside options journal_slot (entry_of_verdict verdict)
    ledger ← read_ledger
    write_journal verdict ledger.journal_path ledger.journal_text

  -- `ledger.journalText ??= …`
  unfoldable pub journal_text_of : Option Text → List Text → Run E Text
  journal_text_of (some prose) shard_texts = pure prose
  journal_text_of none shard_texts = do
    prose ← call_or_raise (outside.generate_journal shard_texts)
    change_ledger (λ ledger. record ledger { journal_text = some prose })
    pure prose

  unfoldable pub ask_journal : Text → Run E (Unit {0})
  ask_journal prose = do
    verdict ← ask_witness outside options journal prose
    change_ledger (λ ledger. record ledger { journal = decided verdict })
    finish_journal verdict

  unfoldable pub judge_journal : Text → Run E (Unit {0})
  judge_journal prose =
      if ltb memory_attest_text_max (code_points_from none prose)
      then change_ledger (λ ledger. record ledger { journal = skipped })
      else ask_journal prose

  unfoldable pub form_journal : Option Text → List Text → Run E (Unit {0})
  form_journal prose [] = pure tt
  form_journal prose (first ∷ rest) = journal_text_of prose (first ∷ rest) >>= judge_journal

  unfoldable pub journal_after : JournalVerdict → DepartLedger → Run E (Unit {0})
  journal_after undecided ledger = form_journal ledger.journal_text (witnessed_texts ledger.shards)
  journal_after skipped ledger = pure tt
  journal_after (decided verdict) ledger = finish_journal verdict

  -- `journalStep`
  unfoldable pub journal_step : Run E (Unit {0})
  journal_step = read_ledger >>= λ ledger. journal_after ledger.journal ledger

  -- A loop over a list, each turn of which may throw.
  abbrev pub each : (Text → Run E (Unit {0})) → List Text → Run E (Unit {0})
  each step [] = pure tt
  each step (x ∷ rest) = step x >> each step rest

  -- `formMemories`
  unfoldable pub form_memories : (min_memory_lines : ℕ) → Run E (Unit {0})
  form_memories min_memory_lines = do
    candidates ← distill_once min_memory_lines
    ledger ← read_ledger
    each screen_step ledger.screen_categories
    each shard_step candidates
    journal_step
