-- ===== src/Distillation.antt =====
-- runtime/src/distill/residency-transcript.ts: the live transcript of a residency, a bounded ring.
pub mod Window
mod Tests
use npc_of_the_internet.Shared.{
  ℕ, ◌+◌, ◌-◌, Option, List, [], ◌∷◌, ◌++◌, Bool, ◌&&◌, ◌||◌, Text, length, ltb, if◌then◌else◌,
}

pub data LineRole : Type 0 where
  user assistant : LineRole

pub record TranscriptLine : Type 0 where
  pub role : LineRole
  pub prose : Text
  pub author_id : Option Text

-- `ResidencyTranscriptOptions`, with the defaults filled in
pub record Caps : Type 0 where
  pub max_lines : ℕ
  pub max_chars : ℕ

abbrev pub default_caps : Caps
default_caps = record { max_lines = 1500; max_chars = 120000 }

pub record ResidencyTranscript : Type 0 where
  pub lines : List TranscriptLine
  pub char_count : ℕ

abbrev pub empty_transcript : ResidencyTranscript
empty_transcript = record { lines = []; char_count = 0 }

abbrev pub transcript_size : ResidencyTranscript → ℕ
transcript_size transcript = length transcript.lines

-- The condition of the loop of `record`.
pub past_caps : Caps → (size char_count : ℕ) → Bool
past_caps caps size char_count =
    ltb 1 size && (ltb caps.max_lines size || ltb caps.max_chars char_count)

-- The loop of `record`: one turn shifts one line.
pub shift_lines : Caps → List TranscriptLine → ℕ → ResidencyTranscript
unfolding past_caps
shift_lines caps [] char_count = record { lines = []; char_count = char_count }
shift_lines caps (oldest ∷ rest) char_count =
    let shifted = shift_lines caps rest (char_count - length oldest.prose) in
    if past_caps caps (length (oldest ∷ rest)) char_count
    then shifted
    else record { lines = oldest ∷ rest; char_count = char_count }

-- `record`
pub record_transcript_line : Caps → TranscriptLine → ResidencyTranscript → ResidencyTranscript
unfolding shift_lines
record_transcript_line caps line transcript =
    shift_lines caps (transcript.lines ++ line ∷ []) (transcript.char_count + length line.prose)

-- `read`, then `destroy`, as depart calls them.
unfoldable pub read_transcript : ResidencyTranscript → List TranscriptLine
read_transcript transcript = transcript.lines

unfoldable pub destroy_transcript : ResidencyTranscript → ResidencyTranscript
destroy_transcript transcript = empty_transcript

-- A residency's lines, in the order in which they are recorded.
pub record_transcript : Caps → List TranscriptLine → ResidencyTranscript → ResidencyTranscript
unfolding record_transcript_line
record_transcript caps [] transcript = transcript
record_transcript caps (line ∷ rest) transcript =
    record_transcript caps rest (record_transcript_line caps line transcript)
