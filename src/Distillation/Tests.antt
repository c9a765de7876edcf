-- ===== src/Distillation/Tests.antt =====
-- Runs of the live transcript.
use npc_of_the_internet.Shared.{◌≡◌, refl, none, some, [], ◌∷◌, text}
use npc_of_the_internet.Distillation.{
  user, assistant, TranscriptLine, Caps, default_caps, empty_transcript, record_transcript_line,
  record_transcript, read_transcript, destroy_transcript,
}
use npc_of_the_internet.Distillation.Window.{IsWindow, record_transcript-IsWindow}

abbrev small_caps : Caps
small_caps = record { max_lines = 3; max_chars = 10 }

abbrev heard : TranscriptLine
heard = record { role = user; prose = text "good day"; author_id = some (text "ann") }

abbrev said : TranscriptLine
said = record { role = assistant; prose = text "hi"; author_id = none }

abbrev long_said : TranscriptLine
long_said = record { role = assistant; prose = text "a long reply"; author_id = none }

record_transcript-IsWindow_example :
    IsWindow small_caps
      (heard ∷ said ∷ said ∷ [])
      (record_transcript small_caps (heard ∷ said ∷ said ∷ []) empty_transcript)
record_transcript-IsWindow_example =
    record_transcript-IsWindow small_caps (heard ∷ said ∷ said ∷ [])

oldest_goes :
    read_transcript (record_transcript small_caps (heard ∷ said ∷ said ∷ []) empty_transcript)
    ≡ said ∷ said ∷ []
unfolding record_transcript read_transcript
oldest_goes = refl

long_line_stays :
    read_transcript (record_transcript small_caps (said ∷ long_said ∷ []) empty_transcript)
    ≡ long_said ∷ []
unfolding record_transcript read_transcript
long_line_stays = refl

all_kept :
    read_transcript (record_transcript default_caps (heard ∷ long_said ∷ []) empty_transcript)
    ≡ heard ∷ long_said ∷ []
unfolding record_transcript read_transcript
all_kept = refl

forgotten :
    destroy_transcript (record_transcript_line default_caps heard empty_transcript)
    ≡ empty_transcript
unfolding destroy_transcript
forgotten = refl
