-- ===== src/Session/Forming/Candidates.antt =====
-- session.ts: `distillOnce` keeps the depart ledger in step.
use npc_of_the_internet.Shared.{
  ℕ, refl, Option, none, some, List, [], Bool, true, false, Text, text_eq,
}
use npc_of_the_internet.Distillation.{TranscriptLine}
use npc_of_the_internet.Session.{
  Distilled, distilled, nothing_usable, distill_failed, Outside, SessionOptions, Moment,
}
use npc_of_the_internet.Session.Rules.{Keeps, bind-Keeps, pure-Keeps}
use npc_of_the_internet.Session.Sound.{Start, Inv, IsStore}
use npc_of_the_internet.Session.Sound.Calls.{call-Keeps}
use npc_of_the_internet.Session.Forming.{
  keep_distilled, skip_distill, after_distill, run_distill, distill_unless, distill_once,
}
use npc_of_the_internet.Session.Sound.Notes.{Done, notes-Unchanged, notes-Keeps, read_ledger-Keeps}

module _ {E : Type 0} (outside : Outside E) (options : SessionOptions)
    (store : IsStore outside options) (start : Start E) where
  keep_distilled-Keeps :
      (texts categories : List Text) (s : Moment E)
      → Inv options start s
      → Keeps (Inv options start) Done (keep_distilled outside options texts categories s)
  unfolding keep_distilled
  keep_distilled-Keeps texts categories s i =
      bind-Keeps _ _ _
        (notes-Keeps outside options store start _ s
          (λ ledger.
            notes-Unchanged ledger
              (record ledger { candidates = some texts; screen_categories = categories }) refl refl
              refl refl refl refl)
          i)
        λ _ t j _. pure-Keeps texts t j tt

  after_distill-Keeps :
      (answer : Distilled) (s : Moment E)
      → Inv options start s
      → Keeps (Inv options start) Done (after_distill outside options answer s)
  unfolding after_distill
  after_distill-Keeps (distilled texts categories) s i = keep_distilled-Keeps texts categories s i
  after_distill-Keeps (nothing_usable categories) s i = keep_distilled-Keeps [] categories s i
  after_distill-Keeps distill_failed s i = record { ends = i }

  run_distill-Keeps :
      (lines : List TranscriptLine) (s : Moment E)
      → Inv options start s
      → Keeps (Inv options start) Done (run_distill outside options lines s)
  unfolding run_distill
  run_distill-Keeps lines s i =
      bind-Keeps _ _ _ (call-Keeps outside options store start (outside.distill lines) s i)
        λ answer t j near. after_distill-Keeps answer t j

  distill_unless-Keeps :
      (known : Option (List Text)) (quiet : Bool) (lines : List TranscriptLine) (s : Moment E)
      → Inv options start s
      → Keeps (Inv options start) Done (distill_unless outside options known quiet lines s)
  unfolding distill_unless skip_distill
  distill_unless-Keeps (some texts) quiet lines s i = pure-Keeps texts s i tt
  distill_unless-Keeps none true lines s i =
      bind-Keeps _ _ _
        (notes-Keeps outside options store start _ s
          (λ ledger.
            notes-Unchanged ledger (record ledger { candidates = some [] }) refl refl refl refl refl
              refl)
          i)
        λ _ t j _. pure-Keeps [] t j tt
  distill_unless-Keeps none false lines s i = run_distill-Keeps lines s i

  pub distill_once-Keeps :
      (min_memory_lines : ℕ) (s : Moment E)
      → Inv options start s
      → Keeps (Inv options start) Done (distill_once outside options min_memory_lines s)
  unfolding distill_once
  distill_once-Keeps min_memory_lines s i =
      bind-Keeps _ _ _ (read_ledger-Keeps outside options store start s i)
        λ ledger t j _. distill_unless-Keeps ledger.candidates _ ledger.lines t j
