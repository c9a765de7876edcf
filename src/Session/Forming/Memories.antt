-- ===== src/Session/Forming/Memories.antt =====
-- session.ts: `formMemories` keeps the depart ledger in step.
use npc_of_the_internet.Shared.{ℕ, List, [], ◌∷◌, Text, text_eq}
use npc_of_the_internet.Session.{Outside, SessionOptions, Moment, Run}
use npc_of_the_internet.Session.Rules.{Keeps, bind-Keeps, pure-Keeps}
use npc_of_the_internet.Session.Sound.{Start, Inv, IsStore}
use npc_of_the_internet.Session.Forming.{each, form_memories}
use npc_of_the_internet.Session.Sound.Notes.{Done, read_ledger-Keeps}
use npc_of_the_internet.Session.Forming.Candidates.{distill_once-Keeps}
use npc_of_the_internet.Session.Forming.Shards.{screen_step-Keeps, shard_step-Keeps}
use npc_of_the_internet.Session.Forming.Journal.{journal_step-Keeps}

module _ {E : Type 0} (outside : Outside E) (options : SessionOptions)
    (store : IsStore outside options) (start : Start E) where
  each-Keeps :
      (step : Text → Run E (Unit {0})) (xs : List Text)
      → ((x : Text) (s : Moment E)
          → Inv options start s
          → Keeps (Inv options start) Done (step x s))
      → (s : Moment E) → Inv options start s
      → Keeps (Inv options start) Done (each outside options step xs s)
  each-Keeps step [] keeps s i = pure-Keeps tt s i tt
  each-Keeps step (x ∷ rest) keeps s i =
      bind-Keeps _ _ _ (keeps x s i) λ _ t j _. each-Keeps step rest keeps t j

  pub form_memories-Keeps :
      (min_memory_lines : ℕ) (s : Moment E)
      → Inv options start s
      → Keeps (Inv options start) Done (form_memories outside options min_memory_lines s)
  unfolding form_memories
  form_memories-Keeps min_memory_lines s i =
      bind-Keeps _ _ _ (distill_once-Keeps outside options store start min_memory_lines s i)
        λ candidates t j _.
          bind-Keeps _ _ _ (read_ledger-Keeps outside options store start t j) λ ledger u k _.
            bind-Keeps _ _ _
              (each-Keeps _ ledger.screen_categories (screen_step-Keeps outside options store start)
                u k)
              λ _ v l _.
                bind-Keeps _ _ _
                  (each-Keeps _ candidates (shard_step-Keeps outside options store start) v l)
                  λ _ w m _. journal_step-Keeps outside options store start w m
