-- ===== src/Session/Depart/Attempts.antt =====
-- session.ts: what a step of an attempt to depart leaves.
use npc_of_the_internet.Shared.{
  ℕ, ◌≡◌, refl, sym, ap, subst, ◌∙◌, inr, Option, none, some, List, [], Bool, true, false,
  if◌then◌else◌,
}
use npc_of_the_internet.Distillation.{TranscriptLine, ResidencyTranscript, read_transcript}
use npc_of_the_internet.Session.{
  SessionPhase, SessionFault, live, departing, departed, LedgerEntry, DepartLedger, empty_ledger,
  Outside, SessionOptions, Moment, Outcome, returned, threw, ◌>>◌,
}
use npc_of_the_internet.Session.Rules.{Keeps, bind-Keeps, Keeps-weaken, pure-Keeps}
use npc_of_the_internet.Session.Seal.{ledger_or_empty}
use npc_of_the_internet.Session.Sound.{Start, Inv, IsStore}
use npc_of_the_internet.Session.Sound.Changes.{Inv-live, Inv-notes}
use npc_of_the_internet.Session.Sound.Calls.{call_or_raise-Keeps}
use npc_of_the_internet.Session.Depart.{
  begin_depart, destroy_live, start_ledger, read_live, read_passed, open_ledger, refuse_bare,
  memories_unless, bare_ledger,
}
use npc_of_the_internet.Session.Sound.Notes.{Done, Unchanged, notes-Unchanged}
use npc_of_the_internet.Session.Forming.Memories.{form_memories-Keeps}
use npc_of_the_internet.Session.Depart.Sessions.{IsSound, Progress, Inv-Progress}

module _ {E : Type 0} (outside : Outside E) (options : SessionOptions)
    (store : IsStore outside options) where
  abbrev pub from : Moment E → Bool → Start E
  from s best_effort = record { moment = s; best_effort = best_effort }

  begin-Inv :
      (s : Moment E) (best_effort : Bool)
      → IsSound options s
      → Inv options (from s best_effort) (record s { phase = departing })
  begin-Inv s best_effort h = record {
    stored = h.inv.stored;
    held = h.inv.held;
    travelled = h.inv.travelled;
    calm = λ careful not_bare. not_bare;
    settled = λ slot now. (now, refl);
  }

  pub unchanged-Progress : (s : Moment E) → IsSound options s → Progress options s s
  unchanged-Progress s h = record { sound = h; settled = λ slot now. (refl, inr now) }

  pub begin_depart-Keeps :
      (s : Moment E) (best_effort : Bool)
      → IsSound options s
      → Keeps
          (Progress options s)
          (λ _ t. Inv options (from s best_effort) t × (t.ledger ≡ s.ledger))
          (begin_depart s)
  unfolding begin_depart
  begin_depart-Keeps s best_effort h = go s.phase
    where
      go :
          (phase : SessionPhase)
          → Keeps
              (Progress options s)
              (λ _ t. Inv options (from s best_effort) t × (t.ledger ≡ s.ledger))
              ((elim phase as (λ _. Moment E × Outcome (Unit {0})) [
                | departed ↦ (s, threw SessionFault.has_departed)
                | _ ↦ (record s { phase = departing }, returned tt)
              ]))
      go departed = record { ends = unchanged-Progress s h }
      go live = record {
        ends = (
          Inv-Progress options (from s best_effort) _ (begin-Inv s best_effort h),
          (begin-Inv s best_effort h, refl),
        );
      }
      go departing = record {
        ends = (
          Inv-Progress options (from s best_effort) _ (begin-Inv s best_effort h),
          (begin-Inv s best_effort h, refl),
        );
      }

  module _ (start : Start E) where
    pub refuse_bare-Keeps :
        (bare : Bool) (t : Moment E)
        → Inv options start t
        → Keeps (Inv options start) (λ _ u. (u ≡ t) × (bare ≡ false)) (refuse_bare bare t)
    unfolding refuse_bare
    refuse_bare-Keeps true t i = record { ends = i }
    refuse_bare-Keeps false t i = pure-Keeps tt t i (refl, refl)

    abbrev SameBare : Moment E → Moment E → Type 0
    SameBare t u = (ledger_or_empty u.ledger).bare ≡ (ledger_or_empty t.ledger).bare

    start_ledger-Keeps :
        (lines : List TranscriptLine) (t : Moment E)
        → t.ledger ≡ none
        → Inv options start t
        → Keeps (Inv options start) (λ _ u. SameBare t u) (start_ledger lines t)
    unfolding start_ledger
    start_ledger-Keeps lines t none_yet i =
        let same =
          subst (λ l. Unchanged (ledger_or_empty l) (empty_ledger lines)) (sym none_yet)
            (notes-Unchanged (empty_ledger []) (empty_ledger lines) refl refl refl refl refl
              refl) in
        record { ends = (Inv-notes t (empty_ledger lines) same.entries same.bare i, same.bare) }

    destroy_live-Keeps :
        (t : Moment E)
        → Inv options start t
        → Keeps (Inv options start) (λ _ u. u.ledger ≡ t.ledger) (destroy_live t)
    unfolding destroy_live
    destroy_live-Keeps t i = record { ends = (Inv-live t _ i, refl) }

    -- The live transcript is destroyed, and a ledger started.
    restart-Keeps :
        (lines : List TranscriptLine) (t : Moment E)
        → t.ledger ≡ none
        → Inv options start t
        → Keeps (Inv options start) (λ _ u. SameBare t u) ((destroy_live >> start_ledger lines) t)
    restart-Keeps lines t none_yet i = bind-Keeps _ _ _ (destroy_live-Keeps t i) λ _ u j same.
        Keeps-weaken _ (start_ledger-Keeps lines u (same ∙ none_yet) j) (λ v k. k)
          (λ _ v k bare. bare ∙ ap (λ l. (ledger_or_empty l).bare) same)

    read_live-Keeps :
        (transcript : Option ResidencyTranscript) (t : Moment E)
        → t.ledger ≡ none
        → Inv options start t
        → Keeps (Inv options start) (λ _ u. SameBare t u) (read_live transcript t)
    unfolding read_live
    read_live-Keeps none t none_yet i = record { ends = i }
    read_live-Keeps (some transcript) t none_yet i =
        restart-Keeps (read_transcript transcript) t none_yet i

    read_passed-Keeps :
        (t : Moment E)
        → t.ledger ≡ none
        → Inv options start t
        → Keeps (Inv options start) (λ _ u. SameBare t u) (read_passed outside options t)
    unfolding read_passed
    read_passed-Keeps t none_yet i =
        bind-Keeps _ _ _ (call_or_raise-Keeps outside options store start outside.read_source t i)
          λ lines u j near.
            bind-Keeps _ _ _
              (call_or_raise-Keeps outside options store start outside.destroy_source u j)
              λ _ v k near'.
                let same = near'.ledger ∙ near.ledger in
                Keeps-weaken _ (restart-Keeps lines v (same ∙ none_yet) k) (λ w l. l)
                  (λ _ w l bare. bare ∙ ap (λ l. (ledger_or_empty l).bare) same)

    pub open_ledger-Keeps :
        (passes : Bool) (t : Moment E)
        → Inv options start t
        → Keeps (Inv options start) (λ _ u. SameBare t u) (open_ledger outside options passes t)
    unfolding open_ledger
    open_ledger-Keeps passes t i = go passes t.ledger refl
      where
        go :
            (passes : Bool) (o : Option DepartLedger)
            → t.ledger ≡ o
            → Keeps
                (Inv options start)
                (λ _ u. SameBare t u)
                ((elim o as (λ _. Moment E × Outcome (Unit {0})) [
                  | some ledger ↦ (t, returned tt)
                  | none ↦
                      if passes
                      then read_passed outside options t
                      else read_live t.live_transcript t
                ]))
        go passes (some ledger) is = record { ends = (i, refl) }
        go true none is = read_passed-Keeps t is i
        go false none is = read_live-Keeps t.live_transcript t is i

    pub bare_ledger-Keeps :
        (t : Moment E)
        → Inv options start t
        → Keeps (Inv options start) (λ _ u. SameBare t u) (bare_ledger outside options t)
    unfolding bare_ledger
    bare_ledger-Keeps t i = go t.ledger refl
      where
        go :
            (o : Option DepartLedger)
            → t.ledger ≡ o
            → Keeps
                (Inv options start)
                (λ _ u. SameBare t u)
                ((elim o as (λ _. Moment E × Outcome (Unit {0})) [
                  | some ledger ↦ (t, returned tt)
                  | none ↦ (destroy_live >> start_ledger []) t
                ]))
        go (some ledger) is = record { ends = (i, refl) }
        go none is = restart-Keeps [] t is i

    pub memories_unless-Keeps :
        (known : Option LedgerEntry) (min_memory_lines : ℕ) (t : Moment E)
        → Inv options start t
        → Keeps (Inv options start) Done (memories_unless outside options known min_memory_lines t)
    unfolding memories_unless
    memories_unless-Keeps (some entry) min_memory_lines t i = pure-Keeps tt t i tt
    memories_unless-Keeps none min_memory_lines t i =
        form_memories-Keeps outside options store start min_memory_lines t i
