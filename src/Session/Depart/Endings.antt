-- ===== src/Session/Depart/Endings.antt =====
-- session.ts: what one `depart` or `departBare` leaves.
use npc_of_the_internet.Shared.{
  ◌≡◌, refl, sym, ap, subst, ◌∙◌, Option, none, some, true, false, Text,
}
use npc_of_the_internet.Session.{
  SessionPhase, SessionFault, departed, LedgerEntry, Outside, SessionOptions, Moment, Outcome,
  returned, threw, Run, ◌>>=◌,
}
use npc_of_the_internet.Session.Rules.{Keeps, bind-Keeps, pure-Keeps}
use npc_of_the_internet.Session.Seal.{departure_slot, travel_slot, ledger_or_empty}
use npc_of_the_internet.Session.Sound.{AppendedThere, Start, Inv, IsStore}
use npc_of_the_internet.Session.Depart.{
  DepartOptions, is_appended, begin_depart, finish_depart, depart, depart_bare,
}
use npc_of_the_internet.Session.Sound.Notes.{read_ledger-Keeps}
use npc_of_the_internet.Session.Depart.Travel.{depart_and_travel-Keeps}
use npc_of_the_internet.Session.Depart.Attempts.{
  from, begin_depart-Keeps, refuse_bare-Keeps, open_ledger-Keeps, bare_ledger-Keeps,
  memories_unless-Keeps,
}
use npc_of_the_internet.Session.Depart.Sessions.{
  IsSound, Progress, OnChain, within, Holds-OnChain, finished-Progress,
}

is_appended-there : (o : Option LedgerEntry) → is_appended o ≡ true → AppendedThere o
is_appended-there none h = cc h
is_appended-there (some entry) h = h

-- The session is over, its ledger is dropped, its travel is on the chain, and so is its departure if
-- `departure` holds.
pub record Finished {E : Type 0} (options : SessionOptions) (departure : Type 0) (t : Moment E)
    : Type 0 where
  pub over : t.phase ≡ departed
  pub no_ledger : t.ledger ≡ none
  pub travelled : OnChain options travel_slot t.chain
  pub left : departure → OnChain options departure_slot t.chain

-- What a depart leaves: it returns and the session is over, or it throws and may be tried again.
abbrev pub DepartLeaves :
    {E A : Type 0} → SessionOptions → (A → Type 0) → Moment E × Outcome A → Type 0
DepartLeaves options departure (t, returned a) =
    IsSound options t × Finished options (departure a) t
DepartLeaves options departure (t, threw fault) = IsSound options t

pub Keeps-Progress :
    {E A : Type 0} {options : SessionOptions} {s : Moment E} {Q : A → Moment E → Type 0}
    (end : Moment E × Outcome A)
    → Keeps (Progress options s) Q end
    → Progress options s end.0
Keeps-Progress (t, returned a) h = h.ends.0
Keeps-Progress (t, threw fault) h = h.ends

pub Keeps-DepartLeaves :
    {E A : Type 0} {options : SessionOptions} {s : Moment E} {departure : A → Type 0}
    (end : Moment E × Outcome A)
    → Keeps (Progress options s) (λ a t. Finished options (departure a) t) end
    → DepartLeaves options departure end
Keeps-DepartLeaves (t, returned a) h = (h.ends.0.sound, h.ends.1)
Keeps-DepartLeaves (t, threw fault) h = h.ends.sound

pub bind_threw :
    {E A B : Type 0} (m : Run E A) (k : A → Run E B) (s : Moment E) {t : Moment E}
    {fault : SessionFault}
    → m s ≡ (t, threw fault)
    → (m >>= k) s ≡ (t, threw fault)
unfolding ◌>>=◌
bind_threw m k s h =
    ap (λ end. elim end.1 [ returned a ↦ k a end.0 | threw fault ↦ (end.0, threw fault) ]) h

pub begin_depart_over :
    {E : Type 0} (s : Moment E)
    → s.phase ≡ departed
    → begin_depart s ≡ (s, threw SessionFault.has_departed)
unfolding begin_depart
begin_depart_over {E} s h = go s.phase h
  where
    go :
        (phase : SessionPhase)
        → phase ≡ departed
        → (elim phase as (λ _. Moment E × Outcome (Unit {0})) [
          | departed ↦ (s, threw SessionFault.has_departed)
          | _ ↦ (record s { phase = SessionPhase.departing }, returned tt)
        ])
          ≡ (s, threw SessionFault.has_departed)
    go departed h = refl
    go SessionPhase.live h = absurd (cc h)
    go SessionPhase.departing h = absurd (cc h)

module _ {E : Type 0} (outside : Outside E) (options : SessionOptions)
    (store : IsStore outside options) where
  finish_depart-Keeps :
      (start : Start E) (departure : Type 0) (t : Moment E)
      → Inv options start t
      → AppendedThere (ledger_or_empty t.ledger).travel
      → (departure → AppendedThere (ledger_or_empty t.ledger).departure)
      → Keeps
          (Progress options start.moment)
          (λ _ u. Finished options departure u)
          (finish_depart t)
  unfolding finish_depart
  finish_depart-Keeps start departure t i travels leaves = record {
    ends = (
      finished-Progress options start t i,
      record {
        over = refl;
        no_ledger = refl;
        travelled = Holds-OnChain options start travel_slot t i travels;
        left = λ h. Holds-OnChain options start departure_slot t i (leaves h);
      },
    );
  }

  pub depart-Keeps :
      (depart_options : DepartOptions) (s : Moment E)
      → IsSound options s
      → Keeps
          (Progress options s)
          (λ result t. Finished options Unit t)
          (depart outside options depart_options s)
  unfolding depart
  depart-Keeps depart_options s h =
      let start = from outside options store s false in
      bind-Keeps _ _ _ (begin_depart-Keeps outside options store s false h) λ _ s1 p1 (i1, same1).
        bind-Keeps _ _ _
          (within options start _ (read_ledger-Keeps outside options store start s1 i1))
          λ before s2 p2 (i2, (same2, is2)).
            bind-Keeps _ _ _
              (within options start _
                (refuse_bare-Keeps outside options store start before.bare s2 i2))
              λ _ s3 p3 (i3, (same3, not_bare)).
                bind-Keeps _ _ _
                  (within options start _ (
                    open_ledger-Keeps outside options store start depart_options.passes_transcript
                      s3 i3))
                  λ _ s4 p4 (i4, bare4).
                    bind-Keeps _ _ _
                      (within options start _ (read_ledger-Keeps outside options store start s4 i4))
                      λ ledger s5 p5 (i5, _).
                        bind-Keeps _ _ _
                          (within options start _ (
                            memories_unless-Keeps outside options store start ledger.departure
                              depart_options.min_memory_lines s5 i5))
                          λ _ s6 p6 (i6, _).
                            let start_not_bare =
                              ap (λ l. (ledger_or_empty l).bare) (sym same1)
                              ∙ ap (λ l. l.bare) (sym is2)
                              ∙ not_bare in
                            bind-Keeps _ _ _
                              (within options start _ (
                                depart_and_travel-Keeps outside options store start
                                  depart_options.to_door_id false s6 (λ _. refl)
                                  (λ _. i6.calm refl start_not_bare) i6))
                              λ left s7 p7 (i7, (travels, leaves, _)).
                                bind-Keeps _ _ _
                                  (within options start _
                                    (read_ledger-Keeps outside options store start s7 i7))
                                  λ after s8 p8 (i8, (same8, _)).
                                    bind-Keeps _ _ _
                                      (finish_depart-Keeps start Unit s8 i8
                                        (subst
                                          (λ u. AppendedThere (ledger_or_empty u.ledger).travel)
                                          (sym same8) travels)
                                        (λ _.
                                          subst
                                            (λ u.
                                              AppendedThere (ledger_or_empty u.ledger).departure)
                                            (sym same8) (leaves refl)))
                                      λ _ s9 p9 finished. pure-Keeps _ s9 p9 finished

  pub depart_bare-Keeps :
      (to_door_id : Option Text) (s : Moment E)
      → IsSound options s
      → Keeps
          (Progress options s)
          (λ departure t. Finished options (departure ≡ true) t)
          (depart_bare outside options to_door_id s)
  unfolding depart_bare
  depart_bare-Keeps to_door_id s h =
      let start = from outside options store s true in
      bind-Keeps _ _ _ (begin_depart-Keeps outside options store s true h) λ _ s1 p1 (i1, same1).
        bind-Keeps _ _ _
          (within options start _ (bare_ledger-Keeps outside options store start s1 i1))
          λ _ s2 p2 (i2, _).
            bind-Keeps _ _ _
              (within options start _ (
                depart_and_travel-Keeps outside options store start to_door_id true s2
                  (λ careful. absurd (cc careful)) (λ careful. absurd (cc careful)) i2))
              λ departure s3 p3 (i3, (travels, _, answer)).
                bind-Keeps _ _ _
                  (finish_depart-Keeps start (departure ≡ true) s3 i3 travels (λ is.
                    is_appended-there (ledger_or_empty s3.ledger).departure (sym answer ∙ is)))
                  λ _ s4 p4 finished. pure-Keeps departure s4 p4 finished
