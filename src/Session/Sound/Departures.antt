-- ===== src/Session/Sound/Departures.antt =====
-- session.ts: attesting the departure keeps the depart ledger in step.
use npc_of_the_internet.Shared.{
  ◌≡◌, refl, ap, ◌∙◌, Option, none, some, [], ◌∷◌, Text, text_eq, nat_eq,
}
use npc_of_the_internet.Chain.Record.{attestation, departure}
use npc_of_the_internet.Session.{
  DepartLedger, HeadInfo, AttestAnswer, cosigned, declines, unanswered, Outside, SessionOptions,
  Moment,
}
use npc_of_the_internet.Session.Rules.{
  Keeps, bind-Keeps, Keeps-weaken, pure-Keeps, of_decoded-Keeps,
}
use npc_of_the_internet.Session.Seal.{
  Slot, departure_slot, entry_at, ledger_or_empty, fix_departure_at, seal_departure,
  attest_departure,
}
use npc_of_the_internet.Session.Sound.{Holds, Start, Inv, IsStore}
use npc_of_the_internet.Session.Sound.Changes.{Inv-notes}
use npc_of_the_internet.Session.Sound.Calls.{call-Keeps, require_head-Keeps}
use npc_of_the_internet.Session.Sound.Verdicts.{
  seal_at-Keeps, Fresh-Holds_bare, signed_attest-Keeps, SameTravel,
}

module _ {E : Type 0} (outside : Outside E) (options : SessionOptions)
    (store : IsStore outside options) (start : Start E) where
  fix_departure_at-Keeps :
      (known : Option Text) (s : Moment E)
      → Inv options start s
      → Keeps
          (Inv options start)
          (λ at t. SameTravel outside options store start s t)
          (fix_departure_at outside options known s)
  unfolding fix_departure_at
  fix_departure_at-Keeps (some at) s i = pure-Keeps at s i record { travel = refl; bare = refl }
  fix_departure_at-Keeps none s i =
      bind-Keeps _ _ _ (call-Keeps outside options store start outside.now s i) λ at t j near.
        bind-Keeps {Q = λ _ u. SameTravel outside options store start s u} _ _ _
          record {
            ends = (
              Inv-notes t (record (ledger_or_empty t.ledger) { departure_at = some at })
                  (unchanged (ledger_or_empty t.ledger) at) refl j,
              record {
                travel = ap (λ l. (ledger_or_empty l).travel) near.ledger;
                bare = ap (λ l. (ledger_or_empty l).bare) near.ledger;
              },
            );
          }
          λ _ u k same. pure-Keeps at u k same
    where
      unchanged :
          (ledger : DepartLedger) (at : Text) (k : Slot)
          → entry_at k (record ledger { departure_at = some at }) ≡ entry_at k ledger
      unchanged ledger at (Slot.screened_slot category) = refl
      unchanged ledger at (Slot.shard_slot prose) = refl
      unchanged ledger at Slot.journal_slot = refl
      unchanged ledger at departure_slot = refl
      unchanged ledger at Slot.travel_slot = refl

  seal_departure-Keeps :
      (head : HeadInfo) (at : Text) (answer : AttestAnswer) (s : Moment E)
      → Inv options start s
      → Keeps
          (Inv options start)
          (λ entry t. (t ≡ s) × Holds options t.chain t.asks departure_slot entry)
          (seal_departure outside options head
            (attestation (departure options.door_id options.epoch at))
            answer
            s)
  unfolding seal_departure
  seal_departure-Keeps head at (cosigned cosig) s i =
      Keeps-weaken _ (seal_at-Keeps outside options store start head _ (cosig ∷ []) s i) (λ u k. k)
        (λ entry u k (same, fresh). (
          same,
          Fresh-Holds_bare outside options store start departure_slot _ entry u.chain u.asks fresh
              (at, refl),
        ))
  seal_departure-Keeps head at (declines reason) s i = record { ends = i }
  seal_departure-Keeps head at unanswered s i = record { ends = i }

  pub attest_departure-Keeps :
      (s : Moment E)
      → Inv options start s
      → Keeps
          (Inv options start)
          (λ entry t.
            SameTravel outside options store start s t
            × Holds options t.chain t.asks departure_slot entry)
          (attest_departure outside options s)
  unfolding attest_departure
  attest_departure-Keeps s i =
      bind-Keeps _ _ _ (require_head-Keeps outside options store start s i)
        λ head s1 i1 (near1, there).
          bind-Keeps {Q = λ ledger t. t ≡ s1} _ _ _ record { ends = (i1, refl) }
            λ ledger s2 i2 same2.
              bind-Keeps _ _ _ (fix_departure_at-Keeps ledger.departure_at s2 i2) λ at s3 i3 same3.
                bind-Keeps _ _ _ (call-Keeps outside options store start outside.now s3 i3)
                  λ issued_at s4 i4 near4.
                    bind-Keeps _ _ _ (of_decoded-Keeps _ s4 i4) λ pubkey s5 i5 same5.
                      bind-Keeps _ _ _ (signed_attest-Keeps outside options store start _ s5 i5)
                        λ request s6 i6 same6.
                          bind-Keeps _ _ _
                            (call-Keeps outside options store start (outside.attest request) s6 i6)
                            λ answer s7 i7 near7.
                              Keeps-weaken _ (seal_departure-Keeps head at answer s7 i7) (λ u k. k)
                                (λ entry u k (same8, holds).
                                  let after =
                                    ap (λ v. v.ledger) same8
                                    ∙ near7.ledger
                                    ∙ ap (λ v. v.ledger) (same6 ∙ same5)
                                    ∙ near4.ledger in
                                  let start_of = ap (λ v. v.ledger) same2 ∙ near1.ledger in
                                  (
                                    record {
                                      travel =
                                          ap (λ l. (ledger_or_empty l).travel) after
                                          ∙ same3.travel
                                          ∙ ap (λ l. (ledger_or_empty l).travel) start_of;
                                      bare =
                                          ap (λ l. (ledger_or_empty l).bare) after
                                          ∙ same3.bare
                                          ∙ ap (λ l. (ledger_or_empty l).bare) start_of;
                                    },
                                    holds,
                                  ))
