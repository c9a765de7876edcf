-- ===== src/Session/Depart/Travel.antt =====
-- session.ts: departure and travel keep the depart ledger in step.
use npc_of_the_internet.Shared.{
  ◌≡◌, refl, sym, ap, subst, ◌∙◌, inl, inr, Option, none, some, [], Bool, true, false, Text, In,
  text_eq,
}
use npc_of_the_internet.Session.{
  LedgerEntry, DepartLedger, HeadInfo, Outside, SessionOptions, Moment, Outcome, returned, threw,
}
use npc_of_the_internet.Session.Rules.{
  Ends, Keeps, bind-Keeps, Keeps-weaken, pure-Keeps, attempt-Keeps,
}
use npc_of_the_internet.Session.Seal.{travel_slot, mark_appended, ledger_or_empty}
use npc_of_the_internet.Session.Sound.{Held, cids, AppendedThere, Start, Inv, IsStore}
use npc_of_the_internet.Session.Sound.Changes.{Inv-Puts}
use npc_of_the_internet.Session.Sound.Slots.{travel-Puts}
use npc_of_the_internet.Session.Sound.Appends.{append_entry-Keeps}
use npc_of_the_internet.Session.Sound.Calls.{Near, Near-refl, call-Keeps, require_head-Keeps}
use npc_of_the_internet.Session.Sound.Verdicts.{Fresh-Holds_bare, seal_at-Keeps}
use npc_of_the_internet.Session.Depart.{
  is_appended, departure_step, after_departure, head_or_required, seal_travel, travel_entry,
  depart_and_travel,
}
use npc_of_the_internet.Session.Sound.Notes.{read_ledger-Keeps}
use npc_of_the_internet.Session.Depart.Landing.{
  departure_step-Keeps, actual_head-Keeps, landed_departure-Keeps,
}

module _ {E : Type 0} (outside : Outside E) (options : SessionOptions)
    (store : IsStore outside options) (start : Start E) where
  abbrev Left : Bool → Moment E → Type 0
  Left best_effort t = best_effort ≡ false → AppendedThere (ledger_or_empty t.ledger).departure

  Left-same :
      (best_effort : Bool) (s t : Moment E)
      → t.ledger ≡ s.ledger
      → Left best_effort s
      → Left best_effort t
  Left-same best_effort s t same left careful =
      subst AppendedThere (ap (λ l. (ledger_or_empty l).departure) (sym same)) (left careful)

  after_departure-Keeps :
      (best_effort : Bool) (outcome : Outcome (Unit {0})) (s : Moment E)
      → Inv options start s
      → Ends
          (Inv options start)
          (λ _ t. AppendedThere (ledger_or_empty t.ledger).departure)
          (s, outcome)
      → Keeps
          (Inv options start)
          (λ known t. Left best_effort t)
          (after_departure outside options best_effort outcome s)
  unfolding after_departure
  after_departure-Keeps best_effort (returned _) s i h = pure-Keeps none s i (λ _. h.1)
  after_departure-Keeps false (threw fault) s i h = record { ends = i }
  after_departure-Keeps true (threw fault) s i h =
      bind-Keeps _ _ _ (actual_head-Keeps outside options store start s i) λ head t j there.
        bind-Keeps _ _ _ (read_ledger-Keeps outside options store start t j)
          λ ledger u k (same, is).
            bind-Keeps _ _ _
              (landed_departure-Keeps outside options store start head _ u
                (ap (λ l. l.departure) (ap (λ v. ledger_or_empty v.ledger) same ∙ sym is))
                (subst (λ v. In head.cid (cids options v.chain)) (sym same) there) k)
              λ _ v l _. pure-Keeps (some head) v l (λ careful. absurd (cc careful))

  head_or_required-Keeps :
      (known : Option HeadInfo) (s : Moment E)
      → Inv options start s
      → Keeps (Inv options start) (λ head t. Near s t) (head_or_required outside options known s)
  unfolding head_or_required
  head_or_required-Keeps (some head) s i = pure-Keeps head s i (Near-refl s)
  head_or_required-Keeps none s i =
      Keeps-weaken _ (require_head-Keeps outside options store start s i) (λ u k. k)
        (λ head u k (near, _). near)

  -- The travel is sealed, and with a departure before it unless it is a bare one.
  seal_travel-Keeps :
      (to_door_id : Option Text) (best_effort : Bool) (s : Moment E)
      → (ledger_or_empty s.ledger).travel ≡ none
      → (start.best_effort ≡ false → best_effort ≡ false)
      → Inv options start s
      → Keeps
          (Inv options start)
          (λ entry t. ((ledger_or_empty t.ledger).travel ≡ some entry) × Left best_effort t)
          (seal_travel outside options to_door_id best_effort s)
  unfolding seal_travel
  seal_travel-Keeps to_door_id best_effort s stays careful i =
      bind-Keeps _ _ _
        (attempt-Keeps (departure_step outside options) s
          (departure_step-Keeps outside options store start s stays i))
        λ outcome s1 i1 ended.
          bind-Keeps _ _ _ (after_departure-Keeps best_effort outcome s1 i1 ended.ends)
            λ known s2 i2 left2.
              bind-Keeps _ _ _ (call-Keeps outside options store start outside.now s2 i2)
                λ at s3 i3 near3.
                  bind-Keeps _ _ _ (head_or_required-Keeps known s3 i3) λ head s4 i4 near4.
                    bind-Keeps _ _ _ (seal_at-Keeps outside options store start head _ [] s4 i4)
                      λ entry s5 i5 (same5, fresh).
                        let left5 =
                          Left-same best_effort s2 s5
                            (ap (λ v. v.ledger) same5 ∙ near4.ledger ∙ near3.ledger) left2 in
                        bind-Keeps
                          {Q = λ _ u.
                            ((ledger_or_empty u.ledger).travel ≡ some entry) × Left best_effort u}
                          _ _ _
                          record {
                            ends = (
                              Inv-Puts s5 travel_slot entry
                                  (record (ledger_or_empty s5.ledger) {
                                    travel = some entry;
                                    bare = best_effort;
                                  })
                                  (travel-Puts entry best_effort (ledger_or_empty s5.ledger))
                                  (Fresh-Holds_bare outside options store start travel_slot _ entry
                                    s5.chain s5.asks fresh (to_door_id, at, refl))
                                  (λ _ not_bare. left5 not_bare) (λ is_depart _. careful is_depart)
                                  i5,
                              (refl, left5),
                            );
                          }
                          λ _ u k there. pure-Keeps entry u k there

  travel_entry-Keeps :
      (known : Option LedgerEntry) (to_door_id : Option Text) (best_effort : Bool) (s : Moment E)
      → (ledger_or_empty s.ledger).travel ≡ known
      → (start.best_effort ≡ false → best_effort ≡ false)
      → (best_effort ≡ false → (ledger_or_empty s.ledger).bare ≡ false)
      → Inv options start s
      → Keeps
          (Inv options start)
          (λ entry t. ((ledger_or_empty t.ledger).travel ≡ some entry) × Left best_effort t)
          (travel_entry outside options known to_door_id best_effort s)
  unfolding travel_entry
  travel_entry-Keeps (some entry) to_door_id best_effort s is careful bare i =
      pure-Keeps entry s i (is, λ h. i.travelled (subst Held (sym is) tt) (bare h))
  travel_entry-Keeps none to_door_id best_effort s is careful bare i =
      seal_travel-Keeps to_door_id best_effort s is careful i

  appended-is_appended : (o : Option LedgerEntry) → AppendedThere o → is_appended o ≡ true
  appended-is_appended none h = absurd h
  appended-is_appended (some entry) h = h

  mark_travel_departure :
      (ledger : DepartLedger) → (mark_appended travel_slot ledger).departure ≡ ledger.departure
  unfolding mark_appended
  mark_travel_departure ledger = refl

  -- The travel is on the chain, and the departure too unless it could be left out.
  pub depart_and_travel-Keeps :
      (to_door_id : Option Text) (best_effort : Bool) (s : Moment E)
      → (start.best_effort ≡ false → best_effort ≡ false)
      → (best_effort ≡ false → (ledger_or_empty s.ledger).bare ≡ false)
      → Inv options start s
      → Keeps
          (Inv options start)
          (λ left t.
            AppendedThere (ledger_or_empty t.ledger).travel
            × Left best_effort t
            × (left ≡ is_appended (ledger_or_empty t.ledger).departure))
          (depart_and_travel outside options to_door_id best_effort s)
  unfolding depart_and_travel
  depart_and_travel-Keeps to_door_id best_effort s careful bare i =
      bind-Keeps _ _ _ (read_ledger-Keeps outside options store start s i)
        λ ledger s1 i1 (same1, is).
          let now = ap (λ u. ledger_or_empty u.ledger) same1 in
          bind-Keeps _ _ _
            (travel_entry-Keeps _ to_door_id best_effort s1 (ap (λ l. l.travel) (now ∙ sym is))
              careful (λ h. ap (λ l. l.bare) now ∙ bare h) i1)
            λ entry s2 i2 (at, left2).
              bind-Keeps _ _ _
                (append_entry-Keeps outside options store start travel_slot entry s2 at i2)
                λ _ s3 i3 (appended, kept).
                  bind-Keeps _ _ _ (read_ledger-Keeps outside options store start s3 i3)
                    λ after s4 i4 (same4, is4). pure-Keeps _ s4 i4 (
                      subst (λ u. AppendedThere (ledger_or_empty u.ledger).travel) (sym same4)
                          appended,
                      (λ h.
                          subst (λ u. AppendedThere (ledger_or_empty u.ledger).departure)
                            (sym same4)
                            (subst AppendedThere
                              (sym (elim kept [
                                | inl same ↦ ap (λ l. (ledger_or_empty l).departure) same
                                | inr marked ↦
                                    ap (λ l. (ledger_or_empty l).departure) marked
                                    ∙ mark_travel_departure (ledger_or_empty s2.ledger)
                              ]))
                              (left2 h))),
                      ap (λ l. is_appended l.departure)
                          (is4 ∙ ap (λ u. ledger_or_empty u.ledger) (sym same4)),
                    )
