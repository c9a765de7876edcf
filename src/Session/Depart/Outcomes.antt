-- ===== src/Session/Depart/Outcomes.antt =====
-- session.ts: what `depart` and `departBare` leave, however often they are tried.
use npc_of_the_internet.Shared.{
  ◌≡◌, refl, ap, ◌∙◌, inl, inr, Option, none, List, [], ◌∷◌, true, Text, In,
}
use npc_of_the_internet.Session.{departed, AddressedBlob, Outside, SessionOptions, Moment}
use npc_of_the_internet.Session.Seal.{Slot, entry_at, ledger_or_empty}
use npc_of_the_internet.Session.Sound.{Held, asks_at, Witnessed, IsStore}
use npc_of_the_internet.Session.Depart.{
  DepartOptions, Attempt, departs, departs_bare, try_depart, try_all, begin_depart, depart,
  depart_bare,
}
use npc_of_the_internet.Session.Depart.Attempts.{}
use npc_of_the_internet.Session.Depart.Sessions.{IsSound, start-IsSound, Progress}
use npc_of_the_internet.Session.Depart.Endings.{
  DepartLeaves, Keeps-Progress, Keeps-DepartLeaves, bind_threw, begin_depart_over, depart-Keeps,
  depart_bare-Keeps,
}

module _ {E : Type 0} (outside : Outside E) (options : SessionOptions)
    (store : IsStore outside options) where
  pub try_depart-Progress :
      (attempt : Attempt) (s : Moment E)
      → IsSound options s
      → Progress options s (try_depart outside options attempt s)
  unfolding try_depart
  try_depart-Progress (departs depart_options) s h =
      Keeps-Progress _ (depart-Keeps outside options store depart_options s h)
  try_depart-Progress (departs_bare to_door_id) s h =
      Keeps-Progress _ (depart_bare-Keeps outside options store to_door_id s h)

  pub try_all-IsSound :
      (attempts : List Attempt) (s : Moment E)
      → IsSound options s
      → IsSound options (try_all outside options attempts s)
  unfolding try_all
  try_all-IsSound [] s h = h
  try_all-IsSound (attempt ∷ rest) s h =
      try_all-IsSound rest (try_depart outside options attempt s)
        (try_depart-Progress attempt s h).sound

  -- A departed session answers every attempt by an error and stays as it is.
  try_depart_over :
      (attempt : Attempt) (s : Moment E)
      → s.phase ≡ departed
      → try_depart outside options attempt s ≡ s
  unfolding try_depart depart depart_bare
  try_depart_over (departs depart_options) s h =
      ap (λ end. end.0) (bind_threw begin_depart _ s (begin_depart_over s h))
  try_depart_over (departs_bare to_door_id) s h =
      ap (λ end. end.0) (bind_threw begin_depart _ s (begin_depart_over s h))

  try_all_over :
      (attempts : List Attempt) (s : Moment E)
      → s.phase ≡ departed
      → try_all outside options attempts s ≡ s
  unfolding try_all
  try_all_over [] s h = refl
  try_all_over (attempt ∷ rest) s h =
      ap (try_all outside options rest) (try_depart_over attempt s h) ∙ try_all_over rest s h

  -- If the head that the store reports is always a record of its chain: from a sound session, however
  -- often `depart` and `departBare` are tried and whatever the store, the Door and the model answer, the
  -- Door is not asked again about a memory with a sealed record.
  pub try_all_asks :
      (attempts : List Attempt) (s : Moment E) (slot : Slot)
      → IsSound options s
      → Held (entry_at slot (ledger_or_empty s.ledger))
      → asks_at slot (try_all outside options attempts s).asks ≡ asks_at slot s.asks
  unfolding try_all
  try_all_asks [] s slot h held = refl
  try_all_asks (attempt ∷ rest) s slot h held =
      let p = try_depart-Progress attempt s h in
      elim (p.settled slot held).1 [
        | inl over ↦
            ap (λ t. asks_at slot t.asks)
              (try_all_over rest (try_depart outside options attempt s) over)
            ∙ (p.settled slot held).0
        | inr still_held ↦
            try_all_asks rest (try_depart outside options attempt s) slot p.sound still_held
            ∙ (p.settled slot held).0
      ]

  -- If the head that the store reports is always a record of its chain: from a session without a depart
  -- ledger and with no blob stored, every blob that any attempts store is that of a memory that the Door
  -- has co-signed.
  pub try_all_blobs :
      (attempts : List Attempt) (s : Moment E) (blob : AddressedBlob)
      → s.ledger ≡ none
      → s.blobs ≡ []
      → In blob (try_all outside options attempts s).blobs
      → Witnessed options (try_all outside options attempts s).asks blob
  try_all_blobs attempts s blob none_yet no_blobs h =
      (try_all-IsSound attempts s (start-IsSound options s none_yet no_blobs)).inv.stored blob h

  -- If the head that the store reports is always a record of its chain:
  -- a `depart` of a sound session that returns leaves it departed, without a ledger, and with its
  -- departure and its travel on the chain; one that throws leaves it sound.
  pub depart-DepartLeaves :
      (depart_options : DepartOptions) (s : Moment E)
      → IsSound options s
      → DepartLeaves options (λ _. Unit) (depart outside options depart_options s)
  depart-DepartLeaves depart_options s h =
      Keeps-DepartLeaves _ (depart-Keeps outside options store depart_options s h)

  -- If the head that the store reports is always a record of its chain:
  -- a `departBare` of a sound session that returns leaves it departed, without a ledger, with its travel
  -- on the chain and, if it returns true, its departure; one that throws leaves it sound.
  pub depart_bare-DepartLeaves :
      (to_door_id : Option Text) (s : Moment E)
      → IsSound options s
      → DepartLeaves options
          (λ departure. departure ≡ true)
          (depart_bare outside options to_door_id s)
  depart_bare-DepartLeaves to_door_id s h =
      Keeps-DepartLeaves _ (depart_bare-Keeps outside options store to_door_id s h)
