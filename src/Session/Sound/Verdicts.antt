-- ===== src/Session/Sound/Verdicts.antt =====
-- session.ts: a sealed record, and the verdict of a memory, keep the depart ledger in step.
use npc_of_the_internet.Shared.{
  ◌≡◌, refl, sym, ap, subst, ◌∙◌, Option, none, some, List, [], ◌∷◌, Bool, true, false, Text,
  length, ◌==◌, text_eq, nat_eq, if◌then◌else◌,
}
use npc_of_the_internet.Chain.Record.{OspRecord, CoreFields, Body}
use npc_of_the_internet.Chain.Schema.{shaped, safe_parse, issues}
use npc_of_the_internet.Door.{MemoryKind, shard, journal, AttestRequest}
use npc_of_the_internet.Session.{
  AddressedBlob, LedgerEntry, MemoryVerdict, entry_of_verdict, HeadInfo, AttestAnswer, cosigned,
  declines, unanswered, Outside, SessionOptions, Ask, Moment,
}
use npc_of_the_internet.Session.Rules.{
  Keeps, bind-Keeps, Keeps-weaken, pure-Keeps, or_raise-Keeps, of_decoded-Keeps,
}
use npc_of_the_internet.Session.Seal.{
  Slot, entry_at, ledger_or_empty, ask_door, core_at, seal_record, seal_at, signed_attest,
  seal_verdict, ask_witness,
}
use npc_of_the_internet.Session.Sound.{
  slot_of, IsCosigned, Witnessed, Fits, Holds, Start, Inv, IsStore,
}
use npc_of_the_internet.Session.Sound.Changes.{In-last, Inv-ask}
use npc_of_the_internet.Session.Sound.Calls.{Near, Near-refl, call-Keeps, require_head-Keeps}

-- A record that was sealed with this body and is not appended.
pub record Fresh (options : SessionOptions) (body : Body) (entry : LedgerEntry) : Type 0 where
  pub named : entry.cid ≡ options.crypto.compute_cid entry.sealed
  pub not_appended : entry.appended ≡ false
  pub no_blob : entry.blob ≡ none
  pub body_of : entry.sealed.body ≡ body

safe_parse-same : (r q : OspRecord) → safe_parse (shaped r) ≡ some q → r ≡ q
unfolding safe_parse
safe_parse-same r q h = go (length (issues r) == 0) h
  where
    go : (b : Bool) → (if b then some r else none) ≡ some q → r ≡ q
    go true h = cc h
    go false h = absurd (cc h)

module _ {E : Type 0} (outside : Outside E) (options : SessionOptions)
    (store : IsStore outside options) (start : Start E) where
  seal_record-Keeps :
      (core : CoreFields) (cosigners : List Text) (s : Moment E)
      → Inv options start s
      → Keeps
          (Inv options start)
          (λ result t.
            (t ≡ s)
            × (result.1 ≡ options.crypto.compute_cid result.0)
            × (result.0.body ≡ core.body))
          (seal_record outside options core cosigners s)
  unfolding seal_record
  seal_record-Keeps core cosigners s i = bind-Keeps _ _ _ (of_decoded-Keeps _ s i) λ sig t j same_t.
      bind-Keeps _ _ _ (or_raise-Keeps _ _ t j) λ r u k (same_u, parsed).
        pure-Keeps _ u k
          (same_u ∙ same_t, refl, ap (λ q. q.body) (sym (safe_parse-same _ r parsed)))

  pub seal_at-Keeps :
      (head : HeadInfo) (body : Body) (cosigners : List Text) (s : Moment E)
      → Inv options start s
      → Keeps
          (Inv options start)
          (λ entry t. (t ≡ s) × Fresh options body entry)
          (seal_at outside options head body cosigners s)
  unfolding seal_at core_at
  seal_at-Keeps head body cosigners s i =
      bind-Keeps _ _ _ (seal_record-Keeps _ cosigners s i) λ result t j (same, named, body_of).
        pure-Keeps _ t j
          (same, record { named = named; not_appended = refl; no_blob = refl; body_of = body_of })

  -- A fresh record holds at its slot, with a blob that the Door has witnessed or without one.
  pub Fresh-Holds :
      (slot : Slot) (body : Body) (entry : LedgerEntry) (blob : Option AddressedBlob)
      (chain : List OspRecord) (asks : List Ask)
      → Fresh options body entry
      → Fits options slot body
      → ((b : AddressedBlob) → blob ≡ some b → Witnessed options asks b)
      → Holds options chain asks slot (record entry { blob = blob })
  Fresh-Holds slot body entry blob chain asks fresh fits stored = record {
    named = fresh.named;
    on_chain = λ appended. absurd (cc (appended, fresh.not_appended));
    blob_witnessed = stored;
    fits = subst (Fits options slot) (sym fresh.body_of) fits;
  }

  pub Fresh-Holds_bare :
      (slot : Slot) (body : Body) (entry : LedgerEntry) (chain : List OspRecord) (asks : List Ask)
      → Fresh options body entry
      → Fits options slot body
      → Holds options chain asks slot entry
  Fresh-Holds_bare slot body entry chain asks fresh fits = record {
    named = fresh.named;
    on_chain = λ appended. absurd (cc (appended, fresh.not_appended));
    blob_witnessed = λ b is. absurd (cc (is, fresh.no_blob));
    fits = subst (Fits options slot) (sym fresh.body_of) fits;
  }

  Fits-memory :
      (kind : MemoryKind) (prose : Text) (body : Body) → Fits options (slot_of kind prose) body
  Fits-memory shard prose body = tt
  Fits-memory journal prose body = tt

  abbrev pub VerdictHolds : MemoryKind → Text → MemoryVerdict → Moment E → Type 0
  VerdictHolds kind prose verdict t =
      Holds options t.chain t.asks (slot_of kind prose) (entry_of_verdict verdict)

  seal_verdict-Keeps :
      (kind : MemoryKind) (prose : Text) (head : HeadInfo) (body : Body) (blob : AddressedBlob)
      (answer : AttestAnswer) (s : Moment E)
      → ((cosig : Text) → answer ≡ cosigned cosig → Witnessed options s.asks blob)
      → Inv options start s
      → Keeps
          (Inv options start)
          (λ verdict t. Near s t × VerdictHolds kind prose verdict t)
          (seal_verdict outside options head body blob answer s)
  unfolding seal_verdict
  seal_verdict-Keeps kind prose head body blob (cosigned cosig) s w i =
      bind-Keeps _ _ _ (seal_at-Keeps head body (cosig ∷ []) s i) λ entry t j (same, fresh).
        pure-Keeps _ t j (
          subst (Near s) (sym same) (Near-refl s),
          Fresh-Holds (slot_of kind prose) body entry (some blob) t.chain t.asks fresh
              (Fits-memory kind prose body)
              (λ b is.
                subst (λ u. Witnessed options u.asks b) (sym same)
                  (subst (Witnessed options s.asks) (cc is) (w cosig refl))),
        )
  seal_verdict-Keeps kind prose head body blob (declines reason) s w i =
      bind-Keeps _ _ _ (call-Keeps outside options store start outside.now s i) λ at t j near.
        bind-Keeps _ _ _ (seal_at-Keeps head _ [] t j) λ entry u k (same, fresh). pure-Keeps _ u k (
          subst (Near s) (sym same) near,
          Fresh-Holds_bare (slot_of kind prose) _ entry u.chain u.asks fresh
              (Fits-memory kind prose _),
        )
  seal_verdict-Keeps kind prose head body blob unanswered s w i = record { ends = i }

  pub signed_attest-Keeps :
      (request : AttestRequest) (s : Moment E)
      → Inv options start s
      → Keeps (Inv options start) (λ signed t. t ≡ s) (signed_attest outside options request s)
  unfolding signed_attest
  signed_attest-Keeps request s i =
      bind-Keeps _ _ _ (of_decoded-Keeps _ s i) λ sig t j same. pure-Keeps _ t j same

  ask_door-Keeps :
      (kind : MemoryKind) (prose : Text) (blob : AddressedBlob) (request : AttestRequest)
      (s : Moment E)
      → entry_at (slot_of kind prose) (ledger_or_empty s.ledger) ≡ none
      → options.address_blob kind prose ≡ some blob
      → Inv options start s
      → Keeps
          (Inv options start)
          (λ answer t.
            (t.ledger ≡ s.ledger)
            × ((cosig : Text) → answer ≡ cosigned cosig → Witnessed options t.asks blob))
          (ask_door outside options kind prose request s)
  unfolding ask_door
  ask_door-Keeps kind prose blob request s undecided addressed i =
      let (e, answer) = outside.attest request s.outside in
      let ask : Ask = record { kind = kind; prose = prose; answer = answer } in
      record {
        ends = (
          Inv-ask s e kind prose answer undecided i,
          (refl, λ cosig is. (ask, In-last ask s.asks, subst IsCosigned (sym is) tt, addressed)),
        );
      }

  -- A memory without a record may be asked about, and its verdict holds.
  pub ask_witness-Keeps :
      (kind : MemoryKind) (prose : Text) (s : Moment E)
      → entry_at (slot_of kind prose) (ledger_or_empty s.ledger) ≡ none
      → Inv options start s
      → Keeps
          (Inv options start)
          (λ verdict t. (t.ledger ≡ s.ledger) × VerdictHolds kind prose verdict t)
          (ask_witness outside options kind prose s)
  unfolding ask_witness
  ask_witness-Keeps kind prose s undecided i =
      bind-Keeps _ _ _ (or_raise-Keeps _ _ s i) λ blob s1 i1 (same1, addressed).
        bind-Keeps _ _ _ (require_head-Keeps outside options store start s1 i1)
          λ head s2 i2 (near2, there).
            bind-Keeps _ _ _ (call-Keeps outside options store start outside.now s2 i2)
              λ at s3 i3 near3. bind-Keeps _ _ _ (of_decoded-Keeps _ s3 i3) λ pubkey s4 i4 same4.
                bind-Keeps _ _ _ (call-Keeps outside options store start outside.now s4 i4)
                  λ issued_at s5 i5 near5.
                    bind-Keeps _ _ _ (signed_attest-Keeps _ s5 i5) λ request s6 i6 same6.
                      let ledger6 =
                        ap (λ u. u.ledger) same6
                        ∙ near5.ledger
                        ∙ ap (λ u. u.ledger) same4
                        ∙ near3.ledger
                        ∙ near2.ledger
                        ∙ ap (λ u. u.ledger) same1 in
                      bind-Keeps _ _ _
                        (ask_door-Keeps kind prose blob request s6
                          (ap (λ l. entry_at (slot_of kind prose) (ledger_or_empty l)) ledger6
                            ∙ undecided)
                          addressed i6)
                        λ answer s7 i7 (same7, w).
                          Keeps-weaken _ (seal_verdict-Keeps kind prose head _ blob answer s7 w i7)
                            (λ u k. k)
                            (λ verdict u k (near, holds). (near.ledger ∙ same7 ∙ ledger6, holds))

  -- What the departure's attest leaves of the ledger.
  pub record SameTravel (s t : Moment E) : Type 0 where
    pub travel : (ledger_or_empty t.ledger).travel ≡ (ledger_or_empty s.ledger).travel
    pub bare : (ledger_or_empty t.ledger).bare ≡ (ledger_or_empty s.ledger).bare
