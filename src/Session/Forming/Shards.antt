-- ===== src/Session/Forming/Shards.antt =====
-- session.ts: the loops over screened categories and shards keep the depart ledger in step.
use npc_of_the_internet.Shared.{◌≡◌, refl, sym, ap, ◌∙◌, Option, none, some, [], Text, get, text_eq}
use npc_of_the_internet.Door.{shard}
use npc_of_the_internet.Session.{
  LedgerEntry, MemoryVerdict, entry_of_verdict, Outside, SessionOptions, Moment,
}
use npc_of_the_internet.Session.Rules.{Keeps, bind-Keeps, Keeps-weaken, pure-Keeps}
use npc_of_the_internet.Session.Seal.{
  screened_slot, shard_slot, entry_at, entry_in_verdict, ledger_or_empty,
}
use npc_of_the_internet.Session.Sound.{Start, Inv, IsStore}
use npc_of_the_internet.Session.Sound.Keys.{screened-Puts, shards-Puts}
use npc_of_the_internet.Session.Sound.Appends.{append_entry-Keeps}
use npc_of_the_internet.Session.Sound.Calls.{call-Keeps, require_head-Keeps}
use npc_of_the_internet.Session.Sound.Verdicts.{Fresh-Holds_bare, seal_at-Keeps, ask_witness-Keeps}
use npc_of_the_internet.Session.Forming.{
  seal_screened, screened_entry, screen_step, ask_shard, shard_verdict, shard_step,
}
use npc_of_the_internet.Session.Sound.Notes.{Done, Puts-Keeps, read_ledger-Keeps}

module _ {E : Type 0} (outside : Outside E) (options : SessionOptions)
    (store : IsStore outside options) (start : Start E) where
  seal_screened-Keeps :
      (category : Text) (s : Moment E)
      → Inv options start s
      → Keeps
          (Inv options start)
          (λ entry t. entry_at (screened_slot category) (ledger_or_empty t.ledger) ≡ some entry)
          (seal_screened outside options category s)
  unfolding seal_screened
  seal_screened-Keeps category s i =
      bind-Keeps _ _ _ (call-Keeps outside options store start outside.now s i) λ at t j near.
        bind-Keeps _ _ _ (require_head-Keeps outside options store start t j) λ head u k head_there.
          bind-Keeps _ _ _ (seal_at-Keeps outside options store start head _ [] u k)
            λ entry v l (same, fresh).
              bind-Keeps _ _ _
                (Puts-Keeps outside options store start _ (screened_slot category) entry v
                  (screened-Puts category entry) (λ ledger h. h) (λ ledger. refl)
                  (Fresh-Holds_bare outside options store start (screened_slot category) _ entry
                    v.chain v.asks fresh tt)
                  l)
                λ _ w m put_there. pure-Keeps entry w m (
                  ap (λ l. entry_at (screened_slot category) (ledger_or_empty l)) put_there
                  ∙ (screened-Puts category entry (ledger_or_empty v.ledger)).there)

  screened_entry-Keeps :
      (category : Text) (known : Option LedgerEntry) (s : Moment E)
      → entry_at (screened_slot category) (ledger_or_empty s.ledger) ≡ known
      → Inv options start s
      → Keeps
          (Inv options start)
          (λ entry t. entry_at (screened_slot category) (ledger_or_empty t.ledger) ≡ some entry)
          (screened_entry outside options category known s)
  unfolding screened_entry
  screened_entry-Keeps category (some entry) s at i = pure-Keeps entry s i at
  screened_entry-Keeps category none s at i = seal_screened-Keeps category s i

  pub screen_step-Keeps :
      (category : Text) (s : Moment E)
      → Inv options start s
      → Keeps (Inv options start) Done (screen_step outside options category s)
  unfolding screen_step
  screen_step-Keeps category s i =
      bind-Keeps _ _ _ (read_ledger-Keeps outside options store start s i) λ ledger t j (same, is).
        bind-Keeps _ _ _
          (screened_entry-Keeps category _ t
            (ap (λ l. get category l.screened) (ap (λ u. ledger_or_empty u.ledger) same ∙ sym is))
            j)
          λ entry u k at.
            Keeps-weaken _
              (append_entry-Keeps outside options store start (screened_slot category) entry u at k)
              (λ v l. l) (λ _ v l _. tt)

  ask_shard-Keeps :
      (prose : Text) (s : Moment E)
      → get prose (ledger_or_empty s.ledger).shards ≡ none
      → Inv options start s
      → Keeps
          (Inv options start)
          (λ verdict t.
            entry_at (shard_slot prose) (ledger_or_empty t.ledger)
            ≡ some (entry_of_verdict verdict))
          (ask_shard outside options prose s)
  unfolding ask_shard
  ask_shard-Keeps prose s fresh i =
      bind-Keeps _ _ _
        (ask_witness-Keeps outside options store start shard prose s (ap entry_in_verdict fresh) i)
        λ verdict t j (same, holds).
          bind-Keeps _ _ _
            (Puts-Keeps outside options store start _ (shard_slot prose) (entry_of_verdict verdict)
              t (shards-Puts prose verdict) (λ ledger h. h) (λ ledger. refl) holds j)
            λ _ u k put_there. pure-Keeps verdict u k (
              ap (λ l. entry_at (shard_slot prose) (ledger_or_empty l)) put_there
              ∙ (shards-Puts prose verdict (ledger_or_empty t.ledger)).there)

  shard_verdict-Keeps :
      (prose : Text) (known : Option MemoryVerdict) (s : Moment E)
      → get prose (ledger_or_empty s.ledger).shards ≡ known
      → Inv options start s
      → Keeps
          (Inv options start)
          (λ verdict t.
            entry_at (shard_slot prose) (ledger_or_empty t.ledger)
            ≡ some (entry_of_verdict verdict))
          (shard_verdict outside options prose known s)
  unfolding shard_verdict
  shard_verdict-Keeps prose (some verdict) s at i = pure-Keeps verdict s i (ap entry_in_verdict at)
  shard_verdict-Keeps prose none s at i = ask_shard-Keeps prose s at i

  pub shard_step-Keeps :
      (prose : Text) (s : Moment E)
      → Inv options start s
      → Keeps (Inv options start) Done (shard_step outside options prose s)
  unfolding shard_step
  shard_step-Keeps prose s i =
      bind-Keeps _ _ _ (read_ledger-Keeps outside options store start s i) λ ledger t j (same, is).
        bind-Keeps _ _ _
          (shard_verdict-Keeps prose _ t
            (ap (λ l. get prose l.shards) (ap (λ u. ledger_or_empty u.ledger) same ∙ sym is)) j)
          λ verdict u k at.
            Keeps-weaken _
              (append_entry-Keeps outside options store start (shard_slot prose) _ u at k)
              (λ v l. l) (λ _ v l _. tt)
