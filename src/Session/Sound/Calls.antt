-- ===== src/Session/Sound/Calls.antt =====
-- session.ts: the calls of the store, the Door and the clock keep the depart ledger in step.
use npc_of_the_internet.Shared.{
  ◌≡◌, refl, sym, subst, ◌∙◌, inl, inr, Option, none, some, [], ◌∷◌, ◌++◌, In, ◌==◌, text_eq,
  nat_eq, Bool-cases,
}
use npc_of_the_internet.Chain.Record.{OspRecord}
use npc_of_the_internet.Session.{
  AddressedBlob, LedgerEntry, HeadInfo, Fate, lands, lands_and_throws, fails, Outside,
  SessionOptions, Moment, no_head, call_failed, returned, threw, or_raise, call, ◌>>=◌,
  call_or_raise,
}
use npc_of_the_internet.Session.Rules.{Keeps, bind-Keeps, Keeps-weaken, pure-Keeps, or_raise-Keeps}
use npc_of_the_internet.Session.Seal.{
  Slot, require_head, store_append, put_addressed_blob, put_blob_of, append_unless_head,
}
use npc_of_the_internet.Session.Sound.{Witnessed, cids, Holds, Start, Inv, IsStore}
use npc_of_the_internet.Session.Sound.Changes.{In-cids, In-last, Inv-outside, Inv-append, Inv-store}

-- What a call leaves of a moment.
pub record Near {E : Type 0} (s t : Moment E) : Type 0 where
  pub ledger : t.ledger ≡ s.ledger
  pub asks : t.asks ≡ s.asks
  pub chain : t.chain ≡ s.chain

pub Near-refl : {E : Type 0} (s : Moment E) → Near s s
Near-refl s = record { ledger = refl; asks = refl; chain = refl }

pub Near-trans : {E : Type 0} {s t u : Moment E} → Near s t → Near t u → Near s u
Near-trans h k = record {
  ledger = k.ledger ∙ h.ledger;
  asks = k.asks ∙ h.asks;
  chain = k.chain ∙ h.chain;
}

module _ {E : Type 0} (outside : Outside E) (options : SessionOptions)
    (store : IsStore outside options) (start : Start E) where
  pub call-Keeps :
      {A : Type 0} (f : E → E × A) (s : Moment E)
      → Inv options start s
      → Keeps (Inv options start) (λ a t. Near s t) (call f s)
  call-Keeps f s i = record {
    ends = (Inv-outside s (f s.outside).0 i, record { ledger = refl; asks = refl; chain = refl });
  }

  pub call_or_raise-Keeps :
      {A : Type 0} (f : E → E × Option A) (s : Moment E)
      → Inv options start s
      → Keeps (Inv options start) (λ a t. Near s t) (call_or_raise f s)
  call_or_raise-Keeps f s i = bind-Keeps _ _ _ (call-Keeps f s i) λ answer t j near.
      Keeps-weaken (or_raise answer call_failed t) (or_raise-Keeps answer call_failed t j)
        (λ u k. k) (λ a u k (same, found). subst (Near s) (sym same) near)

  pub require_head-Keeps :
      (s : Moment E)
      → Inv options start s
      → Keeps
          (Inv options start)
          (λ head t. Near s t × In head.cid (cids options t.chain))
          (require_head outside options s)
  unfolding require_head ◌>>=◌
  require_head-Keeps s i =
      go (outside.head s.chain s.outside) (λ head h. store.head_stored s.chain s.outside head h)
    where
      go :
          (answer : E × Option (Option HeadInfo))
          → ((head : HeadInfo) → answer.1 ≡ some (some head) → In head.cid (cids options s.chain))
          → Keeps
              (Inv options start)
              (λ head t. Near s t × In head.cid (cids options t.chain))
              ((call_or_raise (λ _. answer) >>= λ head. or_raise head no_head) s)
      go (e, none) h = record { ends = Inv-outside s e i }
      go (e, some none) h = record { ends = Inv-outside s e i }
      go (e, some (some head)) h = record {
        ends =
            (Inv-outside s e i, (record { ledger = refl; asks = refl; chain = refl }, h head refl));
      }

  store_append-Keeps :
      (r : OspRecord) (s : Moment E)
      → Inv options start s
      → Keeps
          (Inv options start)
          (λ _ t. (t.ledger ≡ s.ledger) × In (options.crypto.compute_cid r) (cids options t.chain))
          (store_append outside options r s)
  unfolding store_append
  store_append-Keeps r s i = go (outside.append r s.chain s.outside)
    where
      go :
          (answer : E × Fate)
          → Keeps {A = Unit {0}}
              (Inv options start)
              (λ _ t.
                (t.ledger ≡ s.ledger) × In (options.crypto.compute_cid r) (cids options t.chain))
              (elim answer.1 [
                | lands ↦ (record s { chain = s.chain ++ r ∷ []; outside = answer.0 }, returned tt)
                | lands_and_throws ↦
                    (record s { chain = s.chain ++ r ∷ []; outside = answer.0 }, threw call_failed)
                | fails ↦ (record s { outside = answer.0 }, threw call_failed)
              ])
      go (e, lands) = record {
        ends =
            (Inv-append s e r i, (refl, In-cids options r (s.chain ++ r ∷ []) (In-last r s.chain)));
      }
      go (e, lands_and_throws) = record { ends = Inv-append s e r i }
      go (e, fails) = record { ends = Inv-outside s e i }

  put_addressed_blob-Keeps :
      (blob : AddressedBlob) (s : Moment E)
      → Witnessed options s.asks blob
      → Inv options start s
      → Keeps (Inv options start) (λ _ t. Near s t) (put_addressed_blob outside options blob s)
  unfolding put_addressed_blob
  put_addressed_blob-Keeps blob s w i = go (outside.put_side_blob blob s.outside)
    where
      go :
          (answer : E × Fate)
          → Keeps {A = Unit {0}}
              (Inv options start)
              (λ _ t. Near s t)
              (elim answer.1 [
                | lands ↦
                    (record s { blobs = s.blobs ++ blob ∷ []; outside = answer.0 }, returned tt)
                | lands_and_throws ↦ (
                  record s { blobs = s.blobs ++ blob ∷ []; outside = answer.0 },
                  threw call_failed,
                )
                | fails ↦ (record s { outside = answer.0 }, threw call_failed)
              ])
      go (e, lands) = record {
        ends = (Inv-store s e blob i w, record { ledger = refl; asks = refl; chain = refl });
      }
      go (e, lands_and_throws) = record { ends = Inv-store s e blob i w }
      go (e, fails) = record { ends = Inv-outside s e i }

  put_blob_of-Keeps :
      (blob : Option AddressedBlob) (s : Moment E)
      → ((b : AddressedBlob) → blob ≡ some b → Witnessed options s.asks b)
      → Inv options start s
      → Keeps (Inv options start) (λ _ t. Near s t) (put_blob_of outside options blob s)
  unfolding put_blob_of
  put_blob_of-Keeps none s w i = pure-Keeps tt s i (Near-refl s)
  put_blob_of-Keeps (some blob) s w i = put_addressed_blob-Keeps blob s (w blob refl) i

  pub append_unless_head-Keeps :
      (slot : Slot) (entry : LedgerEntry) (head : HeadInfo) (s : Moment E)
      → In head.cid (cids options s.chain)
      → Holds options s.chain s.asks slot entry
      → Inv options start s
      → Keeps
          (Inv options start)
          (λ _ t. (t.ledger ≡ s.ledger) × In entry.cid (cids options t.chain))
          (append_unless_head outside options entry head s)
  unfolding append_unless_head
  append_unless_head-Keeps slot entry head s there holds i =
      elim (Bool-cases (head.cid == entry.cid)) [
        | inl same ↦ rw same (
            pure-Keeps tt s i (
              refl,
              subst (λ cid. In cid (cids options s.chain))
                  ((text_eq.test_iff head.cid entry.cid).0 same) there,
            ))
        | inr differs ↦ rw differs (
            bind-Keeps _ _ _ (put_blob_of-Keeps entry.blob s holds.blob_witnessed i) λ _ t j near.
              Keeps-weaken _ (store_append-Keeps entry.sealed t j) (λ u k. k)
                (λ _ u k (same, landed). (
                  same ∙ near.ledger,
                  subst (λ cid. In cid (cids options u.chain)) (sym holds.named) landed,
                )))
      ]
