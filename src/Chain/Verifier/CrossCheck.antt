-- ===== src/Chain/Verifier/CrossCheck.antt =====
-- `verifyChain`: the verified head against the head that the store keeps.
use npc_of_the_internet.Shared.{
  ◌≡◌, refl, sym, ap, subst, ◌∙◌, ◌↔◌, Option, none, some, List, [], ◌∷◌, map, text_eq, nat_eq,
  ==_iff, arith,
}
use npc_of_the_internet.Chain.Record.{OspRecord, Crypto}
use npc_of_the_internet.Chain.Schema.{shaped}
use npc_of_the_internet.Chain.Signed.{returned, DoorKeys}
use npc_of_the_internet.Chain.Checks.{HeadInfo}
use npc_of_the_internet.Chain.History.{IsChain}
use npc_of_the_internet.Chain.Verifier.{
  VerifyChainResult, valid, invalid, cross_check, verify_records, verify_chain,
}
use npc_of_the_internet.Chain.Verifier.Tracking.{last_head}
use npc_of_the_internet.Chain.Verifier.Steps.{returned-injective}
use npc_of_the_internet.Chain.Verifier.Valid.{after, verify_records_total, verify_records_iff}

map-shaped_injective : (xs ys : List OspRecord) → map shaped xs ≡ map shaped ys → xs ≡ ys
map-shaped_injective [] [] h = refl
map-shaped_injective [] (y ∷ ys) h = cc
map-shaped_injective (x ∷ xs) [] h = cc
map-shaped_injective (x ∷ xs) (y ∷ ys) h =
    let rest = map-shaped_injective xs ys (cc h) in cc (h, rest)

cross_check_iff :
    (result : VerifyChainResult) (store head : Option HeadInfo)
    → (cross_check result store ≡ valid head) ↔ ((result ≡ valid store) × (head ≡ store))
unfolding cross_check
cross_check_iff (invalid fs) store head = ground arith
cross_check_iff (valid none) none head = ground arith
cross_check_iff (valid none) (some s) head = ground arith
cross_check_iff (valid (some h)) none head = ground arith
cross_check_iff (valid (some h)) (some s) head = ground (arith, ==_iff s.cid h.cid)

module _ (crypto : Crypto) (keys : Option DoorKeys) (records : List OspRecord)
    (store head : Option HeadInfo) where
  verify_chain-cross_check :
      (result : VerifyChainResult)
      → verify_records crypto keys (map shaped records) ≡ returned result
      → verify_chain crypto keys records store ≡ returned (cross_check result store)
  unfolding verify_chain
  verify_chain-cross_check result h = rw h

  -- `verifyChain` accepts a store exactly if its records form a chain and the head it keeps is that of
  -- the last record (none for no records); it then answers that head.
  pub verify_chain_iff : (verify_chain crypto keys records store ≡ returned (valid head)) ↔ (
      IsChain crypto keys records × (store ≡ last_head crypto (after [] records)) × (head ≡ store))
  verify_chain_iff = (to, from)
    where
      to :
          verify_chain crypto keys records store ≡ returned (valid head)
          → IsChain crypto keys records
            × (store ≡ last_head crypto (after [] records))
            × (head ≡ store)
      to h =
          let (result, v) = verify_records_total crypto keys (map shaped records) in
          let (accepted, heads) =
            (cross_check_iff result store head).0
              (returned-injective (sym (verify_chain-cross_check result v) ∙ h)) in
          let (rs, all, c, last) =
            (verify_records_iff crypto keys (map shaped records) store).0
              (v ∙ ap returned accepted) in
          let same = map-shaped_injective records rs all in
          (
            subst (IsChain crypto keys) (sym same) c,
            last ∙ ap (λ x. last_head crypto (after [] x)) (sym same),
            heads,
          )

      from :
          IsChain crypto keys records
            × (store ≡ last_head crypto (after [] records))
            × (head ≡ store)
          → verify_chain crypto keys records store ≡ returned (valid head)
      from (c, last, heads) =
          verify_chain-cross_check (valid store)
            ((verify_records_iff crypto keys (map shaped records) store).1 (records, refl, c, last))
          ∙ ap returned ((cross_check_iff (valid store) store head).1 (refl, heads))
