-- ===== src/Chain/Guarantees.antt =====
-- What a verified chain guarantees of each of its records (verify-chain.ts, record.ts).
pub mod Witnessed
pub mod Presence
use npc_of_the_internet.Shared.{
  ℕ, zero, suc, ◌+◌, ◌≡◌, refl, sym, ap, subst, ◌∙◌, ◌⊎◌, ◌↔◌, Option, none, some, List, [], ◌∷◌,
  map, arith, get_elem?, length, Bool, true, false,
}
use mathlib.Core.Bool.{false≢true}
use npc_of_the_internet.Chain.Record.{OspRecord, Crypto}
use npc_of_the_internet.Chain.Schema.{Raw, shaped, is_genesis}
use npc_of_the_internet.Chain.Signed.{returned, DoorKeys}
use npc_of_the_internet.Chain.Checks.{HeadInfo}
use npc_of_the_internet.Chain.History.{
  Extends, IsChainFrom, IsChain, Follows, soul_key, soul_key_of,
}
use npc_of_the_internet.Chain.Verifier.{VerifyChainResult, valid, verify_records}
use npc_of_the_internet.Chain.Verifier.Valid.{after, verify_records_iff}
use npc_of_the_internet.Chain.Verifier.Tracking.{History}

-- the line at an index holds the record
pub shaped_at :
    (rs : List OspRecord) (i : ℕ) (r : OspRecord)
    → get_elem? (map shaped rs) i ≡ some (shaped r)
    → get_elem? rs i ≡ some r
shaped_at [] i r h = cc
shaped_at (x ∷ rs) zero r h = cc
shaped_at (x ∷ rs) (suc i) r h = shaped_at rs i r h

-- The first record stays the one with the soul key.
soul_key-after :
    (x : OspRecord) (p rs : List OspRecord) → soul_key (after (x ∷ p) rs) ≡ soul_key (x ∷ p)
soul_key-after x p [] = refl
soul_key-after x p (r ∷ rs) = soul_key-after r (x ∷ p) rs

module _ (crypto : Crypto) (keys : Option DoorKeys) where
  -- A record in a chain extends the records before it, as many as its index.
  extension_at :
      (p rs : List OspRecord) (i : ℕ) (r : OspRecord)
      → History crypto keys p
      → IsChainFrom crypto keys p rs
      → get_elem? rs i ≡ some r
      → (q : List OspRecord) × Extends crypto keys q r
        × (length q ≡ length p + i)
        × History crypto keys q
        × (soul_key (r ∷ q) ≡ soul_key (after p rs))
  extension_at p [] i r hist c h = absurd (cc h)
  extension_at p (x ∷ rs) zero r hist (e, c) h = (
    p,
    subst (Extends crypto keys p) (same_of h) e,
    omega arith,
    hist,
    ap (λ y. soul_key (y ∷ p)) (sym (same_of h)) ∙ sym (soul_key-after x p rs),
  )
    where
      same_of : some x ≡ some r → x ≡ r
      same_of k = cc
  extension_at p (x ∷ rs) (suc i) r hist (e, c) h =
      let (q, e', n, hist', k) = extension_at (x ∷ p) rs i r (e, hist) c h in
      (q, e', omega (arith, n), hist', k)

  first_key :
      (rs : List OspRecord) (i : ℕ) (r : OspRecord)
      → get_elem? rs i ≡ some r
      → (first : OspRecord) × (get_elem? rs 0 ≡ some first)
        × (soul_key (after [] rs) ≡ soul_key_of first.body)
  first_key [] i r h = absurd (cc h)
  first_key (x ∷ rs) i r h = (x, refl, soul_key-after x [] rs)

  shaped_map :
      (rs : List OspRecord) (i : ℕ) (r : OspRecord)
      → get_elem? rs i ≡ some r
      → get_elem? (map shaped rs) i ≡ some (shaped r)
  shaped_map [] i r h = absurd (cc h)
  shaped_map (x ∷ rs) zero r h = ground arith
  shaped_map (x ∷ rs) (suc i) r h = shaped_map rs i r h

  -- A record of a verified chain extends the records before it.
  pub verified_at :
      (raws : List Raw) (head : Option HeadInfo) (i : ℕ) (r : OspRecord)
      → verify_records crypto keys raws ≡ returned (valid head)
      → get_elem? raws i ≡ some (shaped r)
      → (q : List OspRecord) × Extends crypto keys q r
        × (length q ≡ i)
        × (first : OspRecord) × (get_elem? raws 0 ≡ some (shaped first))
        × (soul_key (r ∷ q) ≡ soul_key_of first.body)
  verified_at raws head i r h at_i =
      let (rs, all, c, _) = (verify_records_iff crypto keys raws head).0 h in
      let here = shaped_at rs i r (ap (λ l. get_elem? l i) (sym all) ∙ at_i) in
      let (q, e, n, hist, k) = extension_at [] rs i r tt c here in
      let (first, at_0, k') = first_key rs i r here in
      (
        q,
        e,
        omega (arith, n),
        first,
        ap (λ l. get_elem? l 0) all ∙ shaped_map rs 0 first at_0,
        k ∙ k',
      )

  -- In a verified chain the record on line `i` has `seq` equal to `i`, and is a genesis exactly on
  -- line 0.
  pub verify_records-numbered :
      (raws : List Raw) (head : Option HeadInfo) (i : ℕ) (r : OspRecord)
      → verify_records crypto keys raws ≡ returned (valid head)
      → get_elem? raws i ≡ some (shaped r)
      → (r.seq ≡ i) × ((is_genesis r.body ≡ true) ↔ (i ≡ 0))
  verify_records-numbered raws head i r h at_i =
      let (q, e, n, _, _, _) = verified_at raws head i r h at_i in
      (e.numbered ∙ n, at_zero q e.follows n)
    where
      at_zero :
          (q : List OspRecord)
          → Follows crypto q r
          → length q ≡ i
          → (is_genesis r.body ≡ true) ↔ (i ≡ 0)
      at_zero [] (g, _, _) n = ((λ _. sym n), λ _. g)
      at_zero (x ∷ q) (g, _, _) n =
          ((λ k. absurd (false≢true (sym g ∙ k))), λ z. absurd (omega arith))
