-- ===== src/Chain/Guarantees/Presence.antt =====
-- verify-chain.ts, Proof-of-Presence: no epoch of a verified chain is shared by two Doors.
use npc_of_the_internet.Shared.{
  ℕ, zero, suc, ◌≡◌, refl, sym, ap, subst, ◌∙◌, Option, some, List, [], ◌∷◌, arith, get_elem?, Text,
  All, nat_eq,
}
use npc_of_the_internet.Chain.Record.{
  OspRecord, Crypto, Body, attestation, arrival, heartbeat, departure,
}
use npc_of_the_internet.Chain.Schema.{Raw, shaped, Presence, presence_of}
use npc_of_the_internet.Chain.Signed.{returned, DoorKeys}
use npc_of_the_internet.Chain.Checks.{HeadInfo}
use npc_of_the_internet.Chain.History.{door_of, PresenceHolds, IsChainFrom}
use npc_of_the_internet.Chain.Verifier.{valid, verify_records}
use npc_of_the_internet.Chain.Verifier.Valid.{after, verify_records_iff}
use npc_of_the_internet.Chain.Verifier.Tracking.{History}
use npc_of_the_internet.Chain.Verifier.Sessions.{door_of-open_session}
use npc_of_the_internet.Chain.Guarantees.{shaped_at}

-- The Door of a presence record is the one on record for its epoch.
abbrev HasDoor : List OspRecord → OspRecord → Type 0
HasDoor p r = (a : Presence) → presence_of r.body ≡ some a → door_of p a.epoch ≡ some a.door_id

-- The door of an epoch is in force forever.
door_of_kept :
    (p : List OspRecord) (r : OspRecord) (e : ℕ) (d : Text)
    → door_of p e ≡ some d
    → door_of (r ∷ p) e ≡ some d
door_of_kept p r e d h = rw h refl

doors_kept :
    (p : List OspRecord) (r : OspRecord) (rs : List OspRecord)
    → All (HasDoor p) rs
    → All (HasDoor (r ∷ p)) rs
doors_kept p r [] h = tt
doors_kept p r (x ∷ rs) (h, hs) =
    ((λ a k. door_of_kept p r a.epoch a.door_id (h a k)), doors_kept p r rs hs)

All-after : (P : OspRecord → Type 0) (p rs : List OspRecord) → All P (after p rs) → All P p
All-after P p [] h = h
All-after P p (r ∷ rs) h = (All-after P (r ∷ p) rs h).1

All-get_elem :
    (P : OspRecord → Type 0) (p rs : List OspRecord) (i : ℕ) (r : OspRecord)
    → All P (after p rs)
    → get_elem? rs i ≡ some r
    → P r
All-get_elem P p [] i r h at_i = absurd (cc at_i)
All-get_elem P p (x ∷ rs) zero r h at_i = subst P (same_of at_i) (All-after P (x ∷ p) rs h).0
  where
    same_of : some x ≡ some r → x ≡ r
    same_of k = cc
All-get_elem P p (x ∷ rs) (suc i) r h at_i = All-get_elem P (x ∷ p) rs i r h at_i

module _ (crypto : Crypto) (keys : Option DoorKeys) where
  door_of_claimed :
      (p : List OspRecord) (r : OspRecord) (b : Body) (a : Presence)
      → r.body ≡ b
      → History crypto keys p
      → PresenceHolds p b
      → presence_of b ≡ some a
      → door_of (r ∷ p) a.epoch ≡ some a.door_id
  door_of_claimed p r (attestation (arrival d e key _)) a eb h holds k = ground arith
  door_of_claimed p r (attestation (heartbeat d e key _)) a eb h holds k =
      ground (arith, door_of-open_session crypto keys p e _ h holds)
  door_of_claimed p r (attestation (departure d e _)) a eb h (key, holds) k =
      ground (arith, door_of-open_session crypto keys p e _ h holds)
  door_of_claimed p r _ a eb h holds k = ground arith

  All-HasDoor : (p : List OspRecord) → History crypto keys p → All (HasDoor p) p
  All-HasDoor [] h = tt
  All-HasDoor (r ∷ p) (x, h) = (
    (λ a k. door_of_claimed p r r.body a refl h x.presence k),
    doors_kept p r p (All-HasDoor p h),
  )

  History-after :
      (p rs : List OspRecord)
      → History crypto keys p
      → IsChainFrom crypto keys p rs
      → History crypto keys (after p rs)
  History-after p [] h c = h
  History-after p (r ∷ rs) h (x, c) = History-after (r ∷ p) rs (x, h) c

  -- In a verified chain two arrivals, heartbeats or departures with the same epoch name the same
  -- Door.
  pub verify_records-single_door :
      (raws : List Raw) (head : Option HeadInfo) (i j : ℕ) (r s : OspRecord) (a b : Presence)
      → verify_records crypto keys raws ≡ returned (valid head)
      → get_elem? raws i ≡ some (shaped r)
      → get_elem? raws j ≡ some (shaped s)
      → presence_of r.body ≡ some a
      → presence_of s.body ≡ some b
      → a.epoch ≡ b.epoch
      → a.door_id ≡ b.door_id
  verify_records-single_door raws head i j r s a b h at_i at_j pr ps same =
      let (rs, all, c, _) = (verify_records_iff crypto keys raws head).0 h in
      let doors = All-HasDoor (after [] rs) (History-after [] rs tt c) in
      let dr =
        All-get_elem (HasDoor (after [] rs)) [] rs i r doors
          (shaped_at rs i r (ap (λ l. get_elem? l i) (sym all) ∙ at_i)) a pr in
      let ds =
        All-get_elem (HasDoor (after [] rs)) [] rs j s doors
          (shaped_at rs j s (ap (λ l. get_elem? l j) (sym all) ∙ at_j)) b ps in
      cc (dr, ds, same)
