-- ===== src/Session/Epochs.antt =====
-- session.ts: the epoch of a new session.
use npc_of_the_internet.Shared.{
  ℕ, ◌+◌, ◌≤◌, ◌<◌, ◌≡◌, refl, sym, subst, inl, inr, Option, none, some, List, [], ◌∷◌, ltb, In,
  arith, if◌then◌else◌,
}
use npc_of_the_internet.Chain.Record.{
  OspRecord, AttestationBody, arrival, heartbeat, departure, travel, handover, attestation,
}
use npc_of_the_internet.Session.{
  extract_attestation_epoch, greatest, scan_from, scan_max_attestation_epoch, door_floor_epoch,
  new_epoch,
}

-- The epoch that an attestation names, if it names one.
abbrev pub NamesEpoch : AttestationBody → ℕ → Type 0
NamesEpoch (arrival _ named _ _) epoch = named ≡ epoch
NamesEpoch (heartbeat _ named _ _) epoch = named ≡ epoch
NamesEpoch (departure _ named _) epoch = named ≡ epoch
NamesEpoch (travel _ named _ _) epoch = named ≡ epoch
NamesEpoch (handover _ _ _ _ _ _ _ _) epoch = ⊥

extract_attestation_epoch-NamesEpoch :
    (r : OspRecord) (a : AttestationBody) (epoch : ℕ)
    → r.body ≡ attestation a
    → NamesEpoch a epoch
    → extract_attestation_epoch r ≡ some epoch
unfolding extract_attestation_epoch
extract_attestation_epoch-NamesEpoch r (arrival _ named _ _) epoch h is = rw (h, is) refl
extract_attestation_epoch-NamesEpoch r (heartbeat _ named _ _) epoch h is = rw (h, is) refl
extract_attestation_epoch-NamesEpoch r (departure _ named _) epoch h is = rw (h, is) refl
extract_attestation_epoch-NamesEpoch r (travel _ named _ _) epoch h is = rw (h, is) refl
extract_attestation_epoch-NamesEpoch r (handover _ _ _ _ _ _ _ _) epoch h is = absurd is

some_equal : (a b : ℕ) → some a ≡ some b → a ≡ b
some_equal a b h = cc h

greatest-covers :
    (o : Option ℕ) (most : ℕ)
    → (most ≤ greatest o most) × ((epoch : ℕ) → o ≡ some epoch → epoch ≤ greatest o most)
greatest-covers none most = (omega arith, λ epoch h. absurd (cc h))
greatest-covers (some e) most = (ground arith, λ epoch h. ground (arith, some_equal e epoch h))

scan_from-covers :
    (most : ℕ) (records : List OspRecord)
    → (most ≤ scan_from most records)
      × ((r : OspRecord) (epoch : ℕ)
          → In r records
          → extract_attestation_epoch r ≡ some epoch
          → epoch ≤ scan_from most records)
unfolding scan_from
scan_from-covers most [] = (omega arith, λ r epoch h. absurd h)
scan_from-covers most (q ∷ rest) =
    let now = greatest-covers (extract_attestation_epoch q) most in
    let later = scan_from-covers (greatest (extract_attestation_epoch q) most) rest in
    (
      omega (arith, now.0, later.0),
      λ r epoch h is. elim h [
        | inl same ↦ omega (
          arith,
          now.1 epoch (subst (λ p. extract_attestation_epoch p ≡ some epoch) (sym same) is),
          later.0,
        )
        | inr there ↦ later.1 r epoch there is
      ],
    )

-- The epoch of a new session is greater than that of every arrival, heartbeat, departure and travel of
-- the chain, and than the Door's active epoch.
pub new_epoch-greatest :
    (records : List OspRecord) (active_epoch : Option ℕ)
    → ((r : OspRecord) (a : AttestationBody) (epoch : ℕ)
        → In r records
        → r.body ≡ attestation a
        → NamesEpoch a epoch
        → epoch < new_epoch records active_epoch)
      × ((active : ℕ) → active_epoch ≡ some active → active < new_epoch records active_epoch)
unfolding new_epoch scan_max_attestation_epoch
new_epoch-greatest records active_epoch = (
  (λ r a epoch h body is. ground (
    arith,
    (scan_from-covers 0 records).1 r epoch h
        (extract_attestation_epoch-NamesEpoch r a epoch body is),
  )),
  λ active is. active_below active_epoch active is,
)
  where
    active_below :
        (o : Option ℕ) (active : ℕ)
        → o ≡ some active
        → active < (
            if ltb (scan_from 0 records + 1) (door_floor_epoch o)
            then door_floor_epoch o
            else scan_from 0 records + 1)
    active_below none active is = absurd (cc is)
    active_below (some a) active is =
        subst
          (λ b.
            b < (if ltb (scan_from 0 records + 1) (a + 1) then a + 1 else scan_from 0 records + 1))
          (some_equal a active is) (ground arith)
