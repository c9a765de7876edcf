-- ===== src/Chain/Verifier/Sessions.antt =====
-- `evaluatePresence` of verify-chain.ts against the history of the chain.
use npc_of_the_internet.Shared.{
  ℕ, ◌≡◌, refl, Option, none, some, List, [], ◌∷◌, Text, get, get-put, get-remove, ltb, nat_eq,
  text_eq, arith, ==_iff, Option-cases, inl, inr, if◌then◌else◌,
}
use npc_of_the_internet.Chain.Record.{
  Body, attestation, arrival, heartbeat, departure, OspRecord, Crypto,
}
use npc_of_the_internet.Chain.Signed.{DoorKeys}
use npc_of_the_internet.Chain.Presence.{
  ActiveSession, PresenceState, retire_below, door_conflict, record_door, evaluate_presence,
  evaluate_body, evaluate_attestation, evaluate_arrival, evaluate_heartbeat, evaluate_departure,
  open_arrival, close_session,
}
use npc_of_the_internet.Chain.History.{door_of, open_session, session_after, PresenceHolds}
use npc_of_the_internet.Chain.Verifier.Tracking.{History, TracksPresence}

-- An open session is at the Door on record for its epoch.
door_of-step :
    (p : List OspRecord) (r : OspRecord) (b : Body) (e : ℕ) (s : ActiveSession)
    → r.body ≡ b
    → PresenceHolds p b
    → (open_session p e ≡ some s → door_of p e ≡ some s.door_id)
    → session_after b e (open_session p e) ≡ some s
    → door_of (r ∷ p) e ≡ some s.door_id
door_of-step p r (attestation (arrival d n key _)) e s eb holds ih h = ground arith
door_of-step p r _ e s eb holds ih h = ground arith

module _ (crypto : Crypto) (door_keys : Option DoorKeys) where
  pub door_of-open_session :
      (p : List OspRecord) (e : ℕ) (s : ActiveSession)
      → History crypto door_keys p
      → open_session p e ≡ some s
      → door_of p e ≡ some s.door_id
  door_of-open_session [] e s h k = absurd (cc k)
  door_of-open_session (r ∷ p) e s (x, h) k =
      door_of-step p r r.body e s refl x.presence (door_of-open_session p e s h) k

module _ (crypto : Crypto) (door_keys : Option DoorKeys) (p : List OspRecord) (s : PresenceState)
    (valid : History crypto door_keys p) (t : TracksPresence p s) where
  no_session : (e : ℕ) → door_of p e ≡ none → open_session p e ≡ none
  no_session e h = elim (Option-cases (open_session p e)) [
    | inl closed ↦ closed
    | inr (a, opened) ↦ absurd (cc (h, door_of-open_session crypto door_keys p e a valid opened))
  ]

  body_sound :
      (r : OspRecord) (cid : Text) (b : Body)
      → (evaluate_body r cid b s).failures ≡ []
      → PresenceHolds p b
  unfolding evaluate_body evaluate_attestation evaluate_arrival evaluate_heartbeat
      evaluate_departure door_conflict
  body_sound r cid (attestation (arrival d e key _)) h = ground (arith, t.doors e, t.sessions e)
  body_sound r cid (attestation (heartbeat d e key _)) h = elim (Option-cases (open_session p e)) [
    | inl closed ↦ absurd (ground (arith, t.sessions e))
    | inr (a, opened) ↦ ground (
      arith,
      t.doors e,
      t.sessions e,
      ==_iff key a.session_pubkey,
      ==_iff a.door_id d,
      door_of-open_session crypto door_keys p e a valid,
    )
  ]
  body_sound r cid (attestation (departure d e _)) h = elim (Option-cases (open_session p e)) [
    | inl closed ↦ absurd (ground (arith, t.sessions e))
    | inr (a, opened) ↦ (
      a.session_pubkey,
      ground (
        arith,
        t.doors e,
        t.sessions e,
        ==_iff a.door_id d,
        door_of-open_session crypto door_keys p e a valid,
      ),
    )
  ]
  body_sound r cid _ h = tt

  body_complete :
      (r : OspRecord) (cid : Text) (b : Body)
      → PresenceHolds p b
      → (evaluate_body r cid b s).failures ≡ []
  unfolding evaluate_body evaluate_attestation evaluate_arrival evaluate_heartbeat
      evaluate_departure door_conflict
  body_complete r cid (attestation (arrival d e key _)) h =
      ground (arith, t.doors e, t.sessions e, no_session e)
  body_complete r cid (attestation (heartbeat d e key _)) h = ground (
    arith,
    t.doors e,
    t.sessions e,
    ==_iff key key,
    ==_iff d d,
    door_of-open_session crypto door_keys p e (record { door_id = d; session_pubkey = key }) valid,
  )
  body_complete r cid (attestation (departure d e _)) (key, h) = ground (
    arith,
    t.doors e,
    t.sessions e,
    ==_iff d d,
    door_of-open_session crypto door_keys p e (record { door_id = d; session_pubkey = key }) valid,
  )
  body_complete r cid _ h = refl

get-retire_below :
    (n e : ℕ) (m : List (ℕ × ActiveSession))
    → get e (retire_below n m) ≡ (if ltb e n then none else get e m)
unfolding retire_below
get-retire_below n e [] = ground arith
get-retire_below n e ((k, a) ∷ m) = ground (arith, get-retire_below n e m)

module _ (crypto : Crypto) (door_keys : Option DoorKeys) (p : List OspRecord) (s : PresenceState)
    (valid : History crypto door_keys p) (t : TracksPresence p s) where
  doors_after :
      (r : OspRecord) (cid : Text) (b : Body) (e : ℕ)
      → r.body ≡ b
      → PresenceHolds p b
      → get e ((evaluate_body r cid b s).apply s).epoch_doors ≡ door_of (r ∷ p) e
  unfolding evaluate_body evaluate_attestation evaluate_arrival evaluate_heartbeat
      evaluate_departure open_arrival close_session record_door
  doors_after r cid (attestation (arrival d n key _)) e eb h = ground (
    arith,
    t.doors e,
    t.doors n,
    t.sessions n,
    no_session crypto door_keys p s valid t n,
    get-put n e d s.epoch_doors,
  )
  doors_after r cid (attestation (heartbeat d n key _)) e eb h = ground (
    arith,
    t.doors e,
    t.doors n,
    t.sessions n,
    door_of-open_session crypto door_keys p n (record { door_id = d; session_pubkey = key }) valid,
  )
  doors_after r cid (attestation (departure d n _)) e eb (key, h) = ground (
    arith,
    t.doors e,
    t.doors n,
    t.sessions n,
    door_of-open_session crypto door_keys p n (record { door_id = d; session_pubkey = key }) valid,
  )
  doors_after r cid _ e eb h = ground (arith, t.doors e)

  sessions_after :
      (r : OspRecord) (cid : Text) (b : Body) (e : ℕ)
      → r.body ≡ b
      → PresenceHolds p b
      → get e ((evaluate_body r cid b s).apply s).active_sessions ≡ open_session (r ∷ p) e
  unfolding evaluate_body evaluate_attestation evaluate_arrival evaluate_heartbeat
      evaluate_departure open_arrival close_session record_door
  sessions_after r cid (attestation (arrival d n key _)) e eb h = ground (
    arith,
    t.doors n,
    t.sessions e,
    t.sessions n,
    no_session crypto door_keys p s valid t n,
    get-put n e (record { door_id = d; session_pubkey = key }) (retire_below n s.active_sessions),
    get-retire_below n e s.active_sessions,
  )
  sessions_after r cid (attestation (heartbeat d n key _)) e eb h =
      ground (arith, t.doors n, t.sessions e, t.sessions n)
  sessions_after r cid (attestation (departure d n _)) e eb (key, h) =
      ground (arith, t.doors n, t.sessions e, t.sessions n, get-remove n e s.active_sessions)
  sessions_after r cid _ e eb h = ground (arith, t.sessions e)

  -- Exactly the presence rules, and their state, at the record's own body.
  pub presence_sound :
      (r : OspRecord) (cid : Text)
      → (evaluate_presence r cid s).failures ≡ []
      → PresenceHolds p r.body
  unfolding evaluate_presence
  presence_sound r cid h = body_sound crypto door_keys p s valid t r cid r.body h

  pub presence_complete :
      (r : OspRecord) (cid : Text)
      → PresenceHolds p r.body
      → (evaluate_presence r cid s).failures ≡ []
  unfolding evaluate_presence
  presence_complete r cid h = body_complete crypto door_keys p s valid t r cid r.body h

  pub presence-tracked :
      (r : OspRecord) (cid : Text)
      → PresenceHolds p r.body
      → TracksPresence (r ∷ p) ((evaluate_presence r cid s).apply s)
  unfolding evaluate_presence
  presence-tracked r cid h = record {
    doors = λ e. doors_after r cid r.body e refl h;
    sessions = λ e. sessions_after r cid r.body e refl h;
  }
