-- ===== src/Chain/Presence.antt =====
-- osp-core/src/verify-chain.ts: failures, and the Proof-of-Presence walk (`evaluatePresence`).
use npc_of_the_internet.Shared.{
  ℕ, Option, none, some, List, [], ◌∷◌, ◌++◌, Text, get, put, remove, ltb, ◌==◌, nat_eq, text_eq,
  if◌then◌else◌,
}
use npc_of_the_internet.Chain.Record.{
  AttestationBody, arrival, heartbeat, departure, travel, handover, Body, attestation, OspRecord,
}

pub data ChainRule : Type 0 where
  bad_soul_sig broken_prev_link seq_gap schema_violation missing_cosigner forked_head : ChainRule
  bad_genesis bad_drift_evidence bad_tombstone bad_session_continuity presence_conflict : ChainRule

-- `ChainFailure` less its message.
pub record ChainFailure : Type 0 where
  pub seq : ℕ
  pub cid : Option Text
  pub rule : ChainRule

pub record ActiveSession : Type 0 where
  pub door_id : Text
  pub session_pubkey : Text

pub record PresenceState : Type 0 where
  -- open sessions only
  pub active_sessions : List (ℕ × ActiveSession)
  -- the first door of each epoch, never deleted
  pub epoch_doors : List (ℕ × Text)

-- The failures of one record, and the deferred change that admits it.
pub record PresenceEvaluation : Type 0 where
  pub failures : List ChainFailure
  pub apply : PresenceState → PresenceState

abbrev pub noop : PresenceState → PresenceState
noop state = state

abbrev pub failure : OspRecord → Text → ChainRule → List ChainFailure
failure r cid rule = record { seq = r.seq; cid = some cid; rule = rule } ∷ []

-- A new epoch retires the open sessions of earlier epochs.
unfoldable pub retire_below : ℕ → List (ℕ × ActiveSession) → List (ℕ × ActiveSession)
retire_below epoch [] = []
retire_below epoch ((open_epoch, s) ∷ m) =
    let rest = retire_below epoch m in if ltb open_epoch epoch then rest else (open_epoch, s) ∷ rest

-- The door on record for the epoch is another one.
unfoldable pub door_conflict : OspRecord → Text → Option Text → Text → List ChainFailure
door_conflict r cid none door_id = []
door_conflict r cid (some recorded) door_id =
    if recorded == door_id then [] else failure r cid presence_conflict

-- `state.epochDoors.set` if no door was recorded when the record was evaluated
unfoldable pub record_door : Option Text → ℕ → Text → PresenceState → PresenceState
record_door none epoch door_id state = record state {
  epoch_doors = put epoch door_id state.epoch_doors;
}
record_door (some _) epoch door_id state = state

unfoldable pub open_arrival : Text → ℕ → Text → PresenceState → PresenceState
unfolding retire_below
open_arrival door_id epoch session_pubkey state = record state {
  active_sessions =
      put epoch (record { door_id = door_id; session_pubkey = session_pubkey })
        (retire_below epoch state.active_sessions);
  epoch_doors = put epoch door_id state.epoch_doors;
}

unfoldable pub evaluate_arrival :
    OspRecord → Text → Text → ℕ → Text → Option Text → Option ActiveSession → PresenceEvaluation
unfolding door_conflict open_arrival
evaluate_arrival r cid door_id epoch key (some recorded) session = record {
  failures = door_conflict r cid (some recorded) door_id ++ failure r cid presence_conflict;
  apply = noop;
}
evaluate_arrival r cid door_id epoch key none (some session) = record {
  failures = failure r cid presence_conflict;
  apply = noop;
}
evaluate_arrival r cid door_id epoch key none none = record {
  failures = [];
  apply = open_arrival door_id epoch key;
}

unfoldable pub evaluate_heartbeat :
    OspRecord → Text → Text → ℕ → Text → Option Text → Option ActiveSession → PresenceEvaluation
unfolding door_conflict record_door
evaluate_heartbeat r cid door_id epoch key recorded none = record {
  failures = door_conflict r cid recorded door_id ++ failure r cid bad_session_continuity;
  apply = record_door recorded epoch door_id;
}
evaluate_heartbeat r cid door_id epoch key recorded (some session) = record {
  failures =
      door_conflict r cid recorded door_id
      ++ (if key == session.session_pubkey then [] else failure r cid bad_session_continuity);
  apply = record_door recorded epoch door_id;
}

unfoldable pub close_session : Option Text → ℕ → Text → PresenceState → PresenceState
unfolding record_door
close_session recorded epoch door_id state =
    let state' = record_door recorded epoch door_id state in
    record state' { active_sessions = remove epoch state'.active_sessions }

unfoldable pub evaluate_departure :
    OspRecord → Text → Text → ℕ → Option Text → Option ActiveSession → PresenceEvaluation
unfolding door_conflict close_session
evaluate_departure r cid door_id epoch recorded none = record {
  failures = door_conflict r cid recorded door_id ++ failure r cid bad_session_continuity;
  apply = record_door recorded epoch door_id;
}
evaluate_departure r cid door_id epoch recorded (some session) = record {
  failures = door_conflict r cid recorded door_id;
  apply = close_session recorded epoch door_id;
}

unfoldable pub evaluate_attestation :
    OspRecord → Text → AttestationBody → PresenceState → PresenceEvaluation
unfolding evaluate_arrival evaluate_heartbeat evaluate_departure
evaluate_attestation r cid (arrival d e key _) state =
    evaluate_arrival r cid d e key (get e state.epoch_doors) (get e state.active_sessions)
evaluate_attestation r cid (heartbeat d e key _) state =
    evaluate_heartbeat r cid d e key (get e state.epoch_doors) (get e state.active_sessions)
evaluate_attestation r cid (departure d e _) state =
    evaluate_departure r cid d e (get e state.epoch_doors) (get e state.active_sessions)
evaluate_attestation r cid (travel _ _ _ _) state = record {
  failures = [];
  apply = λ s. record s { active_sessions = [] };
}
evaluate_attestation r cid (handover _ _ _ _ _ _ _ _) state = record { failures = []; apply = noop }

unfoldable pub evaluate_body : OspRecord → Text → Body → PresenceState → PresenceEvaluation
evaluate_body r cid (attestation a) state = evaluate_attestation r cid a state
evaluate_body r cid _ state = record { failures = []; apply = noop }

unfoldable pub evaluate_presence : OspRecord → Text → PresenceState → PresenceEvaluation
unfolding evaluate_body evaluate_attestation
evaluate_presence r cid state = evaluate_body r cid r.body state
