-- ===== src/Door/Attest.antt =====
-- door-sdk/src/door.ts: `attest` for arrivals, departures and presence.
use npc_of_the_internet.Shared.{
  ℕ, Option, none, some, [], ◌∷◌, ◌++◌, Bool, true, false, not, ◌&&◌, Text, text, length, leb, ◌==◌,
  nat_eq, text_eq, if◌then◌else◌,
}
use npc_of_the_internet.Base64Url.{Bytes, decode_signature}
use npc_of_the_internet.Canonical.{number_value, string_value, object_of}
use npc_of_the_internet.Door.{
  DoorError, session_invalid, signature_invalid, epoch_replay, not_hosting, epoch_mismatch, Answer,
  answered, refused, ◌>>=◌, ◌>>◌, require, decoded, Host, DoorOptions, empty_epoch_memory,
  ActiveSession, arrived, retired, superseded, Door, emit, kind_text, AttestRequest,
  attest_signing_payload, AttestResponse,
}
use npc_of_the_internet.Door.Transcript.{clear}
use npc_of_the_internet.Door.Core.{assert_attest_core_bound}
use npc_of_the_internet.Door.Session.{
  assert_issued_at_fresh, require_active_session, verify_session, sign_canonical, sign_door_cosig,
}

-- What a policy's `acceptArrival` does: a `DoorError` passes, any other error is `not_hosting`.
pub data Arrival : Type 0 where
  accepts declines : Arrival
  throws_door_error : DoorError → Arrival

-- The checks of every attest request; the signature is decoded.
unfoldable pub check_request : Host → DoorOptions → (now : Text) → AttestRequest → Answer Bytes
unfolding assert_issued_at_fresh
check_request host options now request = do
  require (request.door_id == options.door_id) session_invalid
  assert_issued_at_fresh host options now request.issued_at
  decoded (decode_signature request.sig)

-- `request.epoch <= this.lastKnownEpoch`
unfoldable pub is_replay : ℕ → Option ℕ → Bool
is_replay epoch none = false
is_replay epoch (some last_known) = leb epoch last_known

unfoldable pub policy_accepts : Arrival → Answer (Unit {0})
policy_accepts accepts = answered tt
policy_accepts declines = refused not_hosting
policy_accepts (throws_door_error e) = refused e

-- The checks of an arrival up to the call of the policy.
unfoldable pub check_arrival :
    Host → DoorOptions → (now : Text) → AttestRequest → Door → Answer (Unit {0})
unfolding check_request is_replay assert_attest_core_bound
check_arrival host options now request door = do
  signature ← check_request host options now request
  require (host.verify (attest_signing_payload request) signature options.soul_public_key)
      signature_invalid
  require (not (is_replay request.epoch door.last_known_epoch)) epoch_replay
  assert_attest_core_bound host options request

-- `clearResidencyRecord`: the epoch memory is replaced by an empty one, never emptied in place.
unfoldable pub clear_residency_record : Door → Door
unfolding empty_epoch_memory
clear_residency_record door = record door {
  transcript = clear door.transcript;
  memories = door.memories ++ empty_epoch_memory ∷ [];
  epoch_memory = length door.memories;
}

-- A session of another epoch is superseded.
unfoldable pub supersede_in : ℕ → Option ActiveSession → Door → Door
unfolding emit
supersede_in epoch none door = door
supersede_in epoch (some session) door =
    if session.epoch == epoch
    then door
    else emit (superseded session.epoch) (record door { active_session = none })

unfoldable pub supersede : ℕ → Door → Door
unfolding supersede_in
supersede epoch door = supersede_in epoch door.active_session door

-- What an accepted arrival does, after the policy's call.
unfoldable pub commit_arrival : AttestRequest → Door → Door
unfolding emit clear_residency_record supersede
commit_arrival request door =
    emit (arrived request.epoch) (record (clear_residency_record (supersede request.epoch door)) {
      active_session =
          some record { epoch = request.epoch; session_pubkey = request.session_pubkey };
      session_retired = false;
      last_departure = none;
      last_heartbeat_seq = 0;
      seen_outbound_msg_ids = [];
      last_known_epoch = some request.epoch;
    })

-- The Door's co-signature over the core, and its signed answer.
unfoldable pub attest_response : Host → (now : Text) → AttestRequest → Answer AttestResponse
unfolding sign_canonical sign_door_cosig
attest_response host now request = do
  door_cosig ← sign_door_cosig host request.core
  door_sig ← sign_canonical host (
      object_of (
        (text "door_id", string_value request.door_id)
        ∷ (text "epoch", number_value request.epoch)
        ∷ (text "kind", string_value (kind_text request.kind))
        ∷ (text "door_cosig", string_value door_cosig)
        ∷ (text "received_at", string_value now)
        ∷ []))
  answered record {
    door_id = request.door_id;
    epoch = request.epoch;
    kind = request.kind;
    door_cosig = door_cosig;
    received_at = now;
    door_sig = door_sig;
  }

-- `isDepartureRetry`
unfoldable pub is_departure_retry : AttestRequest → Door → Bool
is_departure_retry request door = elim door.last_departure [
  | none ↦ false
  | some last ↦
      door.session_retired
      && last.epoch == request.epoch
      && last.session_pubkey == request.session_pubkey
      && last.core == request.core
]

-- `activeSession !== null && activeSession.epoch !== request.epoch`
unfoldable pub other_epoch_active : ℕ → Door → Bool
other_epoch_active epoch door = elim door.active_session [
  | none ↦ false
  | some session ↦ not (session.epoch == epoch)
]

-- `assertSessionRequest`
unfoldable pub assert_session_request :
    Host → DoorOptions → AttestRequest → Bytes → Door → Answer (Unit {0})
unfolding require_active_session verify_session other_epoch_active
assert_session_request host options request signature door = do
  require (not (other_epoch_active request.epoch door)) epoch_mismatch
  require_active_session options request.door_id request.epoch request.session_pubkey door
  verify_session host (attest_signing_payload request) signature request.session_pubkey

-- The checks of a presence attest, and of a departure that does not repeat the last one.
unfoldable pub check_presence :
    Host → DoorOptions → (now : Text) → AttestRequest → Door → Answer (Unit {0})
unfolding check_request assert_session_request assert_attest_core_bound
check_presence host options now request door = do
  signature ← check_request host options now request
  assert_session_request host options request signature door
  assert_attest_core_bound host options request

-- The checks of a departure that repeats the last one.
unfoldable pub check_departure_retry :
    Host → DoorOptions → (now : Text) → AttestRequest → Answer (Unit {0})
unfolding check_request verify_session
check_departure_retry host options now request = do
  signature ← check_request host options now request
  verify_session host (attest_signing_payload request) signature request.session_pubkey

unfoldable pub commit_departure : AttestRequest → Door → Door
unfolding emit clear_residency_record
commit_departure request door = emit (retired request.epoch) (
    clear_residency_record (record door {
      active_session = none;
      session_retired = true;
      last_departure = some record {
        epoch = request.epoch;
        session_pubkey = request.session_pubkey;
        core = request.core;
      };
    }))

-- Changes the state if the checks pass, and answers.
unfoldable pub settle :
    Host
    → (now : Text) → AttestRequest
    → Answer (Unit {0})
    → (Door → Door)
    → Door
    → Door × Answer AttestResponse
unfolding attest_response
settle host now request (refused e) change door = (door, refused e)
settle host now request (answered _) change door = (change door, attest_response host now request)

-- An arrival after the policy's answer `arrival`. With the code's `await` of a policy, `door` is the
-- state at the answer; without a policy it is the state that was checked.
unfoldable pub finish_arrival :
    Host → (now : Text) → AttestRequest → Arrival → Door → Door × Answer AttestResponse
unfolding settle policy_accepts commit_arrival
finish_arrival host now request arrival door =
    settle host now request (policy_accepts arrival) (commit_arrival request) door

-- An arrival that nothing interrupts.
unfoldable pub attest_arrival :
    Host
    → DoorOptions
    → (now : Text) → AttestRequest
    → Arrival
    → Door
    → Door × Answer AttestResponse
unfolding settle check_arrival policy_accepts commit_arrival
attest_arrival host options now request arrival door =
    settle host now request (check_arrival host options now request door >> policy_accepts arrival)
      (commit_arrival request) door

unfoldable pub attest_presence :
    Host → DoorOptions → (now : Text) → AttestRequest → Door → Door × Answer AttestResponse
unfolding settle check_presence
attest_presence host options now request door =
    settle host now request (check_presence host options now request door) (λ d. d) door

unfoldable pub attest_departure :
    Host → DoorOptions → (now : Text) → AttestRequest → Door → Door × Answer AttestResponse
unfolding settle is_departure_retry check_departure_retry check_presence commit_departure
attest_departure host options now request door =
    if is_departure_retry request door
    then settle host now request (check_departure_retry host options now request) (λ d. d) door
    else settle host now request (check_presence host options now request door)
        (commit_departure request) door
