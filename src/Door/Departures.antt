-- ===== src/Door/Departures.antt =====
-- door-sdk/src/door.ts: a Door after a departure.
use npc_of_the_internet.Shared.{
  ◌≡◌, refl, sym, subst, ◌∙◌, true, false, not, Text, ◌==◌, ==_self, nat_eq, text_eq,
}
use npc_of_the_internet.Base64Url.{Bytes, decode_signature}
use npc_of_the_internet.Door.{
  session_invalid, epoch_mismatch, answered, bind_answered, require, decoded, Host, DoorOptions,
  Door, emit, AttestRequest, attest_signing_payload,
}
use npc_of_the_internet.Door.Session.{
  assert_issued_at_fresh, require_active_session, verify_session,
}
use npc_of_the_internet.Door.Attest.{
  check_request, is_departure_retry, other_epoch_active, assert_session_request, check_presence,
  check_departure_retry, commit_departure, clear_residency_record, settle, attest_response,
  attest_departure,
}
use npc_of_the_internet.Door.World.{Request, arrives}
use npc_of_the_internet.Door.Requests.{check_presence_lem, IsRetired}

abbrev pub IsArrival : Request → Type 0
IsArrival (arrives _ _) = Unit
IsArrival _ = ⊥

commit_departure-IsRetired :
    (request : AttestRequest) (d : Door) → IsRetired (commit_departure request d)
unfolding commit_departure clear_residency_record emit
commit_departure-IsRetired request d = record { retired = refl; inactive = refl }

commit_departure_retry :
    (request : AttestRequest) (d : Door)
    → is_departure_retry request (commit_departure request d) ≡ true
unfolding is_departure_retry commit_departure clear_residency_record emit
commit_departure_retry request d =
    rw (==_self request.epoch, ==_self request.session_pubkey, ==_self request.core) refl

check_request_signature :
    (host : Host) (options : DoorOptions) (now : Text) (request : AttestRequest) (signature : Bytes)
    → check_request host options now request ≡ answered signature
    → decoded (decode_signature request.sig) ≡ answered signature
unfolding check_request
check_request_signature host options now request signature h =
    let (_, _, h1) =
      bind_answered (require (request.door_id == options.door_id) session_invalid) _ signature h in
    let (_, _, h2) =
      bind_answered (assert_issued_at_fresh host options now request.issued_at) _ signature h1 in
    h2

session_verified :
    (host : Host) (options : DoorOptions) (request : AttestRequest) (signature : Bytes) (d : Door)
    → assert_session_request host options request signature d ≡ answered tt
    → verify_session host (attest_signing_payload request) signature request.session_pubkey
      ≡ answered tt
unfolding assert_session_request
session_verified host options request signature d h =
    let (_, _, h1) =
      bind_answered (require (not (other_epoch_active request.epoch d)) epoch_mismatch) _ tt h in
    let (_, _, h2) =
      bind_answered
        (require_active_session options request.door_id request.epoch request.session_pubkey d) _ tt
        h1 in
    h2

retry_checked :
    (host : Host) (options : DoorOptions) (now later : Text) (request : AttestRequest) (d : Door)
    (signature : Bytes)
    → check_presence host options now request d ≡ answered tt
    → check_request host options later request ≡ answered signature
    → check_departure_retry host options later request ≡ answered tt
unfolding check_departure_retry
retry_checked host options now later request d signature checked fresh =
    let (signed, before, bound) = check_presence_lem host options now request d checked in
    let same = answered_injective (
      sym (check_request_signature host options now request signed before)
      ∙ check_request_signature host options later request signature fresh) in
    rw fresh (
      subst
        (λ s.
          verify_session host (attest_signing_payload request) s request.session_pubkey
          ≡ answered tt)
        same (session_verified host options request signed d bound))
  where
    answered_injective : {a b : Bytes} → answered a ≡ answered b → a ≡ b
    answered_injective h = cc h

first_departure :
    (host : Host) (options : DoorOptions) (now : Text) (request : AttestRequest) (d : Door)
    → is_departure_retry request d ≡ false
    → check_presence host options now request d ≡ answered tt
    → (attest_departure host options now request d).0 ≡ commit_departure request d
unfolding attest_departure settle
first_departure host options now request d first checked = rw (first, checked) refl

-- A departure that was accepted, sent again (its answer was lost) while it is fresh, is answered with
-- the Door's signatures again and changes nothing.
pub departure_again :
    (host : Host) (options : DoorOptions) (now later : Text) (request : AttestRequest) (d : Door)
    (signature : Bytes)
    → is_departure_retry request d ≡ false
    → check_presence host options now request d ≡ answered tt
    → check_request host options later request ≡ answered signature
    → attest_departure host options later request (attest_departure host options now request d).0
      ≡ ((attest_departure host options now request d).0, attest_response host later request)
unfolding settle attest_departure
departure_again host options now later request d signature first checked fresh =
    rw
      (
        first_departure host options now request d first checked,
        commit_departure_retry request d,
        retry_checked host options now later request d signature checked fresh,
      )
      refl
