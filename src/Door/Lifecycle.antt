-- ===== src/Door/Lifecycle.antt =====
-- door-sdk/src/door.ts: the lifecycle events that a Door emits, when no policy call is under way while
-- an arrival is handled.
use npc_of_the_internet.Shared.{
  ℕ, ◌≡◌, refl, Option, none, some, List, [], ◌∷◌, false, Text, nat_eq, Bool-cases, inl, inr,
}
use npc_of_the_internet.Door.{
  Answer, answered, refused, ◌>>◌, bind_answered, Host, DoorOptions, ActiveSession, Door, create,
  HeartbeatRequest, AttestRequest,
}
use npc_of_the_internet.Door.Transcript.{ResidencyRecord}
use npc_of_the_internet.Door.Attest.{
  Arrival, check_arrival, policy_accepts, commit_arrival, commit_departure, settle, attest_arrival,
  attest_presence, attest_departure, is_departure_retry, check_departure_retry, check_presence,
}
use npc_of_the_internet.Door.Session.{heartbeat, beat, check_heartbeat}
use npc_of_the_internet.Door.Session.Frames.{
  OutboundFrame, InboundBody, record_words, accept_outbound, deliver, inbound_in, check_outbound,
  outbound_msg_id_memory, handle_outbound, create_inbound_frame,
}
use npc_of_the_internet.Door.World.{
  Request, arrives, is_present, departs, beats, says, hears, handle,
}
use npc_of_the_internet.Door.Requests.{check_presence_lem, assert_session_request_lem}
use npc_of_the_internet.Door.Events.{
  nothing_yet, HasHistory, serve, serve_all, check_arrival_epoch, commit_arrival_history,
  commit_departure_history,
}

settle_history :
    (host : Host) (now : Text) (request : AttestRequest) (checks : Answer (Unit {0}))
    (change : Door → Door) (d : Door)
    → (checks ≡ answered tt → HasHistory (change d))
    → HasHistory d
    → HasHistory (settle host now request checks change d).0
unfolding settle
settle_history host now request (refused e) change d changed h = h
settle_history host now request (answered tt) change d changed h = changed refl

arrival_history :
    (host : Host) (options : DoorOptions) (now : Text) (request : AttestRequest) (arrival : Arrival)
    (d : Door)
    → HasHistory d
    → HasHistory (attest_arrival host options now request arrival d).0
unfolding attest_arrival
arrival_history host options now request arrival d h =
    settle_history host now request
      (check_arrival host options now request d >> policy_accepts arrival) (commit_arrival request)
      d
      (λ k.
        let (u, checked, _) = bind_answered (check_arrival host options now request d) _ tt k in
        commit_arrival_history request d (check_arrival_epoch host options now request d checked) h)
      h

departure_history :
    (host : Host) (options : DoorOptions) (now : Text) (request : AttestRequest) (d : Door)
    → HasHistory d
    → HasHistory (attest_departure host options now request d).0
unfolding attest_departure
departure_history host options now request d h = elim (Bool-cases (is_departure_retry request d)) [
  | inl r ↦ rw r (
      settle_history host now request (check_departure_retry host options now request) (λ x. x) d
        (λ _. h) h)
  | inr r ↦ rw r (
      settle_history host now request (check_presence host options now request d)
        (commit_departure request) d (departed r) h)
]
  where
    departed :
        is_departure_retry request d ≡ false
        → check_presence host options now request d ≡ answered tt
        → HasHistory (commit_departure request d)
    departed _ k =
        let (signature, _, bound) = check_presence_lem host options now request d k in
        commit_departure_history request d
          (assert_session_request_lem host options request signature d bound) h

beat_history :
    (host : Host) (now : Text) (request : HeartbeatRequest) (checks : Answer (Unit {0})) (d : Door)
    → HasHistory d
    → HasHistory (beat host now request checks d).0
unfolding beat
beat_history host now request (refused e) d h = h
beat_history host now request (answered _) d h = h

record_words_history :
    (issued_at : Text) (prose : Option Text) (d : Door)
    → HasHistory d
    → HasHistory (record_words issued_at prose d)
unfolding record_words
record_words_history issued_at none d h = h
record_words_history issued_at (some prose) d h = h

deliver_history :
    (memory : ℕ) (frame : OutboundFrame) (checks : Answer (Unit {0})) (d : Door)
    → HasHistory d
    → HasHistory (deliver memory frame checks d).0
unfolding deliver accept_outbound
deliver_history memory frame (refused e) d h = h
deliver_history memory frame (answered _) d h = record_words_history frame.issued_at frame.prose d h

inbound_history :
    (options : DoorOptions) (now msg_id : Text) (body : InboundBody)
    (session : Option ActiveSession) (d : Door)
    → HasHistory d
    → HasHistory (inbound_in options now msg_id body session d).0
unfolding inbound_in
inbound_history options now msg_id body none d h = h
inbound_history options now msg_id body (some session) d h = h

serve_history :
    (host : Host) (options : DoorOptions) (now : Text) (request : Request) (d : Door)
    → HasHistory d
    → HasHistory (serve host options now request d)
unfolding serve handle attest_presence heartbeat handle_outbound create_inbound_frame
serve_history host options now (arrives arrival request) d h =
    arrival_history host options now request arrival d h
serve_history host options now (is_present request) d h =
    settle_history host now request (check_presence host options now request d) (λ x. x) d (λ _. h)
      h
serve_history host options now (departs request) d h =
    departure_history host options now request d h
serve_history host options now (beats request) d h =
    beat_history host now request (check_heartbeat host options request d) d h
serve_history host options now (says frame) d h =
    deliver_history outbound_msg_id_memory frame (check_outbound host options now frame d) d h
serve_history host options now (hears msg_id body) d h =
    inbound_history options now msg_id body d.active_session d h

-- From its construction on, a Door that handles its requests one at a time emits a history: epochs
-- arrive in increasing order, and each ends once, by departing or by being superseded, before the
-- next one arrives; `active_session` and `last_known_epoch` are what the history says.
pub serve_all_history :
    (host : Host) (options : DoorOptions) (transcript : ResidencyRecord)
    (requests : List (Text × Request))
    → HasHistory (serve_all host options requests (create transcript))
unfolding serve_all create
serve_all_history host options transcript requests =
    from requests (create transcript) (created transcript)
  where
    created : (t : ResidencyRecord) → HasHistory (create t)
    created t = nothing_yet

    from :
        (rest : List (Text × Request)) (d : Door)
        → HasHistory d
        → HasHistory (serve_all host options rest d)
    from [] d h = h
    from ((now, request) ∷ rest) d h =
        from rest (serve host options now request d) (serve_history host options now request d h)
