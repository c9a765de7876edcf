-- ===== src/Door/World/Memories.antt =====
-- door-sdk/src/door.ts: the requests that are no memory attests leave every epoch memory as it is.
use npc_of_the_internet.Shared.{
  ℕ, zero, suc, ◌≤◌, ◌<◌, ◌≡◌, refl, ap, ◌∙◌, List, [], ◌∷◌, ◌++◌, true, Text, Option, none, some,
  length, length-append, arith, Bool-cases, inl, inr, ◌==◌, nat_eq,
}
use npc_of_the_internet.Door.{
  EpochMemory, empty_epoch_memory, Door, emit, answered, refused, Answer, Host, DoorOptions,
  AttestRequest, ActiveSession, HeartbeatRequest,
}
use npc_of_the_internet.Door.Attest.{
  clear_residency_record, supersede, supersede_in, commit_arrival, commit_departure, settle,
  finish_arrival, policy_accepts, attest_presence, attest_departure, check_presence,
  is_departure_retry, check_departure_retry,
}
use npc_of_the_internet.Door.Session.{heartbeat, check_heartbeat, beat}
use npc_of_the_internet.Door.Session.Frames.{
  OutboundFrame, handle_outbound, check_outbound, accept_outbound, record_words, deliver,
  inbound_in, create_inbound_frame, InboundBody, outbound_msg_id_memory,
}
use npc_of_the_internet.Door.Witness.{memory_at}
use npc_of_the_internet.Door.World.{
  Request, arrives, is_present, departs, beats, says, hears, handle,
}

memory_at-append-empty :
    (place : ℕ) (ms : List EpochMemory)
    → memory_at place (ms ++ empty_epoch_memory ∷ []) ≡ memory_at place ms
unfolding memory_at
memory_at-append-empty zero [] = refl
memory_at-append-empty (suc place) [] = refl
memory_at-append-empty zero (m ∷ ms) = refl
memory_at-append-empty (suc place) (m ∷ ms) = memory_at-append-empty place ms

-- No epoch memory changes, and the one in use is one that there is.
pub record Keeps (old new : Door) : Type 0 where
  pub same : (place : ℕ) → memory_at place new.memories ≡ memory_at place old.memories
  pub longer : length old.memories ≤ length new.memories
  pub current : old.epoch_memory < length old.memories → new.epoch_memory < length new.memories

Keeps-refl : (d : Door) → Keeps d d
Keeps-refl d = record { same = λ _. refl; longer = omega arith; current = λ h. h }

clear_residency_record-Keeps : (d : Door) → Keeps d (clear_residency_record d)
unfolding clear_residency_record
clear_residency_record-Keeps d = record {
  same = λ place. memory_at-append-empty place d.memories;
  longer = omega (arith, length-append d.memories (empty_epoch_memory ∷ []));
  current = λ _. omega (arith, length-append d.memories (empty_epoch_memory ∷ []));
}

-- A change of other fields.
Keeps-fields :
    (old new : Door)
    → new.memories ≡ old.memories
    → new.epoch_memory ≡ old.epoch_memory
    → Keeps old new
Keeps-fields old new h k = record {
  same = λ place. ap (memory_at place) h;
  longer = rw h (omega arith);
  current = λ l. rw (h, k) l;
}

-- A change of other fields after a change that keeps.
Keeps-then :
    (old mid new : Door)
    → Keeps old mid
    → new.memories ≡ mid.memories
    → new.epoch_memory ≡ mid.epoch_memory
    → Keeps old new
Keeps-then old mid new v h k = record {
  same = λ place. ap (memory_at place) h ∙ v.same place;
  longer = rw h v.longer;
  current = λ l. rw (h, k) (v.current l);
}

Keeps-trans : (a b c : Door) → Keeps a b → Keeps b c → Keeps a c
Keeps-trans a b c v w = record {
  same = λ place. w.same place ∙ v.same place;
  longer = omega (arith, v.longer, w.longer);
  current = λ l. w.current (v.current l);
}

supersede_memories :
    (epoch : ℕ) (d : Door)
    → ((supersede epoch d).memories ≡ d.memories)
      × ((supersede epoch d).epoch_memory ≡ d.epoch_memory)
unfolding supersede supersede_in emit
supersede_memories epoch d = at d.active_session
  where
    at :
        (session : Option ActiveSession)
        → ((supersede_in epoch session d).memories ≡ d.memories)
          × ((supersede_in epoch session d).epoch_memory ≡ d.epoch_memory)
    at none = (refl, refl)
    at (some s) = elim (Bool-cases (s.epoch == epoch)) [
      | inl h ↦ rw h (refl, refl)
      | inr h ↦ rw h (refl, refl)
    ]

commit_arrival-Keeps : (request : AttestRequest) (d : Door) → Keeps d (commit_arrival request d)
unfolding commit_arrival emit
commit_arrival-Keeps request d =
    let cleared = clear_residency_record-Keeps (supersede request.epoch d) in
    let same = supersede_memories request.epoch d in
    Keeps-then d (clear_residency_record (supersede request.epoch d)) (commit_arrival request d)
      (Keeps-trans d (supersede request.epoch d)
        (clear_residency_record (supersede request.epoch d))
        (Keeps-fields d (supersede request.epoch d) same.0 same.1) cleared)
      refl refl

abbrev departed : AttestRequest → Door → Door
departed request d = record d {
  active_session = none;
  session_retired = true;
  last_departure = some record {
    epoch = request.epoch;
    session_pubkey = request.session_pubkey;
    core = request.core;
  };
}

commit_departure-Keeps : (request : AttestRequest) (d : Door) → Keeps d (commit_departure request d)
unfolding commit_departure emit
commit_departure-Keeps request d =
    Keeps-then d (clear_residency_record (departed request d)) (commit_departure request d)
      (Keeps-trans d (departed request d) (clear_residency_record (departed request d))
        (Keeps-fields d (departed request d) refl refl)
        (clear_residency_record-Keeps (departed request d)))
      refl refl

settle-Keeps :
    (host : Host) (now : Text) (request : AttestRequest) (checks : Answer (Unit {0}))
    (change : Door → Door) (d : Door)
    → Keeps d (change d)
    → Keeps d (settle host now request checks change d).0
unfolding settle
settle-Keeps host now request (refused e) change d h = Keeps-refl d
settle-Keeps host now request (answered _) change d h = h

attest_departure-Keeps :
    (host : Host) (options : DoorOptions) (now : Text) (request : AttestRequest) (d : Door)
    → Keeps d (attest_departure host options now request d).0
unfolding attest_departure
attest_departure-Keeps host options now request d =
    elim (Bool-cases (is_departure_retry request d)) [
      | inl h ↦ rw h (
          settle-Keeps host now request (check_departure_retry host options now request) (λ x. x) d
            (Keeps-refl d))
      | inr h ↦ rw h (
          settle-Keeps host now request (check_presence host options now request d)
            (commit_departure request) d (commit_departure-Keeps request d))
    ]

beat-Keeps :
    (host : Host) (now : Text) (request : HeartbeatRequest) (checks : Answer (Unit {0})) (d : Door)
    → Keeps d (beat host now request checks d).0
unfolding beat
beat-Keeps host now request (refused e) d = Keeps-refl d
beat-Keeps host now request (answered _) d =
    Keeps-fields d (record d { last_heartbeat_seq = request.seq }) refl refl

record_words_memories :
    (issued_at : Text) (prose : Option Text) (d : Door)
    → ((record_words issued_at prose d).memories ≡ d.memories)
      × ((record_words issued_at prose d).epoch_memory ≡ d.epoch_memory)
unfolding record_words
record_words_memories issued_at none d = (refl, refl)
record_words_memories issued_at (some prose) d = (refl, refl)

deliver-Keeps :
    (memory : ℕ) (frame : OutboundFrame) (checks : Answer (Unit {0})) (d : Door)
    → Keeps d (deliver memory frame checks d).0
unfolding deliver accept_outbound
deliver-Keeps memory frame (refused e) d = Keeps-refl d
deliver-Keeps memory frame (answered _) d =
    let same = record_words_memories frame.issued_at frame.prose d in
    Keeps-fields d (accept_outbound memory frame d) same.0 same.1

inbound_in-Keeps :
    (options : DoorOptions) (now msg_id : Text) (body : InboundBody)
    (session : Option ActiveSession) (d : Door)
    → Keeps d (inbound_in options now msg_id body session d).0
unfolding inbound_in
inbound_in-Keeps options now msg_id body none d = Keeps-refl d
inbound_in-Keeps options now msg_id body (some session) d =
    Keeps-fields d (inbound_in options now msg_id body (some session) d).0 refl refl

pub handle-Keeps :
    (host : Host) (options : DoorOptions) (now : Text) (request : Request) (d : Door)
    → Keeps d (handle host options now request d)
unfolding handle finish_arrival attest_presence heartbeat handle_outbound create_inbound_frame
handle-Keeps host options now (arrives arrival request) d =
    settle-Keeps host now request (policy_accepts arrival) (commit_arrival request) d
      (commit_arrival-Keeps request d)
handle-Keeps host options now (is_present request) d =
    settle-Keeps host now request (check_presence host options now request d) (λ x. x) d
      (Keeps-refl d)
handle-Keeps host options now (departs request) d =
    attest_departure-Keeps host options now request d
handle-Keeps host options now (beats request) d =
    beat-Keeps host now request (check_heartbeat host options request d) d
handle-Keeps host options now (says frame) d =
    deliver-Keeps outbound_msg_id_memory frame (check_outbound host options now frame d) d
handle-Keeps host options now (hears msg_id body) d =
    inbound_in-Keeps options now msg_id body d.active_session d
