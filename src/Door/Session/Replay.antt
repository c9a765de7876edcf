-- ===== src/Door/Session/Replay.antt =====
-- door-sdk/src/door.ts: the memory of outbound `msg_id`s against the whole history of an epoch.
use npc_of_the_internet.Shared.{
  ℕ, ◌≡◌, refl, sym, ap, ◌∙◌, List, [], ◌∷◌, ◌++◌, Bool, true, false, not, Text, latest,
  latest-append, includes, add, ◌==◌, nat_eq, text_eq,
}
use npc_of_the_internet.Door.{
  session_invalid, signature_invalid, msg_replay, Answer, answered, refused, bind_answered, require,
  or_refuse, Host, DoorOptions, Door,
}
use npc_of_the_internet.Door.Session.{assert_issued_at_fresh}
use npc_of_the_internet.Door.Session.Frames.{
  OutboundFrame, verify_outbound, check_outbound, trim_seen, accept_outbound, deliver,
}

-- The Door and the ids that it has accepted, in order, after a frame and after many.
unfoldable pub accept_next :
    ℕ → OutboundFrame → Answer (Unit {0}) → Door × List Text → Door × List Text
unfolding deliver
accept_next memory frame (refused e) (door, accepted) = (door, accepted)
accept_next memory frame (answered u) (door, accepted) =
    ((deliver memory frame (answered u) door).0, accepted ++ frame.msg_id ∷ [])

unfoldable pub deliver_all :
    Host → DoorOptions → ℕ → List (Text × OutboundFrame) → Door × List Text → Door × List Text
unfolding accept_next check_outbound
deliver_all host options memory [] state = state
deliver_all host options memory ((now, frame) ∷ rest) state =
    deliver_all host options memory rest
      (accept_next memory frame (check_outbound host options now frame state.0) state)

-- No id is among the `memory` ids before it.
pub data NoReplay (memory : ℕ) : List Text → Type 0 where
  none_accepted : NoReplay memory []
  accepted_new :
      {ids : List Text} (id : Text)
      → NoReplay memory ids
      → includes (latest memory ids) id ≡ false
      → NoReplay memory (ids ++ id ∷ [])

-- Trimming after each id keeps the latest ids of the whole history.
trim_seen-latest :
    (memory : ℕ) (ids : List Text) (id : Text)
    → trim_seen memory (latest memory ids ++ id ∷ []) ≡ latest memory (ids ++ id ∷ [])
unfolding trim_seen
trim_seen-latest memory ids id = latest-append memory ids id

check_outbound_fresh :
    (host : Host) (options : DoorOptions) (now : Text) (frame : OutboundFrame) (d : Door)
    → check_outbound host options now frame d ≡ answered tt
    → includes d.seen_outbound_msg_ids frame.msg_id ≡ false
unfolding check_outbound
check_outbound_fresh host options now frame d h =
    let (_, _, h1) =
      bind_answered (require (frame.door_id == options.door_id) session_invalid) _ tt h in
    let (s, _, h2) = bind_answered (or_refuse d.active_session session_invalid) _ tt h1 in
    let (_, _, h3) = bind_answered (require (frame.epoch == s.epoch) session_invalid) _ tt h2 in
    let (genuine, _, h4) = bind_answered (verify_outbound host options frame d) _ tt h3 in
    let (_, _, h5) = bind_answered (require genuine signature_invalid) _ tt h4 in
    let (_, _, h6) =
      bind_answered (assert_issued_at_fresh host options now frame.issued_at) _ tt h5 in
    new (includes d.seen_outbound_msg_ids frame.msg_id) h6
  where
    new : (b : Bool) → require (not b) msg_replay ≡ answered tt → b ≡ false
    new true h = absurd (cc h)
    new false h = refl

-- What the Door remembers, and that nothing was replayed.
pub record Remembers (memory : ℕ) (state : Door × List Text) : Type 0 where
  pub seen : state.0.seen_outbound_msg_ids ≡ latest memory state.1
  pub no_replay : NoReplay memory state.1

add-new : (id : Text) (seen : List Text) → includes seen id ≡ false → add id seen ≡ seen ++ id ∷ []
add-new id seen h = rw h refl

accept_next-Remembers :
    (memory : ℕ) (frame : OutboundFrame) (checks : Answer (Unit {0})) (d : Door)
    (accepted : List Text)
    → (checks ≡ answered tt → includes d.seen_outbound_msg_ids frame.msg_id ≡ false)
    → Remembers memory (d, accepted)
    → Remembers memory (accept_next memory frame checks (d, accepted))
unfolding accept_next deliver accept_outbound
accept_next-Remembers memory frame (refused e) d accepted new h = h
accept_next-Remembers memory frame (answered tt) d accepted new h = record {
  seen =
      ap (trim_seen memory) (add-new frame.msg_id d.seen_outbound_msg_ids (new refl))
      ∙ (ap (λ s. trim_seen memory (s ++ frame.msg_id ∷ [])) h.seen
          ∙ trim_seen-latest memory accepted frame.msg_id);
  no_replay =
      accepted_new frame.msg_id h.no_replay
        (ap (λ s. includes s frame.msg_id) (sym h.seen) ∙ new refl);
}

-- Whatever frames come, no outbound `msg_id` is accepted that is among the `memory` ids accepted
-- before it in the epoch, and the Door remembers exactly the latest `memory` accepted ids, if that
-- was so at the start.
pub deliver_all-Remembers :
    (host : Host) (options : DoorOptions) (memory : ℕ) (frames : List (Text × OutboundFrame))
    (state : Door × List Text)
    → Remembers memory state
    → Remembers memory (deliver_all host options memory frames state)
unfolding deliver_all
deliver_all-Remembers host options memory [] state h = h
deliver_all-Remembers host options memory ((now, frame) ∷ rest) (d, accepted) h =
    deliver_all-Remembers host options memory rest
      (accept_next memory frame (check_outbound host options now frame d) (d, accepted))
      (accept_next-Remembers memory frame (check_outbound host options now frame d) d accepted
        (check_outbound_fresh host options now frame d) h)
