-- ===== src/Door/World.antt =====
-- door-sdk/src/door.ts: a Door among its requests. JavaScript runs each stretch between two awaits on
-- its own, so the requests interleave at the awaits only.
pub mod Memories
pub mod Changes
pub mod Decisions
pub mod Within
pub mod Growth
pub mod Budget
use npc_of_the_internet.Shared.{ℕ, ◌≡◌, List, [], ◌∷◌, ◌++◌, Text}
use npc_of_the_internet.Door.{
  Answer, answered, refused, Host, DoorOptions, Door, AttestRequest, HeartbeatRequest, create,
}
use npc_of_the_internet.Door.Transcript.{ResidencyRecord, ResidencyLine}
use npc_of_the_internet.Door.Session.{heartbeat}
use npc_of_the_internet.Door.Session.Frames.{
  OutboundFrame, outbound_msg_id_memory, handle_outbound, InboundBody, create_inbound_frame,
}
use npc_of_the_internet.Door.Attest.{
  Arrival, check_arrival, finish_arrival, attest_presence, attest_departure,
}
use npc_of_the_internet.Door.Witness.{
  MemoryCall, start_memory, Asked, over, asking, ask_memory, WitnessReply, settle_memory,
}

-- A request that is handled without an await and may change the Door, and an arrival when the policy
-- has answered. Memory attests await and are steps of their own; `hello` and the binding of a session
-- change nothing.
pub data Request : Type 0 where
  arrives : Arrival → AttestRequest → Request
  is_present departs : AttestRequest → Request
  beats : HeartbeatRequest → Request
  says : OutboundFrame → Request
  hears : (msg_id : Text) → InboundBody → Request

module _ (host : Host) (options : DoorOptions) where
  unfoldable pub handle : (now : Text) → Request → Door → Door
  unfolding finish_arrival attest_presence attest_departure heartbeat handle_outbound
      create_inbound_frame
  handle now (arrives arrival request) door = (finish_arrival host now request arrival door).0
  handle now (is_present request) door = (attest_presence host options now request door).0
  handle now (departs request) door = (attest_departure host options now request door).0
  handle now (beats request) door = (heartbeat host options now request door).0
  handle now (says frame) door =
      (handle_outbound host options outbound_msg_id_memory now frame door).0
  handle now (hears msg_id body) door = (create_inbound_frame options now msg_id body door).0

-- The Door, the memory attests that wait for the hash of their text, and those that wait for the
-- witness.
pub record World : Type 0 where
  pub door : Door
  pub started : List MemoryCall
  pub asked : List MemoryCall

-- The call is over, or waits for the witness.
unfoldable pub after_asking : MemoryCall → List MemoryCall → Door × Asked → World → World
after_asking call started (door, over _) w = record w { door = door; started = started }
after_asking call started (door, asking _ _) w = record w {
  door = door;
  started = started;
  asked = call ∷ w.asked;
}

-- One stretch between two awaits.
pub data Step (host : Host) (options : DoorOptions) : World → World → Type 0 where
  handled :
      {w : World} (now : Text) (request : Request)
      → Step host options w (record w { door = handle host options now request w.door })
  memory_starts :
      {w : World} (now : Text) (request : AttestRequest) (call : MemoryCall)
      → start_memory host options now request w.door ≡ answered call
      → Step host options w (record w { started = call ∷ w.started })
  memory_asks :
      {w : World} (call : MemoryCall) (before after : List MemoryCall)
      → w.started ≡ before ++ call ∷ after
      → Step host options w (after_asking call (before ++ after) (ask_memory options call w.door) w)
  memory_settles :
      {w : World} (call : MemoryCall) (before after : List MemoryCall) (reply : WitnessReply)
      → w.asked ≡ before ++ call ∷ after
      → Step host options w
          (record w { door = (settle_memory call reply w.door).0; asked = before ++ after })

-- What a Door comes to from its construction on.
pub data Reachable (host : Host) (options : DoorOptions) : World → Type 0 where
  constructed :
      (transcript : ResidencyRecord)
      → Reachable host options (record { door = create transcript; started = []; asked = [] })
  then_step :
      {w v : World} → Reachable host options w → Step host options w v → Reachable host options v
