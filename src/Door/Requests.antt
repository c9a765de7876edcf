-- ===== src/Door/Requests.antt =====
-- door-sdk/src/door.ts: what the checks of a session-bound request establish.
use npc_of_the_internet.Shared.{
  ℕ, ◌≡◌, refl, sym, ◌∙◌, Option, none, some, Bool, true, false, not, Text, ◌==◌, ==_iff, nat_eq,
  text_eq,
}
use npc_of_the_internet.Base64Url.{Bytes}
use npc_of_the_internet.Door.{
  DoorError, session_invalid, epoch_closed, epoch_mismatch, answered, bind_answered, require,
  or_refuse, Host, DoorOptions, ActiveSession, Door, AttestRequest,
}
use npc_of_the_internet.Door.Session.{require_active_session}
use npc_of_the_internet.Door.Session.Frames.{}
use npc_of_the_internet.Door.Attest.{
  check_request, other_epoch_active, assert_session_request, check_presence,
}
use npc_of_the_internet.Door.World.{}

pub require-true : (b : Bool) (e : DoorError) (u : Unit {0}) → require b e ≡ answered u → b ≡ true
require-true true e u h = refl
require-true false e u h = absurd (cc h)

-- The active session that a session-bound request must come from.
abbrev pub FromSession : Door → ℕ → Text → Type 0
FromSession d epoch session_pubkey =
    (s : ActiveSession) × (d.active_session ≡ some s)
    × (s.epoch ≡ epoch)
    × (s.session_pubkey ≡ session_pubkey)
    × (d.session_retired ≡ false)

pub require_active_session_lem :
    (options : DoorOptions) (door_id session_pubkey : Text) (epoch : ℕ) (d : Door)
    → require_active_session options door_id epoch session_pubkey d ≡ answered tt
    → FromSession d epoch session_pubkey
unfolding require_active_session
require_active_session_lem options door_id session_pubkey epoch d h =
    let (_, open_, h1) = bind_answered (require (not d.session_retired) epoch_closed) _ tt h in
    let (s, active, h2) = bind_answered (or_refuse d.active_session session_invalid) _ tt h1 in
    let (_, same_epoch, h3) = bind_answered (require (s.epoch == epoch) session_invalid) _ tt h2 in
    let (_, same_key, h4) =
      bind_answered (require (s.session_pubkey == session_pubkey) session_invalid) _ tt h3 in
    (
      s,
      found d.active_session s active,
      (==_iff s.epoch epoch).0 (require-true (s.epoch == epoch) _ _ same_epoch),
      (==_iff s.session_pubkey session_pubkey).0
          (require-true (s.session_pubkey == session_pubkey) _ _ same_key),
      not_true d.session_retired (require-true (not d.session_retired) _ _ open_),
    )
  where
    found :
        (o : Option ActiveSession) (s : ActiveSession)
        → or_refuse o session_invalid ≡ answered s
        → o ≡ some s
    found none s h = absurd (cc h)
    found (some t) s h = cc h

    not_true : (b : Bool) → not b ≡ true → b ≡ false
    not_true true h = absurd (cc h)
    not_true false h = refl

pub assert_session_request_lem :
    (host : Host) (options : DoorOptions) (request : AttestRequest) (signature : Bytes) (d : Door)
    → assert_session_request host options request signature d ≡ answered tt
    → FromSession d request.epoch request.session_pubkey
unfolding assert_session_request
assert_session_request_lem host options request signature d h =
    let (_, _, h1) =
      bind_answered (require (not (other_epoch_active request.epoch d)) epoch_mismatch) _ tt h in
    let (_, active, _) =
      bind_answered
        (require_active_session options request.door_id request.epoch request.session_pubkey d) _ tt
        h1 in
    require_active_session_lem options request.door_id request.session_pubkey request.epoch d active

pub check_presence_lem :
    (host : Host) (options : DoorOptions) (now : Text) (request : AttestRequest) (d : Door)
    → check_presence host options now request d ≡ answered tt
    → (signature : Bytes) × (check_request host options now request ≡ answered signature)
      × (assert_session_request host options request signature d ≡ answered tt)
unfolding check_presence
check_presence_lem host options now request d h =
    let (signature, checked, h1) = bind_answered (check_request host options now request) _ tt h in
    let (u, bound, _) =
      bind_answered (assert_session_request host options request signature d) _ tt h1 in
    (signature, checked, bound)

-- A Door whose residency has departed.
pub record IsRetired (d : Door) : Type 0 where
  pub retired : d.session_retired ≡ true
  pub inactive : d.active_session ≡ none

pub not-FromSession :
    (d : Door) (epoch : ℕ) (session_pubkey : Text)
    → IsRetired d
    → FromSession d epoch session_pubkey
    → ⊥
not-FromSession d epoch session_pubkey h (s, _, _, _, open_) = cc (sym h.retired ∙ open_)
