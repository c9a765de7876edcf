-- ===== src/Door/Events.antt =====
-- door-sdk/src/door.ts: histories of lifecycle events, and what an accepted arrival or departure adds.
use npc_of_the_internet.Shared.{
  ℕ, ◌<◌, ◌≡◌, refl, ap, subst, ◌∙◌, Option, none, some, List, [], ◌∷◌, ◌++◌, Bool, true, false,
  not, Text, ◌==◌, nat_eq, arith,
}
use npc_of_the_internet.Door.{
  epoch_replay, signature_invalid, answered, bind_answered, require, Host, DoorOptions,
  ActiveSession, SessionLifecycleEvent, arrived, retired, superseded, Door, emit, AttestRequest,
  attest_signing_payload,
}
use npc_of_the_internet.Door.Attest.{
  check_request, is_replay, check_arrival, supersede, supersede_in, clear_residency_record,
  commit_arrival, commit_departure, attest_arrival,
}
use npc_of_the_internet.Door.Session.Frames.{}
use npc_of_the_internet.Door.World.{Request, arrives, handle}
use npc_of_the_internet.Door.Requests.{require-true, FromSession}

-- A history of events with the epoch that is active after it and the last one that arrived: epochs
-- arrive in increasing order, and each ends once, by a departure or by the next arrival, before
-- another arrives.
pub data History : List SessionLifecycleEvent → Option ℕ → Option ℕ → Type 0 where
  nothing_yet : History [] none none
  arrives_after :
      {events : List SessionLifecycleEvent} {last : Option ℕ} (epoch : ℕ)
      → History events none last
      → ((n : ℕ) → last ≡ some n → n < epoch)
      → History (events ++ arrived epoch ∷ []) (some epoch) (some epoch)
  departs_after :
      {events : List SessionLifecycleEvent} {last : Option ℕ} {epoch : ℕ}
      → History events (some epoch) last
      → History (events ++ retired epoch ∷ []) none last
  is_superseded :
      {events : List SessionLifecycleEvent} {last : Option ℕ} {epoch : ℕ}
      → History events (some epoch) last
      → History (events ++ superseded epoch ∷ []) none last

abbrev pub active_epoch : Option ActiveSession → Option ℕ
active_epoch none = none
active_epoch (some s) = some s.epoch

abbrev pub HasHistory : Door → Type 0
HasHistory d = History d.emitted (active_epoch d.active_session) d.last_known_epoch

-- An arrival that nothing interrupts, or another request.
unfoldable pub serve : Host → DoorOptions → (now : Text) → Request → Door → Door
unfolding attest_arrival handle
serve host options now (arrives arrival request) door =
    (attest_arrival host options now request arrival door).0
serve host options now request door = handle host options now request door

-- The Door after the requests, each with its time.
unfoldable pub serve_all : Host → DoorOptions → List (Text × Request) → Door → Door
unfolding serve
serve_all host options [] door = door
serve_all host options ((now, request) ∷ rest) door =
    serve_all host options rest (serve host options now request door)

pub check_arrival_epoch :
    (host : Host) (options : DoorOptions) (now : Text) (request : AttestRequest) (d : Door)
    → check_arrival host options now request d ≡ answered tt
    → is_replay request.epoch d.last_known_epoch ≡ false
unfolding check_arrival
check_arrival_epoch host options now request d h =
    let (signature, _, h1) = bind_answered (check_request host options now request) _ tt h in
    let (_, _, h2) =
      bind_answered
        (require (host.verify (attest_signing_payload request) signature options.soul_public_key)
          signature_invalid)
        _ tt h1 in
    let (_, fresh, _) =
      bind_answered (require (not (is_replay request.epoch d.last_known_epoch)) epoch_replay) _ tt
        h2 in
    not_true (is_replay request.epoch d.last_known_epoch) (require-true _ _ _ fresh)
  where
    not_true : (b : Bool) → not b ≡ true → b ≡ false
    not_true true h = absurd (cc h)
    not_true false h = refl

not_replay :
    (epoch : ℕ) (last : Option ℕ) (n : ℕ) → is_replay epoch last ≡ false → last ≡ some n → n < epoch
unfolding is_replay
not_replay epoch none n h k = absurd (cc k)
not_replay epoch (some m) n h k = subst (λ x. x < epoch) (injective k) (ground (arith, h))
  where
    injective : {a b : ℕ} → some a ≡ some b → a ≡ b
    injective k = cc k

-- An active epoch is the last one that arrived.
active-last :
    {events : List SessionLifecycleEvent} {active last : Option ℕ} (n : ℕ)
    → History events active last
    → active ≡ some n
    → last ≡ some n
active-last n nothing_yet h = absurd (cc h)
active-last n (arrives_after epoch before above) h = h
active-last n (departs_after before) h = absurd (cc h)
active-last n (is_superseded before) h = absurd (cc h)

supersede_in-History :
    (epoch : ℕ) (session : Option ActiveSession) (d : Door)
    → ((s : ActiveSession) → session ≡ some s → (s.epoch == epoch) ≡ false)
    → History d.emitted (active_epoch session) d.last_known_epoch
    → History (supersede_in epoch session d).emitted none d.last_known_epoch
unfolding supersede_in emit
supersede_in-History epoch none d differs h = h
supersede_in-History epoch (some s) d differs h = rw (differs s refl) (is_superseded h)

pub commit_arrival_history :
    (request : AttestRequest) (d : Door)
    → is_replay request.epoch d.last_known_epoch ≡ false
    → HasHistory d
    → HasHistory (commit_arrival request d)
unfolding commit_arrival clear_residency_record emit supersede
commit_arrival_history request d fresh h =
    arrives_after request.epoch (supersede_in-History request.epoch d.active_session d differs h)
      (λ n k. not_replay request.epoch d.last_known_epoch n fresh k)
  where
    below : (s : ActiveSession) → d.active_session ≡ some s → s.epoch < request.epoch
    below s k =
        not_replay request.epoch d.last_known_epoch s.epoch fresh
          (active-last s.epoch h (ap active_epoch k))

    differs : (s : ActiveSession) → d.active_session ≡ some s → (s.epoch == request.epoch) ≡ false
    differs s k = ground (arith, below s k)

pub commit_departure_history :
    (request : AttestRequest) (d : Door)
    → FromSession d request.epoch request.session_pubkey
    → HasHistory d
    → HasHistory (commit_departure request d)
unfolding commit_departure clear_residency_record emit
commit_departure_history request d (s, active, same_epoch, _, _) h = departs_after (
    subst (λ o. History d.emitted o d.last_known_epoch)
      (ap active_epoch active ∙ ap (λ n. some n) same_epoch) h)
