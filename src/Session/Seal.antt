-- ===== src/Session/Seal.antt =====
-- session.ts: the calls of the store and the Door, and the records that a session seals.
use npc_of_the_internet.Shared.{
  ◌+◌, Option, none, some, List, [], ◌∷◌, ◌++◌, true, false, Text, text, get, put, ◌==◌, text_eq,
  if◌then◌else◌,
}
use npc_of_the_internet.Base64Url.{encode_public_key, encode_signature}
use npc_of_the_internet.Chain.Record.{
  OspRecord, CoreFields, v02, Body, MemoryBody, memory, shard_v02, journal, rejected, attestation,
  departure,
}
use npc_of_the_internet.Chain.Schema.{shaped, safe_parse}
use npc_of_the_internet.Chain.Creation.{sorted}
use npc_of_the_internet.Door.{
  MemoryKind, shard, WitnessReason, ungrounded, private_matter, harmful, manipulation, other,
  AttestRequest, AttestKind, memory_kind, departure_kind, attest_signing_payload,
}
use npc_of_the_internet.Door.Witness.{reason_or_other}
use npc_of_the_internet.Session.{
  AddressedBlob, LedgerEntry, MemoryVerdict, witnessed, declined, JournalVerdict, decided,
  DepartLedger, empty_ledger, HeadInfo, AttestAnswer, cosigned, declines, unanswered, lands,
  lands_and_throws, fails, Outside, SessionOptions, Moment, no_head, invalid_record, call_failed,
  returned, threw, Run, pure, raise, or_raise, of_decoded, call, ◌>>=◌, ◌>>◌, call_or_raise,
  entry_of_verdict,
}

-- Where the ledger holds an entry.
pub data Slot : Type 0 where
  screened_slot shard_slot : Text → Slot
  journal_slot departure_slot travel_slot : Slot

abbrev pub entry_in_verdict : Option MemoryVerdict → Option LedgerEntry
entry_in_verdict none = none
entry_in_verdict (some verdict) = some (entry_of_verdict verdict)

abbrev pub entry_in_journal : JournalVerdict → Option LedgerEntry
entry_in_journal (decided verdict) = some (entry_of_verdict verdict)
entry_in_journal _ = none

abbrev pub entry_at : Slot → DepartLedger → Option LedgerEntry
entry_at (screened_slot category) ledger = get category ledger.screened
entry_at (shard_slot prose) ledger = entry_in_verdict (get prose ledger.shards)
entry_at journal_slot ledger = entry_in_journal ledger.journal
entry_at departure_slot ledger = ledger.departure
entry_at travel_slot ledger = ledger.travel

abbrev pub appended_entry : LedgerEntry → LedgerEntry
appended_entry entry = record entry { appended = true }

abbrev pub appended_verdict : MemoryVerdict → MemoryVerdict
appended_verdict (witnessed entry) = witnessed (appended_entry entry)
appended_verdict (declined reason entry) = declined reason (appended_entry entry)

abbrev pub appended_option : Option LedgerEntry → Option LedgerEntry
appended_option none = none
appended_option (some entry) = some (appended_entry entry)

abbrev pub appended_journal : JournalVerdict → JournalVerdict
appended_journal (decided verdict) = decided (appended_verdict verdict)
appended_journal verdict = verdict

abbrev pub appended_screened :
    Text → Option LedgerEntry → List (Text × LedgerEntry) → List (Text × LedgerEntry)
appended_screened category none m = m
appended_screened category (some entry) m = put category (appended_entry entry) m

abbrev pub appended_shard :
    Text → Option MemoryVerdict → List (Text × MemoryVerdict) → List (Text × MemoryVerdict)
appended_shard prose none m = m
appended_shard prose (some verdict) m = put prose (appended_verdict verdict) m

-- `entry.appended = true`, on the entry that the ledger holds.
unfoldable pub mark_appended : Slot → DepartLedger → DepartLedger
mark_appended (screened_slot category) ledger = record ledger {
  screened = appended_screened category (get category ledger.screened) ledger.screened;
}
mark_appended (shard_slot prose) ledger = record ledger {
  shards = appended_shard prose (get prose ledger.shards) ledger.shards;
}
mark_appended journal_slot ledger = record ledger { journal = appended_journal ledger.journal }
mark_appended departure_slot ledger = record ledger { departure = appended_option ledger.departure }
mark_appended travel_slot ledger = record ledger { travel = appended_option ledger.travel }

unfoldable pub reason_text : WitnessReason → Text
reason_text ungrounded = text "ungrounded"
reason_text private_matter = text "private"
reason_text harmful = text "harmful"
reason_text manipulation = text "manipulation"
reason_text other = text "other"

-- `witness_<reason>`
unfoldable pub witness_category : WitnessReason → Text
witness_category reason = text "witness_" ++ reason_text reason

unfoldable pub memory_body_of : MemoryKind → AddressedBlob → (at : Text) → MemoryBody
memory_body_of shard blob at = shard_v02 blob.cid blob.hash none none none at
memory_body_of _ blob at = journal blob.cid blob.hash at

-- The methods read the ledger only once there is one.
abbrev pub ledger_or_empty : Option DepartLedger → DepartLedger
ledger_or_empty none = empty_ledger []
ledger_or_empty (some ledger) = ledger

abbrev pub with_answer : {E : Type 0} → Moment E → List OspRecord → E → Moment E
with_answer s chain e = record s { chain = chain; outside = e }

module _ {E : Type 0} where
  abbrev pub read_ledger : Run E DepartLedger
  read_ledger s = (s, returned (ledger_or_empty s.ledger))

  abbrev pub change_ledger : (DepartLedger → DepartLedger) → Run E (Unit {0})
  change_ledger f s = (record s { ledger = some (f (ledger_or_empty s.ledger)) }, returned tt)

module _ {E : Type 0} (outside : Outside E) (options : SessionOptions) where
  -- `requireHead`
  unfoldable pub require_head : Run E HeadInfo
  require_head s = (call_or_raise (outside.head s.chain) >>= λ head. or_raise head no_head) s

  -- `store.append`
  unfoldable pub store_append : OspRecord → Run E (Unit {0})
  store_append r s =
      let (e, fate) = outside.append r s.chain s.outside in
      elim fate [
        | lands ↦ (record s { chain = s.chain ++ r ∷ []; outside = e }, returned tt)
        | lands_and_throws ↦
            (record s { chain = s.chain ++ r ∷ []; outside = e }, threw call_failed)
        | fails ↦ (record s { outside = e }, threw call_failed)
      ]

  -- `putAddressedBlob`, which also throws if the store derives another CID.
  unfoldable pub put_addressed_blob : AddressedBlob → Run E (Unit {0})
  put_addressed_blob blob s =
      let (e, fate) = outside.put_side_blob blob s.outside in
      elim fate [
        | lands ↦ (record s { blobs = s.blobs ++ blob ∷ []; outside = e }, returned tt)
        | lands_and_throws ↦
            (record s { blobs = s.blobs ++ blob ∷ []; outside = e }, threw call_failed)
        | fails ↦ (record s { outside = e }, threw call_failed)
      ]

  unfoldable pub put_blob_of : Option AddressedBlob → Run E (Unit {0})
  put_blob_of none = pure tt
  put_blob_of (some blob) = put_addressed_blob blob

  unfoldable pub append_unless_head : LedgerEntry → HeadInfo → Run E (Unit {0})
  append_unless_head entry head =
      if head.cid == entry.cid then pure tt else put_blob_of entry.blob >> store_append entry.sealed

  -- `appendEntry`, of the entry that the ledger holds at `slot`.
  unfoldable pub append_entry : Slot → LedgerEntry → Run E (Unit {0})
  append_entry slot entry =
      if entry.appended
      then pure tt
      else (require_head >>= append_unless_head entry) >> change_ledger (mark_appended slot)

  -- `door.attest` with a memory
  unfoldable pub ask_door : MemoryKind → (prose : Text) → AttestRequest → Run E AttestAnswer
  ask_door kind prose request s =
      let (e, answer) = outside.attest request s.outside in
      (
        record s {
          asks = s.asks ++ record { kind = kind; prose = prose; answer = answer } ∷ [];
          outside = e;
        },
        returned answer,
      )

  -- The fields that a session gives `sealRecord`.
  unfoldable pub core_at : HeadInfo → Body → CoreFields
  core_at head body = record {
    spec = v02;
    seq = head.seq + 1;
    prev = some head.cid;
    residency = some options.residency;
    body = body;
  }

  -- `sealRecord`
  unfoldable pub seal_record : CoreFields → (cosigners : List Text) → Run E (OspRecord × Text)
  seal_record core cosigners = do
    sig ← of_decoded (
        encode_signature (
          options.sign_with_soul_key (
            options.crypto.soul_bytes record {
              spec = core.spec;
              seq = core.seq;
              prev = core.prev;
              residency = core.residency;
              cosigners = sorted cosigners;
              body = core.body;
            })))
    r ←
        or_raise
          (safe_parse (
            shaped record {
              spec = core.spec;
              seq = core.seq;
              prev = core.prev;
              residency = core.residency;
              cosigners = sorted cosigners;
              sig = sig;
              body = core.body;
            }))
          invalid_record
    pure (r, options.crypto.compute_cid r)

  -- `sealAt`
  unfoldable pub seal_at : HeadInfo → Body → (cosigners : List Text) → Run E LedgerEntry
  seal_at head body cosigners = seal_record (core_at head body) cosigners >>= λ result.
      pure record { sealed = result.0; cid = result.1; blob = none; appended = false }

  unfoldable pub unsigned_attest :
      AttestKind → HeadInfo → Body → Option Text → (session_pubkey issued_at : Text) → AttestRequest
  unsigned_attest kind head body prose session_pubkey issued_at = record {
    door_id = options.door_id;
    epoch = options.epoch;
    kind = kind;
    core = options.decode_utf8 (options.crypto.core_bytes (core_at head body));
    session_pubkey = session_pubkey;
    prose = prose;
    issued_at = issued_at;
    sig = text "";
  }

  unfoldable pub signed_attest : AttestRequest → Run E AttestRequest
  signed_attest request =
      of_decoded (encode_signature (options.sign_with_session_key (attest_signing_payload request)))
      >>= λ sig. pure (record request { sig = sig })

  -- The verdict for an answer of the Door.
  unfoldable pub seal_verdict : HeadInfo → Body → AddressedBlob → AttestAnswer → Run E MemoryVerdict
  seal_verdict head body blob (cosigned door_cosig) =
      seal_at head body (door_cosig ∷ []) >>= λ entry.
      pure (witnessed (record entry { blob = some blob }))
  seal_verdict head body blob (declines reason) = call outside.now >>= λ at.
      seal_at head (memory (rejected (witness_category (reason_or_other reason)) none at)) []
      >>= λ entry. pure (declined (reason_or_other reason) entry)
  seal_verdict head body blob unanswered = raise call_failed

  -- `askWitness`
  unfoldable pub ask_witness : MemoryKind → (prose : Text) → Run E MemoryVerdict
  ask_witness kind prose = do
    blob ← or_raise (options.address_blob kind prose) call_failed
    head ← require_head
    at ← call outside.now
    session_pubkey ← of_decoded (encode_public_key options.session_public_key)
    issued_at ← call outside.now
    request ← signed_attest (
        unsigned_attest memory_kind head (memory (memory_body_of kind blob at)) (some prose)
          session_pubkey issued_at)
    answer ← ask_door kind prose request
    seal_verdict head (memory (memory_body_of kind blob at)) blob answer

  -- `ledger.departureAt ??= this.clock.now()`
  unfoldable pub fix_departure_at : Option Text → Run E Text
  fix_departure_at (some at) = pure at
  fix_departure_at none = call outside.now >>= λ at.
      change_ledger (λ ledger. record ledger { departure_at = some at }) >> pure at

  unfoldable pub seal_departure : HeadInfo → Body → AttestAnswer → Run E LedgerEntry
  seal_departure head body (cosigned door_cosig) = seal_at head body (door_cosig ∷ [])
  seal_departure head body _ = raise call_failed

  -- `attestDeparture`, with `attestAndSeal`
  unfoldable pub attest_departure : Run E LedgerEntry
  attest_departure = do
    head ← require_head
    ledger ← read_ledger
    at ← fix_departure_at ledger.departure_at
    issued_at ← call outside.now
    session_pubkey ← of_decoded (encode_public_key options.session_public_key)
    request ← signed_attest (
        unsigned_attest departure_kind head
          (attestation (departure options.door_id options.epoch at)) none session_pubkey issued_at)
    answer ← call (outside.attest request)
    seal_departure head (attestation (departure options.door_id options.epoch at)) answer
