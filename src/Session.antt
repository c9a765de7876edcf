-- ===== src/Session.antt =====
-- runtime/src/session/session.ts: what a session keeps while its residency ends, and what it calls.
pub mod Seal
pub mod Forming
pub mod Depart
pub mod Rules
pub mod Sound
pub mod Epochs
use npc_of_the_internet.Shared.{
  ℕ, suc, ◌+◌, Option, none, some, List, [], ◌∷◌, ◌++◌, Bool, true, false, Text, text, length, get,
  ltb, if◌then◌else◌,
}
use npc_of_the_internet.Base64Url.{Bytes, Decoded, ok, err}
use npc_of_the_internet.Chain.Record.{
  OspRecord, Crypto, Body, attestation, AttestationBody, arrival, heartbeat, departure, travel,
}
use npc_of_the_internet.Chain.Signed.{Thrown}
use npc_of_the_internet.Distillation.{TranscriptLine, ResidencyTranscript}
use npc_of_the_internet.Door.{MemoryKind, WitnessReason, AttestRequest}

pub data SessionPhase : Type 0 where
  live departing departed : SessionPhase

-- A side blob that is addressed and may not be stored yet.
pub record AddressedBlob : Type 0 where
  pub bytes : Bytes
  pub cid : Text
  pub hash : Text

-- A sealed record, and whether it is on the chain yet.
pub record LedgerEntry : Type 0 where
  pub sealed : OspRecord
  pub cid : Text
  pub blob : Option AddressedBlob
  pub appended : Bool

pub data MemoryVerdict : Type 0 where
  witnessed : LedgerEntry → MemoryVerdict
  declined : WitnessReason → LedgerEntry → MemoryVerdict

abbrev pub entry_of_verdict : MemoryVerdict → LedgerEntry
entry_of_verdict (witnessed entry) = entry
entry_of_verdict (declined reason entry) = entry

pub data JournalVerdict : Type 0 where
  undecided skipped : JournalVerdict
  decided : MemoryVerdict → JournalVerdict

pub record DepartLedger : Type 0 where
  pub lines : List TranscriptLine
  pub candidates : Option (List Text)
  pub screen_categories : List Text
  pub screened : List (Text × LedgerEntry)
  pub shards : List (Text × MemoryVerdict)
  pub journal_text : Option Text
  pub journal : JournalVerdict
  pub journal_path : Option Text
  pub departure_at : Option Text
  pub departure : Option LedgerEntry
  pub travel : Option LedgerEntry
  pub bare : Bool

abbrev pub empty_ledger : List TranscriptLine → DepartLedger
empty_ledger lines = record {
  lines = lines;
  candidates = none;
  screen_categories = [];
  screened = [];
  shards = [];
  journal_text = none;
  journal = undecided;
  journal_path = none;
  departure_at = none;
  departure = none;
  travel = none;
  bare = false;
}

pub record HeadInfo : Type 0 where
  pub cid : Text
  pub seq : ℕ

-- What a Door answers a memory attest: its co-signature, that it declines, or another error.
pub data AttestAnswer : Type 0 where
  cosigned : (door_cosig : Text) → AttestAnswer
  declines : Option WitnessReason → AttestAnswer
  unanswered : AttestAnswer

-- What becomes of a call that writes: it may be carried out and throw all the same.
pub data Fate : Type 0 where
  lands lands_and_throws fails : Fate

-- What a distill gives: the shard texts, that no usable shard is left, or another error; and the
-- categories that the immune screen has seen.
pub data Distilled : Type 0 where
  distilled : (texts categories : List Text) → Distilled
  nothing_usable : (categories : List Text) → Distilled
  distill_failed : Distilled

-- The store, the Door, the language model, the clock and the files, as whatever answers the calls
-- of a session: each call may answer anything and changes what they are (`none`: it throws).
pub record Outside (E : Type 0) : Type 0 where
  pub head : List OspRecord → E → E × Option (Option HeadInfo)
  pub iterate : E → E × Option (Unit {0})
  pub append : OspRecord → List OspRecord → E → E × Fate
  pub put_side_blob : AddressedBlob → E → E × Fate
  pub attest : AttestRequest → E → E × AttestAnswer
  pub now : E → E × Text
  pub read_source : E → E × Option (List TranscriptLine)
  pub destroy_source : E → E × Option (Unit {0})
  pub distill : List TranscriptLine → E → E × Distilled
  pub generate_journal : List Text → E → E × Option Text
  pub write_journal_file : Text → E → E × Option Text

pub record SessionOptions : Type 0 where
  pub door_id : Text
  pub epoch : ℕ
  pub residency : Text
  pub session_public_key : Bytes
  pub witnesses_memories : Bool
  pub crypto : Crypto
  pub sign_with_soul_key : Bytes → Bytes
  pub sign_with_session_key : Bytes → Bytes
  -- `TextDecoder`
  pub decode_utf8 : Bytes → Text
  -- `addressShardTextBlob` and `addressJournalBlob`
  pub address_blob : MemoryKind → Text → Option AddressedBlob

-- What a memory attest asked, and the answer.
pub record Ask : Type 0 where
  pub kind : MemoryKind
  pub prose : Text
  pub answer : AttestAnswer

-- A moment of a session: its own fields, what the store holds, and what it has asked of the Door.
pub record Moment (E : Type 0) : Type 0 where
  pub phase : SessionPhase
  pub ledger : Option DepartLedger
  pub live_transcript : Option ResidencyTranscript
  pub chain : List OspRecord
  pub blobs : List AddressedBlob
  pub asks : List Ask
  pub outside : E

pub data SessionFault : Type 0 where
  has_departed bare_only no_transcript no_head invalid_record : SessionFault
  -- an error of what the session calls
  call_failed : SessionFault

pub data Outcome (A : Type 0) : Type 0 where
  returned : A → Outcome A
  threw : SessionFault → Outcome A

-- An async method: what was written stays written after a throw.
abbrev pub Run : Type 0 → Type 0 → Type 0
Run E A = Moment E → Moment E × Outcome A

module _ {E : Type 0} {A : Type 0} where
  abbrev pub pure : A → Run E A
  pure a s = (s, returned a)

  abbrev pub raise : SessionFault → Run E A
  raise fault s = (s, threw fault)

  abbrev pub or_raise : Option A → SessionFault → Run E A
  or_raise none fault = raise fault
  or_raise (some a) fault = pure a

  abbrev pub of_decoded : Decoded A → Run E A
  of_decoded (ok a) = pure a
  of_decoded (err e) = raise call_failed

  -- A call of something outside.
  abbrev pub call : (E → E × A) → Run E A
  call f s = let (e, a) = f s.outside in (record s { outside = e }, returned a)

  -- `try`
  abbrev pub attempt : Run E A → Run E (Outcome A)
  attempt m s = let (s', outcome) = m s in (s', returned outcome)

infixl 5 ◌>>=◌ ◌>>◌
unfoldable pub ◌>>=◌ : {E A B : Type 0} → Run E A → (A → Run E B) → Run E B
◌>>=◌ m f s =
    let (s', outcome) = m s in
    elim outcome [ returned a ↦ f a s' | threw fault ↦ (s', threw fault) ]

abbrev pub ◌>>◌ : {E B : Type 0} → Run E (Unit {0}) → Run E B → Run E B
m >> k = m >>= λ _. k

abbrev pub call_or_raise : {E A : Type 0} → (E → E × Option A) → Run E A
call_or_raise f = call f >>= λ answer. or_raise answer call_failed

-- `extractAttestationEpoch`
pub extract_attestation_epoch : OspRecord → Option ℕ
extract_attestation_epoch r = elim r.body [
  | attestation (arrival _ epoch _ _) ↦ some epoch
  | attestation (heartbeat _ epoch _ _) ↦ some epoch
  | attestation (departure _ epoch _) ↦ some epoch
  | attestation (travel _ epoch _ _) ↦ some epoch
  | _ ↦ none
]

abbrev pub greatest : Option ℕ → ℕ → ℕ
greatest none most = most
greatest (some epoch) most = if ltb most epoch then epoch else most

pub scan_from : ℕ → List OspRecord → ℕ
unfolding extract_attestation_epoch
scan_from most [] = most
scan_from most (r ∷ rest) = scan_from (greatest (extract_attestation_epoch r) most) rest

-- `scanMaxAttestationEpoch`
pub scan_max_attestation_epoch : List OspRecord → ℕ
unfolding scan_from
scan_max_attestation_epoch records = scan_from 0 records

abbrev pub door_floor_epoch : Option ℕ → ℕ
door_floor_epoch none = 0
door_floor_epoch (some active) = active + 1

-- The epoch of a new session (`start`).
pub new_epoch : List OspRecord → (active_epoch : Option ℕ) → ℕ
unfolding scan_max_attestation_epoch
new_epoch records active_epoch =
    let derived = scan_max_attestation_epoch records + 1 in
    if ltb derived (door_floor_epoch active_epoch) then door_floor_epoch active_epoch else derived
