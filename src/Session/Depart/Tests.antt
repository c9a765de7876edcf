-- ===== src/Session/Depart/Tests.antt =====
-- Runs of a session that departs.
use npc_of_the_internet.Shared.{
  ℕ, zero, suc, ◌<◌, ◌≡◌, refl, ap, inl, inr, Option, none, some, List, [], ◌∷◌, ◌++◌, true, false,
  Text, text, In, length, nat_eq, text_eq, if◌then◌else◌, ◌==◌,
}
use npc_of_the_internet.Base64Url.{
  encode_signature, encode_public_key, encode_base64_url, decode_signature, decode_base64_url,
  decode_public_key,
}
use npc_of_the_internet.Chain.Record.{OspRecord, attestation, travel}
use npc_of_the_internet.Chain.Residency.{parse_residency, door_id_from_residency}
use npc_of_the_internet.Chain.Schema.{safe_parse, issues}
use npc_of_the_internet.Chain.Samples.{
  zeros, sample_crypto, sample_genesis, sample_arrival, sample_signature,
}
use npc_of_the_internet.Chain.Creation.{sorted, insert_text}
use npc_of_the_internet.Distillation.{TranscriptLine, user, read_transcript, destroy_transcript}
use npc_of_the_internet.Door.{ungrounded}
use npc_of_the_internet.Door.Core.{code_points_from}
use npc_of_the_internet.Session.{
  live, AddressedBlob, HeadInfo, AttestAnswer, cosigned, declines, Fate, lands, lands_and_throws,
  distilled, Outside, SessionOptions, Moment, returned, threw, ◌>>=◌, call_failed, new_epoch,
}
use npc_of_the_internet.Session.Seal
use npc_of_the_internet.Session.Seal.{Slot, shard_slot, entry_at, ledger_or_empty}
use npc_of_the_internet.Session.Sound.{Held, asks_at, Witnessed, cids, IsStore}
use npc_of_the_internet.Session.Epochs.{new_epoch-greatest}
use npc_of_the_internet.Session.Forming
use npc_of_the_internet.Session.Depart
use npc_of_the_internet.Session.Depart.{
  DepartOptions, DepartResult, depart, depart_bare, Attempt, departs, departs_bare, try_depart,
  try_all,
}
use npc_of_the_internet.Session.Depart.Sessions.{IsSound, start-IsSound}
use npc_of_the_internet.Session.Depart.Outcomes.{
  try_depart-Progress, try_all_asks, try_all_blobs, depart-DepartLeaves, depart_bare-DepartLeaves,
}
use npc_of_the_internet.Session.Depart.Endings.{DepartLeaves}

head_of : List OspRecord → Option HeadInfo
head_of [] = none
head_of (r ∷ []) = some record { cid = sample_crypto.compute_cid r; seq = r.seq }
head_of (r ∷ q ∷ rest) = head_of (q ∷ rest)

-- The Door declines the text "b".
answer_to : Option Text → AttestAnswer
answer_to none = cosigned sample_signature
answer_to (some prose) =
    if prose == text "b" then declines (some ungrounded) else cosigned sample_signature

-- The append at this count of appends lands and throws all the same.
abbrev fate_of : ℕ → Fate
fate_of zero = lands_and_throws
fate_of (suc n) = lands

abbrev less : ℕ → ℕ
less zero = 9
less (suc n) = n

-- What answers is how many appends go well before one throws.
abbrev world : Outside ℕ
world = record {
  head = λ chain e. (e, some (head_of chain));
  iterate = λ e. (e, some tt);
  append = λ r chain e. (less e, fate_of e);
  put_side_blob = λ blob e. (e, lands);
  attest = λ request e. (e, answer_to request.prose);
  now = λ e. (e, text "t");
  read_source = λ e. (e, none);
  destroy_source = λ e. (e, none);
  distill = λ lines e. (e, distilled (text "a" ∷ text "b" ∷ []) (text "pii" ∷ []));
  generate_journal = λ texts e. (e, some (text "j"));
  write_journal_file = λ prose e. (e, some (text "j.md"));
}

abbrev session_options : SessionOptions
session_options = record {
  door_id = text "web:a";
  epoch = 1;
  residency = text "door:web:a/epoch:1";
  session_public_key = zeros 32;
  witnesses_memories = true;
  crypto = sample_crypto;
  sign_with_soul_key = λ _. zeros 64;
  sign_with_session_key = λ _. zeros 64;
  decode_utf8 = λ bytes. bytes;
  address_blob = λ kind prose.
      some record { bytes = prose; cid = text "blob" ++ prose; hash = text "hash" ++ prose };
}

head_of-stored :
    (chain : List OspRecord) (head : HeadInfo)
    → head_of chain ≡ some head
    → In head.cid (cids session_options chain)
unfolding head_of
head_of-stored [] head h = absurd (cc h)
head_of-stored (r ∷ []) head h = inl (ap (λ o. cid_or (sample_crypto.compute_cid r) o) h)
  where
    cid_or : Text → Option HeadInfo → Text
    cid_or other none = other
    cid_or other (some head) = head.cid
head_of-stored (r ∷ q ∷ rest) head h = inr (head_of-stored (q ∷ rest) head h)

some_equal : {A : Type 0} (a b : A) → some a ≡ some b → a ≡ b
some_equal a b h = cc h

world-IsStore : IsStore world session_options
world-IsStore = record {
  head_stored =
      λ chain e head h. head_of-stored chain head (some_equal (head_of chain) (some head) h);
}

abbrev line : TranscriptLine
line = record { role = user; prose = text "hello"; author_id = none }

abbrev arrived : ℕ → Moment ℕ
arrived e = record {
  phase = live;
  ledger = none;
  live_transcript = some record { lines = line ∷ []; char_count = 5 };
  chain = sample_genesis ∷ sample_arrival ∷ [];
  blobs = [];
  asks = [];
  outside = e;
}

abbrev depart_options : DepartOptions
depart_options = record {
  passes_transcript = false;
  min_memory_lines = 1;
  to_door_id = some (text "web:b");
}

arrived-IsSound : (e : ℕ) → IsSound session_options (arrived e)
arrived-IsSound e = start-IsSound session_options (arrived e) refl refl

depart-DepartLeaves_example :
    DepartLeaves session_options
      (λ _. Unit)
      (depart world session_options depart_options (arrived 9))
depart-DepartLeaves_example =
    depart-DepartLeaves world session_options world-IsStore depart_options (arrived 9)
      (arrived-IsSound 9)

-- The record of a lands, and its append throws.
abbrev interrupted : Moment ℕ
interrupted = try_depart world session_options (departs depart_options) (arrived 1)

abbrev blob_a : AddressedBlob
blob_a = record { bytes = text "a"; cid = text "bloba"; hash = text "hasha" }

-- All goes well: a and the journal are witnessed, b is declined, one category is screened. After an
-- interrupted run, the retry asks the Door about the journal only, and appends what is left.
runs_test :
    ((depart world session_options depart_options (arrived 9)).1
      ≡ returned
          (record { witnessed = 1; declined = 1; screened = 1; journal_path = some (text "j.md") }))
    × ((depart world session_options depart_options (arrived 1)).1 ≡ threw call_failed)
    × (length interrupted.asks ≡ 1)
    × (length interrupted.chain ≡ 4)
    × ((depart world session_options depart_options interrupted).1
        ≡ returned (record {
          witnessed = 1;
          declined = 1;
          screened = 1;
          journal_path = some (text "j.md");
        }))
    × (length (depart world session_options depart_options interrupted).0.asks ≡ 3)
    × (length (depart world session_options depart_options interrupted).0.chain ≡ 8)
    × Held (entry_at (shard_slot (text "a")) (ledger_or_empty interrupted.ledger))
    × In blob_a (try_all world session_options (departs depart_options ∷ []) (arrived 9)).blobs
unfolding Depart.actual_head Depart.after_departure Depart.bare_ledger Depart.begin_depart
    Depart.declined_texts Depart.depart Depart.depart_and_travel Depart.depart_bare
    Depart.departure_entry Depart.departure_step Depart.destroy_live Depart.finish_depart
    Depart.head_or_required Depart.landed_departure Depart.last_record Depart.memories_unless
    Depart.open_ledger Depart.read_live Depart.read_passed Depart.refuse_bare Depart.result_of
    Depart.seal_travel Depart.start_ledger Depart.travel_entry Forming.after_distill
    Forming.ask_journal Forming.ask_shard Forming.distill_once Forming.distill_unless
    Forming.finish_journal Forming.form_journal Forming.form_memories Forming.journal_after
    Forming.journal_step Forming.journal_text_of Forming.judge_journal Forming.keep_distilled
    Forming.run_distill Forming.screen_step Forming.screened_entry Forming.seal_screened
    Forming.shard_step Forming.shard_verdict Forming.skip_distill Forming.witnessed_texts
    Forming.write_journal Seal.append_entry Seal.append_unless_head Seal.ask_door Seal.ask_witness
    Seal.attest_departure Seal.core_at Seal.fix_departure_at Seal.mark_appended Seal.memory_body_of
    Seal.put_addressed_blob Seal.put_blob_of Seal.require_head Seal.seal_at Seal.seal_departure
    Seal.seal_record Seal.seal_verdict Seal.signed_attest Seal.store_append Seal.unsigned_attest
    Seal.witness_category answer_to code_points_from decode_base64_url decode_public_key
    decode_signature destroy_transcript door_id_from_residency encode_base64_url encode_public_key
    encode_signature head_of insert_text issues parse_residency read_transcript safe_parse sorted
    try_all try_depart ◌>>=◌
runs_test = (refl, refl, refl, refl, refl, refl, refl, tt, inl refl)

interrupted-Held : Held (entry_at (shard_slot (text "a")) (ledger_or_empty interrupted.ledger))
interrupted-Held = let (_, _, _, _, _, _, _, held, _) = runs_test in held

blob_a_stored :
    In blob_a (try_all world session_options (departs depart_options ∷ []) (arrived 9)).blobs
blob_a_stored = let (_, _, _, _, _, _, _, _, stored) = runs_test in stored

abbrev travelled_on : OspRecord
travelled_on = record sample_arrival {
  body = attestation (travel (text "web:a") 5 none (text "t"));
}

interrupted-IsSound : IsSound session_options interrupted
interrupted-IsSound =
    (try_depart-Progress world session_options world-IsStore (departs depart_options) (arrived 1)
      (arrived-IsSound 1)).sound

try_all_asks_example :
    asks_at
      (shard_slot (text "a"))
      (try_all world session_options
        (departs depart_options ∷ departs_bare none ∷ [])
        interrupted).asks
    ≡ asks_at (shard_slot (text "a")) interrupted.asks
try_all_asks_example =
    try_all_asks world session_options world-IsStore
      (departs depart_options ∷ departs_bare none ∷ []) interrupted (shard_slot (text "a"))
      interrupted-IsSound interrupted-Held

try_all_blobs_example :
    Witnessed session_options
      (try_all world session_options (departs depart_options ∷ []) (arrived 9)).asks
      blob_a
try_all_blobs_example =
    try_all_blobs world session_options world-IsStore (departs depart_options ∷ []) (arrived 9)
      blob_a refl refl blob_a_stored

depart_bare-DepartLeaves_example :
    DepartLeaves session_options
      (λ departure. departure ≡ true)
      (depart_bare world session_options (some (text "web:b")) interrupted)
depart_bare-DepartLeaves_example =
    depart_bare-DepartLeaves world session_options world-IsStore (some (text "web:b")) interrupted
      interrupted-IsSound

new_epoch-greatest_example :
    5 < new_epoch (sample_genesis ∷ sample_arrival ∷ travelled_on ∷ []) (some 3)
new_epoch-greatest_example =
    (new_epoch-greatest (sample_genesis ∷ sample_arrival ∷ travelled_on ∷ []) (some 3)).0
      travelled_on (travel (text "web:a") 5 none (text "t")) 5 (inr (inr (inl refl))) refl refl
