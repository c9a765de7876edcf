-- ===== src/Lib.antt =====
-- Verification of the soul runtime's core: the soulchain of `packages/osp-core` and parts of the
-- runtime and the Doors around it that keep state.
--
-- The program is a set of packages. `osp-core` keeps a soul's life as an append-only chain of
-- signed records, `runtime` lives it (distillation, memory, residency, replication), Doors
-- (`door-sdk`, `door-discord`, `door-web`) host it, `immune` guards what it remembers, and
-- `atlas`, `atlas-site` and `osp-cli` read the chain.
--
-- Files:
--   Shared        numbers, lists, texts (UTF-16 code units), `Map` and `Set` as lists
--   Base64Url     packages/osp-core/src/encoding/base64url.ts: `encodeBase64Url` is
--                 `encode_base64_url`, and so on for every function
--   Chain         packages/osp-core/src/schemas/body.ts and schemas/envelope.ts (Chain/Record,
--                 Chain/Residency, Chain/Schema), record.ts (Chain/Signed, Chain/Creation),
--                 verify-chain.ts (Chain/Presence, Chain/Checks, Chain/Verifier)
--   Replication   packages/osp-core/src/replication/queue.ts and
--                 packages/runtime/src/replication/drain.ts
--   RoomLog       packages/runtime/src/attention/room-log.ts
--   DiscordChunk  packages/door-discord/src/discord/chunk.ts
--   Controller    packages/runtime/src/residency/controller.ts
--   Canonical     packages/osp-core/src/canonical.ts (`canonicalize`), with JavaScript's
--                 `JSON.stringify` and `TextEncoder` written out (Canonical/Strings)
--   Door          packages/door-sdk/src: residency-record.ts (Door/Transcript), door.ts with the
--                 payloads of signing.ts (Door/Core, Door/Session, Door/Attest, Door/Witness);
--                 Door/World is the Door among its requests
--   Atlas         packages/atlas/src/derive.ts: presence (Atlas), pages (Atlas/Pages), journals and
--                 residencies (Atlas/Residencies)
--   Distillation  packages/runtime/src/distill/residency-transcript.ts
--   RateLimit     packages/door-web/src/rate-limit.ts; the reading of the clock is an argument
--   Session       packages/runtime/src/session/session.ts: `depart` and `departBare` with the
--                 ledger that their retries read (Session/Depart), `formMemories` (Session/Forming),
--                 the seals and the calls to the Door (Session/Seal), and the epoch that `start`
--                 gives a new session (Session)
--
-- State is passed explicitly. `ChainVerifier` is a record of the class's private fields, `evaluate`
-- is `evaluate`, and the `commit` closure of a `ChainStep` is a function on that record; so is the
-- `apply` closure of a `PresenceEvaluation`. A thrown error is the `threw` of `Thrown`.
-- Chain/History is a second, independent description of what a chain is, over the plain list of
-- records; Chain/Verifier relates the code to it, and Chain/Guarantees draws consequences for every
-- verified chain. `SoulStore.append` calls `evaluate` against the verifier of the chain it loaded
-- (Chain/Verifier/Append).
--
-- The replication journal is the list of its parsed lines. A tick of the drain is a function of the
-- journal and of what the tick meets: the head, the manifest, the outcome of every upload and the
-- lines that concurrent appends add before and during each upload. Writes of the journal are taken
-- to succeed, and the bytes of its file are not modelled.
--
-- A residency cycle is a function of a script of answers (Doors online, attempts to depart and to
-- arrive) and of the moment at which a shutdown lands, if it does. Moments are counted by awaits. A
-- script that runs out leaves the cycle in flight.
--
-- A Door's operation gives the new Door and what it returns or throws. JavaScript runs a stretch
-- between two awaits on its own, so `attest` of a memory is four steps (`start_memory`,
-- `ask_memory`, `settle_memory`, `confirm_memory`) with any other requests between them, and an
-- arrival is checked (`check_arrival`) before the policy's answer and committed after it
-- (`finish_arrival`). The memories of all epochs lie in a list, and a call under way holds the place
-- of the one that it captured, as it holds a reference in the code. What the Door signs and verifies
-- is the canonical JSON of its fields; Ed25519, SHA-256, `JSON.parse`, `Date.parse` and the parsing
-- of CIDs are the fields of `Host`, about which nothing is assumed. Times are milliseconds since the
-- earliest date of JavaScript, so they are natural numbers. A frame and a request have the shape
-- that the schema library lets through.
--
-- A session is what its departure reads and writes: the chain of its store, the blobs, the clock, the
-- moment and the ledger. What it does is a state with an exception whose writes stay, as the fields
-- of a class do after a throw. Every call outside (a Door's attest, an append, a read of the head,
-- the model's distillation and journal) may answer anything, an append may fail after it has
-- landed, and the one law assumed of a store is that its head is a record of its chain (`IsStore`).
-- The listeners on a departure are left out.
--
-- The eviction loop of the residency record runs on fuel, the number of its entries: each turn
-- removes one. The digits of a number are printed on fuel, the number and one more.
--
-- The loop of the Discord chunker runs on fuel, the length of the text: each round removes a unit if
-- the limit is at least 2. All other loops are recursion on a list or a text.
--
-- The soulchain's payloads, content identifiers and Ed25519 are the fields of `Crypto`, an argument of
-- whatever uses them. Nothing is assumed about them but where records are created: there a private
-- and a public key belong together if signatures of the one verify under the other (`IsKeyPair`).
-- They are total: `canonicalize`, and so `computeCid`, throw an `EncodingError` on an own `__proto__`
-- key or an unsupported value in the inputs of a decision, and `evaluate` passes that error on; such
-- records are outside the model of the chain (Canonical models the refusal itself).
-- `sanitizeDisplay` of the room log rests on the platform's Unicode tables and is an argument too.
-- JSON that has not the shape of a record is the constructor `malformed`: the shape checks of the
-- schema library (keys, patterns of timestamps and CIDs, digests of side blobs) are not modelled.
-- Numbers are exact: JavaScript's are so below 2 ^ 53, and `parseResidency` answers null on an
-- epoch so long that it reads as infinite, which the model does not. Messages of errors are left
-- out, and a timestamp is a text. Boot and the timer of the residency controller, the rest of sessions
-- (arrival, heartbeats, inbound frames, attention), stores on disk, the Door's transports and the
-- language model's part are not modelled.
pub mod Shared
pub mod Base64Url
pub mod Chain
pub mod Replication
pub mod RoomLog
pub mod DiscordChunk
pub mod Controller
pub mod Canonical
pub mod Door
pub mod Atlas
pub mod Distillation
pub mod RateLimit
pub mod Session
