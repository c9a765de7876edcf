-- ===== src/Chain/Verifier/Rejection/Mismatch.antt =====
-- verify-chain.ts: which refused appends are chain mismatches.
use npc_of_the_internet.Shared.{◌+◌, ◌≡◌, Option, some, List, ◌∷◌, ◌++◌, false, Text, nat_eq}
use npc_of_the_internet.Chain.Record.{OspRecord, Crypto}
use npc_of_the_internet.Chain.Schema.{is_genesis}
use npc_of_the_internet.Chain.Signed.{DoorKeys}
use npc_of_the_internet.Chain.Presence.{ChainFailure, evaluate_presence}
use npc_of_the_internet.Chain.Checks.{
  ChainVerifier, duplicate_failures, collect_genesis_failures, seq_failures, link_failures,
  drift_failures, tombstone_failures,
}
use npc_of_the_internet.Chain.Verifier.Tracking.{History, Tracks}

-- The record stands right after `q`: it is no genesis, its seq is the next, and it links to `q`.
pub record IsNext (crypto : Crypto) (q r : OspRecord) : Type 0 where
  pub later : is_genesis r.body ≡ false
  pub next_seq : r.seq ≡ q.seq + 1
  pub linked : r.prev ≡ some (crypto.compute_cid q)

module _ (crypto : Crypto) (keys : Option DoorKeys) (q : OspRecord) (p : List OspRecord)
    (v : ChainVerifier) (r : OspRecord) (hist : History crypto keys (q ∷ p))
    (t : Tracks crypto (q ∷ p) v) where
  abbrev cid : Text
  cid = crypto.compute_cid r

  -- The checks of the place in the chain, and those after them.
  abbrev placing : List ChainFailure
  placing =
      duplicate_failures v r cid
      ++ (collect_genesis_failures r false ++ (seq_failures v r cid ++ link_failures v r cid))

  abbrev others : List ChainFailure → List ChainFailure
  others fs =
      (drift_failures v r cid r.body
        ++ (tombstone_failures v r cid r.body
            ++ (evaluate_presence r cid v.presence_state).failures))
      ++ fs
