-- ===== src/Chain/Verifier/Steps.antt =====
-- `evaluate` of verify-chain.ts after a valid prefix: no failures exactly for an extension.
use npc_of_the_internet.Shared.{
  ℕ, suc, ◌≡◌, refl, sym, ap, ◌∙◌, inl, inr, Option, none, some, List, [], ◌∷◌, ◌++◌, true, false,
  Text, length, ◌==◌, nat_eq, text_eq, arith, Option-cases, append-eq-nil,
}
use npc_of_the_internet.Base64Url.{Bytes}
use npc_of_the_internet.Chain.Record.{Body, genesis, OspRecord, Crypto}
use npc_of_the_internet.Chain.Schema.{Issue, issues, Raw, shaped, malformed, safe_parse}
use npc_of_the_internet.Chain.Schema.Cosigned.{genesis_decodes}
use npc_of_the_internet.Chain.Signed.{RecordError, returned, DoorKeys}
use npc_of_the_internet.Chain.Presence.{ChainFailure, evaluate_presence}
use npc_of_the_internet.Chain.Checks.{
  ChainVerifier, spec_failures, duplicate_failures, collect_genesis_failures, genesis_key, is_null,
  seq_failures, link_failures, drift_failures, tombstone_failures, chain_failures, next_soul_key,
}
use npc_of_the_internet.Chain.History.{soul_key, soul_key_of, Follows, Extends}
use npc_of_the_internet.Chain.Verifier.{
  ChainStep, check_signatures, evaluate, parsed_step, refuse, raw_seq,
}
use npc_of_the_internet.Chain.Verifier.Tracking.{History, Tracks}
use npc_of_the_internet.Chain.Verifier.Rules.{
  spec_sound, spec_complete, seq_sound, seq_complete, link_sound, link_complete, first_rules,
  genesis_sound, later_sound, later_complete, duplicate_complete, drift_sound, drift_complete,
  tombstone_sound, tombstone_complete,
}
use npc_of_the_internet.Chain.Verifier.Sessions.{presence_sound, presence_complete}
use npc_of_the_internet.Chain.Verifier.Admission.{next_soul_key-soul_key, admit-Tracks}
use npc_of_the_internet.Chain.Verifier.Signatures.{
  safe_parse-shaped, check_signatures_total, check_signatures_sound, check_signatures_complete,
}

pub safe_parse-some :
    (raw : Raw) (r : OspRecord) → safe_parse raw ≡ some r → (raw ≡ shaped r) × (issues r ≡ [])
unfolding safe_parse
safe_parse-some (malformed n) r h = absurd (ground arith)
safe_parse-some (shaped r') r h = empty (issues r') refl
  where
    empty : (is : List Issue) → issues r' ≡ is → (shaped r' ≡ shaped r) × (issues r ≡ [])
    empty [] e = ground arith
    empty (i ∷ is) e = absurd (ground arith)

pub returned-injective : {A : Type 0} {a b : A} → returned a ≡ returned b → a ≡ b
returned-injective h = cc

refused_fails : (v : ChainVerifier) (n : ℕ) → (refuse v n).failures ≡ [] → ⊥
unfolding refuse
refused_fails v n h = ground arith

-- The parts of an empty list of chain failures.
record NoFailures (v : ChainVerifier) (r : OspRecord) (cid : Text) : Type 0 where
  pub spec : spec_failures v r ≡ []
  pub duplicate : duplicate_failures v r cid ≡ []
  pub genesis : collect_genesis_failures r (v.index == 0) ≡ []
  pub seq : seq_failures v r cid ≡ []
  pub link : link_failures v r cid ≡ []
  pub drift : drift_failures v r cid r.body ≡ []
  pub tombstone : tombstone_failures v r cid r.body ≡ []
  pub presence : (evaluate_presence r cid v.presence_state).failures ≡ []

chain_failures-split :
    (v : ChainVerifier) (r : OspRecord) (cid : Text)
    → chain_failures v r cid ≡ []
    → NoFailures v r cid
unfolding chain_failures
chain_failures-split v r cid h =
    let (spec, h₁) = append-eq-nil _ _ h in
    let (duplicate, h₂) = append-eq-nil _ _ h₁ in
    let (origin, h₃) = append-eq-nil _ _ h₂ in
    let (seq, h₄) = append-eq-nil _ _ h₃ in
    let (link, h₅) = append-eq-nil _ _ h₄ in
    let (cited, h₆) = append-eq-nil _ _ h₅ in
    let (erasure, presence) = append-eq-nil _ _ h₆ in
    record {
      spec = spec;
      duplicate = duplicate;
      genesis = origin;
      seq = seq;
      link = link;
      drift = cited;
      tombstone = erasure;
      presence = presence;
    }

chain_failures-join :
    (v : ChainVerifier) (r : OspRecord) (cid : Text)
    → NoFailures v r cid
    → chain_failures v r cid ≡ []
unfolding chain_failures
chain_failures-join v r cid n =
    rw n.spec (
      rw n.duplicate (rw n.genesis (rw n.seq (rw n.link (rw n.drift (rw n.tombstone n.presence))))))

pub is_later : (v : ChainVerifier) (n : ℕ) → v.index ≡ suc n → (v.index == 0) ≡ false
is_later v n h = ground arith

module _ (crypto : Crypto) (keys : Option DoorKeys) where
  -- The key that a valid prefix and a record that follows it have.
  key_known :
      (p : List OspRecord) (r : OspRecord)
      → History crypto keys p
      → issues r ≡ []
      → Follows crypto p r
      → (key : Bytes) × (soul_key (r ∷ p) ≡ some key)
  key_known [] r valid h f = from r.body refl
    where
      from : (b : Body) → r.body ≡ b → (key : Bytes) × (soul_key_of r.body ≡ some key)
      from (genesis g) e =
          let (key, d) = genesis_decodes r g h e in (key, rw e (rw (d, soul_key_of)))
      from _ e = absurd (ground arith)
  key_known (q ∷ p) r (x, valid) h f = let (key, e, signed) = x.signed in (key, e)

  numbered :
      (p : List OspRecord) (v : ChainVerifier) (r : OspRecord)
      → History crypto keys p
      → Tracks crypto p v
      → NoFailures v r (crypto.compute_cid r)
      → (r.seq ≡ length p) × Follows crypto p r
  numbered [] v r valid t n =
      let (g, seq, prev, residency) = genesis_sound crypto v r (rw t.index at n.genesis) in
      (seq, (g, prev, residency))
  numbered (q ∷ p) v r (x, valid) t n = (
    omega (arith, x.numbered, seq_sound crypto q p v r t n.seq),
    (
      later_sound crypto v r (rw (is_later v (length p) t.index) at n.genesis),
      link_sound crypto q p v r t n.link,
      spec_sound crypto q p v r t n.spec,
    ),
  )

  module _ (p : List OspRecord) (v : ChainVerifier) (r : OspRecord) (valid : History crypto keys p)
      (t : Tracks crypto p v) where
    -- A record with no failure extends the chain.
    step_sound :
        (fs : List ChainFailure) (e : Option RecordError)
        → issues r ≡ []
        → check_signatures crypto keys r (crypto.compute_cid r) (next_soul_key v r)
          ≡ returned (fs, e)
        → chain_failures v r (crypto.compute_cid r) ++ fs ≡ []
        → Extends crypto keys p r
    step_sound fs e h c none_found =
        let (rules, fs-nil) = append-eq-nil _ _ none_found in
        let n = chain_failures-split v r (crypto.compute_cid r) rules in
        let (numbered_r, follows) = numbered p v r valid t n in
        let (key, known) = key_known p r valid h follows in
        let same = next_soul_key-soul_key crypto keys v r p t numbered_r follows in
        record {
          schema = h;
          numbered = numbered_r;
          follows = follows;
          evidence = drift_sound crypto p v r t r.body n.drift;
          erasure = tombstone_sound crypto p v r t r.body n.tombstone;
          presence =
              presence_sound crypto keys p v.presence_state valid t.presence r
                (crypto.compute_cid r) n.presence;
          signed = (
            key,
            known,
            check_signatures_sound crypto keys r h key e
                (rw fs-nil at (rw known at (rw same at c))),
          );
        }

    genesis_key-nil : (b : Body) → r.body ≡ b → issues r ≡ [] → genesis_key r b ≡ []
    unfolding genesis_key
    genesis_key-nil (genesis g) e h = let (key, d) = genesis_decodes r g h e in rw (d, genesis_key)
    genesis_key-nil _ e h = refl

    genesis_complete :
        issues r ≡ [] → r.seq ≡ 0 → Follows crypto [] r → collect_genesis_failures r true ≡ []
    unfolding collect_genesis_failures is_null
    genesis_complete h seq (g, prev, residency) = ground (arith, genesis_key-nil r.body refl h)

  no_failures :
      (p : List OspRecord) (v : ChainVerifier) (r : OspRecord)
      → History crypto keys p
      → Tracks crypto p v
      → Extends crypto keys p r
      → NoFailures v r (crypto.compute_cid r)
  no_failures [] v r valid t x =
      let (no_spec, no_seq, no_link) = first_rules crypto v r t in
      record {
        spec = no_spec;
        duplicate = duplicate_complete crypto v r [] t x.numbered;
        genesis = rw t.index (genesis_complete [] v r valid t x.schema x.numbered x.follows);
        seq = no_seq;
        link = no_link;
        drift = drift_complete crypto [] v r t r.body x.evidence;
        tombstone = tombstone_complete crypto [] v r t r.body x.erasure;
        presence =
            presence_complete crypto keys [] v.presence_state valid t.presence r
              (crypto.compute_cid r) x.presence;
      }
  no_failures (q ∷ p) v r valid t x =
      let (later, linked, same_spec) = x.follows in
      record {
        spec = spec_complete crypto q p v r t same_spec;
        duplicate = duplicate_complete crypto v r (q ∷ p) t x.numbered;
        genesis = rw (is_later v (length p) t.index) (later_complete crypto v r later);
        seq = seq_complete crypto q p v r t (omega (arith, x.numbered, valid.0.numbered));
        link = link_complete crypto q p v r t linked;
        drift = drift_complete crypto (q ∷ p) v r t r.body x.evidence;
        tombstone = tombstone_complete crypto (q ∷ p) v r t r.body x.erasure;
        presence =
            presence_complete crypto keys (q ∷ p) v.presence_state valid t.presence r
              (crypto.compute_cid r) x.presence;
      }

  pub evaluate-refuse :
      (v : ChainVerifier) (raw : Raw)
      → safe_parse raw ≡ none
      → evaluate crypto keys v raw ≡ returned (refuse v (raw_seq raw v.index))
  unfolding evaluate
  evaluate-refuse v raw h = rw (h, evaluate)

  pub evaluate-parsed_step :
      (v : ChainVerifier) (raw : Raw) (r : OspRecord) (fs : List ChainFailure)
      (e : Option RecordError)
      → safe_parse raw ≡ some r
      → check_signatures crypto keys r (crypto.compute_cid r) (next_soul_key v r) ≡ returned (fs, e)
      → evaluate crypto keys v raw ≡ returned (parsed_step v r (crypto.compute_cid r) fs e)
  unfolding evaluate
  evaluate-parsed_step v raw r fs e h c = rw (h, evaluate) (rw c refl)

  -- `evaluate` returns on every input, in every state.
  pub evaluate_total :
      (v : ChainVerifier) (raw : Raw)
      → (step : ChainStep) × (evaluate crypto keys v raw ≡ returned step)
  evaluate_total v raw = elim (Option-cases (safe_parse raw)) [
    | inl refused ↦ (_, evaluate-refuse v raw refused)
    | inr (r, parsed) ↦
        (let (same, h) = safe_parse-some raw r parsed in
          let (sig, c) = check_signatures_total crypto keys r h (next_soul_key v r) in
          (_, evaluate-parsed_step v raw r sig.0 sig.1 parsed c))
  ]

  pub evaluate_sound :
      (p : List OspRecord) (v : ChainVerifier) (raw : Raw) (step : ChainStep)
      → History crypto keys p
      → Tracks crypto p v
      → evaluate crypto keys v raw ≡ returned step
      → step.failures ≡ []
      → (r : OspRecord) × (raw ≡ shaped r)
        × Extends crypto keys p r
        × Tracks crypto (r ∷ p) (step.commit v)
  unfolding parsed_step
  evaluate_sound p v raw step valid t e none_found = elim (Option-cases (safe_parse raw)) [
    | inl refused ↦ absurd (
        refused_fails v (raw_seq raw v.index) (
          ap (λ s. s.failures) (returned-injective (sym (evaluate-refuse v raw refused) ∙ e))
          ∙ none_found))
    | inr (r, parsed) ↦
        (let (same, h) = safe_parse-some raw r parsed in
          let (sig, c) = check_signatures_total crypto keys r h (next_soul_key v r) in
          let is = returned-injective (sym e ∙ evaluate-parsed_step v raw r sig.0 sig.1 parsed c) in
          let x =
            step_sound p v r valid t sig.0 sig.1 h c (ap (λ s. s.failures) (sym is) ∙ none_found) in
          (r, same, x, rw is (admit-Tracks crypto keys v r p valid t x)))
  ]

  pub evaluate_complete :
      (p : List OspRecord) (v : ChainVerifier) (r : OspRecord)
      → History crypto keys p
      → Tracks crypto p v
      → Extends crypto keys p r
      → (step : ChainStep) × (evaluate crypto keys v (shaped r) ≡ returned step)
        × (step.failures ≡ [])
        × Tracks crypto (r ∷ p) (step.commit v)
  unfolding parsed_step
  evaluate_complete p v r valid t x =
      let (key, known, signed) = x.signed in
      let same = next_soul_key-soul_key crypto keys v r p t x.numbered x.follows in
      let c = check_signatures_complete crypto keys r x.schema key signed in
      (
        parsed_step v r (crypto.compute_cid r) [] none,
        evaluate-parsed_step v (shaped r) r [] none (safe_parse-shaped r x.schema)
            (rw (same ∙ known) c),
        rw (chain_failures-join v r (crypto.compute_cid r) (no_failures p v r valid t x)) refl,
        admit-Tracks crypto keys v r p valid t x,
      )
