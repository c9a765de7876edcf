-- ===== src/Chain/Verifier/Valid.antt =====
-- `verifyRecords` accepts exactly the chains, and appending to a verified chain agrees with it.
use npc_of_the_internet.Shared.{
  ◌≡◌, refl, sym, ap, subst, ◌∙◌, ◌↔◌, Option, List, [], ◌∷◌, ◌++◌, map, arith, append-eq-nil,
}
use mathlib.Core.List.{append_assoc, append-nil}
use npc_of_the_internet.Chain.Record.{OspRecord, Crypto}
use npc_of_the_internet.Chain.Schema.{Raw, shaped}
use npc_of_the_internet.Chain.Signed.{returned, DoorKeys, ◌>>=◌}
use npc_of_the_internet.Chain.Presence.{ChainFailure}
use npc_of_the_internet.Chain.Checks.{HeadInfo, ChainVerifier, fresh}
use npc_of_the_internet.Chain.History.{IsChainFrom, IsChain}
use npc_of_the_internet.Chain.Verifier.{
  ChainStep, VerifyChainResult, valid, result_of, evaluate, walk, verify_records,
}
use npc_of_the_internet.Chain.Verifier.Tracking.{last_head, History, Tracks, Tracks-fresh}
use npc_of_the_internet.Chain.Verifier.Steps.{
  returned-injective, evaluate_total, evaluate_sound, evaluate_complete,
}

-- The records before the next one, the latest first.
abbrev pub after : List OspRecord → List OspRecord → List OspRecord
after p [] = p
after p (r ∷ rs) = after (r ∷ p) rs

module _ (crypto : Crypto) (keys : Option DoorKeys) where
  pub walk_step :
      (v : ChainVerifier) (fs : List ChainFailure) (raw : Raw) (rest : List Raw) (step : ChainStep)
      → evaluate crypto keys v raw ≡ returned step
      → walk crypto keys v fs (raw ∷ rest)
        ≡ walk crypto keys (step.commit v) (fs ++ step.failures) rest
  unfolding walk
  walk_step v fs raw rest step e = rw e

  pub walk_total :
      (v : ChainVerifier) (fs : List ChainFailure) (raws : List Raw)
      → (v' : ChainVerifier) × (gs : List ChainFailure) × (walk crypto keys v fs raws
          ≡ returned (v', fs ++ gs))
  walk_total v fs [] = (v, [], unfold walk in rw append-nil)
  walk_total v fs (raw ∷ rest) =
      let (step, e) = evaluate_total crypto keys v raw in
      let (v', gs, w) = walk_total (step.commit v) (fs ++ step.failures) rest in
      (
        v',
        step.failures ++ gs,
        walk_step v fs raw rest step e
            ∙ w
            ∙ ap (λ f. returned (v', f)) (append_assoc fs step.failures gs),
      )

  -- No failures at the end, none at the start.
  pub walk_clean :
      (v : ChainVerifier) (fs : List ChainFailure) (raws : List Raw) (v' : ChainVerifier)
      → walk crypto keys v fs raws ≡ returned (v', [])
      → fs ≡ []
  walk_clean v fs raws v' w =
      let (v'', gs, w') = walk_total v fs raws in
      (append-eq-nil fs gs (ap (λ x. x.1) (returned-injective (sym w' ∙ w)))).0

  pub walk-append :
      (v : ChainVerifier) (fs : List ChainFailure) (xs ys : List Raw)
      → walk crypto keys v fs (xs ++ ys)
        ≡ (walk crypto keys v fs xs >>= λ s. walk crypto keys s.0 s.1 ys)
  unfolding walk
  walk-append v fs [] ys = refl
  walk-append v fs (raw ∷ xs) ys =
      let (step, e) = evaluate_total crypto keys v raw in
      rw e (walk-append (step.commit v) (fs ++ step.failures) xs ys)

  pub walk_sound :
      (p : List OspRecord) (v : ChainVerifier) (raws : List Raw) (v' : ChainVerifier)
      → History crypto keys p
      → Tracks crypto p v
      → walk crypto keys v [] raws ≡ returned (v', [])
      → (rs : List OspRecord) × (raws ≡ map shaped rs)
        × IsChainFrom crypto keys p rs
        × History crypto keys (after p rs)
        × Tracks crypto (after p rs) v'
  unfolding walk
  walk_sound p v [] v' h t w = ([], refl, tt, h, subst (Tracks crypto p) (cc) t)
  walk_sound p v (raw ∷ rest) v' h t w =
      let (step, e) = evaluate_total crypto keys v raw in
      let w₁ = sym (walk_step v [] raw rest step e) ∙ w in
      let clean = walk_clean (step.commit v) step.failures rest v' w₁ in
      let (r, same, x, t') = evaluate_sound crypto keys p v raw step h t e clean in
      let (rs, all, c, h', t'') =
        walk_sound (r ∷ p) (step.commit v) rest v' (x, h) t'
          (ap (λ f. walk crypto keys (step.commit v) f rest) (sym clean) ∙ w₁) in
      (r ∷ rs, cc (same, all), (x, c), h', t'')

  walk_complete :
      (p : List OspRecord) (v : ChainVerifier) (rs : List OspRecord)
      → History crypto keys p
      → Tracks crypto p v
      → IsChainFrom crypto keys p rs
      → (v' : ChainVerifier) × (walk crypto keys v [] (map shaped rs) ≡ returned (v', []))
        × Tracks crypto (after p rs) v'
  walk_complete p v [] h t c = (v, unfold walk in refl, t)
  walk_complete p v (r ∷ rs) h t (x, c) =
      let (step, e, empty, t') = evaluate_complete crypto keys p v r h t x in
      let (v', w, t'') = walk_complete (r ∷ p) (step.commit v) rs (x, h) t' c in
      (v', walk_step v [] (shaped r) (map shaped rs) step e ∙ rw empty w, t'')

  -- The verdict on a walk that starts afresh.
  pub verify_records-result_of :
      (raws : List Raw) (v : ChainVerifier) (fs : List ChainFailure)
      → walk crypto keys fresh [] raws ≡ returned (v, fs)
      → verify_records crypto keys raws ≡ returned (result_of v fs)
  unfolding verify_records
  verify_records-result_of raws v fs w = rw w

  -- Every error of `verifyRecord` that can occur has a chain rule, so the walk does not throw.
  pub verify_records_total :
      (raws : List Raw)
      → (result : VerifyChainResult) × (verify_records crypto keys raws ≡ returned result)
  verify_records_total raws =
      let (v, fs, w) = walk_total fresh [] raws in
      (result_of v fs, verify_records-result_of raws v fs w)

  pub verdict :
      (v : ChainVerifier) (fs : List ChainFailure) (head : Option HeadInfo)
      → result_of v fs ≡ valid head
      → (fs ≡ []) × (v.last_head ≡ head)
  unfolding result_of
  verdict v [] head h = (refl, cc)
  verdict v (f ∷ fs) head h = absurd (ground arith)

  -- `verifyRecords` answers `valid` with a head for a list of lines exactly if all lines are records
  -- that form a chain and the head is that of its last record.
  pub verify_records_iff :
      (raws : List Raw) (head : Option HeadInfo)
      → (verify_records crypto keys raws ≡ returned (valid head)) ↔ (
          (rs : List OspRecord) × (raws ≡ map shaped rs)
          × IsChain crypto keys rs
          × (head ≡ last_head crypto (after [] rs)))
  verify_records_iff raws head = (to, from)
    where
      to :
          verify_records crypto keys raws ≡ returned (valid head)
          → (rs : List OspRecord) × (raws ≡ map shaped rs)
            × IsChain crypto keys rs
            × (head ≡ last_head crypto (after [] rs))
      to h =
          let (v, fs, w) = walk_total fresh [] raws in
          let (clean, heads) =
            verdict v fs head
              (returned-injective (sym (verify_records-result_of raws v fs w) ∙ h)) in
          let (rs, all, c, hist, t) =
            walk_sound [] fresh raws v tt (Tracks-fresh crypto)
              (w ∙ ap (λ f. returned (v, f)) clean) in
          (rs, all, c, sym heads ∙ t.head)

      from :
          ((rs : List OspRecord) × (raws ≡ map shaped rs)
            × IsChain crypto keys rs
            × (head ≡ last_head crypto (after [] rs)))
          → verify_records crypto keys raws ≡ returned (valid head)
      from (rs, all, c, heads) =
          let (v, w, t) = walk_complete [] fresh rs tt (Tracks-fresh crypto) c in
          ap (verify_records crypto keys) all
          ∙ verify_records-result_of (map shaped rs) v [] w
          ∙ unfold result_of in ap (λ h. returned (valid h)) (t.head ∙ sym heads)
