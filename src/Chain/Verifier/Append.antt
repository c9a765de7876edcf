-- ===== src/Chain/Verifier/Append.antt =====
-- `SoulStore.append` evaluates its candidate against the verifier of the loaded chain before it
-- writes: the verdict is that of a later walk over the longer chain.
use npc_of_the_internet.Shared.{◌≡◌, refl, sym, ap, ap₂, ◌∙◌, ◌↔◌, Option, List, [], ◌∷◌, ◌++◌}
use npc_of_the_internet.Chain.Record.{Crypto}
use npc_of_the_internet.Chain.Schema.{Raw}
use npc_of_the_internet.Chain.Signed.{returned, DoorKeys}
use npc_of_the_internet.Chain.Presence.{ChainFailure}
use npc_of_the_internet.Chain.Checks.{HeadInfo, ChainVerifier, fresh}
use npc_of_the_internet.Chain.Verifier.{
  ChainStep, valid, result_of, evaluate, walk, verify_records_with_state, verify_records,
}
use npc_of_the_internet.Chain.Verifier.Steps.{returned-injective}
use npc_of_the_internet.Chain.Verifier.Valid.{
  walk_total, walk_step, walk-append, verdict, verify_records-result_of,
}

module _ (crypto : Crypto) (keys : Option DoorKeys) (raws : List Raw) (candidate : Raw)
    (v : ChainVerifier) (head : Option HeadInfo) (step : ChainStep) where
  with_state-result_of :
      (v' : ChainVerifier) (fs : List ChainFailure)
      → walk crypto keys fresh [] raws ≡ returned (v', fs)
      → verify_records_with_state crypto keys raws ≡ returned (result_of v' fs, v')
  unfolding verify_records_with_state
  with_state-result_of v' fs w = rw w

  pub with_state-walk :
      verify_records_with_state crypto keys raws ≡ returned (valid head, v)
      → walk crypto keys fresh [] raws ≡ returned (v, [])
  with_state-walk h =
      let (v', fs, w) = walk_total crypto keys fresh [] raws in
      let same = returned-injective (sym (with_state-result_of v' fs w) ∙ h) in
      let (clean, heads) = verdict crypto keys v' fs head (ap (λ x. x.0) same) in
      w ∙ ap₂ (λ s f. returned (s, f)) (ap (λ x. x.1) same) clean

  walk_longer :
      walk crypto keys fresh [] raws ≡ returned (v, [])
      → evaluate crypto keys v candidate ≡ returned step
      → walk crypto keys fresh [] (raws ++ candidate ∷ []) ≡ returned (step.commit v, step.failures)
  walk_longer w e =
      walk-append crypto keys fresh [] raws (candidate ∷ [])
      ∙ rw w (walk_step crypto keys v [] candidate [] step e ∙ unfold walk in refl)

  -- A candidate has no failure against the state of a verified chain exactly if the chain with the
  -- candidate at its end verifies.
  pub evaluate-verify_records :
      verify_records_with_state crypto keys raws ≡ returned (valid head, v)
      → evaluate crypto keys v candidate ≡ returned step
      → (step.failures ≡ []) ↔ (
          (longer : Option HeadInfo) × (verify_records crypto keys (raws ++ candidate ∷ [])
            ≡ returned (valid longer)))
  evaluate-verify_records h e = (to, from)
    where
      longer_result :
          verify_records crypto keys (raws ++ candidate ∷ [])
          ≡ returned (result_of (step.commit v) step.failures)
      longer_result =
          verify_records-result_of crypto keys (raws ++ candidate ∷ []) (step.commit v)
            step.failures (walk_longer (with_state-walk h) e)

      to :
          step.failures ≡ []
          → (longer : Option HeadInfo) × (verify_records crypto keys (raws ++ candidate ∷ [])
              ≡ returned (valid longer))
      to clean = (
        (step.commit v).last_head,
        longer_result
            ∙ ap (λ f. returned (result_of (step.commit v) f)) clean
            ∙ unfold result_of in refl,
      )

      from :
          ((longer : Option HeadInfo) × (verify_records crypto keys (raws ++ candidate ∷ [])
              ≡ returned (valid longer)))
          → step.failures ≡ []
      from (longer, k) =
          (verdict crypto keys (step.commit v) step.failures longer
            (returned-injective (sym longer_result ∙ k))).0
