-- ===== src/TradeGate/Engine/Decision.antt =====
-- When the engine passes, waits or refuses, and that its evaluations keep the contract of the record.
use a_stock_lens.Base.{
  ◌≡◌, ◌↔◌, refl, sym, ap, subst, ◌∙◌, ◌⊎◌, inl, inr, Bool, true, false, not, ◌&&◌, some, List, [],
  ◌∷◌, ◌++◌, String, map, any, contains, Memᴰ, arith, any_of_mem, any-append, ||-true, Bool-cases,
  mem-append_left, mem-keep_of, not-mem-nil, text_leb,
}
use a_stock_lens.Base.Sorting.{mem-sort_of}
use a_stock_lens.Base.Dict.{keys}
use a_stock_lens.Base.Int.{ℤ}
use a_stock_lens.Number.{Double, Float, ◌≺◌, ◌≼◌}
use a_stock_lens.Domain.{
  TradeProfile, event, swing, position, TradeDecision, pass, wait, no_trade, hard, Moment,
  MarketValidation, Signal,
}
use a_stock_lens.TradeGate.Errors.{Result, ok, >>=-eq-ok}
use a_stock_lens.TradeGate.Intent.{TradeIntent, TradeContext}
use a_stock_lens.TradeGate.Records.{
  VetoResult, ThesisAuditResult, IndependentAssessment, StrategyProfileConfig, TradeGateEvaluation,
  validate_evaluation, waits_for_nothing,
}
use a_stock_lens.TradeGate.Veto.{evaluate_vetoes, upstream_vetoes, sentiment_vetoes}
use a_stock_lens.TradeGate.Engine.{
  is_hard, decide, evaluate, draft_evaluation, triggers_for, scores_for, missing_for,
  absent_dimensions, add_if, or_default, conditions,
}

module _ ⦃d : Double⦄ where
  -- What holds of a decision that the engine may take.
  decide-pass :
      (profile : StrategyProfileConfig) (vetoes : List VetoResult) (missing : List String)
      (total : Float)
      → (decide profile vetoes missing total ≡ pass) ↔ (
          (vetoes ≡ [])
          × (missing ≡ [])
          × ((profile.wait_threshold ≼ total) ≡ true)
          × ((total ≺ profile.pass_threshold) ≡ false))
  unfolding decide
  decide-pass profile vetoes missing total = (λ h. ground arith, λ h. ground arith)

  decide_hard :
      (profile : StrategyProfileConfig) (vetoes : List VetoResult) (missing : List String)
      (total : Float)
      → any (λ v. is_hard v.severity) vetoes ≡ true
      → decide profile vetoes missing total ≡ no_trade
  unfolding decide
  decide_hard profile vetoes missing total h = rw h

  waits_for_triggers :
      (decision : TradeDecision) (missing : List String) (vetoes : List VetoResult)
      → waits_for_nothing decision (triggers_for decision missing vetoes) ≡ false
  unfolding triggers_for
  waits_for_triggers wait missing vetoes = go (conditions missing vetoes)
    where
      go : (c : List String) → waits_for_nothing wait (or_default c) ≡ false
      go [] = refl
      go (t ∷ ts) = refl
  waits_for_triggers pass missing vetoes = refl
  waits_for_triggers no_trade missing vetoes = refl

  validate_evaluation-eq-ok :
      (e : TradeGateEvaluation) {e' : TradeGateEvaluation} → validate_evaluation e ≡ ok e' → e ≡ e'
  unfolding validate_evaluation
  validate_evaluation-eq-ok e h = ground arith

  add_if-mem :
      {name : String} (unknown : Bool) (added : String) (missing : List String)
      → Memᴰ name missing
      → Memᴰ name (add_if unknown added missing)
  unfolding add_if
  add_if-mem unknown added missing m = elim (Bool-cases (unknown && not (contains missing added))) [
    | inl grows ↦ rw grows (mem-append_left missing _ m)
    | inr same ↦ rw same m
  ]

  missing_for-mem :
      (profile : TradeProfile) (intent : TradeIntent) (context : TradeContext) (name : String)
      (missing : List String)
      → Memᴰ name missing
      → Memᴰ name (missing_for profile intent context missing)
  unfolding missing_for
  missing_for-mem event intent context name missing m =
      add_if-mem _ _ _ (add_if-mem _ _ _ (add_if-mem _ _ _ (add_if-mem _ _ missing m)))
  missing_for-mem swing intent context name missing m = add_if-mem _ _ missing m
  missing_for-mem position intent context name missing m = m

  -- One call of the engine.
  module _ (profiles : TradeProfile → StrategyProfileConfig) (intent : TradeIntent)
      (context : TradeContext) (independent : IndependentAssessment) (audit : ThesisAuditResult)
      (fomo_score : ℤ) (id : String) (now : Moment) where
    abbrev run : Result TradeGateEvaluation
    run = evaluate profiles intent context independent audit fomo_score id now

    pub evaluate-eq-ok :
        (e : TradeGateEvaluation)
        → run ≡ ok e
        → (vetoes : List VetoResult) × (evaluate_vetoes intent context
              (profiles intent.profile)
              audit
              fomo_score
            ≡ ok vetoes)
          × (draft_evaluation
                (profiles intent.profile)
                intent
                context
                independent
                audit
                vetoes
                id
                now
              ≡ e)
    unfolding evaluate
    evaluate-eq-ok e h =
        let (vetoes, found, rest) =
          >>=-eq-ok (evaluate_vetoes intent context (profiles intent.profile) audit fomo_score) _
            h in
        (vetoes, found, validate_evaluation-eq-ok _ rest)

    evaluate_vetoes-eq-ok :
        (profile : StrategyProfileConfig) {vetoes : List VetoResult}
        → evaluate_vetoes intent context profile audit fomo_score ≡ ok vetoes
        → upstream_vetoes intent context profile ++ sentiment_vetoes intent profile audit fomo_score
          ≡ vetoes
    unfolding evaluate_vetoes
    evaluate_vetoes-eq-ok profile h = ground arith

    upstream_vetoes_hard :
        (profile : StrategyProfileConfig) (others : List VetoResult)
        → ((context.market_validation ≡ some MarketValidation.contradicted)
            × (contains profile.enabled_vetoes "UPSTREAM_MARKET_CONTRADICTED" ≡ true))
          ⊎ ((context.signal ≡ some Signal.breakdown)
              × (contains profile.enabled_vetoes "UPSTREAM_BREAKDOWN" ≡ true))
        → any (λ v. is_hard v.severity) (upstream_vetoes intent context profile ++ others) ≡ true
    unfolding upstream_vetoes
    upstream_vetoes_hard profile others (inl (c, enabled)) = simp (any-append, c, enabled, ||-true)
    upstream_vetoes_hard profile others (inr (c, enabled)) = simp (any-append, c, enabled, ||-true)

    -- The engine passes a trade exactly when no veto was raised, nothing is missing, and the
    -- weighted score is at the waiting threshold and not below the passing one.
    pub evaluate-pass_iff :
        (e : TradeGateEvaluation)
        → run ≡ ok e
        → (e.decision ≡ pass) ↔ (
            (e.vetoes ≡ [])
            × (e.missing_data ≡ [])
            × (((profiles intent.profile).wait_threshold ≼ e.weighted_score) ≡ true)
            × ((e.weighted_score ≺ (profiles intent.profile).pass_threshold) ≡ false))
    unfolding draft_evaluation
    evaluate-pass_iff e h =
        let (vetoes, found, made) = evaluate-eq-ok e h in
        subst
          (λ x. (x.decision ≡ pass) ↔ (
            (x.vetoes ≡ [])
            × (x.missing_data ≡ [])
            × (((profiles intent.profile).wait_threshold ≼ x.weighted_score) ≡ true)
            × ((x.weighted_score ≺ (profiles intent.profile).pass_threshold) ≡ false)))
          made (decide-pass (profiles intent.profile) vetoes _ _)

    -- A hard veto decides: whatever the score and whatever is missing, the decision is NO_TRADE.
    pub evaluate_hard :
        (e : TradeGateEvaluation) (v : VetoResult)
        → run ≡ ok e
        → Memᴰ v e.vetoes
        → v.severity ≡ hard
        → e.decision ≡ no_trade
    unfolding draft_evaluation
    evaluate_hard e v h m s =
        let (vetoes, found, made) = evaluate-eq-ok e h in
        ap (λ x. x.decision) (sym made)
        ∙ decide_hard (profiles intent.profile) vetoes _ _ (
            any_of_mem (λ v. is_hard v.severity) vetoes (subst (λ x. Memᴰ v x.vetoes) (sym made) m)
              (rw s))

    -- The upstream verdicts are not overridden: if the market validation contradicts, or the signal
    -- is a breakdown, and the profile enables the veto for it, no evaluation passes or waits.
    pub evaluate_upstream :
        (e : TradeGateEvaluation)
        → run ≡ ok e
        → ((context.market_validation ≡ some MarketValidation.contradicted)
            × (contains (profiles intent.profile).enabled_vetoes "UPSTREAM_MARKET_CONTRADICTED"
                ≡ true))
          ⊎ ((context.signal ≡ some Signal.breakdown)
              × (contains (profiles intent.profile).enabled_vetoes "UPSTREAM_BREAKDOWN" ≡ true))
        → e.decision ≡ no_trade
    unfolding draft_evaluation
    evaluate_upstream e h cause =
        let (vetoes, found, made) = evaluate-eq-ok e h in
        ap (λ x. x.decision) (sym made)
        ∙ decide_hard (profiles intent.profile) vetoes _ _ (
            rw (← evaluate_vetoes-eq-ok (profiles intent.profile) found) (
              upstream_vetoes_hard (profiles intent.profile)
                (sentiment_vetoes intent (profiles intent.profile) audit fomo_score) cause))

    -- What the engine builds never waits for nothing: with the decision WAIT come triggers, so that
    -- check of the record cannot fail.
    pub draft_evaluation-triggers :
        (profile : StrategyProfileConfig) (vetoes : List VetoResult)
        → let e = draft_evaluation profile intent context independent audit vetoes id now in
          waits_for_nothing e.decision e.reentry_triggers ≡ false
    unfolding draft_evaluation
    draft_evaluation-triggers profile vetoes =
        waits_for_triggers (decide profile vetoes _ _) _ vetoes

    -- A pass is fully scored: every dimension that the profile weighs has a score.
    pub evaluate-pass_scored :
        (e : TradeGateEvaluation) (name : String)
        → run ≡ ok e
        → e.decision ≡ pass
        → Memᴰ name (keys (profiles intent.profile).weights)
        → contains (map (λ s. s.dimension) e.dimension_scores) name ≡ true
    unfolding draft_evaluation
    evaluate-pass_scored e name h passed m =
        let (vetoes, found, made) = evaluate-eq-ok e h in
        let profile = profiles intent.profile in
        let scores = scores_for intent.profile intent context audit independent profile in
        let none_missing : missing_for intent.profile intent context
              (absent_dimensions profile.weights scores)
            ≡ [] =
          ap (λ x. x.missing_data) made ∙ ((evaluate-pass_iff e h).0 passed).1 in
        subst (λ x. contains (map (λ s. s.dimension) x.dimension_scores) name ≡ true) made
          (elim (Bool-cases (contains (map (λ s. s.dimension) scores) name)) [
            | inl scored ↦ scored
            | inr unscored ↦ absurd (
                not-mem-nil (
                  subst (Memᴰ name) none_missing (
                    missing_for-mem intent.profile intent context name
                      (absent_dimensions profile.weights scores)
                      (mem-sort_of text_leb _
                        (mem-keep_of _ (keys profile.weights) m (ap not unscored))))))
          ])
