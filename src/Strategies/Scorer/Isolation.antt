-- ===== src/Strategies/Scorer/Isolation.antt =====
-- A stock without the evidence moves nobody: the scores of the others are what they are without it.
use a_stock_lens.Base.{
  ◌≡◌, ap, ◌∙◌, Bool, true, false, none, List, [], ◌∷◌, String, keep, keep_twice, arith,
  if◌then◌else◌,
}
use a_stock_lens.Base.Raise.{ok, raised, >>=-eq-ok, collect, collect-keep}
use a_stock_lens.Number.{Double, Float}
use a_stock_lens.Domain.Records.{StrategyContext, EligibilityResult, StrategyResult}
use a_stock_lens.Strategies.{evidence_result}
use a_stock_lens.Strategies.Scorer.{
  EligibilityRule, CrossSection, cross_section, scored_result, result_of, contributions, item,
  score_cross_section,
}

module _ ⦃d : Double⦄ (strategy_id version : String) (weights : List (String × Float))
    (rule : EligibilityRule) where
  abbrev eligible : StrategyContext → Bool
  eligible c = (rule c).eligible

  scored_result-eligible :
      (section : CrossSection) (verdict : EligibilityResult) (c : StrategyContext)
      (r : StrategyResult)
      → scored_result strategy_id version weights section verdict c ≡ ok r
      → (r.eligible ≡ verdict.eligible) × (r.symbol ≡ c.symbol)
  unfolding scored_result evidence_result
  scored_result-eligible section verdict c r h =
      let (mix, _, h') = >>=-eq-ok (item c.symbol section.blends) _ h in
      let (parts, _, h'') = >>=-eq-ok (contributions c section.oriented weights) _ h' in
      ground (arith, h'')

  -- A result tells what the rule said of its context, and of which stock it is.
  result_of-eligible :
      (section : CrossSection) (c : StrategyContext) (r : StrategyResult)
      → result_of strategy_id version weights rule section c ≡ ok r
      → (r.eligible ≡ eligible c) × (r.symbol ≡ c.symbol)
  unfolding result_of evidence_result
  result_of-eligible section c r h = either (rule c).eligible (rule c) h
    where
      either :
          (b : Bool) (verdict : EligibilityResult)
          → (if b
              then scored_result strategy_id version weights section verdict c
              else ok (evidence_result c verdict strategy_id version none none []))
            ≡ ok r
          → (r.eligible ≡ verdict.eligible) × (r.symbol ≡ c.symbol)
      either true verdict h = scored_result-eligible section verdict c r h
      either false verdict h = ground (arith, h)

  -- The contexts that the rule refuses can be left out: the results of the others are the same, the
  -- score, the rank and the contributions included.
  pub score_cross_section-keep :
      (cs : List StrategyContext) (rs : List StrategyResult)
      → score_cross_section strategy_id version cs weights rule ≡ ok rs
      → score_cross_section strategy_id version (keep (λ c. (rule c).eligible) cs) weights rule
        ≡ ok (keep (λ r. r.eligible) rs)
  unfolding score_cross_section
  score_cross_section-keep [] rs h =
      collect-keep (λ (c : StrategyContext). raised "") eligible (λ r. r.eligible) (λ x r e. cc) []
        h
  score_cross_section-keep (c ∷ cs) rs h =
      let (section, made, h') = >>=-eq-ok (cross_section weights (keep eligible (c ∷ cs))) _ h in
      let kept =
        collect-keep (result_of strategy_id version weights rule section) eligible (λ r. r.eligible)
          (λ x r e. (result_of-eligible section x r e).0) (c ∷ cs) h' in
      general (keep eligible (c ∷ cs)) _ section
        (ap (cross_section weights) (keep_twice eligible (c ∷ cs)) ∙ made) kept
    where
      general :
          (l : List StrategyContext) (ks : List StrategyResult) (section : CrossSection)
          → cross_section weights (keep eligible l) ≡ ok section
          → collect (result_of strategy_id version weights rule section) l ≡ ok ks
          → score_cross_section strategy_id version l weights rule ≡ ok ks
      general [] ks section made h = h
      general (x ∷ xs) ks section made h = rw made h
