-- ===== src/Strategies/Scorer.antt =====
-- WeightedPercentileScorer of src/astock_lens/strategies/percentile_scorer.py.
pub mod Isolation
use a_stock_lens.Base.{
  ℕ, Bool, true, false, Option, none, some, List, [], ◌∷◌, map, String, length, keep, ltb,
  if◌then◌else◌,
}
use a_stock_lens.Base.Dict.{get, put, put_all, values}
use a_stock_lens.Base.Raise.{Result, ok, raised, ◌>>=◌, ◌>>◌, raise_if, collect}
use a_stock_lens.Number.{Double, Float, ◌≐◌, ◌⊗◌, ◌⊘◌, magnitude, decimal, zero_float, sum}
use a_stock_lens.Domain.Records.{
  FactorContribution, StrategyContext, EligibilityResult, StrategyResult,
}
use a_stock_lens.Strategies.{evidence_result, oriented_value}
use a_stock_lens.Strategies.Scoring.{percentile_ranks}

module _ ⦃d : Double⦄ where
  abbrev pub score_ceiling : Float
  score_ceiling = decimal 100 0

  abbrev pub EligibilityRule : Type 0
  EligibilityRule = StrategyContext → EligibilityResult

  -- `mapping[key]`
  abbrev pub item : {V : Type 0} → String → List (String × V) → Result V
  item k mapping = elim (get k mapping) [ none ↦ raised "KeyError" | some v ↦ ok v ]

  -- The oriented values of a factor over the population, and their ranks.
  unfoldable pub oriented_ranks :
      List StrategyContext → String × Float → Result (String × List (String × Float))
  oriented_ranks population (name, weight) = do
    pairs ←
        collect (λ context. oriented_value context name weight >>= λ v. ok (context.symbol, v))
          population
    ok (name, percentile_ranks (put_all pairs []))

  unfoldable pub total_weight : List (String × Float) → Float
  total_weight weights = sum (map magnitude (values weights))

  abbrev pub Oriented : Type 0
  Oriented = List (String × List (String × Float))

  unfoldable pub percentile : Oriented → String → String → Result Float
  percentile oriented name symbol = item name oriented >>= λ ranks. item symbol ranks

  unfoldable pub blend :
      Oriented → List (String × Float) → StrategyContext → Result (String × Float)
  blend oriented weights context = do
    parts ←
        collect (λ w. percentile oriented w.0 context.symbol >>= λ p. ok (magnitude w.1 ⊗ p))
          weights
    raise_if (total_weight weights ≐ zero_float) "ZeroDivisionError"
    ok (context.symbol, sum parts ⊘ total_weight weights)

  unfoldable pub contributions :
      StrategyContext → Oriented → List (String × Float) → Result (List FactorContribution)
  contributions context oriented weights =
      collect
        (λ w. percentile oriented w.0 context.symbol >>= λ p. ok (record {
          factor = w.0;
          percentile = p;
          weight = w.1;
          weighted = (magnitude w.1 ⊗ p) ⊘ total_weight weights;
        }))
        weights

  -- What is computed once for the population.
  pub record CrossSection : Type 0 where
    pub oriented : Oriented
    pub blends : List (String × Float)
    pub ranks : List (String × Float)

  unfoldable pub cross_section : List (String × Float) → List StrategyContext → Result CrossSection
  cross_section weights population = do
    oriented ← collect (oriented_ranks population) weights
    blended ← collect (blend oriented weights) population
    let blends = put_all blended []
    ok (record {
      oriented = oriented;
      blends = blends;
      ranks = if ltb 1 (length blends) then percentile_ranks blends else [];
    })

  -- The result of an eligible context.
  unfoldable pub scored_result :
      (strategy_id version : String)
      → List (String × Float)
      → CrossSection
      → EligibilityResult
      → StrategyContext
      → Result StrategyResult
  scored_result strategy_id version weights section verdict context = do
    mix ← item context.symbol section.blends
    parts ← contributions context section.oriented weights
    ok (
        evidence_result context verdict strategy_id version (some (score_ceiling ⊗ mix))
          (get context.symbol section.ranks) parts)

  -- The body of the loop over the contexts.
  unfoldable pub result_of :
      (strategy_id version : String)
      → List (String × Float)
      → EligibilityRule
      → CrossSection
      → StrategyContext
      → Result StrategyResult
  result_of strategy_id version weights rule section context =
      if (rule context).eligible
      then scored_result strategy_id version weights section (rule context) context
      else ok (evidence_result context (rule context) strategy_id version none none [])

  unfoldable pub score_cross_section :
      (strategy_id version : String)
      → List StrategyContext
      → List (String × Float)
      → EligibilityRule
      → Result (List StrategyResult)
  score_cross_section strategy_id version [] weights rule = ok []
  score_cross_section strategy_id version (c ∷ cs) weights rule = do
    section ← cross_section weights (keep (λ x. (rule x).eligible) (c ∷ cs))
    collect (result_of strategy_id version weights rule section) (c ∷ cs)
