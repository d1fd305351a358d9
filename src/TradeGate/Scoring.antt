-- ===== src/TradeGate/Scoring.antt =====
-- src/astock_lens/trade_gate/scoring.py: the three profiles' scores, with `adjusted_ratio` of
-- audit/cli.py. A dictionary of ratios is an association list.
use a_stock_lens.Base.{
  Bool, not, ◌&&◌, Option, none, some, List, [], ◌∷◌, ◌++◌, String, text_eq, lower, if◌then◌else◌,
}
use a_stock_lens.Base.Dict.{get, put_all, values}
use a_stock_lens.Number.{
  Double, Float, ◌≺◌, ◌⊕◌, ◌⊖◌, ◌⊗◌, ◌⊘◌, decimal, of_nat, zero_float, larger, smaller, max_of,
}
use a_stock_lens.Domain.{MarketValidation}
use a_stock_lens.Domain.Records.{StrategyResult, StrategyQualification}
use a_stock_lens.TradeGate.Errors.{is_absent}
use a_stock_lens.TradeGate.Intent.{TradeIntent, TradeContext, TradeMarketOverlay, TradeRiskProposal}
use a_stock_lens.TradeGate.Records.{
  DimensionJudgement, IndependentAssessment, ThesisAuditResult, DimensionScore,
  StrategyProfileConfig,
}

module _ ⦃d : Double⦄ where
  unfoldable pub adjusted_ratio : DimensionJudgement → Float
  adjusted_ratio j = j.score_ratio ⊗ (decimal 5 1 ⊕ decimal 5 1 ⊗ j.confidence)

  abbrev pub one_float : Float
  one_float = decimal 1 0

  -- `clamp(value)` with the bounds 0 and 1, by `max(low, min(high, value))`.
  unfoldable pub clamp : Float → Float
  clamp value = larger zero_float (smaller one_float value)

  -- A dimension's ratio, if it is known, with its source and its evidence.
  pub record Ratio : Type 0 where
    pub ratio : Option Float
    pub source : String
    pub evidence : List String

  abbrev rule : Option Float → Ratio
  rule r = record { ratio = r; source = "RULE"; evidence = [] }

  abbrev yes_or_no : Bool → Float
  yes_or_no b = if b then one_float else zero_float

  -- One for yes, zero for no, nothing for an unknown answer.
  abbrev answer : Option Bool → Option Float
  answer none = none
  answer (some b) = some (yes_or_no b)

  abbrev is_positive : Option Float → Option Float
  is_positive none = none
  is_positive (some x) = some (yes_or_no (zero_float ≺ x))

  abbrev strategy_pairs : List StrategyResult → List (String × Float)
  strategy_pairs [] = []
  strategy_pairs (r ∷ rs) = elim r.rank_percentile [
    | none ↦ strategy_pairs rs
    | some p ↦
        if not (text_eq r.strategy_id "") && r.eligible
        then (lower r.strategy_id, p) ∷ strategy_pairs rs
        else strategy_pairs rs
  ]

  unfoldable pub strategy_values : TradeContext → List (String × Float)
  strategy_values context = put_all (strategy_pairs context.strategy_results) []

  abbrev qualification_pairs : List StrategyQualification → List (String × Float)
  qualification_pairs [] = []
  qualification_pairs (q ∷ qs) =
      if q.qualified
      then (lower q.strategy_id, q.rank_percentile) ∷ qualification_pairs qs
      else qualification_pairs qs

  unfoldable pub qual_values : TradeContext → List (String × Float)
  qual_values context = elim context.candidate [
    | none ↦ []
    | some c ↦ put_all (qualification_pairs c.strategy_qualifications) []
  ]

  abbrev judged : List DimensionJudgement → List (String × Ratio)
  judged [] = []
  judged (j ∷ js) =
      (j.name, record { ratio = some (adjusted_ratio j); source = "AI"; evidence = j.evidence })
      ∷ judged js

  -- The audit's judgements replace the independent ones of the same name.
  unfoldable pub ai_values : ThesisAuditResult → IndependentAssessment → List (String × Ratio)
  ai_values audit independent =
      put_all (judged independent.dimensions ++ judged audit.dimensions) []

  abbrev score_one : String → Float → Option Ratio → List DimensionScore
  score_one name weight none = []
  score_one name weight (some r) = elim r.ratio [
    | none ↦ []
    | some x ↦
        record {
          dimension = name;
          weight = weight;
          ratio = clamp x;
          score = weight ⊗ clamp x;
          source = r.source;
          evidence = r.evidence;
        }
        ∷ []
  ]

  -- `_scores`: one score for each weighted dimension whose ratio is known.
  unfoldable pub scores_of : List (String × Float) → List (String × Ratio) → List DimensionScore
  scores_of [] ratios = []
  scores_of ((name, weight) ∷ weights) ratios =
      score_one name weight (get name ratios) ++ scores_of weights ratios

  abbrev risk_plan : TradeRiskProposal → Ratio
  risk_plan r =
      if is_absent r.invalidation_rule
      then record {
        ratio = some zero_float;
        source = "RULE";
        evidence = "invalidation rule missing" ∷ [];
      }
      else record {
        ratio = some one_float;
        source = "RULE";
        evidence = "risk proposal complete" ∷ [];
      }

  abbrev relative_to : Option Float → Option Float → Option Float
  relative_to (some sector) (some stock) =
      some (if zero_float ≺ sector then clamp (stock ⊘ sector) else yes_or_no (sector ≺ stock))
  relative_to _ _ = none

  abbrev beats : Option Float → Option Float → Option Float
  beats (some sector) (some benchmark) = some (yes_or_no (benchmark ≺ sector))
  beats _ _ = none

  unfoldable pub score_event :
      TradeIntent
      → TradeContext
      → ThesisAuditResult
      → StrategyProfileConfig
      → IndependentAssessment
      → List DimensionScore
  score_event intent context audit profile independent = scores_of profile.weights (
      put_all
        (("sector_strength", rule (beats context.sector_return_1d context.benchmark_return_1d))
          ∷ (
            "relative_strength",
            rule (relative_to context.sector_return_1d context.stock_return_1d),
          )
          ∷ ("price_confirmation", rule (answer context.confirmation_met))
          ∷ ("risk_plan", risk_plan intent.risk)
          ∷ [])
        (ai_values audit independent))

  abbrev validation_ratio : Option MarketValidation → Option Float
  validation_ratio none = none
  validation_ratio (some MarketValidation.confirmed) = some one_float
  validation_ratio (some MarketValidation.neutral) = some (decimal 5 1)
  validation_ratio (some MarketValidation.contradicted) = some zero_float

  abbrev trend_ratio : Option Float → Option Float → Option Float
  trend_ratio (some r20) (some r60) =
      some ((yes_or_no (zero_float ≺ r20) ⊕ yes_or_no (zero_float ≺ r60)) ⊘ of_nat 2)
  trend_ratio _ _ = none

  abbrev first_known : Option Float → Option Float → Option Float
  first_known none y = y
  first_known (some x) y = some x

  abbrev overlay_volume : Option TradeMarketOverlay → Option Float
  overlay_volume none = none
  overlay_volume (some o) = o.volume_ratio_current

  abbrev clamped : Option Float → Option Float
  clamped none = none
  clamped (some x) = some (clamp x)

  -- reward / loss, squeezed into 0..1.
  abbrev reward_ratio : TradeRiskProposal → Option Float → Option Float
  reward_ratio r none = none
  reward_ratio r (some target) =
      let reward = target ⊖ r.planned_entry_price in
      let loss = r.planned_entry_price ⊖ r.stop_loss_price in
      if zero_float ≺ reward && zero_float ≺ loss
      then some ((reward ⊘ loss) ⊘ (of_nat 1 ⊕ reward ⊘ loss))
      else none

  unfoldable pub score_swing :
      TradeIntent → TradeContext → StrategyProfileConfig → List DimensionScore
  score_swing intent context profile = scores_of profile.weights (
      (
        "fundamental_support",
        rule (
            first_known (max_of (values (qual_values context)))
              (max_of (values (strategy_values context)))),
      )
      ∷ ("sector_trend", rule (validation_ratio context.market_validation))
      ∷ ("stock_trend", rule (trend_ratio context.ret_20d context.ret_60d))
      ∷ ("key_level", rule (answer context.confirmation_met))
      ∷ (
        "volume_confirmation",
        rule (clamped (first_known context.volume_ratio_5_20 (overlay_volume context.overlay))),
      )
      ∷ ("relative_strength", rule (is_positive context.relative_strength_60d))
      ∷ ("risk_reward", rule (reward_ratio intent.risk intent.risk.target_price))
      ∷ [])

  abbrev known : Option Float → List Float
  known none = []
  known (some x) = x ∷ []

  -- The better of two strategies' values, of those that are there.
  abbrev best_of_two : String → String → List (String × Float) → Option Float
  best_of_two a b strategies = max_of (known (get a strategies) ++ known (get b strategies))

  unfoldable pub score_position :
      TradeIntent
      → TradeContext
      → ThesisAuditResult
      → StrategyProfileConfig
      → IndependentAssessment
      → List DimensionScore
  score_position intent context audit profile independent = scores_of profile.weights (
      put_all
        (("financial_quality", rule (get "quality" (strategy_values context)))
          ∷ ("earnings_growth", rule (best_of_two "growth" "garp" (strategy_values context)))
          ∷ ("valuation", rule (best_of_two "value" "garp" (strategy_values context)))
          ∷ ("long_term_trend", rule (is_positive context.ret_60d))
          ∷ ("execution", risk_plan intent.risk)
          ∷ [])
        (ai_values audit independent))
