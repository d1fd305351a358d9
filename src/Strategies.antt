-- ===== src/Strategies.antt =====
-- src/astock_lens/strategies/: what the scanners share, of config.py and percentile_scorer.py.
pub mod Scoring
pub mod Scorer
use a_stock_lens.Base.{
  Bool, true, false, not, ◌&&◌, ◌||◌, Option, none, some, List, [], ◌∷◌, ◌++◌, map, String, any,
  all, keep, is_nil, last_such, find_first, is_some, contains, text_eq, if◌then◌else◌,
}
use a_stock_lens.Base.Dict.{keys, values}
use a_stock_lens.Base.Raise.{Result, ok, raised, ◌>>=◌, ◌>>◌, raise_if}
use a_stock_lens.Number.{Double, Float, ◌≺◌, ◌≐◌, negate, zero_float}
use a_stock_lens.Domain.{is_value}
use a_stock_lens.Domain.Records.{
  SnapshotLineage, no_lineage, FactorResult, FactorContribution, StrategyContext, Note,
  about_number, about_status, about_text, EligibilityResult, StrategyResult,
}

module _ ⦃d : Double⦄ where
  -- Of the configuration the fields that scoring reads.
  pub record StrategyConfig : Type 0 where
    pub id : String
    pub version : String
    pub required_factors : List String
    pub weights : List (String × Float)

  -- Why a name keeps a stock out, if it does; `observed` holds the last result of each name.
  unfoldable pub missing_value : List FactorResult → String → List Note
  missing_value factors name = elim (last_such (λ r. text_eq r.factor name) factors) [
    | none ↦ about_text "was not computed for this symbol" name ∷ []
    | some r ↦ if is_value r.status then [] else about_status name r.status ∷ []
  ]

  unfoldable pub missing_values : List FactorResult → List String → List Note
  missing_values factors [] = []
  missing_values factors (name ∷ names) = missing_value factors name ++ missing_values factors names

  unfoldable pub required_values_are_present :
      StrategyContext → List (String × Float) → EligibilityResult
  required_values_are_present context weights =
      let reasons = missing_values context.factors (keys weights) in
      record { eligible = is_nil reasons; reasons = reasons }

  abbrev pub factor_line : FactorResult → Note
  factor_line r = elim r.raw_value [
    | some x ↦ about_number r.factor x
    | none ↦ about_status r.factor r.status
  ]

  -- `SnapshotLineage(strategy_version=version)`
  abbrev pub lineage_of : String → SnapshotLineage
  lineage_of version = record no_lineage { strategy_version = some version }

  unfoldable pub evidence_result :
      StrategyContext
      → EligibilityResult
      → (strategy_id strategy_version : String) → (score rank_percentile : Option Float)
      → List FactorContribution
      → StrategyResult
  evidence_result context verdict strategy_id version score rank_percentile contributions = record {
    symbol = context.symbol;
    strategy_id = strategy_id;
    strategy_version = version;
    as_of = context.as_of;
    eligible = verdict.eligible;
    lineage = lineage_of version;
    score = score;
    rank_percentile = rank_percentile;
    confidence = none;
    reasons = map factor_line context.factors;
    risks = verdict.reasons;
    factor_snapshot = context.factors;
    contributions = contributions;
  }

  unfoldable pub validated_weights : StrategyConfig → Result (List (String × Float))
  validated_weights config = do
    raise_if (is_nil config.weights) "strategy declares no weights"
    raise_if
        (any (λ name. not (contains (keys config.weights) name)) config.required_factors
          || any (λ name. not (contains config.required_factors name)) (keys config.weights))
        "weights must cover required_factors exactly"
    raise_if (any (λ w. w ≐ zero_float) (values config.weights))
        "a zero weight means the factor does not belong to the strategy"
    ok config.weights

  -- `_value_of`: the first result of the name with a value.
  unfoldable pub value_of : StrategyContext → String → Result Float
  value_of context name =
      elim (find_first (λ r. text_eq r.factor name && is_some r.raw_value) context.factors) [
        | none ↦ raised "the factor has no value; eligibility should have kept this context out"
        | some r ↦ elim r.raw_value [
          | none ↦ raised "the factor has no value; eligibility should have kept this context out"
          | some x ↦ ok x
        ]
      ]

  unfoldable pub oriented_value : StrategyContext → String → Float → Result Float
  oriented_value context name weight =
      value_of context name >>= λ value. ok (if zero_float ≺ weight then value else negate value)
