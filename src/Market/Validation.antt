-- ===== src/Market/Validation.antt =====
-- MarketValidator.validate of src/astock_lens/market/validation.py, a dimension at a time.
pub mod Verdict
use a_stock_lens.Base.{
  ℕ, ◌+◌, Bool, true, false, not, ◌&&◌, ◌||◌, Option, none, some, List, [], ◌∷◌, ◌++◌, String,
  text_eq, leb, ◌==◌, if◌then◌else◌,
}
use a_stock_lens.Number.{Double, Float, ◌≺◌, ◌≼◌, decimal, negate, zero_float}
use a_stock_lens.Domain.{Moment, MarketValidation, confirmed, neutral, contradicted}
use a_stock_lens.Domain.Records.{
  SnapshotLineage, no_lineage, FactorResult, Note, about_number, about_numbers,
}
use a_stock_lens.Market.{Error, value_error, evidence_incomplete, Result, ok, err, factor_value}

module _ ⦃d : Double⦄ where
  pub record MarketValidationContext : Type 0 where
    pub symbol : String
    pub strategy_id : String
    pub as_of : Moment
    pub factors : List FactorResult
    pub industry_excess_return : Option Float
    pub vol_ratio : Option Float
    pub relative_strength_60d : Option Float

  pub record MarketValidationResult : Type 0 where
    pub symbol : String
    pub strategy_id : String
    pub as_of : Moment
    pub status : MarketValidation
    pub positive_count : ℕ
    pub negative_count : ℕ
    pub reasons : List Note
    pub risks : List Note
    pub lineage : SnapshotLineage

  -- What one dimension adds to the counts and to the lines.
  pub record Dimension : Type 0 where
    pub plus : ℕ
    pub minus : ℕ
    pub reasons : List Note
    pub risks : List Note

  abbrev praise : Note → Dimension
  praise n = record { plus = 1; minus = 0; reasons = n ∷ []; risks = [] }

  abbrev blame : Note → Dimension
  blame n = record { plus = 0; minus = 1; reasons = []; risks = n ∷ [] }

  abbrev remark : Note → Dimension
  remark n = record { plus = 0; minus = 0; reasons = n ∷ []; risks = [] }

  abbrev silence : Dimension
  silence = record { plus = 0; minus = 0; reasons = []; risks = [] }

  abbrev pub liquidity_floor : Float
  liquidity_floor = decimal 100000000 0

  abbrev pub liquidity_ample : Float
  liquidity_ample = decimal 150000000 0

  unfoldable pub liquidity : Float → Dimension
  liquidity avg_amount =
      if avg_amount ≺ liquidity_floor
      then blame (about_number "avg_amount_20d < 1.0e8" avg_amount)
      else if liquidity_ample ≼ avg_amount
      then praise (about_number "avg_amount_20d >= 1.5e8" avg_amount)
      else remark (about_number "avg_amount_20d" avg_amount)

  abbrev pub is_momentum : String → Bool
  is_momentum strategy_id = text_eq strategy_id "momentum"

  unfoldable pub momentum_trend : Float → Float → Dimension
  momentum_trend ret_20d prox =
      if decimal 64 3 ≺ ret_20d && decimal 85 2 ≺ prox
      then praise (about_numbers "momentum trend" ret_20d prox)
      else if ret_20d ≺ zero_float || prox ≺ decimal 80 2
      then blame (about_numbers "momentum broken" ret_20d prox)
      else silence

  unfoldable pub plain_trend : Float → Dimension
  plain_trend ret_20d =
      if zero_float ≺ ret_20d
      then praise (about_number "ret_20d up" ret_20d)
      else if ret_20d ≺ negate (decimal 15 2)
      then blame (about_number "ret_20d breakdown" ret_20d)
      else remark (about_number "ret_20d" ret_20d)

  -- The stock's own trend, by the strategy; `prox` is read for momentum only.
  unfoldable pub stock_trend : String → Float → Option Float → Dimension
  unfolding momentum_trend plain_trend
  stock_trend strategy_id ret_20d (some prox) =
      if is_momentum strategy_id then momentum_trend ret_20d prox else plain_trend ret_20d
  stock_trend strategy_id ret_20d none = plain_trend ret_20d

  unfoldable pub industry : Float → Dimension
  industry excess =
      if zero_float ≺ excess
      then praise (about_number "industry_excess_return" excess)
      else if excess ≺ negate (decimal 5 2)
      then blame (about_number "industry_excess_return" excess)
      else silence

  unfoldable pub relative_strength : Float → Dimension
  relative_strength x =
      if zero_float ≺ x
      then praise (about_number "relative_strength_60d" x)
      else if x ≺ negate (decimal 15 2)
      then blame (about_number "relative_strength_60d" x)
      else remark (about_number "relative_strength_60d" x)

  unfoldable pub volume : Float → Dimension
  volume x =
      if decimal 105 2 ≺ x
      then praise (about_number "vol_ratio" x)
      else if x ≺ decimal 70 2
      then blame (about_number "vol_ratio" x)
      else silence

  abbrev both : Dimension → Dimension → Dimension
  both a b = record {
    plus = a.plus + b.plus;
    minus = a.minus + b.minus;
    reasons = a.reasons ++ b.reasons;
    risks = a.risks ++ b.risks;
  }

  -- The state matrix: `vetoed` by the liquidity floor, `rising` by the stock's trend.
  unfoldable pub matrix : (vetoed rising : Bool) (negative_count : ℕ) → MarketValidation
  matrix vetoed rising negative_count =
      if vetoed || leb 2 negative_count
      then contradicted
      else if not vetoed && rising && negative_count == 0
      then confirmed
      else neutral

  -- The five inputs, and the proximity that momentum needs.
  pub record Evidence : Type 0 where
    pub ret_20d : Float
    pub prox : Option Float
    pub avg_amount : Float
    pub industry_excess : Float
    pub rel_str : Float
    pub vol_ratio : Float

  abbrev pub absent : String → Option Float → List String
  absent name none = name ∷ []
  absent name (some x) = []

  abbrev pub prox_of : MarketValidationContext → Option Float
  prox_of c = factor_value "proximity_52w_high" c.factors

  unfoldable pub missing : MarketValidationContext → List String
  missing c =
      absent "ret_20d" (factor_value "ret_20d" c.factors)
      ++ (if is_momentum c.strategy_id then absent "proximity_52w_high" (prox_of c) else [])
      ++ absent "avg_amount_20d" (factor_value "avg_amount_20d" c.factors)
      ++ absent "industry_excess_return_20d" c.industry_excess_return
      ++ absent "relative_strength_60d" c.relative_strength_60d
      ++ absent "volume_ratio_5_20" c.vol_ratio

  -- The inputs, where none is missing.
  unfoldable pub evidence_of : MarketValidationContext → Option Evidence
  evidence_of c = elim (factor_value "ret_20d" c.factors) [
    | none ↦ none
    | some ret ↦ elim (factor_value "avg_amount_20d" c.factors) [
      | none ↦ none
      | some amount ↦ elim c.industry_excess_return [
        | none ↦ none
        | some excess ↦ elim c.relative_strength_60d [
          | none ↦ none
          | some strength ↦ elim c.vol_ratio [
            | none ↦ none
            | some ratio ↦ some (record {
              ret_20d = ret;
              prox = prox_of c;
              avg_amount = amount;
              industry_excess = excess;
              rel_str = strength;
              vol_ratio = ratio;
            })
          ]
        ]
      ]
    ]
  ]

  unfoldable pub dimensions : String → Evidence → Dimension
  dimensions strategy_id e = both (liquidity e.avg_amount) (
      both (stock_trend strategy_id e.ret_20d e.prox) (
        both (industry e.industry_excess)
          (both (relative_strength e.rel_str) (volume e.vol_ratio))))

  unfoldable pub judged :
      (version : String) → MarketValidationContext → Evidence → MarketValidationResult
  judged version c e =
      let all = dimensions c.strategy_id e in
      record {
        symbol = c.symbol;
        strategy_id = c.strategy_id;
        as_of = c.as_of;
        status =
            matrix (e.avg_amount ≺ liquidity_floor)
              (leb 1 (stock_trend c.strategy_id e.ret_20d e.prox).plus) all.minus;
        positive_count = all.plus;
        negative_count = all.minus;
        reasons = all.reasons;
        risks = all.risks;
        lineage = record no_lineage { market_validation_version = some version };
      }

  abbrev pub judge :
      String
      → MarketValidationContext
      → List String
      → Option Evidence
      → Result MarketValidationResult
  judge version c [] (some e) = ok (judged version c e)
  judge version c names _ = err (evidence_incomplete names)

  unfoldable pub validate :
      (version : String) → MarketValidationContext → Result MarketValidationResult
  validate version c =
      if text_eq c.strategy_id ""
      then err (value_error "strategy_id")
      else judge version c (missing c) (evidence_of c)
