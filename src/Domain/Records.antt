-- ===== src/Domain/Records.antt =====
-- The immutable records of domain/models.py, factors/contracts.py, strategies/contracts.py and
-- qualifications/models.py. A number that the source keeps as a `float` is a `Float`.
use a_stock_lens.Base.{ℕ, Bool, Option, none, List, String}
use a_stock_lens.Number.{Double, Float}
use a_stock_lens.Domain.{DataStatus, Moment, MarketRegime}

pub record SnapshotLineage : Type 0 where
  pub universe_snapshot : Option String
  pub factor_version : Option String
  pub strategy_version : Option String
  pub qualification_version : Option String
  pub candidate_policy_version : Option String
  pub regime_version : Option String
  pub market_validation_version : Option String
  pub signal_version : Option String

-- `SnapshotLineage()`
abbrev pub no_lineage : SnapshotLineage
no_lineage = record {
  universe_snapshot = none;
  factor_version = none;
  strategy_version = none;
  qualification_version = none;
  candidate_policy_version = none;
  regime_version = none;
  market_validation_version = none;
  signal_version = none;
}

module _ ⦃d : Double⦄ where
  pub record DailyBar : Type 0 where
    pub symbol : String
    pub trade_date : ℕ
    pub open_price : Option Float
    pub high : Option Float
    pub low : Option Float
    pub close : Option Float
    pub pre_close : Option Float
    pub volume : Option Float
    pub amount : Option Float
    pub turnover_rate : Option Float
    pub pct_change : Option Float
    pub adj_factor : Option Float

  pub record FactorInputRef : Type 0 where
    pub metric : String
    pub report_period : Option ℕ
    pub announce_date : Option ℕ
    pub available_at : Option Moment
    pub value : Option Float

  pub record FactorResult : Type 0 where
    pub symbol : String
    pub factor : String
    pub as_of : Moment
    pub status : DataStatus
    pub factor_version : String
    pub lineage : SnapshotLineage
    pub raw_value : Option Float
    pub inputs : List FactorInputRef
    pub unit : Option String

  pub record FactorContribution : Type 0 where
    pub factor : String
    pub percentile : Float
    pub weight : Float
    pub weighted : Float

  pub record StrategyContext : Type 0 where
    pub symbol : String
    pub as_of : Moment
    pub factors : List FactorResult
    pub market_regime : Option MarketRegime

  -- A line of text names what it says and the values that it shows.
  pub data Note : Type 0 where
    text : String → Note
    about_number : String → Float → Note
    about_numbers : String → Float → Float → Note
    about_status : String → DataStatus → Note
    about_text : String → String → Note
    about_bounds : String → Option Float → Option Float → Note

  pub record EligibilityResult : Type 0 where
    pub eligible : Bool
    pub reasons : List Note

  pub record StrategyResult : Type 0 where
    pub symbol : String
    pub strategy_id : String
    pub strategy_version : String
    pub as_of : Moment
    pub eligible : Bool
    pub lineage : SnapshotLineage
    pub score : Option Float
    pub rank_percentile : Option Float
    pub confidence : Option Float
    pub reasons : List Note
    pub risks : List Note
    pub factor_snapshot : List FactorResult
    pub contributions : List FactorContribution

  pub record AbsoluteQualificationVerdict : Type 0 where
    pub passed : Bool
    pub reasons : List Note
    pub risks : List Note

  pub record QualificationContext : Type 0 where
    pub strategy_result : StrategyResult
    pub factors : List FactorResult

  pub record StrategyQualification : Type 0 where
    pub symbol : String
    pub strategy_id : String
    pub strategy_version : String
    pub qualification_version : String
    pub qualified : Bool
    pub percentile_pass : Bool
    pub absolute_pass : Bool
    pub rank_percentile : Float
    pub as_of : Option Moment
    pub reasons : List Note
    pub risks : List Note
