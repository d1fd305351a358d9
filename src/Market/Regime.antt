-- ===== src/Market/Regime.antt =====
-- MarketRegimeDetector.detect of src/astock_lens/market/regime.py.
pub mod Order
use a_stock_lens.Base.{
  ℕ, Bool, true, false, Option, none, some, List, [], ◌∷◌, ◌++◌, String, if◌then◌else◌,
}
use a_stock_lens.Number.{Double, Float, ◌≺◌, ◌≼◌, decimal, zero_float}
use a_stock_lens.Domain.{Moment, MarketRegime, bull, range_up, range, range_down, bear}
use a_stock_lens.Domain.Records.{
  SnapshotLineage, no_lineage, Note, text, about_number, about_numbers,
}
use a_stock_lens.Market.{Error, evidence_incomplete, Result, ok, err}

module _ ⦃d : Double⦄ where
  pub record MarketRegimeContext : Type 0 where
    pub as_of : Moment
    pub breadth_ratio : Option Float
    pub index_trend : Option Float
    pub extreme_volatility : Bool
    pub reasons : List Note

  pub record MarketRegimeResult : Type 0 where
    pub as_of : Moment
    pub regime : MarketRegime
    pub breadth_ratio : Option Float
    pub index_trend : Option Float
    pub reasons : List Note
    pub lineage : SnapshotLineage

  -- A trend above 0.5 is a ratio of two averages, and one up to 0.5 is a return.
  abbrev pub is_trend_up : Float → Bool
  is_trend_up t = if decimal 5 1 ≺ t then decimal 1 0 ≺ t else zero_float ≺ t

  abbrev pub is_trend_down : Float → Bool
  is_trend_down t = if decimal 5 1 ≺ t then t ≺ decimal 1 0 else t ≺ zero_float

  unfoldable pub base_regime : Float → Float → MarketRegime
  base_regime breadth trend =
      if decimal 55 2 ≺ breadth
      then (if is_trend_up trend then bull else range_up)
      else if decimal 40 2 ≼ breadth
      then range
      else if is_trend_down trend
      then bear
      else range_down

  abbrev base_reason : MarketRegime → Float → Float → Note
  base_reason bull breadth trend = about_numbers "strong breadth, index up" breadth trend
  base_reason range_up breadth trend = about_number "strong breadth" breadth
  base_reason range breadth trend = about_number "balanced breadth" breadth
  base_reason bear breadth trend = about_numbers "weak breadth, index down" breadth trend
  base_reason range_down breadth trend = about_number "weak breadth" breadth

  unfoldable pub downgrade : Bool → MarketRegime → MarketRegime
  downgrade true bull = range_up
  downgrade true range_up = range
  downgrade _ regime = regime

  abbrev volatility_reason : Bool → Note
  volatility_reason true = text "extreme volatility, downgraded"
  volatility_reason false = text "extreme volatility deferred"

  abbrev pub detected :
      (version : String) → MarketRegimeContext → Float → Float → MarketRegimeResult
  detected version c breadth trend = record {
    as_of = c.as_of;
    regime = downgrade c.extreme_volatility (base_regime breadth trend);
    breadth_ratio = some breadth;
    index_trend = some trend;
    reasons =
        c.reasons
        ++ base_reason (base_regime breadth trend) breadth trend
          ∷ volatility_reason c.extreme_volatility
          ∷ [];
    lineage = record no_lineage { regime_version = some version };
  }

  abbrev detect_from :
      (version : String)
      → MarketRegimeContext
      → Option Float
      → Option Float
      → Result MarketRegimeResult
  detect_from version c none none = err (evidence_incomplete ("breadth_ratio" ∷ "index_trend" ∷ []))
  detect_from version c none (some trend) = err (evidence_incomplete ("breadth_ratio" ∷ []))
  detect_from version c (some breadth) none = err (evidence_incomplete ("index_trend" ∷ []))
  detect_from version c (some breadth) (some trend) = ok (detected version c breadth trend)

  unfoldable pub detect : (version : String) → MarketRegimeContext → Result MarketRegimeResult
  detect version c = detect_from version c c.breadth_ratio c.index_trend
