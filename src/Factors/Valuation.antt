-- ===== src/Factors/Valuation.antt =====
-- src/astock_lens/factors/valuation.py: a valuation of a stock at a time. The observations have aware
-- times; a naive time to compare them with raises.
pub mod Newest
use a_stock_lens.Base.{
  ℕ, ◌-◌, Bool, true, false, not, ◌&&◌, ◌||◌, Option, none, some, is_some, List, [], ◌∷◌, String,
  keep, is_nil, leb, ltb, ◌==◌, text_eq, if◌then◌else◌,
}
use a_stock_lens.Base.Raise.{Result, ok, ◌>>=◌, ◌>>◌, raise_if}
use a_stock_lens.Number.{Double, Float, ◌≼◌, zero_float}
use a_stock_lens.Domain.{DataStatus, Moment, aware, naive, is_aware, date}
use a_stock_lens.Domain.Records.{FactorResult, FactorInputRef, no_lineage}
use a_stock_lens.Factors.{FactorMetadata}

-- What `available_at <= as_of` compares.
abbrev pub instant : Moment → ℕ
instant (aware wall utc) = utc
instant (naive wall) = wall

pub record ValuationMetricSpec : Type 0 where
  pub metric : String
  pub unit : String
  pub positive_only : Bool

module _ ⦃d : Double⦄ where
  -- The fields of an observation that the factors read.
  pub record ValuationObservation : Type 0 where
    pub symbol : String
    pub metric : String
    pub valuation_date : ℕ
    pub available_at : Moment
    pub value : Option Float

  -- Of FactorContext, and of the dataset in it, what these factors read.
  pub record ValuationContext : Type 0 where
    pub symbol : String
    pub as_of : Moment
    pub valuations : List ValuationObservation

  -- The order of the keys (valuation_date, available_at).
  unfoldable pub key_below : ValuationObservation → ValuationObservation → Bool
  key_below a b =
      ltb a.valuation_date b.valuation_date
      || (a.valuation_date == b.valuation_date
          && ltb (instant a.available_at) (instant b.available_at))

  -- `max`: the first item of those with the largest key.
  unfoldable pub max_from : ValuationObservation → List ValuationObservation → ValuationObservation
  max_from best [] = best
  max_from best (x ∷ xs) = max_from (if key_below best x then x else best) xs

  abbrev pub max_by_key : List ValuationObservation → Option ValuationObservation
  max_by_key [] = none
  max_by_key (x ∷ xs) = some (max_from x xs)

  -- `_latest`
  unfoldable pub latest : List ValuationObservation → Option ValuationObservation
  latest available =
      let valued = keep (λ o. is_some o.value) available in
      max_by_key (if is_nil valued then available else valued)

  abbrev pub is_old : Option ℕ → Moment → ValuationObservation → Bool
  is_old none as_of o = false
  is_old (some days) as_of o = ltb days (date as_of - o.valuation_date)

  unfoldable pub freshness : Option ℕ → Moment → Option ValuationObservation → Option DataStatus
  freshness stale_after as_of none = some DataStatus.null
  freshness stale_after as_of (some o) =
      if not (is_some o.value)
      then some DataStatus.null
      else (if is_old stale_after as_of o then some DataStatus.stale else none)

  -- `_blocking_status`
  unfoldable pub blocking_status :
      (mine available : List ValuationObservation) → Option ℕ → Moment → Option DataStatus
  blocking_status mine available stale_after as_of =
      if is_nil mine
      then some DataStatus.not_applicable
      else (if is_nil available
          then some DataStatus.null
          else freshness stale_after as_of (latest available))

  abbrev pub not_positive : Option Float → Bool
  not_positive none = false
  not_positive (some x) = x ≼ zero_float

  abbrev pub observed : Option ValuationObservation → Option Float
  observed none = none
  observed (some o) = o.value

  -- The status that stands in the way of a value, after the check for negative multiples.
  unfoldable pub final_status :
      ValuationMetricSpec → Option DataStatus → Option ValuationObservation → Option DataStatus
  final_status spec (some status) newest = some status
  final_status spec none newest =
      if spec.positive_only && not_positive (observed newest)
      then some DataStatus.not_applicable
      else none

  abbrev pub input_ref : ValuationMetricSpec → Option ValuationObservation → FactorInputRef
  input_ref spec none = record {
    metric = spec.metric;
    report_period = none;
    announce_date = none;
    available_at = none;
    value = none;
  }
  input_ref spec (some o) = record {
    metric = spec.metric;
    report_period = some o.valuation_date;
    announce_date = some o.valuation_date;
    available_at = some o.available_at;
    value = o.value;
  }

  -- `_result`
  abbrev pub valuation_result :
      ValuationContext
      → FactorMetadata
      → ValuationMetricSpec
      → Option ValuationObservation
      → DataStatus
      → Option Float
      → FactorResult
  valuation_result context m spec newest status value = record {
    symbol = context.symbol;
    factor = m.name;
    as_of = context.as_of;
    status = status;
    factor_version = m.version;
    lineage = record no_lineage { factor_version = some m.version };
    raw_value = value;
    inputs = input_ref spec newest ∷ [];
    unit = some spec.unit;
  }

  abbrev pub of_status :
      ValuationContext
      → FactorMetadata
      → ValuationMetricSpec
      → Option ValuationObservation
      → Option DataStatus
      → FactorResult
  of_status context m spec newest (some status) = valuation_result context m spec newest status none
  of_status context m spec newest none =
      valuation_result context m spec newest DataStatus.value (observed newest)

  unfoldable pub observations : ValuationMetricSpec → ValuationContext → List ValuationObservation
  observations spec context =
      keep (λ o. text_eq o.symbol context.symbol && text_eq o.metric spec.metric) context.valuations

  unfoldable pub available_at_time :
      ValuationMetricSpec → ValuationContext → List ValuationObservation
  available_at_time spec context =
      keep (λ o. leb (instant o.available_at) (instant context.as_of)) (observations spec context)

  -- `ValuationFactor.compute`
  unfoldable pub compute_valuation :
      FactorMetadata → ValuationMetricSpec → Option ℕ → ValuationContext → Result FactorResult
  compute_valuation m spec stale_after context =
      let mine = observations spec context in
      let available = available_at_time spec context in
      let newest = latest available in
      raise_if (not (is_aware context.as_of) && not (is_nil mine)) "can't compare naive and aware"
      >> ok (
          of_status context m spec newest
            (final_status spec (blocking_status mine available stale_after context.as_of) newest))
