-- ===== src/Factors/Evidence.antt =====
-- src/astock_lens/market/benchmark.py, evidence.py and industry.py. An evidence that is not there
-- raises; its kind of error is told by the text.
use a_stock_lens.Base.{
  ℕ, Bool, false, not, ◌&&◌, Option, none, some, List, [], ◌∷◌, map, String, length, keep, is_nil,
  leb, ltb, text_eq, last_such, if◌then◌else◌,
}
use a_stock_lens.Base.Dict.{get}
use a_stock_lens.Base.Raise.{Result, ok, raised, ◌>>=◌, ◌>>◌, raise_if}
use a_stock_lens.Base.Sorting.{sort}
use a_stock_lens.Number.{Double, Float, ◌≺◌, ◌≼◌, ◌⊖◌, ◌⊘◌, of_nat, zero_float, sum}
use a_stock_lens.Domain.{Moment, date, is_value}
use a_stock_lens.Domain.Records.{DailyBar, FactorResult}
use a_stock_lens.Factors.{last_of, present, head_of, final_of, close_of, dated_before}

module _ ⦃d : Double⦄ where
  pub record BenchmarkEvidence : Type 0 where
    pub benchmark_id : String
    pub as_of : Moment
    pub ret_60d : Float
    pub trend_value : Float
    pub source : String

  abbrev pub is_positive : Option Float → Bool
  is_positive none = false
  is_positive (some x) = zero_float ≺ x

  -- The bars with a positive close, on or before a day, in the order of their days.
  unfoldable pub benchmark_bars : ℕ → List DailyBar → List DailyBar
  benchmark_bars day bars =
      sort dated_before (keep (λ b. leb b.trade_date day && is_positive b.close) bars)

  abbrev pub moving_average : ℕ → List DailyBar → Float
  moving_average n bars = sum (present (map (λ b. b.close) (last_of n bars))) ⊘ of_nat n

  -- The evidence of the two closes and the two averages.
  unfoldable pub evidence_of :
      String
      → Moment
      → String
      → (latest ago : Option Float) → (ma_20 ma_60 : Float) → Result BenchmarkEvidence
  evidence_of benchmark_id as_of source (some latest) (some ago) ma_20 ma_60 = do
    raise_if (ago ≼ zero_float) "Invalid close prices for benchmark within 60-day window"
    raise_if (ma_60 ≼ zero_float) "Non-positive 60-day moving average for benchmark"
    ok (record {
      benchmark_id = benchmark_id;
      as_of = as_of;
      ret_60d = (latest ⊖ ago) ⊘ ago;
      trend_value = ma_20 ⊘ ma_60;
      source = source;
    })
  evidence_of benchmark_id as_of source _ _ ma_20 ma_60 =
      raised "Invalid close prices for benchmark within 60-day window"

  -- What follows the check of the number of bars.
  unfoldable pub evidence_from : String → Moment → String → List DailyBar → Result BenchmarkEvidence
  evidence_from benchmark_id as_of source bars =
      evidence_of benchmark_id as_of source (close_of (final_of (last_of 60 bars)))
        (close_of (head_of (last_of 60 bars))) (moving_average 20 bars) (moving_average 60 bars)

  unfoldable pub compute_benchmark_evidence :
      String → List DailyBar → Moment → String → Result BenchmarkEvidence
  compute_benchmark_evidence benchmark_id bars as_of source =
      let valid = benchmark_bars (date as_of) bars in
      raise_if (ltb (length valid) 60) "Insufficient benchmark bars"
      >> evidence_from benchmark_id as_of source valid

  pub record StockMarketEvidence : Type 0 where
    pub symbol : String
    pub as_of : Moment
    pub ret_20d : Option Float
    pub proximity_52w_high : Option Float
    pub avg_amount_20d : Option Float
    pub volume_ratio_5_20 : Option Float
    pub relative_strength_60d : Option Float

  unfoldable pub volume_ratio : List DailyBar → Option Float
  volume_ratio valid =
      let mean = λ (n : ℕ). sum (present (map (λ b. b.volume) (last_of n valid))) ⊘ of_nat n in
      if ltb (length valid) 20
      then none
      else (if zero_float ≺ mean 20 then some (mean 5 ⊘ mean 20) else none)

  abbrev value_of : Option FactorResult → Option Float
  value_of none = none
  value_of (some f) = f.raw_value

  -- `factor_map.get(name)`: of the last factor of the stock and the name with the status VALUE.
  unfoldable pub factor_of : String → List FactorResult → String → Option Float
  factor_of symbol factors name = value_of (
      last_such (λ f. text_eq f.factor name && (text_eq f.symbol symbol && is_value f.status))
        factors)

  abbrev pub excess : Option Float → Option Float → Option Float
  excess (some x) (some y) = some (x ⊖ y)
  excess _ _ = none

  unfoldable pub build_stock_market_evidence :
      String → List FactorResult → List DailyBar → Moment → Option Float → StockMarketEvidence
  build_stock_market_evidence symbol factors bars as_of benchmark_ret_60d =
      let valid = sort dated_before (
        keep
          (λ b. text_eq b.symbol symbol && (leb b.trade_date (date as_of) && is_positive b.volume))
          bars) in
      record {
        symbol = symbol;
        as_of = as_of;
        ret_20d = factor_of symbol factors "ret_20d";
        proximity_52w_high = factor_of symbol factors "proximity_52w_high";
        avg_amount_20d = factor_of symbol factors "avg_amount_20d";
        volume_ratio_5_20 = volume_ratio valid;
        relative_strength_60d = excess (factor_of symbol factors "ret_60d") benchmark_ret_60d;
      }

  pub record IndustryMembership : Type 0 where
    pub symbol : String
    pub industry_id : String
    pub industry_name : String
    pub as_of : Moment
    pub provider : String
    pub source_ref : Option String

  pub record IndustryEvidence : Type 0 where
    pub symbol : String
    pub industry_id : String
    pub industry_level : String
    pub industry_return_20d : Float
    pub benchmark_return_20d : Float
    pub industry_excess_return_20d : Float
    pub as_of : Moment
    pub member_count : ℕ

  unfoldable pub industry_members : String → String → List IndustryMembership → List String
  industry_members symbol industry_id all =
      let found = map (λ m. m.symbol) (keep (λ m. text_eq m.industry_id industry_id) all) in
      if is_nil found then symbol ∷ [] else found

  abbrev pub flat : Option (Option Float) → Option Float
  flat none = none
  flat (some x) = x

  unfoldable pub valid_returns : List (String × Option Float) → List String → List Float
  valid_returns returns members = present (map (λ m. flat (get m returns)) members)

  -- `requested_level.upper()` is an argument.
  unfoldable pub build_industry_evidence :
      String
      → Option IndustryMembership
      → List IndustryMembership
      → List (String × Option Float)
      → Option Float
      → String
      → Moment
      → Result IndustryEvidence
  build_industry_evidence symbol none all returns benchmark level as_of =
      raised "No industry membership recorded"
  build_industry_evidence symbol (some membership) all returns benchmark level as_of = do
    raise_if (not (text_eq membership.symbol symbol)) "No industry membership recorded"
    raise_if (text_eq level "SW1") "SW1 hierarchy unavailable from canonical source"
    raise_if (not (text_eq level "SW2")) "Unsupported industry level"
    base ← elim benchmark [ none ↦ raised "Benchmark return is missing" | some x ↦ ok x ]
    let valid = valid_returns returns (industry_members symbol membership.industry_id all)
    raise_if (is_nil valid) "No valid 20d returns found for industry"
    let average = sum valid ⊘ of_nat (length valid)
    ok (record {
      symbol = symbol;
      industry_id = membership.industry_id;
      industry_level = "SW2";
      industry_return_20d = average;
      benchmark_return_20d = base;
      industry_excess_return_20d = average ⊖ base;
      as_of = as_of;
      member_count = length valid;
    })
