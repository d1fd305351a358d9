-- ===== src/Market/Signals.antt =====
-- DefaultSignalDetector.detect of src/astock_lens/signals/detector.py.
pub mod Priority
use a_stock_lens.Base.{
  Bool, true, false, not, ◌&&◌, ◌||◌, Option, none, some, List, [], ◌∷◌, String, text_eq,
  if◌then◌else◌,
}
use a_stock_lens.Number.{Double, Float, ◌≺◌, ◌≼◌, decimal, negate, zero_float}
use a_stock_lens.Domain.{
  Moment, MarketRegime, Signal, breakout, pullback, trend_continue, trend_weaken, breakdown,
  value_contrarian, dividend_support, no_signal,
}
use a_stock_lens.Domain.Records.{
  SnapshotLineage, no_lineage, FactorResult, Note, text, about_number, about_numbers,
}
use a_stock_lens.Market.{Error, value_error, Result, ok, err, factor_value}

module _ ⦃d : Double⦄ where
  pub record SignalContext : Type 0 where
    pub symbol : String
    pub as_of : Moment
    pub factors : List FactorResult
    pub market_regime : Option MarketRegime
    pub strategy_id : Option String

  pub record SignalResult : Type 0 where
    pub symbol : String
    pub signal : Signal
    pub as_of : Moment
    pub strategy_id : String
    pub lineage : SnapshotLineage
    pub reasons : List Note

  -- `x is not None and test(x)`
  abbrev pub holds : (Float → Bool) → Option Float → Bool
  holds test none = false
  holds test (some x) = test x

  abbrev within : Float → Float → Float → Bool
  within low high x = low ≼ x && x ≼ high

  abbrev pub falls : Option Float → Bool
  falls ret_20d = holds (λ r. r ≺ negate (decimal 15 2)) ret_20d

  abbrev pub weakens : Option Float → Option Float → Bool
  weakens ret_60d ret_20d =
      holds (λ r. decimal 15 2 ≺ r) ret_60d && holds (λ r. r ≺ negate (decimal 5 2)) ret_20d

  -- The rules for momentum.
  unfoldable pub momentum_signal : (ret_20d ret_60d prox : Option Float) → Signal
  momentum_signal ret_20d ret_60d prox =
      if holds (λ p. decimal 95 2 ≼ p) prox
      then breakout
      else if holds (λ r. decimal 20 2 ≼ r) ret_60d
          && holds (within zero_float (decimal 5 2)) ret_20d
      then pullback
      else if holds (λ r. decimal 64 3 ≼ r) ret_20d
          && holds (λ p. decimal 85 2 ≼ p && p ≺ decimal 95 2) prox
      then trend_continue
      else no_signal

  -- The rules for value and dividend.
  unfoldable pub value_signal : (ret_20d div_yield : Option Float) → Signal
  value_signal ret_20d div_yield =
      if holds (λ y. decimal 3 0 ≼ y) div_yield && holds (λ r. negate (decimal 5 2) ≺ r) ret_20d
      then dividend_support
      else if holds (within (negate (decimal 5 2)) (decimal 2 2)) ret_20d
      then value_contrarian
      else no_signal

  abbrev pub is_value_style : String → Bool
  is_value_style strategy_id = text_eq strategy_id "value" || text_eq strategy_id "dividend"

  -- The first rules, of which the later ones are tried only where no earlier one holds.
  unfoldable pub first_signal : String → (ret_20d ret_60d prox : Option Float) → Signal
  first_signal strategy_id ret_20d ret_60d prox =
      if falls ret_20d
      then breakdown
      else if weakens ret_60d ret_20d
      then trend_weaken
      else if text_eq strategy_id "momentum"
      then momentum_signal ret_20d ret_60d prox
      else no_signal

  unfoldable pub signal_for : String → (ret_20d ret_60d prox div_yield : Option Float) → Signal
  signal_for strategy_id ret_20d ret_60d prox div_yield =
      elim (first_signal strategy_id ret_20d ret_60d prox) [
        | no_signal ↦
            if is_value_style strategy_id then value_signal ret_20d div_yield else no_signal
        | other ↦ other
      ]

  abbrev number_line : String → Option Float → List Note
  number_line label none = []
  number_line label (some x) = about_number label x ∷ []

  abbrev numbers_line : String → Option Float → Option Float → List Note
  numbers_line label (some x) (some y) = about_numbers label x y ∷ []
  numbers_line label _ _ = []

  abbrev no_signal_line : List Note
  no_signal_line = text "no feature" ∷ []

  -- The line that goes with each signal, or the neutral one.
  unfoldable pub reasons_for : Signal → (ret_20d ret_60d prox div_yield : Option Float) → List Note
  reasons_for breakdown ret_20d ret_60d prox div_yield = number_line "breakdown" ret_20d
  reasons_for trend_weaken ret_20d ret_60d prox div_yield = numbers_line "weakening" ret_60d ret_20d
  reasons_for breakout ret_20d ret_60d prox div_yield = number_line "breakout" prox
  reasons_for pullback ret_20d ret_60d prox div_yield = numbers_line "pullback" ret_60d ret_20d
  reasons_for trend_continue ret_20d ret_60d prox div_yield = numbers_line "continuing" ret_20d prox
  reasons_for dividend_support ret_20d ret_60d prox div_yield =
      numbers_line "dividend" div_yield ret_20d
  reasons_for value_contrarian ret_20d ret_60d prox div_yield = number_line "contrarian" ret_20d
  reasons_for _ ret_20d ret_60d prox div_yield = no_signal_line

  abbrev pub detect_for : (version : String) → SignalContext → String → SignalResult
  detect_for version c strategy_id =
      let ret_20d = factor_value "ret_20d" c.factors in
      let ret_60d = factor_value "ret_60d" c.factors in
      let prox = factor_value "proximity_52w_high" c.factors in
      let div_yield = factor_value "dividend_yield_ttm" c.factors in
      let signal = signal_for strategy_id ret_20d ret_60d prox div_yield in
      record {
        symbol = c.symbol;
        signal = signal;
        as_of = c.as_of;
        strategy_id = strategy_id;
        lineage = record no_lineage { signal_version = some version };
        reasons = reasons_for signal ret_20d ret_60d prox div_yield;
      }

  unfoldable pub detect : (version : String) → SignalContext → Result SignalResult
  detect version c = elim c.strategy_id [
    | none ↦ err (value_error "strategy_id")
    | some id ↦
        if text_eq id "" then err (value_error "strategy_id") else ok (detect_for version c id)
  ]
