-- ===== src/Tests/Markets.antt =====
-- The market's verdicts, run on one stock.
use a_stock_lens.Base.{
  ◌≡◌, ◌≢◌, ◌≤◌, refl, ◌↔◌, true, false, none, some, List, [], ◌∷◌, length, text_eq,
}
use a_stock_lens.Base.Int.{ℤ, pos, negsuc}
use a_stock_lens.Number.Fixed.{fixed, fixed-IsOrdered}
use a_stock_lens.Domain.{breakdown, trend_weaken, confirmed}
use a_stock_lens.Domain.Records.{FactorResult}
use a_stock_lens.Market.{ok, factor_value}
use a_stock_lens.Market.Validation.{
  MarketValidationContext, Evidence, judged, validate, missing, evidence_of, matrix, dimensions,
  liquidity, stock_trend, plain_trend, industry, relative_strength, volume,
}
use a_stock_lens.Market.Validation.Verdict.{IsEvidence, IsVerdict, validate-ok_iff, validate-status}
use a_stock_lens.Market.Signals
use a_stock_lens.Market.Signals.{SignalContext, SignalResult, detect_for, falls, weakens}
use a_stock_lens.Market.Signals.Priority.{detect-priority, detect-is_for, is_for}
use a_stock_lens.Market.Regime
use a_stock_lens.Market.Regime.{MarketRegimeContext, MarketRegimeResult, detected}
use a_stock_lens.Market.Regime.Order.{rank, detect-monotone}
use a_stock_lens.Market.Agreement.{breakdown-not-confirmed}
use a_stock_lens.Tests.Samples.{noon, factor}

-- A value stock; amounts are in units of 1/10000.
abbrev factors : ℤ → List FactorResult
factors ret_20d = factor "ret_20d" ret_20d ∷ factor "avg_amount_20d" (pos 1200000000000) ∷ []

abbrev stock : ℤ → MarketValidationContext
stock ret_20d = record {
  symbol = "600519";
  strategy_id = "value";
  as_of = noon;
  factors = factors ret_20d;
  industry_excess_return = some (pos 100);
  vol_ratio = some (pos 11000);
  relative_strength_60d = some (pos 200);
}

abbrev evidence : ℤ → Evidence
evidence ret_20d = record {
  ret_20d = ret_20d;
  prox = none;
  avg_amount = pos 1200000000000;
  industry_excess = pos 100;
  rel_str = pos 200;
  vol_ratio = pos 11000;
}

validated : (ret : ℤ) → validate "v1" (stock ret) ≡ ok (judged "v1" (stock ret) (evidence ret))
unfolding validate missing evidence_of factor_value
validated ret = refl

validate-ok_iff_example :
    (validate "v1" (stock (pos 300)) ≡ ok (judged "v1" (stock (pos 300)) (evidence (pos 300)))) ↔ (
      (text_eq "value" "" ≡ false)
      × (e : Evidence) × IsEvidence (stock (pos 300)) e
      × (judged "v1" (stock (pos 300)) e ≡ judged "v1" (stock (pos 300)) (evidence (pos 300))))
validate-ok_iff_example =
    validate-ok_iff "v1" (stock (pos 300)) (judged "v1" (stock (pos 300)) (evidence (pos 300)))

-- The amount is 1.2e8, and the stock is confirmed all the same.
confirmed_below_ample : (judged "v1" (stock (pos 300)) (evidence (pos 300))).status ≡ confirmed
unfolding judged matrix dimensions liquidity stock_trend plain_trend industry relative_strength
    volume
confirmed_below_ample = refl

validate-status_example :
    (e : Evidence) × IsEvidence (stock (pos 300)) e
    × IsVerdict
        (stock (pos 300))
        e
        (judged "v1" (stock (pos 300)) (evidence (pos 300))).status
        (judged "v1" (stock (pos 300)) (evidence (pos 300))).negative_count
validate-status_example =
    validate-status "v1" (stock (pos 300)) (judged "v1" (stock (pos 300)) (evidence (pos 300)))
      (validated (pos 300))

abbrev asked : SignalContext
asked = record {
  symbol = "600519";
  as_of = noon;
  factors = factors (negsuc 1999);
  market_regime = none;
  strategy_id = some "value";
}

answered : Signals.detect "s1" asked ≡ ok (detect_for "s1" asked "value")
unfolding Signals.detect
answered = refl

falls_down : (detect_for "s1" asked "value").signal ≡ breakdown
unfolding Signals.signal_for Signals.first_signal factor_value
falls_down = refl

detect-priority_example :
    (((detect_for "s1" asked "value").signal ≡ breakdown)
      ↔ (falls (factor_value "ret_20d" (factors (negsuc 1999))) ≡ true))
    × (((detect_for "s1" asked "value").signal ≡ trend_weaken) ↔ (
        (falls (factor_value "ret_20d" (factors (negsuc 1999))) ≡ false)
        × (weakens
              (factor_value "ret_60d" (factors (negsuc 1999)))
              (factor_value "ret_20d" (factors (negsuc 1999)))
            ≡ true)))
detect-priority_example = detect-priority "s1" asked (detect_for "s1" asked "value") answered

detect-is_for_example :
    (is_for (detect_for "s1" asked "value").signal "value" ≡ true)
    × (length (detect_for "s1" asked "value").reasons ≡ 1)
detect-is_for_example = detect-is_for "s1" asked (detect_for "s1" asked "value") answered

breakdown-not-confirmed_example :
    (judged "v1" (stock (negsuc 1999)) (evidence (negsuc 1999))).status ≢ confirmed
breakdown-not-confirmed_example =
    breakdown-not-confirmed fixed-IsOrdered refl refl "s1" "v1" asked (stock (negsuc 1999))
      (detect_for "s1" asked "value") (judged "v1" (stock (negsuc 1999)) (evidence (negsuc 1999)))
      refl answered (validated (negsuc 1999)) falls_down

abbrev market : ℤ → MarketRegimeContext
market breadth = record {
  as_of = noon;
  breadth_ratio = some breadth;
  index_trend = some (pos 10100);
  extreme_volatility = false;
  reasons = [];
}

abbrev market_result : ℤ → MarketRegimeResult
market_result breadth = detected "r1" (market breadth) breadth (pos 10100)

sensed : (breadth : ℤ) → Regime.detect "r1" (market breadth) ≡ ok (market_result breadth)
unfolding Regime.detect
sensed breadth = refl

detect-monotone_example :
    rank (market_result (pos 4500)).regime ≤ rank (market_result (pos 6000)).regime
detect-monotone_example =
    detect-monotone fixed-IsOrdered "r1" (market (pos 4500)) (market (pos 6000))
      (market_result (pos 4500)) (market_result (pos 6000)) (pos 4500) (pos 6000) refl refl refl
      refl refl refl (sensed (pos 4500)) (sensed (pos 6000))
