-- ===== src/Market/Agreement.antt =====
-- The signal and the validation of one stock do not contradict each other.
use a_stock_lens.Base.{◌≡◌, ◌≢◌, sym, ap, ◌∙◌, true, false, Option, some, String, leb, arith}
use a_stock_lens.Number.{Double, Float, IsOrdered, ◌≺◌, ◌≼◌, decimal, negate, zero_float}
use a_stock_lens.Domain.{breakdown, confirmed}
use a_stock_lens.Market.{ok}
use a_stock_lens.Market.Signals.{SignalContext, SignalResult, falls, detect}
use a_stock_lens.Market.Signals.Priority.{detect-priority}
use a_stock_lens.Market.Validation.{
  MarketValidationContext, MarketValidationResult, momentum_trend, plain_trend, stock_trend,
  validate,
}
use a_stock_lens.Market.Validation.Verdict.{validate-status}

module _ ⦃d : Double⦄ (ordered : IsOrdered d) where
  open ordered use {le_trans, le_total, lt-eq-not-le}

  under : (x low y : Float) → x ≺ low ≡ true → low ≼ y ≡ true → y ≺ x ≡ false
  under x low y h k =
      ground (arith, lt-eq-not-le x low, lt-eq-not-le y x, le_trans low y x, le_total x y)

  falling_trend :
      (id : String) (ret : Float) (prox : Option Float)
      → ret ≺ negate (decimal 15 2) ≡ true
      → zero_float ≺ ret ≡ false
      → decimal 64 3 ≺ ret ≡ false
      → leb 1 (stock_trend id ret prox).plus ≡ false
  unfolding stock_trend momentum_trend plain_trend
  falling_trend id ret prox h k m = ground arith

  -- A stock whose signal is BREAKDOWN is never CONFIRMED by the market validation on the same
  -- factors, for momentum or for any other strategy. The floats are ordered, with -0.15 at most 0 and
  -- 0 at most 0.064.
  pub breakdown-not-confirmed :
      negate (decimal 15 2) ≼ zero_float ≡ true
      → zero_float ≼ decimal 64 3 ≡ true
      → (version version' : String) (s : SignalContext) (c : MarketValidationContext)
        (r : SignalResult) (q : MarketValidationResult)
      → s.factors ≡ c.factors
      → detect version s ≡ ok r
      → validate version' c ≡ ok q
      → r.signal ≡ breakdown
      → q.status ≢ confirmed
  breakdown-not-confirmed low high version version' s c r q same detected validated down sure =
      let (e, has, verdict) = validate-status version' c q validated in
      let falling = (detect-priority version s r detected).0.0 down in
      let falling' : falls (some e.ret_20d) ≡ true =
        ap falls (sym has.ret_20d) ∙ (rw same at falling) in
      let below = under e.ret_20d _ zero_float falling' low in
      let trend =
        falling_trend c.strategy_id e.ret_20d e.prox falling' below
          (under e.ret_20d _ (decimal 64 3) falling' (le_trans _ _ _ low high)) in
      let (_, rising, _) = verdict.confirmed_iff.0 sure in absurd (ground (arith, trend, rising))
