-- ===== src/Market/Signals/Priority.antt =====
-- Which signal wins, and for which strategies.
use a_stock_lens.Base.{
  ◌≡◌, ◌↔◌, inl, inr, Bool, true, false, Option, some, length, String, text_eq, arith, Option-cases,
}
use a_stock_lens.Number.{Double, Float}
use a_stock_lens.Domain.{
  Signal, breakout, pullback, trend_continue, trend_weaken, breakdown, value_contrarian,
  dividend_support,
}
use a_stock_lens.Market.{ok, factor_value}
use a_stock_lens.Market.Signals.{
  SignalContext, SignalResult, falls, weakens, momentum_signal, value_signal, is_value_style,
  first_signal, signal_for, reasons_for, detect, detect_for,
}

module _ ⦃d : Double⦄ where
  -- The strategies that a signal is for.
  abbrev pub is_for : Signal → String → Bool
  is_for breakout id = text_eq id "momentum"
  is_for pullback id = text_eq id "momentum"
  is_for trend_continue id = text_eq id "momentum"
  is_for dividend_support id = is_value_style id
  is_for value_contrarian id = is_value_style id
  is_for Signal.watch id = false
  is_for _ id = true

  signal_for-breakdown :
      (id : String) (r20 r60 p y : Option Float)
      → (signal_for id r20 r60 p y ≡ breakdown) ↔ (falls r20 ≡ true)
  unfolding signal_for first_signal momentum_signal value_signal
  signal_for-breakdown id r20 r60 p y = ground arith

  signal_for-weaken :
      (id : String) (r20 r60 p y : Option Float)
      → (signal_for id r20 r60 p y ≡ trend_weaken)
        ↔ ((falls r20 ≡ false) × (weakens r60 r20 ≡ true))
  unfolding signal_for first_signal momentum_signal value_signal
  signal_for-weaken id r20 r60 p y = ground arith

  signal_for-is_for :
      (id : String) (r20 r60 p y : Option Float) → is_for (signal_for id r20 r60 p y) id ≡ true
  unfolding signal_for first_signal momentum_signal value_signal
  signal_for-is_for id r20 r60 p y = ground arith

  one_reason :
      (id : String) (r20 r60 p y : Option Float)
      → length (reasons_for (signal_for id r20 r60 p y) r20 r60 p y) ≡ 1
  unfolding reasons_for signal_for first_signal momentum_signal value_signal
  one_reason id r20 r60 p y = ground arith

  pub detect-ok :
      (version : String) (c : SignalContext) (r : SignalResult)
      → detect version c ≡ ok r
      → (id : String) × (c.strategy_id ≡ some id) × (r ≡ detect_for version c id)
  unfolding detect
  detect-ok version c r h = elim (Option-cases c.strategy_id) [
    | inl e ↦ absurd (ground (arith, rw e at h))
    | inr (id, e) ↦ (id, e, ground (arith, rw e at h))
  ]

  -- A detected signal is BREAKDOWN exactly when the 20 day return is known and below -15%, whatever
  -- the strategy, and TREND_WEAKEN exactly when it is not BREAKDOWN, the 60 day return is known and
  -- above 15%, and the 20 day return is known and below -5%.
  pub detect-priority :
      (version : String) (c : SignalContext) (r : SignalResult)
      → detect version c ≡ ok r
      → ((r.signal ≡ breakdown) ↔ (falls (factor_value "ret_20d" c.factors) ≡ true))
        × ((r.signal ≡ trend_weaken) ↔ (
            (falls (factor_value "ret_20d" c.factors) ≡ false)
            × (weakens (factor_value "ret_60d" c.factors) (factor_value "ret_20d" c.factors)
                ≡ true)))
  detect-priority version c r h =
      let (id, _, made) = detect-ok version c r h in
      rw made (signal_for-breakdown id _ _ _ _, signal_for-weaken id _ _ _ _)

  -- A detected signal carries exactly one line of reasons; BREAKOUT, PULLBACK and TREND_CONTINUE
  -- are for momentum only, DIVIDEND_SUPPORT and VALUE_CONTRARIAN for value and dividend only, and
  -- WATCH is never detected.
  pub detect-is_for :
      (version : String) (c : SignalContext) (r : SignalResult)
      → detect version c ≡ ok r
      → (is_for r.signal r.strategy_id ≡ true) × (length r.reasons ≡ 1)
  detect-is_for version c r h =
      let (id, _, made) = detect-ok version c r h in
      rw made (signal_for-is_for id _ _ _ _, one_reason id _ _ _ _)
