-- ===== src/Market/Regime/Order.antt =====
-- The regimes by how bullish they are.
use a_stock_lens.Base.{ℕ, ◌≡◌, ◌≤◌, Bool, true, some, inl, inr, arith, Option-cases, String}
use a_stock_lens.Number.{Double, Float, IsOrdered, ◌≺◌, ◌≼◌, decimal}
use a_stock_lens.Domain.{MarketRegime, bull, range_up, range, range_down, bear}
use a_stock_lens.Market.{ok}
use a_stock_lens.Market.Regime.{
  MarketRegimeContext, MarketRegimeResult, base_regime, downgrade, detect, detected,
}

abbrev pub rank : MarketRegime → ℕ
rank bear = 0
rank range_down = 1
rank range = 2
rank range_up = 3
rank bull = 4

module _ ⦃d : Double⦄ (ordered : IsOrdered d) where
  open ordered use {le_trans, lt-eq-not-le}

  above : (bound x y : Float) → x ≼ y ≡ true → bound ≺ x ≡ true → bound ≺ y ≡ true
  above bound x y h k =
      ground (arith, lt-eq-not-le bound x, lt-eq-not-le bound y, le_trans x y bound)

  downgrade_mono :
      (v : Bool) (r s : MarketRegime)
      → rank r ≤ rank s
      → rank (downgrade v r) ≤ rank (downgrade v s)
  unfolding downgrade
  downgrade_mono v r s h = ground arith

  base_mono :
      (b b' trend : Float)
      → b ≼ b' ≡ true
      → decimal 40 2 ≼ decimal 55 2 ≡ true
      → rank (base_regime b trend) ≤ rank (base_regime b' trend)
  unfolding base_regime
  base_mono b b' trend h k = ground (
    arith,
    above (decimal 55 2) b b' h,
    le_trans (decimal 40 2) b b',
    lt-eq-not-le (decimal 55 2) b,
    lt-eq-not-le (decimal 55 2) b',
    le_trans b' (decimal 40 2) (decimal 55 2),
  )

  detect-regime :
      (version : String) (c : MarketRegimeContext) (r : MarketRegimeResult)
      → detect version c ≡ ok r
      → (b : Float) × (t : Float) × (c.breadth_ratio ≡ some b)
        × (c.index_trend ≡ some t)
        × (r.regime ≡ downgrade c.extreme_volatility (base_regime b t))
  unfolding detect
  detect-regime version c r h = elim (Option-cases c.breadth_ratio) [
    | inl e ↦ elim (Option-cases c.index_trend) [
      | inl f ↦ absurd (ground (arith, rw (e, f) at h))
      | inr (t, f) ↦ absurd (ground (arith, rw (e, f) at h))
    ]
    | inr (b, e) ↦ elim (Option-cases c.index_trend) [
      | inl f ↦ absurd (ground (arith, rw (e, f) at h))
      | inr (t, f) ↦ (b, t, e, f, regime_of (rw (e, f) at h))
    ]
  ]
    where
      regime_of :
          {b t : Float}
          → ok (detected version c b t) ≡ ok r
          → r.regime ≡ downgrade c.extreme_volatility (base_regime b t)
      regime_of h = ground arith

  -- More breadth never makes the detected regime less bullish: for two contexts with the same index
  -- trend and the same volatility flag, of which the second has at least the breadth of the first, the
  -- second regime is at least as bullish, in the order BEAR, RANGE_DOWN, RANGE, RANGE_UP, BULL. The
  -- floats are ordered, with 0.40 at most 0.55.
  pub detect-monotone :
      (version : String) (c c' : MarketRegimeContext) (r r' : MarketRegimeResult) (b b' : Float)
      → decimal 40 2 ≼ decimal 55 2 ≡ true
      → c.breadth_ratio ≡ some b
      → c'.breadth_ratio ≡ some b'
      → b ≼ b' ≡ true
      → c'.index_trend ≡ c.index_trend
      → c'.extreme_volatility ≡ c.extreme_volatility
      → detect version c ≡ ok r
      → detect version c' ≡ ok r'
      → rank r.regime ≤ rank r'.regime
  detect-monotone version c c' r r' b b' k e e' h same_trend same_volatility made made' =
      let (x, t, ex, et, reg) = detect-regime version c r made in
      let (x', t', ex', et', reg') = detect-regime version c' r' made' in
      let xb : x ≡ b = ground (arith, ex, e) in
      let xb' : x' ≡ b' = ground (arith, ex', e') in
      let tt' : t' ≡ t = ground (arith, et, et', same_trend) in
      rw (reg, reg', xb, xb', tt', same_volatility)
        (downgrade_mono c.extreme_volatility _ _ (base_mono b b' t h k))
