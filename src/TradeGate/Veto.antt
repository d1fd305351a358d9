-- ===== src/TradeGate/Veto.antt =====
-- src/astock_lens/trade_gate/veto.py: `evaluate_vetoes`.
use a_stock_lens.Base.{
  Bool, true, false, not, ◌&&◌, ◌||◌, Option, none, some, List, [], ◌∷◌, ◌++◌, String, contains,
  if◌then◌else◌,
}
use a_stock_lens.Base.Int.{ℤ, pos, leb_ℤ}
use a_stock_lens.Number.{Double, Float, ◌≺◌, ◌≼◌, zero_float}
use a_stock_lens.Domain.{
  MarketValidation, Signal, TradeAction, TradeProfile, VetoSeverity, hard, conditional,
}
use a_stock_lens.TradeGate.Errors.{Result, ok, ◌>>◌, refuse_if, is_absent, is_true}
use a_stock_lens.TradeGate.Intent.{TradeIntent, TradeContext, ExistingPositionSnapshot, is_losing}
use a_stock_lens.TradeGate.Records.{VetoResult, ThesisAuditResult, StrategyProfileConfig}

abbrev pub is_contradicted : Option MarketValidation → Bool
is_contradicted (some MarketValidation.contradicted) = true
is_contradicted _ = false

abbrev pub is_breakdown : Option Signal → Bool
is_breakdown (some Signal.breakdown) = true
is_breakdown _ = false

abbrev is_add : TradeAction → Bool
is_add TradeAction.add = true
is_add TradeAction.entry = false

abbrev is_event : TradeProfile → Bool
is_event TradeProfile.event = true
is_event _ = false

abbrev is_position : TradeProfile → Bool
is_position TradeProfile.position = true
is_position _ = false

module _ ⦃d : Double⦄ where
  abbrev losing : Option ExistingPositionSnapshot → Bool
  losing none = false
  losing (some p) = is_losing p

  -- The sector rises and the stock does not; unknown returns count as no.
  abbrev is_weak_beside : Option Float → Option Float → Bool
  is_weak_beside (some sector) (some stock) = zero_float ≺ sector && stock ≼ zero_float
  is_weak_beside _ _ = false

  -- `add`: a veto that the profile does not enable is not recorded.
  abbrev pub hit : StrategyProfileConfig → Bool → String → VetoSeverity → String → List VetoResult
  hit profile condition code severity reason =
      if condition && contains profile.enabled_vetoes code
      then record { code = code; severity = severity; reason = reason; active = true } ∷ []
      else []

  unfoldable pub upstream_vetoes :
      TradeIntent → TradeContext → StrategyProfileConfig → List VetoResult
  upstream_vetoes intent context profile =
      hit profile (is_absent intent.risk.invalidation_rule) "NO_INVALIDATION" hard "未提供明确失效条件"
      ++ (hit profile (intent.risk.account_nav ≼ zero_float || leb_ℤ intent.risk.quantity (pos 0))
            "NO_RISK_BUDGET" hard "无法计算风险预算"
          ++ (hit profile (is_contradicted context.market_validation) "UPSTREAM_MARKET_CONTRADICTED"
                hard "上游市场验证相矛盾"
              ++ (hit profile (is_breakdown context.signal) "UPSTREAM_BREAKDOWN" hard
                    "上游信号为 BREAKDOWN"
                  ++ (hit profile
                        (is_add intent.action
                          && losing intent.existing_position
                          && is_absent intent.new_independent_confirmation)
                        "AVERAGING_DOWN_WITHOUT_SIGNAL" hard "亏损头寸加仓缺少新的独立确认"
                      ++ (hit profile
                            (is_weak_beside context.sector_return_1d context.stock_return_1d)
                            "RELATIVE_WEAKNESS" conditional "板块上涨而个股当日未上涨"
                          ++ hit profile
                              (not (is_position intent.profile)
                                && not (is_true context.confirmation_met))
                              "NO_PRICE_CONFIRMATION" conditional "盘中价格确认尚未成立")))))

  unfoldable pub sentiment_vetoes :
      TradeIntent → StrategyProfileConfig → ThesisAuditResult → ℤ → List VetoResult
  sentiment_vetoes intent profile audit fomo_score =
      hit profile (leb_ℤ profile.fomo_wait_threshold fomo_score) "EXTREME_FOMO" conditional
        "FOMO 达到画像冷静阈值"
      ++ hit profile (is_event intent.profile && is_true audit.priced_in)
          "EXPECTATION_ALREADY_PRICED" conditional "催化已被市场提前定价"

  unfoldable pub evaluate_vetoes :
      TradeIntent
      → TradeContext
      → StrategyProfileConfig
      → ThesisAuditResult
      → ℤ
      → Result (List VetoResult)
  unfolding upstream_vetoes sentiment_vetoes
  evaluate_vetoes intent context profile audit fomo_score = do
    refuse_if (not (leb_ℤ (pos 0) fomo_score && leb_ℤ fomo_score (pos 10)))
        "fomo_score must be within 0..10"
    ok (upstream_vetoes intent context profile ++ sentiment_vetoes intent profile audit fomo_score)
