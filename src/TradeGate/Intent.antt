-- ===== src/TradeGate/Intent.antt =====
-- src/astock_lens/trade_gate/models.py: what a trader intends, and the context in which it is judged.
use a_stock_lens.Base.{Bool, true, false, not, ◌||◌, Option, none, some, List, String, is_blank}
use a_stock_lens.Base.Int.{ℤ, pos, leb_ℤ}
use a_stock_lens.Number.{Double, Float, ◌≺◌, ◌≼◌, ◌⊖◌, ◌⊗◌, ◌⊘◌, of_int, zero_float}
use a_stock_lens.Domain.{
  MarketValidation, Signal, TradeAction, TradeProfile, TradeIntentStatus, Moment, is_aware,
}
use a_stock_lens.Domain.Records.{SnapshotLineage, FactorResult, StrategyResult}
use a_stock_lens.Candidates.{Candidate}
use a_stock_lens.TradeGate.Errors.{Result, ok, ◌>>◌, refuse_if}

module _ ⦃d : Double⦄ where
  pub record TradeRiskProposal : Type 0 where
    pub account_nav : Float
    pub planned_entry_price : Float
    pub stop_loss_price : Float
    pub quantity : ℤ
    pub invalidation_rule : Option String
    pub target_price : Option Float

  abbrev target_is_invalid : Option Float → Bool
  target_is_invalid none = false
  target_is_invalid (some t) = t ≼ zero_float

  unfoldable pub validate_risk : TradeRiskProposal → Result TradeRiskProposal
  validate_risk r = do
    refuse_if
        (r.account_nav ≼ zero_float
          || r.planned_entry_price ≼ zero_float
          || r.stop_loss_price ≼ zero_float)
        "account_nav and prices must be positive"
    refuse_if (leb_ℤ r.quantity (pos 0)) "quantity must be positive"
    refuse_if (r.planned_entry_price ≼ r.stop_loss_price) "V1 long trade stop must be below entry"
    refuse_if (target_is_invalid r.target_price) "target_price must be positive"
    ok r

  unfoldable pub position_value : TradeRiskProposal → Float
  position_value r = r.planned_entry_price ⊗ of_int r.quantity

  unfoldable pub max_loss_amount : TradeRiskProposal → Float
  max_loss_amount r = (r.planned_entry_price ⊖ r.stop_loss_price) ⊗ of_int r.quantity

  unfoldable pub max_loss_pct_of_nav : TradeRiskProposal → Float
  unfolding max_loss_amount
  max_loss_pct_of_nav r = max_loss_amount r ⊘ r.account_nav

  pub record ExistingPositionSnapshot : Type 0 where
    pub quantity : ℤ
    pub avg_cost : Float
    pub current_price : Float
    pub captured_at : Moment

  unfoldable pub validate_position : ExistingPositionSnapshot → Result ExistingPositionSnapshot
  validate_position p = do
    refuse_if (not (is_aware p.captured_at)) "captured_at must be timezone-aware"
    refuse_if (leb_ℤ p.quantity (pos 0) || p.avg_cost ≼ zero_float || p.current_price ≼ zero_float)
        "existing position values must be positive"
    ok p

  abbrev pub is_losing : ExistingPositionSnapshot → Bool
  is_losing p = p.current_price ≺ p.avg_cost

  pub record TradeIntent : Type 0 where
    pub id : String
    pub symbol : String
    pub action : TradeAction
    pub profile : TradeProfile
    pub thesis : String
    pub catalyst : Option String
    pub expected_holding_days : ℤ
    pub created_at : Moment
    pub risk : TradeRiskProposal
    pub existing_position : Option ExistingPositionSnapshot
    pub new_independent_confirmation : Option String
    pub status : TradeIntentStatus

  abbrev adds_to_nothing : TradeAction → Option ExistingPositionSnapshot → Bool
  adds_to_nothing TradeAction.add none = true
  adds_to_nothing _ _ = false

  unfoldable pub validate_intent : TradeIntent → Result TradeIntent
  validate_intent i = do
    refuse_if (not (is_aware i.created_at)) "created_at must be timezone-aware"
    refuse_if (is_blank i.id || is_blank i.symbol || is_blank i.thesis)
        "id, symbol and thesis must not be empty"
    refuse_if (leb_ℤ i.expected_holding_days (pos 0)) "expected_holding_days must be positive"
    refuse_if (adds_to_nothing i.action i.existing_position) "ADD requires existing_position"
    ok i

  pub record TradeMarketOverlay : Type 0 where
    pub captured_at : Moment
    pub current_price : Option Float
    pub stock_return_1d : Option Float
    pub sector_return_1d : Option Float
    pub benchmark_return_1d : Option Float
    pub volume_ratio_current : Option Float
    pub confirmation_met : Option Bool
    pub confirmation_note : Option String

  pub record TradeContext : Type 0 where
    pub symbol : String
    pub as_of : Moment
    pub candidate_status : String
    pub candidate : Option Candidate
    pub factor_results : List FactorResult
    pub strategy_results : List StrategyResult
    pub market_validation : Option MarketValidation
    pub signal : Option Signal
    pub lineage : SnapshotLineage
    pub overlay : Option TradeMarketOverlay
    pub ret_20d : Option Float
    pub ret_60d : Option Float
    pub volume_ratio_5_20 : Option Float
    pub relative_strength_60d : Option Float
    pub stock_return_1d : Option Float
    pub sector_return_1d : Option Float
    pub benchmark_return_1d : Option Float
    pub confirmation_met : Option Bool
    pub current_price : Option Float
