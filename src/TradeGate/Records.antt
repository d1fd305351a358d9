-- ===== src/TradeGate/Records.antt =====
-- src/astock_lens/trade_gate/models.py, from DimensionJudgement on, and StrategyProfileConfig of
-- src/astock_lens/trade_gate/profiles.py. A check that runs when a record is built is a function.
use a_stock_lens.Base.{
  is_nil, Bool, true, false, not, ◌&&◌, ◌||◌, Option, List, [], String, map, any, is_blank,
}
use a_stock_lens.Base.Int.{ℤ, pos, leb_ℤ}
use a_stock_lens.Base.Dict.{values}
use a_stock_lens.Number.{Double, Float, ◌≺◌, ◌≼◌, ◌≐◌, ◌⊖◌, decimal, magnitude, zero_float, sum}
use a_stock_lens.Domain.{TradeProfile, TradeDecision, VetoSeverity, Moment, is_aware}
use a_stock_lens.TradeGate.Errors.{Result, ok, ◌>>◌, refuse_if}
use a_stock_lens.TradeGate.Intent.{TradeContext}

module _ ⦃d : Double⦄ where
  pub record DimensionJudgement : Type 0 where
    pub name : String
    pub score_ratio : Float
    pub confidence : Float
    pub evidence : List String
    pub summary : String
    pub source_refs : List String

  abbrev within_unit : Float → Bool
  within_unit x = zero_float ≼ x && x ≼ decimal 1 0

  unfoldable pub validate_judgement : DimensionJudgement → Result DimensionJudgement
  validate_judgement j = do
    refuse_if (not (within_unit j.score_ratio) || not (within_unit j.confidence))
        "score_ratio and confidence must be within 0..1"
    refuse_if (is_nil j.evidence || is_blank j.summary) "AI judgement requires evidence and summary"
    ok j

  pub record IndependentAssessment : Type 0 where
    pub summary : String
    pub dimensions : List DimensionJudgement
    pub risks : List String
    pub evidence : List String

  pub record ThesisAuditResult : Type 0 where
    pub dimensions : List DimensionJudgement
    pub priced_in : Option Bool
    pub supporting_evidence : List String
    pub counter_evidence : List String
    pub missing_assumptions : List String

  pub record VetoResult : Type 0 where
    pub code : String
    pub severity : VetoSeverity
    pub reason : String
    pub active : Bool

  pub record DimensionScore : Type 0 where
    pub dimension : String
    pub weight : Float
    pub ratio : Float
    pub score : Float
    pub source : String
    pub evidence : List String

  pub record TradeGateEvaluation : Type 0 where
    pub id : String
    pub intent_id : String
    pub profile : TradeProfile
    pub profile_version : String
    pub rule_set_version : String
    pub prompt_version : Option String
    pub model_id : Option String
    pub dimension_scores : List DimensionScore
    pub weighted_score : Float
    pub vetoes : List VetoResult
    pub missing_data : List String
    pub decision : TradeDecision
    pub reasons : List String
    pub reentry_triggers : List String
    pub context : TradeContext
    pub independent_assessment : IndependentAssessment
    pub thesis_audit : ThesisAuditResult
    pub evaluated_at : Moment
    pub proposed_position_pct : Float
    pub replayed_from_evaluation_id : Option String

  abbrev pub waits_for_nothing : TradeDecision → List String → Bool
  waits_for_nothing TradeDecision.wait [] = true
  waits_for_nothing _ _ = false

  unfoldable pub validate_evaluation : TradeGateEvaluation → Result TradeGateEvaluation
  validate_evaluation e = do
    refuse_if (not (is_aware e.evaluated_at)) "evaluated_at must be timezone-aware"
    refuse_if (not (zero_float ≼ e.weighted_score && e.weighted_score ≼ decimal 100 0))
        "weighted_score must be within 0..100"
    refuse_if (waits_for_nothing e.decision e.reentry_triggers) "WAIT requires reentry_triggers"
    refuse_if
        (decimal 1 6 ≺ magnitude (sum (map (λ s. s.score) e.dimension_scores) ⊖ e.weighted_score))
        "dimension scores must sum to weighted_score"
    ok e

  pub record TradePlan : Type 0 where
    pub id : String
    pub evaluation_id : String
    pub approval_path : String
    pub created_at : Moment
    pub entry_price : Float
    pub stop_price : Float
    pub target_price : Option Float

  pub record OverrideRecord : Type 0 where
    pub id : String
    pub evaluation_id : String
    pub reason : String
    pub evidence : List String
    pub fomo_score : ℤ
    pub proposed_position_pct : Float
    pub manual_position_limit_pct : Float
    pub manual_stop_rule : String
    pub ack_risk : Bool
    pub created_at : Moment

  pub record ExecutionRecord : Type 0 where
    pub id : String
    pub evaluation_id : String
    pub plan_id : Option String
    pub override_id : Option String
    pub avg_fill_price : Float
    pub filled_quantity : ℤ
    pub filled_at : Moment
    pub discipline_status : String

  pub record TradeReview : Type 0 where
    pub id : String
    pub execution_id : String
    pub pnl_amount : Float
    pub pnl_pct : Float
    pub max_drawdown : Float
    pub max_adverse_excursion : Float
    pub max_favorable_excursion : Float
    pub thesis_correct : Bool
    pub gate_correct : Bool
    pub discipline_followed : Bool
    pub lessons_learned : String
    pub reviewed_at : Moment

  pub record StrategyProfileConfig : Type 0 where
    pub id : TradeProfile
    pub version : String
    pub pass_threshold : Float
    pub wait_threshold : Float
    pub weights : List (String × Float)
    pub required_ai_dimensions : List String
    pub enabled_vetoes : List String
    pub fomo_wait_threshold : ℤ

  unfoldable pub validate_profile : StrategyProfileConfig → Result StrategyProfileConfig
  validate_profile p = do
    refuse_if (decimal 1 9 ≺ magnitude (sum (values p.weights) ⊖ decimal 100 0))
        "trade gate profile weights must sum to 100"
    refuse_if (not (p.pass_threshold ≐ decimal 80 0) || not (p.wait_threshold ≐ decimal 70 0))
        "V1 thresholds are fixed at PASS=80 and WAIT=70"
    refuse_if (not (leb_ℤ (pos 0) p.fomo_wait_threshold && leb_ℤ p.fomo_wait_threshold (pos 10)))
        "fomo_wait_threshold must be within 0..10"
    refuse_if
        (is_blank p.version || is_nil p.weights || any (λ v. v ≺ zero_float) (values p.weights))
        "version and non-negative weights are required"
    ok p
