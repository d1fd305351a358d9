-- ===== src/TradeGate/Engine.antt =====
-- TradeGateEngine of src/astock_lens/trade_gate/engine.py. The profiles are a function, since the
-- loader gives exactly the three; the new id and the time are arguments.
pub mod Decision
use a_stock_lens.Base.{
  is_nil, Bool, true, false, not, ◌&&◌, ◌||◌, Option, none, some, List, [], ◌∷◌, ◌++◌, String, map,
  keep, any, contains, is_some, text_leb, if◌then◌else◌,
}
use a_stock_lens.Base.Int.{ℤ}
use a_stock_lens.Base.Dict.{keys}
use a_stock_lens.Base.Sorting.{sort}
use Prim.Native.String.{◌++◌ as text_append}
use a_stock_lens.Number.{Double, Float, ◌≺◌, ◌≼◌, ◌⊘◌, zero_float, sum}
use a_stock_lens.Domain.{
  TradeProfile, event, swing, position, TradeDecision, pass, wait, no_trade, VetoSeverity, hard,
  conditional, Moment,
}
use a_stock_lens.TradeGate.Errors.{Result, ok, err, ◌>>=◌, ◌>>◌}
use a_stock_lens.TradeGate.Intent.{TradeIntent, TradeContext, position_value}
use a_stock_lens.TradeGate.Records.{
  DimensionScore, VetoResult, ThesisAuditResult, IndependentAssessment, StrategyProfileConfig,
  TradeGateEvaluation, validate_evaluation,
}
use a_stock_lens.TradeGate.Scoring.{score_event, score_swing, score_position}
use a_stock_lens.TradeGate.Veto.{evaluate_vetoes}

abbrev pub is_hard : VetoSeverity → Bool
is_hard hard = true
is_hard conditional = false

module _ ⦃d : Double⦄ where
  -- The score of the intent's profile.
  unfoldable pub scores_for :
      TradeProfile
      → TradeIntent
      → TradeContext
      → ThesisAuditResult
      → IndependentAssessment
      → StrategyProfileConfig
      → List DimensionScore
  scores_for event intent context audit independent profile =
      score_event intent context audit profile independent
  scores_for swing intent context audit independent profile = score_swing intent context profile
  scores_for position intent context audit independent profile =
      score_position intent context audit profile independent

  abbrev absent_dimensions : List (String × Float) → List DimensionScore → List String
  absent_dimensions weights scores =
      sort text_leb
        (keep (λ name. not (contains (map (λ s. s.dimension) scores) name)) (keys weights))

  unfoldable pub add_if : Bool → String → List String → List String
  add_if unknown name missing =
      if unknown && not (contains missing name) then missing ++ name ∷ [] else missing

  abbrev event_inputs : TradeContext → List String → List String
  event_inputs c missing = add_if (not (is_some c.confirmation_met)) "confirmation_met" (
      add_if (not (is_some c.benchmark_return_1d)) "benchmark_return_1d" (
        add_if (not (is_some c.sector_return_1d)) "sector_return_1d"
          (add_if (not (is_some c.stock_return_1d)) "stock_return_1d" missing)))

  -- What the profile still needs to know.
  unfoldable pub missing_for : TradeProfile → TradeIntent → TradeContext → List String → List String
  missing_for event intent context missing = event_inputs context missing
  missing_for swing intent context missing =
      add_if (not (is_some intent.risk.target_price)) "target_price" missing
  missing_for position intent context missing = missing

  unfoldable pub decide :
      StrategyProfileConfig → List VetoResult → List String → Float → TradeDecision
  decide profile vetoes missing total =
      if any (λ v. is_hard v.severity) vetoes
      then no_trade
      else (if not (is_nil missing)
          then wait
          else (if not (is_nil vetoes) || profile.wait_threshold ≼ total
              then (if not (is_nil vetoes) || total ≺ profile.pass_threshold then wait else pass)
              else no_trade))

  abbrev or_default : List String → List String
  or_default [] = "市场条件发生变化后重新评估" ∷ []
  or_default (t ∷ ts) = t ∷ ts

  abbrev conditions : List String → List VetoResult → List String
  conditions missing vetoes =
      map (λ name. text_append "补齐或确认 " name) missing
      ++ map (λ v. text_append "解除 " v.code) (keep (λ v. not (is_hard v.severity)) vetoes)

  unfoldable pub triggers_for : TradeDecision → List String → List VetoResult → List String
  triggers_for wait missing vetoes = or_default (conditions missing vetoes)
  triggers_for pass missing vetoes = []
  triggers_for no_trade missing vetoes = []

  -- The record that `evaluate` builds, before the checks that building it runs.
  unfoldable pub draft_evaluation :
      StrategyProfileConfig
      → TradeIntent
      → TradeContext
      → IndependentAssessment
      → ThesisAuditResult
      → List VetoResult
      → String
      → Moment
      → TradeGateEvaluation
  draft_evaluation profile intent context independent audit vetoes id now =
      let scores = scores_for intent.profile intent context audit independent profile in
      let total = sum (map (λ s. s.score) scores) in
      let missing =
        missing_for intent.profile intent context (absent_dimensions profile.weights scores) in
      let decision = decide profile vetoes missing total in
      record {
        id = id;
        intent_id = intent.id;
        profile = intent.profile;
        profile_version = profile.version;
        rule_set_version = "v1";
        prompt_version = none;
        model_id = none;
        dimension_scores = scores;
        weighted_score = total;
        vetoes = vetoes;
        missing_data = missing;
        decision = decision;
        reasons = map (λ v. v.reason) vetoes;
        reentry_triggers = triggers_for decision missing vetoes;
        context = context;
        independent_assessment = independent;
        thesis_audit = audit;
        evaluated_at = now;
        proposed_position_pct = position_value intent.risk ⊘ intent.risk.account_nav;
        replayed_from_evaluation_id = none;
      }

  unfoldable pub evaluate :
      (TradeProfile → StrategyProfileConfig)
      → TradeIntent
      → TradeContext
      → IndependentAssessment
      → ThesisAuditResult
      → ℤ
      → String
      → Moment
      → Result TradeGateEvaluation
  evaluate profiles intent context independent audit fomo_score id now = do
    let profile = profiles intent.profile
    vetoes ← evaluate_vetoes intent context profile audit fomo_score
    validate_evaluation (draft_evaluation profile intent context independent audit vetoes id now)
