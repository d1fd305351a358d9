-- ===== src/TradeGate/Replay.antt =====
-- src/astock_lens/trade_gate/replay.py: `replay_evaluation`. The new id is an argument. The copy is
-- made by `model_copy`, which runs no check.
pub mod Laws
use a_stock_lens.Base.{
  is_nil, Bool, true, false, not, ◌&&◌, ◌||◌, Option, none, some, List, [], ◌∷◌, String, map, any,
  if◌then◌else◌,
}
use a_stock_lens.Base.Dict.{get}
use a_stock_lens.Number.{Double, Float, ◌≺◌, ◌⊗◌, sum}
use a_stock_lens.Domain.{TradeDecision, pass, wait, no_trade}
use a_stock_lens.TradeGate.Records.{
  DimensionScore, VetoResult, StrategyProfileConfig, TradeGateEvaluation,
}
use a_stock_lens.TradeGate.Engine.{is_hard}

module _ ⦃d : Double⦄ where
  -- `weights.get(item.dimension, item.weight)`
  abbrev weight_of : List (String × Float) → DimensionScore → Float
  weight_of weights item = elim (get item.dimension weights) [ some w ↦ w | none ↦ item.weight ]

  unfoldable pub reweigh : List (String × Float) → DimensionScore → DimensionScore
  reweigh weights item = record item {
    weight = weight_of weights item;
    score = weight_of weights item ⊗ item.ratio;
  }

  unfoldable pub replay_decision :
      StrategyProfileConfig → List VetoResult → List String → Float → TradeDecision
  replay_decision profile vetoes missing score =
      if any (λ v. v.active && is_hard v.severity) vetoes || score ≺ profile.wait_threshold
      then no_trade
      else (if any (λ v. v.active && not (is_hard v.severity)) vetoes
            || score ≺ profile.pass_threshold
            || not (is_nil missing)
          then wait
          else pass)

  abbrev replay_triggers : TradeDecision → List String → List String
  replay_triggers wait [] = "基于当前保存证据重新核验条件" ∷ []
  replay_triggers _ triggers = triggers

  unfoldable pub replay_evaluation :
      TradeGateEvaluation → StrategyProfileConfig → String → TradeGateEvaluation
  replay_evaluation original profile id =
      let dimensions = map (reweigh profile.weights) original.dimension_scores in
      let score = sum (map (λ s. s.score) dimensions) in
      let decision = replay_decision profile original.vetoes original.missing_data score in
      record original {
        id = id;
        profile_version = profile.version;
        rule_set_version = "v1";
        dimension_scores = dimensions;
        weighted_score = score;
        decision = decision;
        reentry_triggers = replay_triggers decision original.reentry_triggers;
        replayed_from_evaluation_id = some original.id;
      }
