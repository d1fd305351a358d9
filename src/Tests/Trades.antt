-- ===== src/Tests/Trades.antt =====
-- The gate, its replay, its ledger and its service, run on one trade.
use a_stock_lens.Base.{◌≡◌, refl, ◌↔◌, inr, true, false, List, [], ◌∷◌, map, contains, Memᴰ}
use a_stock_lens.Base.Int.{pos}
use a_stock_lens.Number.{◌≺◌, ◌≼◌}
use a_stock_lens.Number.Fixed.{fixed, fixed-IsOrdered}
use a_stock_lens.Domain.{Signal, breakout, breakdown, pass, no_trade, hard, conditional}
use a_stock_lens.TradeGate.Errors.{ok}
use a_stock_lens.TradeGate.Records.{TradeGateEvaluation, VetoResult, validate_evaluation}
use a_stock_lens.Base.Text.{is_blank}
use a_stock_lens.Base.Dict.{get}
use a_stock_lens.Base.Sorting.{sort}
use a_stock_lens.TradeGate.Scoring.{scores_of, score_swing, clamp}
use a_stock_lens.TradeGate.Veto.{evaluate_vetoes}
use a_stock_lens.TradeGate.Engine.{
  evaluate, draft_evaluation, decide, scores_for, missing_for, add_if, triggers_for,
}
use a_stock_lens.TradeGate.Engine.Decision.{
  evaluate-pass_iff, evaluate_upstream, evaluate-pass_scored,
}
use a_stock_lens.TradeGate.Replay.{replay_decision}
use a_stock_lens.TradeGate.Replay.Laws.{replay_decision-agrees}
use a_stock_lens.Tests.Samples.{profile, intent, context, independent, audit, noon}

abbrev judged_with : List VetoResult → Signal → TradeGateEvaluation
judged_with vetoes signal =
    draft_evaluation profile intent (context signal) independent audit vetoes "e1" noon

abbrev breakdown_veto : VetoResult
breakdown_veto = record {
  code = "UPSTREAM_BREAKDOWN";
  severity = hard;
  reason = "上游信号为 BREAKDOWN";
  active = true;
}

passes :
    evaluate (λ _. profile) intent (context breakout) independent audit (pos 3) "e1" noon
    ≡ ok (judged_with [] breakout)
unfolding evaluate draft_evaluation evaluate_vetoes validate_evaluation scores_for score_swing
    scores_of get clamp decide is_blank missing_for add_if sort triggers_for
passes = refl

has_passed : (judged_with [] breakout).decision ≡ pass
unfolding evaluate draft_evaluation evaluate_vetoes validate_evaluation scores_for score_swing
    scores_of get clamp decide is_blank missing_for add_if sort triggers_for
has_passed = refl

refuses :
    evaluate (λ _. profile) intent (context breakdown) independent audit (pos 3) "e1" noon
    ≡ ok (judged_with (breakdown_veto ∷ []) breakdown)
unfolding evaluate draft_evaluation evaluate_vetoes validate_evaluation scores_for score_swing
    scores_of get clamp decide is_blank missing_for add_if sort triggers_for
refuses = refl

evaluate-pass_iff_example : ((judged_with [] breakout).decision ≡ pass) ↔ (
    ((judged_with [] breakout).vetoes ≡ [])
    × ((judged_with [] breakout).missing_data ≡ [])
    × ((profile.wait_threshold ≼ (judged_with [] breakout).weighted_score) ≡ true)
    × (((judged_with [] breakout).weighted_score ≺ profile.pass_threshold) ≡ false))
evaluate-pass_iff_example =
    evaluate-pass_iff (λ _. profile) intent (context breakout) independent audit (pos 3) "e1" noon
      (judged_with [] breakout) passes

evaluate_upstream_example : (judged_with (breakdown_veto ∷ []) breakdown).decision ≡ no_trade
evaluate_upstream_example =
    evaluate_upstream (λ _. profile) intent (context breakdown) independent audit (pos 3) "e1" noon
      (judged_with (breakdown_veto ∷ []) breakdown) refuses (inr (refl, refl))

evaluate-pass_scored_example :
    contains (map (λ s. s.dimension) (judged_with [] breakout).dimension_scores) "stock_trend"
    ≡ true
evaluate-pass_scored_example =
    evaluate-pass_scored (λ _. profile) intent (context breakout) independent audit (pos 3) "e1"
      noon (judged_with [] breakout) "stock_trend" passes has_passed (Memᴰ.tail (Memᴰ.head refl))

abbrev soft_veto : VetoResult
soft_veto = record {
  code = "RELATIVE_WEAKNESS";
  severity = conditional;
  reason = "板块上涨而个股当日未上涨";
  active = true;
}

replay_decision-agrees_example :
    replay_decision profile (soft_veto ∷ []) [] (pos 750000)
    ≡ decide profile (soft_veto ∷ []) [] (pos 750000)
replay_decision-agrees_example =
    replay_decision-agrees profile (soft_veto ∷ []) [] (pos 750000) fixed-IsOrdered (refl, tt) refl
