-- ===== src/TradeGate/Replay/Laws.antt =====
-- Where a replay under the profile of the evaluation agrees with the engine.
use a_stock_lens.Base.{
  is_nil, ◌≡◌, refl, true, false, not, ◌&&◌, List, [], ◌∷◌, String, any, All, arith,
}
use a_stock_lens.Number.{Double, Float, IsOrdered, ◌≼◌}
use a_stock_lens.TradeGate.Records.{
  VetoResult, StrategyProfileConfig, TradeGateEvaluation, waits_for_nothing,
}
use a_stock_lens.TradeGate.Engine.{is_hard, decide}
use a_stock_lens.TradeGate.Replay.{replay_decision, replay_evaluation}

module _ ⦃d : Double⦄ where
  -- Every veto that the engine records is active.
  abbrev pub AllActive : List VetoResult → Type 0
  AllActive = All (λ v. v.active ≡ true)

  any-active-hard :
      (vetoes : List VetoResult)
      → AllActive vetoes
      → any (λ v. v.active && is_hard v.severity) vetoes ≡ any (λ v. is_hard v.severity) vetoes
  any-active-hard [] h = refl
  any-active-hard (v ∷ vs) h = ground (arith, any-active-hard vs h.1)

  any-active-conditional :
      (vetoes : List VetoResult)
      → AllActive vetoes
      → any (λ v. is_hard v.severity) vetoes ≡ false
      → any (λ v. v.active && not (is_hard v.severity)) vetoes ≡ not (is_nil vetoes)
  any-active-conditional [] h k = refl
  any-active-conditional (v ∷ vs) h k = ground (arith, h.0)

  -- Where the score reaches the waiting threshold and every veto is active, as the engine records
  -- them, the replay takes the engine's decision for the same profile, vetoes, missing data and
  -- score; the floats are ordered.
  pub replay_decision-agrees :
      (profile : StrategyProfileConfig) (vetoes : List VetoResult) (missing : List String)
      (total : Float)
      → IsOrdered d
      → AllActive vetoes
      → (profile.wait_threshold ≼ total) ≡ true
      → replay_decision profile vetoes missing total ≡ decide profile vetoes missing total
  unfolding replay_decision decide
  replay_decision-agrees profile vetoes missing total ordered active high = ground (
    arith,
    ordered.lt-eq-not-le total profile.wait_threshold,
    any-active-hard vetoes active,
    any-active-conditional vetoes active,
  )

  -- A replay that waits has triggers.
  pub replay_evaluation-triggers :
      (original : TradeGateEvaluation) (profile : StrategyProfileConfig) (id : String)
      → let e = replay_evaluation original profile id in
        waits_for_nothing e.decision e.reentry_triggers ≡ false
  unfolding replay_evaluation
  replay_evaluation-triggers original profile id = ground arith
