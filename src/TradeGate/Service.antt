-- ===== src/TradeGate/Service.antt =====
-- TradeGateService of src/astock_lens/trade_gate/service.py over the ledger. The context builder and
-- the audit adapter are arguments (the one reads snapshots, the other runs an external command), and
-- so are the new ids and the times.
pub mod Discipline
use a_stock_lens.Base.{
  is_nil, Bool, true, false, not, ◌&&◌, ◌||◌, Option, none, some, List, [], ◌∷◌, String, text_eq,
  is_blank, is_some, if◌then◌else◌,
}
use a_stock_lens.Base.Int.{ℤ, pos, leb_ℤ}
use a_stock_lens.Number.{Double, Float, ◌≺◌, ◌≼◌, zero_float}
use a_stock_lens.Domain.{MarketValidation, Signal, TradeProfile, TradeDecision, pass, Moment}
use a_stock_lens.TradeGate.Errors.{Error, value_error, Result, ok, err}
use a_stock_lens.TradeGate.Intent.{TradeIntent, TradeContext, TradeMarketOverlay}
use a_stock_lens.TradeGate.Records.{
  IndependentAssessment, ThesisAuditResult, StrategyProfileConfig, TradeGateEvaluation, TradePlan,
  OverrideRecord, ExecutionRecord, TradeReview,
}
use a_stock_lens.TradeGate.Engine.{evaluate}
use a_stock_lens.TradeGate.Ledger.{
  Kind, intents, evaluations, plans, overrides, executions, reviews, Content, Codec, Ledger, write,
  read,
}

module _ ⦃d : Double⦄ where
  pub record Facts : Type 0 where
    pub symbol : String
    pub candidate_status : String
    pub market_validation : Option MarketValidation
    pub signal : Option Signal
    pub ret_20d : Option Float
    pub ret_60d : Option Float
    pub stock_return_1d : Option Float
    pub sector_return_1d : Option Float
    pub confirmation_met : Option Bool

  -- ThesisAuditAdapter
  pub record AuditAdapter : Type 0 where
    pub independent_assessment : TradeProfile → Facts → Result IndependentAssessment
    pub audit_thesis :
        TradeProfile → Facts → IndependentAssessment → String → Result ThesisAuditResult

  -- TradeContextBuilder.build
  abbrev pub BuildContext : Type 0
  BuildContext = String → Moment → Option TradeMarketOverlay → Result TradeContext

  abbrev facts_of : TradeContext → Facts
  facts_of c = record {
    symbol = c.symbol;
    candidate_status = c.candidate_status;
    market_validation = c.market_validation;
    signal = c.signal;
    ret_20d = c.ret_20d;
    ret_60d = c.ret_60d;
    stock_return_1d = c.stock_return_1d;
    sector_return_1d = c.sector_return_1d;
    confirmation_met = c.confirmation_met;
  }

  abbrev moment_or : Option Moment → Moment → Moment
  moment_or none other = other
  moment_or (some m) other = m

  abbrev pub text_or_empty : Option String → String
  text_or_empty none = ""
  text_or_empty (some s) = s

  abbrev pub both_or_neither : Option String → Option String → Bool
  both_or_neither none none = true
  both_or_neither (some a) (some b) = true
  both_or_neither _ _ = false

  abbrev pub is_pass : TradeDecision → Bool
  is_pass TradeDecision.pass = true
  is_pass _ = false

  abbrev pub is_plan_for : String → Option TradePlan → Bool
  is_plan_for evaluation_id none = false
  is_plan_for evaluation_id (some p) = text_eq p.evaluation_id evaluation_id

  abbrev pub is_override_for : String → Option OverrideRecord → Bool
  is_override_for evaluation_id none = false
  is_override_for evaluation_id (some o) = text_eq o.evaluation_id evaluation_id

  module _ (codec : Codec) where
    -- A statement reads and extends the ledger and may raise; what it wrote stays written.
    abbrev pub Action : Type 0 → Type 0
    Action A = Ledger codec → Result A × Ledger codec

    abbrev and_then : {A B : Type 0} → Result A → (A → Action B) → Action B
    and_then (ok a) f = f a
    and_then (err e) f = λ l. (err e, l)

    infixl 5 ◌>>=◌ ◌>>◌
    unfoldable pub ◌>>=◌ : {A B : Type 0} → Action A → (A → Action B) → Action B
    m >>= f = λ l. let (r, l') = m l in and_then r f l'

    abbrev pub ◌>>◌ : {B : Type 0} → Action (Unit {0}) → Action B → Action B
    m >> n = m >>= λ _. n

    unfoldable pub pure : {A : Type 0} → A → Action A
    pure a l = (ok a, l)

    unfoldable pub lift : {A : Type 0} → Result A → Action A
    lift r l = (r, l)

    unfoldable pub raise_if : Bool → String → Action (Unit {0})
    raise_if true message l = (err (value_error message), l)
    raise_if false message l = (ok tt, l)

    abbrev outcome : Result (Ledger codec) → Ledger codec → Result (Unit {0}) × Ledger codec
    outcome (ok l') l = (ok tt, l')
    outcome (err e) l = (err e, l)

    -- `store.write_…` and `store.read_…`
    unfoldable pub store : (k : Kind) → String → Content k → Action (Unit {0})
    store k id x l = outcome (write codec k id x l l) l

    unfoldable pub fetch : (k : Kind) → String → Action (Option (Content k))
    fetch k id l = (read codec k id l, l)

    unfoldable pub present : {A : Type 0} → String → Option A → Action A
    present message none = lift (err (value_error message))
    present message (some a) = pure a

    unfoldable pub find_evaluation : String → Action TradeGateEvaluation
    find_evaluation id = do found ← fetch evaluations id; present "unknown evaluation" found

    unfoldable pub create_and_evaluate :
        BuildContext
        → AuditAdapter
        → (TradeProfile → StrategyProfileConfig)
        → TradeIntent
        → ℤ
        → Option Moment
        → Option TradeMarketOverlay
        → (id : String) (now : Moment) → Action TradeGateEvaluation
    create_and_evaluate build adapter profiles intent fomo_score as_of overlay id now = do
      store intents intent.id intent
      context ← lift (build intent.symbol (moment_or as_of intent.created_at) overlay)
      independent ← lift (adapter.independent_assessment intent.profile (facts_of context))
      audit ←
          lift (adapter.audit_thesis intent.profile (facts_of context) independent intent.thesis)
      evaluation ← lift (evaluate profiles intent context independent audit fomo_score id now)
      store evaluations evaluation.id evaluation
      pure evaluation

    unfoldable pub create_plan : String → (id : String) (now : Moment) → Action TradePlan
    unfolding find_evaluation
    create_plan evaluation_id id now = do
      evaluation ← find_evaluation evaluation_id
      raise_if (not (is_pass evaluation.decision)) "normal plan requires PASS evaluation"
      found ← fetch intents evaluation.intent_id
      intent ← present "evaluation intent is missing" found
      let plan : TradePlan = record {
        id = id;
        evaluation_id = evaluation_id;
        approval_path = "PASS";
        created_at = now;
        entry_price = intent.risk.planned_entry_price;
        stop_price = intent.risk.stop_loss_price;
        target_price = intent.risk.target_price;
      }
      store plans id plan
      pure plan

    -- What a trader gives to override a decision.
    pub record OverrideRequest : Type 0 where
      pub reason : String
      pub evidence : List String
      pub fomo_score : ℤ
      pub manual_position_limit_pct : Float
      pub manual_stop_rule : String
      pub ack_risk : Bool

    unfoldable pub override :
        String → OverrideRequest → (id : String) (now : Moment) → Action OverrideRecord
    unfolding find_evaluation
    override evaluation_id r id now = do
      evaluation ← find_evaluation evaluation_id
      raise_if (is_blank r.reason || is_nil r.evidence || is_blank r.manual_stop_rule)
          "override requires reason, evidence and explicit stop rule"
      raise_if (not r.ack_risk) "override requires explicit risk acknowledgement"
      raise_if (not (leb_ℤ (pos 0) r.fomo_score && leb_ℤ r.fomo_score (pos 10)))
          "fomo_score must be within 0..10"
      raise_if
          (r.manual_position_limit_pct ≺ zero_float
            || evaluation.proposed_position_pct ≼ r.manual_position_limit_pct)
          "override position cap must be smaller than proposed position"
      let made : OverrideRecord = record {
        id = id;
        evaluation_id = evaluation_id;
        reason = r.reason;
        evidence = r.evidence;
        fomo_score = r.fomo_score;
        proposed_position_pct = evaluation.proposed_position_pct;
        manual_position_limit_pct = r.manual_position_limit_pct;
        manual_stop_rule = r.manual_stop_rule;
        ack_risk = true;
        created_at = now;
      }
      store overrides id made
      pure made

    -- The discipline of an execution: by a plan of a passed evaluation, or by an override.
    unfoldable pub discipline_of :
        TradeGateEvaluation → String → Option String → Option String → Action String
    discipline_of evaluation evaluation_id (some plan_id) override_id = do
      raise_if (not (is_pass evaluation.decision)) "execution requires PASS or override"
      plan ← fetch plans plan_id
      raise_if (not (is_plan_for evaluation_id plan))
          "execution requires a persisted plan for this evaluation"
      pure "PASS"
    discipline_of evaluation evaluation_id none override_id = do
      found ← fetch overrides (text_or_empty override_id)
      raise_if (not (is_override_for evaluation_id found))
          "execution requires a persisted override for this evaluation"
      pure "OVERRIDDEN"

    unfoldable pub record_execution :
        String
        → Float
        → ℤ
        → Moment
        → (plan_id override_id : Option String) → (id : String) → Action ExecutionRecord
    unfolding find_evaluation discipline_of
    record_execution evaluation_id fill_price quantity filled_at plan_id override_id id = do
      evaluation ← find_evaluation evaluation_id
      raise_if (fill_price ≼ zero_float || leb_ℤ quantity (pos 0))
          "fill price and quantity must be positive"
      raise_if (both_or_neither plan_id override_id)
          "execution requires exactly one plan or override"
      discipline ← discipline_of evaluation evaluation_id plan_id override_id
      let made : ExecutionRecord = record {
        id = id;
        evaluation_id = evaluation_id;
        plan_id = plan_id;
        override_id = override_id;
        avg_fill_price = fill_price;
        filled_quantity = quantity;
        filled_at = filled_at;
        discipline_status = discipline;
      }
      store executions id made
      pure made

    unfoldable pub record_review : TradeReview → Action TradeReview
    record_review review = do store reviews review.id review; pure review
