-- ===== src/TradeGate/Service/Discipline/Histories.antt =====
-- Whole histories of the service: any requests, in any order, failed ones included.
use a_stock_lens.Base.{◌≡◌, Option, some, List, [], ◌∷◌, String, arith}
use a_stock_lens.Base.Int.{ℤ}
use a_stock_lens.Number.{Double, Float}
use a_stock_lens.Domain.{TradeProfile, Moment}
use a_stock_lens.TradeGate.Errors.{ok}
use a_stock_lens.TradeGate.Intent.{TradeIntent, TradeMarketOverlay}
use a_stock_lens.TradeGate.Records.{StrategyProfileConfig, TradeReview, ExecutionRecord}
use a_stock_lens.TradeGate.Ledger.{executions, Codec, Ledger, file_of, read}
use a_stock_lens.TradeGate.Service.{
  create_and_evaluate, create_plan, override, record_execution, record_review, OverrideRequest,
  BuildContext, AuditAdapter,
}
use a_stock_lens.TradeGate.Service.Discipline.Growth.{
  create_and_evaluate-IsQuiet, create_plan-IsQuiet, override-IsQuiet, record_review-IsQuiet,
}
use a_stock_lens.TradeGate.Service.Discipline.Backing.{IsBacked}
use a_stock_lens.TradeGate.Service.Discipline.Execution.{
  IsDisciplined, quiet-IsDisciplined, record_execution-IsDisciplined,
}

module _ ⦃d : Double⦄ (codec : Codec) where
  -- The statements of TradeGateService that change the ledger.
  pub data Request : Type 0 where
    to_evaluate :
        (intent : TradeIntent) (fomo_score : ℤ) (as_of : Option Moment)
        (overlay : Option TradeMarketOverlay) (id : String) (now : Moment)
        → Request
    to_plan : (evaluation_id id : String) (now : Moment) → Request
    to_override :
        (evaluation_id : String) (asked : OverrideRequest codec) (id : String) (now : Moment)
        → Request
    to_execute :
        (evaluation_id : String) (fill_price : Float) (quantity : ℤ) (filled_at : Moment)
        (plan_id override_id : Option String) (id : String)
        → Request
    to_review : (review : TradeReview) → Request

  module _ (build : BuildContext) (adapter : AuditAdapter)
      (profiles : TradeProfile → StrategyProfileConfig) where
    -- The ledger after one request, whether it returned or raised.
    unfoldable pub serve : Request → Ledger codec → Ledger codec
    serve (to_evaluate intent fomo_score as_of overlay id now) l =
        (create_and_evaluate codec build adapter profiles intent fomo_score as_of overlay id now
          l).1
    serve (to_plan evaluation_id id now) l = (create_plan codec evaluation_id id now l).1
    serve (to_override evaluation_id asked id now) l =
        (override codec evaluation_id asked id now l).1
    serve (to_execute evaluation_id fill_price quantity filled_at plan_id override_id id) l =
        (record_execution codec evaluation_id fill_price quantity filled_at plan_id override_id id
          l).1
    serve (to_review review) l = (record_review codec review l).1

    unfoldable pub serve_all : List Request → Ledger codec → Ledger codec
    serve_all [] l = l
    serve_all (r ∷ requests) l = serve_all requests (serve r l)

    serve-IsDisciplined :
        (r : Request) (l : Ledger codec) → IsDisciplined codec l → IsDisciplined codec (serve r l)
    unfolding serve
    serve-IsDisciplined (to_evaluate intent fomo_score as_of overlay id now) l h =
        quiet-IsDisciplined codec _ l
          (create_and_evaluate-IsQuiet codec build adapter profiles intent fomo_score as_of overlay
            id now)
          h
    serve-IsDisciplined (to_plan evaluation_id id now) l h =
        quiet-IsDisciplined codec _ l (create_plan-IsQuiet codec evaluation_id id now) h
    serve-IsDisciplined (to_override evaluation_id asked id now) l h =
        quiet-IsDisciplined codec _ l (override-IsQuiet codec evaluation_id asked id now) h
    serve-IsDisciplined
          (to_execute evaluation_id fill_price quantity filled_at plan_id override_id id) l h =
        record_execution-IsDisciplined codec evaluation_id fill_price quantity filled_at plan_id
          override_id id l h
    serve-IsDisciplined (to_review review) l h =
        quiet-IsDisciplined codec _ l (record_review-IsQuiet codec review) h

    serve_all-IsDisciplined :
        (requests : List Request) (l : Ledger codec)
        → IsDisciplined codec l
        → IsDisciplined codec (serve_all requests l)
    unfolding serve_all
    serve_all-IsDisciplined [] l h = h
    serve_all-IsDisciplined (r ∷ requests) l h =
        serve_all-IsDisciplined requests (serve r l) (serve-IsDisciplined r l h)

    empty-IsDisciplined : IsDisciplined codec []
    unfolding read file_of
    empty-IsDisciplined id x there = absurd (ground arith)

    -- Whatever requests the service serves from an empty ledger, in whatever order and whether they
    -- return or raise, every execution that can be read from the ledger names an evaluation that is in
    -- it, and has either the status PASS, with that evaluation's decision PASS and a plan in the ledger
    -- for it, or the status OVERRIDDEN, with an override in the ledger for it and no plan.
    pub service_discipline :
        (requests : List Request) (id : String) (x : ExecutionRecord)
        → read codec executions id (serve_all requests []) ≡ ok (some x)
        → IsBacked codec (serve_all requests []) x
    service_discipline requests id x h =
        serve_all-IsDisciplined requests [] empty-IsDisciplined id x h
