-- ===== src/Tests/Qualified.antt =====
-- A qualification, run on one stock.
use a_stock_lens.Base.{◌≡◌, refl, ◌↔◌, true, none, some, [], ◌∷◌, All}
use a_stock_lens.Base.Text.{is_blank}
use a_stock_lens.Base.Int.{pos}
use a_stock_lens.Number.{◌≼◌}
use a_stock_lens.Number.Fixed.{fixed}
use a_stock_lens.Domain.Records.{
  StrategyResult, QualificationContext, StrategyQualification, no_lineage,
}
use a_stock_lens.Qualifications.{
  ok, FactorThresholdRule, evaluate, build_qualification, qualification_of, top_ten_percent_floor,
}
use a_stock_lens.Qualifications.Gates.{
  Meets, evaluate-passed_iff, build_qualification-qualified_iff,
}
use a_stock_lens.Tests.Samples.{noon, factor}

abbrev result : StrategyResult
result = record {
  symbol = "600519";
  strategy_id = "dividend";
  strategy_version = "v1";
  as_of = noon;
  eligible = true;
  lineage = no_lineage;
  score = none;
  rank_percentile = some (pos 9500);
  confidence = none;
  reasons = [];
  risks = [];
  factor_snapshot = [];
  contributions = [];
}

abbrev context : QualificationContext
context = record {
  strategy_result = result;
  factors = factor "dividend_yield_ttm" (pos 42000) ∷ [];
}

abbrev rule : FactorThresholdRule
rule = record {
  strategy_id = "dividend";
  version = "v1";
  thresholds = ("dividend_yield_ttm", record { min = some (pos 30000); max = none }) ∷ [];
  description = "";
}

abbrev qualified : StrategyQualification
qualified = qualification_of result "q1" (pos 9500) (evaluate rule context)

built : build_qualification context "dividend" "q1" rule ≡ ok qualified
unfolding build_qualification is_blank
built = refl

evaluate-passed_iff_example :
    ((evaluate rule context).passed ≡ true) ↔ All (Meets context.factors) rule.thresholds
evaluate-passed_iff_example = evaluate-passed_iff rule context

build_qualification-qualified_iff_example :
    (qualified.strategy_id ≡ "dividend")
    × ((qualified.qualified ≡ true)
        ↔ ((top_ten_percent_floor ≼ pos 9500 ≡ true) × All (Meets context.factors) rule.thresholds))
build_qualification-qualified_iff_example =
    build_qualification-qualified_iff context "dividend" "q1" rule qualified built
