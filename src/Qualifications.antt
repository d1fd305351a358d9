-- ===== src/Qualifications.antt =====
-- src/astock_lens/qualifications/rules.py, common.py and FactorThreshold of config.py: the absolute
-- rule of a strategy and the qualification made of it. `dict(thresholds)` is an association list.
pub mod Gates
use a_stock_lens.Base.{
  ◌≡◌, refl, Bool, true, false, not, ◌&&◌, ◌||◌, Option, none, some, List, [], ◌∷◌, ◌++◌, String,
  text_eq, is_blank, last_such, if◌then◌else◌,
}
use a_stock_lens.Number.{Double, Float, ◌≺◌, ◌≼◌, decimal}
use a_stock_lens.Domain.{is_value}
use a_stock_lens.Domain.Records.{
  FactorResult, StrategyResult, AbsoluteQualificationVerdict, QualificationContext,
  StrategyQualification, Note, about_numbers, about_status, about_text, about_bounds,
}

pub data Error : Type 0 where
  strategy_mismatch : (expected got : String) → Error
  no_version no_percentile : Error

pub data Result (A : Type 0) : Type 0 where
  ok : A → Result A
  err : Error → Result A

module _ ⦃d : Double⦄ where
  pub record FactorThreshold : Type 0 where
    pub min : Option Float
    pub max : Option Float

  pub record FactorThresholdRule : Type 0 where
    pub strategy_id : String
    pub version : String
    pub thresholds : List (String × FactorThreshold)
    pub description : String

  abbrev pub is_below : Option Float → Float → Bool
  is_below none x = false
  is_below (some low) x = x ≺ low

  abbrev pub is_above : Option Float → Float → Bool
  is_above none x = false
  is_above (some high) x = high ≺ x

  abbrev bound_line : String → Float → Option Float → List Note
  bound_line label x none = []
  bound_line label x (some bound) = about_numbers label x bound ∷ []

  -- What one threshold adds to the reasons and to the risks.
  pub record Lines : Type 0 where
    pub reasons : List Note
    pub risks : List Note

  abbrev risk : Note → Lines
  risk n = record { reasons = []; risks = n ∷ [] }

  abbrev below_line : FactorThreshold → Float → List Note
  below_line t x = if is_below t.min x then bound_line "below minimum" x t.min else []

  abbrev above_line : FactorThreshold → Float → List Note
  above_line t x = if is_above t.max x then bound_line "exceeds maximum" x t.max else []

  unfoldable pub bounded : String → FactorThreshold → Float → Lines
  bounded name t x = record {
    reasons =
        if is_below t.min x || is_above t.max x then [] else about_bounds name t.min t.max ∷ [];
    risks = below_line t x ++ above_line t x;
  }

  abbrev lines_of : String → FactorThreshold → FactorResult → Option Float → Lines
  lines_of name t f none = risk (about_text "missing" name)
  lines_of name t f (some x) =
      if not (is_value f.status) then risk (about_status name f.status) else bounded name t x

  abbrev pub lines_for : String → FactorThreshold → Option FactorResult → Lines
  lines_for name t none = risk (about_text "missing" name)
  lines_for name t (some f) = lines_of name t f f.raw_value

  -- `factor_map.get(name)`: the last factor of the name.
  unfoldable pub factor_named : String → List FactorResult → Option FactorResult
  factor_named name factors = last_such (λ f. text_eq f.factor name) factors

  unfoldable pub all_lines : List (String × FactorThreshold) → List FactorResult → Lines
  all_lines [] factors = record { reasons = []; risks = [] }
  all_lines ((name, t) ∷ thresholds) factors =
      let first = lines_for name t (factor_named name factors) in
      let rest = all_lines thresholds factors in
      record { reasons = first.reasons ++ rest.reasons; risks = first.risks ++ rest.risks }

  abbrev pub is_empty : List Note → Bool
  is_empty [] = true
  is_empty (n ∷ ns) = false

  unfoldable pub evaluate :
      FactorThresholdRule → QualificationContext → AbsoluteQualificationVerdict
  evaluate rule context =
      let lines = all_lines rule.thresholds context.factors in
      record { passed = is_empty lines.risks; reasons = lines.reasons; risks = lines.risks }

  -- The rule of the top ten percent.
  abbrev pub top_ten_percent_floor : Float
  top_ten_percent_floor = decimal 90 2

  abbrev pub qualification_of :
      StrategyResult → String → Float → AbsoluteQualificationVerdict → StrategyQualification
  qualification_of result version p verdict = record {
    symbol = result.symbol;
    strategy_id = result.strategy_id;
    strategy_version = result.strategy_version;
    qualification_version = version;
    qualified = top_ten_percent_floor ≼ p && verdict.passed;
    percentile_pass = top_ten_percent_floor ≼ p;
    absolute_pass = verdict.passed;
    rank_percentile = p;
    as_of = some result.as_of;
    reasons = verdict.reasons;
    risks = verdict.risks;
  }

  unfoldable pub build_qualification :
      QualificationContext
      → (expected_strategy_id qualification_version : String) → FactorThresholdRule
      → Result StrategyQualification
  build_qualification context expected version rule =
      let result = context.strategy_result in
      if not (text_eq result.strategy_id expected)
      then err (strategy_mismatch expected result.strategy_id)
      else if is_blank version
      then err no_version
      else elim result.rank_percentile [
        | none ↦ err no_percentile
        | some p ↦ ok (qualification_of result version p (evaluate rule context))
      ]
