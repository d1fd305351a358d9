-- ===== src/Tests/Scores.antt =====
-- Three stocks in a cross-section, one of them without the factor.
use mathlib.Core.Option
use mathlib.Core.List.{Nodup}
use a_stock_lens.Base.{◌≡◌, refl, true, none, some, List, [], ◌∷◌, ◌*◌, false, String, keep}
use a_stock_lens.Base.Dict.{get, put, put_all, keys}
use a_stock_lens.Base.Distinct.{unique, unique-Nodup}
use a_stock_lens.Base.Int.{ℤ, pos, pos_part}
use a_stock_lens.Base.Raise.{ok}
use a_stock_lens.Base.Sorting.{sort, insert_sorted}
use a_stock_lens.Number.Fixed.{fixed, fixed-IsOrdered}
use a_stock_lens.Domain.Records.{StrategyContext, EligibilityResult, StrategyResult, about_text}
use a_stock_lens.Strategies.{
  required_values_are_present, missing_value, missing_values, evidence_result, oriented_value,
  value_of,
}
use a_stock_lens.Strategies.Scoring.{percentile_ranks, ranks_from, equal_run}
use a_stock_lens.Strategies.Scoring.Runs.{average_rank}
use a_stock_lens.Strategies.Scoring.Ranks.{percentile_ranks-average}
use a_stock_lens.Strategies.Scorer.{
  score_cross_section, cross_section, oriented_ranks, blend, percentile, contributions, result_of,
  scored_result, total_weight,
}
use a_stock_lens.Strategies.Scorer.Isolation.{score_cross_section-keep}
use a_stock_lens.Tests.Samples.{noon, factor}

abbrev momenta : List (String × ℤ)
momenta = ("600519", pos 9000) ∷ ("000001", pos 4000) ∷ ("300750", pos 9000) ∷ []

momenta-Nodup : Nodup (keys momenta)
unfolding unique
momenta-Nodup = unique-Nodup ("600519" ∷ "000001" ∷ "300750" ∷ [])

percentile_ranks-average_example :
    get "600519" (percentile_ranks momenta)
    ≡ Option.map (average_rank momenta) (get "600519" momenta)
percentile_ranks-average_example =
    percentile_ranks-average fixed-IsOrdered momenta "600519" momenta-Nodup

-- Two share the positions 2 and 3 of 3.
tied : get "300750" (percentile_ranks momenta) ≡ some (pos 8333)
unfolding get percentile_ranks ranks_from equal_run sort put_all put
tied = refl

abbrev context : String → ℤ → StrategyContext
context symbol x = record {
  symbol = symbol;
  as_of = noon;
  factors = factor "roe" x ∷ [];
  market_regime = none;
}

abbrev bare : StrategyContext
bare = record { symbol = "300750"; as_of = noon; factors = []; market_regime = none }

abbrev weights : List (String × ℤ)
weights = ("roe", pos 10000) ∷ []

abbrev rule : StrategyContext → EligibilityResult
rule c = required_values_are_present c weights

abbrev contexts : List StrategyContext
contexts = context "600519" (pos 300) ∷ bare ∷ context "000001" (pos 100) ∷ []

abbrev scored : String → ℤ → ℤ → StrategyResult
scored symbol x p =
    evidence_result (context symbol x) (record { eligible = true; reasons = [] }) "quality" "v1"
      (some (pos (100 * pos_part p))) (some p)
      (record { factor = "roe"; percentile = p; weight = pos 10000; weighted = p } ∷ [])

abbrev results : List StrategyResult
results =
    scored "600519" (pos 300) (pos 10000)
    ∷ evidence_result bare
        (record {
          eligible = false;
          reasons = about_text "was not computed for this symbol" "roe" ∷ [];
        })
        "quality" "v1" none none []
    ∷ scored "000001" (pos 100) (pos 5000)
    ∷ []

computed : score_cross_section "quality" "v1" contexts weights rule ≡ ok results
unfolding score_cross_section cross_section oriented_ranks blend percentile contributions result_of
    scored_result total_weight required_values_are_present missing_value missing_values
    evidence_result oriented_value value_of percentile_ranks ranks_from equal_run sort insert_sorted
    put_all put get
computed = refl

score_cross_section-keep_example :
    score_cross_section "quality" "v1" (keep (λ c. (rule c).eligible) contexts) weights rule
    ≡ ok (keep (λ r. r.eligible) results)
score_cross_section-keep_example =
    score_cross_section-keep "quality" "v1" weights rule contexts results computed
