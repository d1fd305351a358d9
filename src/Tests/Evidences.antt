-- ===== src/Tests/Evidences.antt =====
-- Bars of one stock on 61 days, and what a factor and the evidence of a benchmark make of them.
use a_stock_lens.Base.{ℕ, zero, suc, ◌+◌, ◌≡◌, refl, none, some, List, [], ◌∷◌, String, length}
use a_stock_lens.Base.Int.{pos}
use a_stock_lens.Base.Raise.{ok}
use a_stock_lens.Base.Sorting.{sort, insert_sorted}
use a_stock_lens.Number.Fixed.{fixed}
use a_stock_lens.Domain.{date}
use a_stock_lens.Domain.Records.{DailyBar}
use a_stock_lens.Factors.{
  FactorContext, FactorMetadata, last_of, compute_average_amount, compute_trailing_return,
  compute_proximity_to_high,
}
use a_stock_lens.Factors.Evidence.{
  BenchmarkEvidence, benchmark_bars, evidence_from, evidence_of, compute_benchmark_evidence,
}
use a_stock_lens.Factors.Windows.{
  HasReturn, without_others, compute-own_bars, compute_benchmark_evidence-window,
}
use a_stock_lens.Tests.Samples.{noon}

abbrev bar : String → ℕ → DailyBar
bar symbol day = record {
  symbol = symbol;
  trade_date = day;
  open_price = none;
  high = some (pos 20000);
  low = none;
  close = some (pos 10000);
  pre_close = none;
  volume = some (pos 100);
  amount = some (pos 30000);
  turnover_rate = none;
  pct_change = none;
  adj_factor = none;
}

abbrev few_bars : List DailyBar
few_bars =
    bar "600519" 0 ∷ bar "000001" 0 ∷ bar "600519" (date noon) ∷ bar "600519" (date noon + 1) ∷ []

abbrev context : FactorContext
context = record { symbol = "600519"; as_of = noon; daily_bars = few_bars }

abbrev metadata : FactorMetadata
metadata = record { name = "ret_20d"; version = "v1"; window = 1 }

compute-own_bars_example :
    (compute_average_amount metadata (without_others context)
      ≡ compute_average_amount metadata context)
    × (compute_trailing_return metadata (without_others context)
        ≡ compute_trailing_return metadata context)
    × (compute_proximity_to_high metadata (without_others context)
        ≡ compute_proximity_to_high metadata context)
compute-own_bars_example = compute-own_bars metadata context

-- The bars of n days, the last first.
abbrev days : ℕ → List DailyBar
days zero = []
days (suc n) = bar "000300" 0 ∷ days n

abbrev evidence : BenchmarkEvidence
evidence = record {
  benchmark_id = "000300";
  as_of = noon;
  ret_60d = pos 0;
  trend_value = pos 10000;
  source = "store";
}

days-evidence : compute_benchmark_evidence "000300" (days 61) noon "store" ≡ ok evidence
unfolding compute_benchmark_evidence benchmark_bars sort insert_sorted evidence_from evidence_of
days-evidence = refl

compute_benchmark_evidence-window_example :
    (length (last_of 60 (benchmark_bars (date noon) (days 61))) ≡ 60)
    × (compute_benchmark_evidence "000300"
          (last_of 60 (benchmark_bars (date noon) (days 61)))
          noon
          "store"
        ≡ ok evidence)
    × HasReturn (last_of 60 (benchmark_bars (date noon) (days 61))) (pos 0)
compute_benchmark_evidence-window_example =
    compute_benchmark_evidence-window "000300" (days 61) noon "store" evidence days-evidence
