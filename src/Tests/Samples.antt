-- ===== src/Tests/Samples.antt =====
-- A watchlist codec whose documents are the entries, and a trade on which the gate is run.
use a_stock_lens.Base.{ℕ, true, none, some, [], ◌∷◌, String, refl}
use a_stock_lens.Base.Int.{ℤ, pos}
use a_stock_lens.Number.Fixed.{fixed}
use a_stock_lens.Domain.{Moment, aware, TradeAction, swing, draft, confirmed, Signal, DataStatus}
use a_stock_lens.Domain.Records.{no_lineage, StrategyQualification, FactorResult}
use a_stock_lens.Watchlist.{WatchlistEntry}
use a_stock_lens.Watchlist.Store.{Codec, valid}
use a_stock_lens.Candidates.{CandidateEvidence}
use a_stock_lens.Candidates.Policy.{RepresentativeCandidatePolicy}
use a_stock_lens.TradeGate.Intent.{TradeIntent, TradeContext}
use a_stock_lens.TradeGate.Records.{StrategyProfileConfig, ThesisAuditResult, IndependentAssessment}

abbrev pub entry_codec : Codec
entry_codec = record {
  Document = WatchlistEntry;
  dump = λ e. e;
  load = λ e. valid e;
  load-dump = λ e. refl;
}

abbrev pub noon : Moment
noon = aware 43200000000 14400000000

abbrev pub evening : Moment
evening = aware 72000000000 43200000000

abbrev pub qualification : String → String → ℕ → StrategyQualification
qualification symbol strategy percentile = record {
  symbol = symbol;
  strategy_id = strategy;
  strategy_version = "v1";
  qualification_version = "q1";
  qualified = true;
  percentile_pass = true;
  absolute_pass = true;
  rank_percentile = pos percentile;
  as_of = some noon;
  reasons = [];
  risks = [];
}

abbrev pub item : String → String → ℕ → Signal → CandidateEvidence
item symbol strategy percentile signal = record {
  symbol = symbol;
  strategy_results = [];
  strategy_qualifications = qualification symbol strategy percentile ∷ [];
  market_validation = some confirmed;
  signal = some signal;
}

abbrev pub policy : RepresentativeCandidatePolicy
policy = record { version = "p1"; soft_reserve_per_strategy = 1; max_candidates = 2 }

abbrev pub profile : StrategyProfileConfig
profile = record {
  id = swing;
  version = "v1";
  pass_threshold = pos 800000;
  wait_threshold = pos 700000;
  weights = ("sector_trend", pos 400000) ∷ ("stock_trend", pos 600000) ∷ [];
  required_ai_dimensions = [];
  enabled_vetoes = "UPSTREAM_MARKET_CONTRADICTED" ∷ "UPSTREAM_BREAKDOWN" ∷ [];
  fomo_wait_threshold = pos 7;
}

abbrev pub intent : TradeIntent
intent = record {
  id = "i1";
  symbol = "600519";
  action = TradeAction.entry;
  profile = swing;
  thesis = "earnings";
  catalyst = none;
  expected_holding_days = pos 20;
  created_at = noon;
  risk = record {
    account_nav = pos 1000000000;
    planned_entry_price = pos 100000;
    stop_loss_price = pos 90000;
    quantity = pos 100;
    invalidation_rule = some "close below 9";
    target_price = some (pos 130000);
  };
  existing_position = none;
  new_independent_confirmation = none;
  status = draft;
}

abbrev pub context : Signal → TradeContext
context signal = record {
  symbol = "600519";
  as_of = noon;
  candidate_status = "SELECTED";
  candidate = none;
  factor_results = [];
  strategy_results = [];
  market_validation = some confirmed;
  signal = some signal;
  lineage = no_lineage;
  overlay = none;
  ret_20d = some (pos 800);
  ret_60d = some (pos 1200);
  volume_ratio_5_20 = none;
  relative_strength_60d = none;
  stock_return_1d = none;
  sector_return_1d = none;
  benchmark_return_1d = none;
  confirmation_met = some true;
  current_price = none;
}

abbrev pub independent : IndependentAssessment
independent = record { summary = "ok"; dimensions = []; risks = []; evidence = [] }

abbrev pub audit : ThesisAuditResult
audit = record {
  dimensions = [];
  priced_in = none;
  supporting_evidence = [];
  counter_evidence = [];
  missing_assumptions = [];
}

abbrev pub factor : String → ℤ → FactorResult
factor name x = record {
  symbol = "600519";
  factor = name;
  as_of = noon;
  status = DataStatus.value;
  factor_version = "f1";
  lineage = no_lineage;
  raw_value = some x;
  inputs = [];
  unit = none;
}
