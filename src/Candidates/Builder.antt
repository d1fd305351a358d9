-- ===== src/Candidates/Builder.antt =====
-- CandidateBuilder of src/astock_lens/candidates/builder.py: `build` with evidence, and its branch
-- for calls without.
use a_stock_lens.Base.{
  Bool, true, false, Option, none, some, List, [], ◌∷◌, ◌++◌, String, map, keep, contains, text_eq,
  text_leb, if◌then◌else◌,
}
use a_stock_lens.Base.Sorting.{sort}
use a_stock_lens.Number.{Double}
use a_stock_lens.Domain.{NextAction, Signal, Moment}
use a_stock_lens.Domain.Records.{SnapshotLineage, StrategyResult, StrategyQualification, Note, text}
use a_stock_lens.Domain.Lineage.{join_commas, strategy_versions}
use a_stock_lens.Candidates.{
  CandidateEvidence, CandidateSelection, Candidate, Result, ok, err, ◌>>=◌, ◌>>◌, selection_missing,
  symbol_mismatch, undeclared_version, qualified_only, primary_qualified_strategy,
}
use a_stock_lens.Candidates.Policy.{dedupe}

abbrev action_or : Option NextAction → NextAction → NextAction
action_or none other = other
action_or (some a) other = a

abbrev is_weakening : Option Signal → Bool
is_weakening (some Signal.trend_weaken) = true
is_weakening _ = false

module _ ⦃d : Double⦄ where
  abbrev qualified_ids : List StrategyQualification → List String
  qualified_ids qs = map (λ q. q.strategy_id) (qualified_only qs)

  abbrev all_reasons : List StrategyResult → List Note
  all_reasons [] = []
  all_reasons (r ∷ rs) = r.reasons ++ all_reasons rs

  abbrev all_risks : List StrategyResult → List Note
  all_risks [] = []
  all_risks (r ∷ rs) = r.risks ++ all_risks rs

  abbrev qualified_results : CandidateEvidence → List StrategyResult
  qualified_results e =
      keep (λ r. contains (qualified_ids e.strategy_qualifications) r.strategy_id)
        e.strategy_results

  -- `primary_qualified_strategy(qualified_quals) if qualified_quals else ""`
  abbrev primary_or_empty : List StrategyQualification → Result String
  primary_or_empty [] = ok ""
  primary_or_empty (q ∷ qs) = primary_qualified_strategy (q ∷ qs)

  abbrev weakening_risk : Bool → List Note
  weakening_risk true = text "技术信号提示走弱风险 (TREND_WEAKEN)" ∷ []
  weakening_risk false = []

  unfoldable pub build_selected :
      CandidateEvidence
      → Option CandidateSelection
      → Moment
      → SnapshotLineage
      → Option NextAction
      → Result Candidate
  build_selected e none as_of lineage action = err selection_missing
  build_selected e (some s) as_of lineage action =
      if text_eq e.symbol s.symbol
      then (do
        primary ← primary_or_empty (qualified_only e.strategy_qualifications)
        ok (record {
          symbol = s.symbol;
          as_of = as_of;
          next_action =
              if is_weakening e.signal then NextAction.watch else action_or action NextAction.watch;
          lineage = record lineage {
            qualification_version = some (
                join_commas (
                  sort text_leb (
                    dedupe (
                      map (λ q. q.qualification_version)
                        (qualified_only e.strategy_qualifications)))));
            candidate_policy_version = some s.policy_version;
          };
          candidate_policy_version = s.policy_version;
          primary_strategy_id = primary;
          strategy_results = qualified_results e;
          strategy_qualifications = qualified_only e.strategy_qualifications;
          market_validation = e.market_validation;
          signal = e.signal;
          reasons = s.reasons ++ all_reasons (qualified_results e);
          risks = all_risks (qualified_results e) ++ weakening_risk (is_weakening e.signal);
        }))
      else err (symbol_mismatch e.symbol s.symbol)

  check_versions : List String → List StrategyResult → Result (Unit {0})
  check_versions declared [] = ok tt
  check_versions declared (r ∷ rs) = elim r.lineage.strategy_version [
    | none ↦ err (undeclared_version r.strategy_id "None")
    | some v ↦
        if contains declared v
        then check_versions declared rs
        else err (undeclared_version r.strategy_id v)
  ]

  -- `symbol or (strategy_results[0].symbol if strategy_results else "")`
  abbrev symbol_or : Option String → List StrategyResult → String
  symbol_or (some (String.◌∷◌ c s)) rs = String.◌∷◌ c s
  symbol_or _ [] = ""
  symbol_or _ (r ∷ rs) = r.symbol

  unfoldable pub build_legacy :
      Option String
      → Moment
      → List StrategyResult
      → SnapshotLineage
      → Option NextAction
      → List Note
      → Result Candidate
  unfolding check_versions
  build_legacy symbol as_of results lineage action qualification_reasons = do
    check_versions (strategy_versions lineage) results
    ok (record {
      symbol = symbol_or symbol results;
      as_of = as_of;
      next_action = action_or action NextAction.ignore;
      lineage = lineage;
      candidate_policy_version = "legacy";
      primary_strategy_id = "";
      strategy_results = results;
      strategy_qualifications = [];
      market_validation = none;
      signal = none;
      reasons = qualification_reasons ++ all_reasons results;
      risks = all_risks results;
    })

  -- `build`: with evidence by the selection, and without by the legacy branch.
  unfoldable pub build :
      Option String
      → Option CandidateEvidence
      → Option CandidateSelection
      → Moment
      → List StrategyResult
      → SnapshotLineage
      → Option NextAction
      → List Note
      → Result Candidate
  unfolding build_selected build_legacy
  build symbol (some e) selection as_of results lineage action reasons =
      build_selected e selection as_of lineage action
  build symbol none selection as_of results lineage action reasons =
      build_legacy symbol as_of results lineage action reasons
