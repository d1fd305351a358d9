-- ===== src/Candidates/Policy.antt =====
-- RepresentativeCandidatePolicy of src/astock_lens/candidates/policy.py. Two sets of texts are
-- lists: the strategies, sorted and without repeats, and the reserve, of which only membership counts.
pub mod Selection
pub mod Ranking
pub mod Capacity
pub mod Precedence
pub mod Fullness
use a_stock_lens.Base.{
  ℕ, ◌-◌, leb, ◌==◌, Bool, true, false, not, ◌&&◌, ◌||◌, Option, none, some, List, [], ◌∷◌, ◌++◌,
  String, map, keep, length, take, is_some, contains, text_eq, text_leb, if◌then◌else◌,
}
use a_stock_lens.Base.Sorting.{lex, sort}
use a_stock_lens.Number.{Double, Float, ◌≼◌, negate, max_of, zero_float}
use a_stock_lens.Domain.{MarketValidation, Signal}
use a_stock_lens.Domain.Records.{StrategyQualification, Note, about_number}
use a_stock_lens.Candidates.{
  CandidateEvidence, CandidateSelection, Result, ok, err, incomplete, ◌>>=◌, ◌>>◌, qualified_only,
}

module _ ⦃d : Double⦄ where
  -- The best percentile among those given; validated evidence has one (`max` of none would raise).
  abbrev pub best_of : List StrategyQualification → Float
  best_of qs = elim (max_of (map (λ q. q.rank_percentile) qs)) [ none ↦ zero_float | some x ↦ x ]

  abbrev pub best_percentile : CandidateEvidence → Float
  best_percentile e = best_of (qualified_only e.strategy_qualifications)

  abbrev pub qualified_count : CandidateEvidence → ℕ
  qualified_count e = length (qualified_only e.strategy_qualifications)

  abbrev pub validation_priority : CandidateEvidence → ℕ
  validation_priority e = elim e.market_validation [ some MarketValidation.confirmed ↦ 1 | _ ↦ 0 ]

  abbrev pub by_percentile : CandidateEvidence → CandidateEvidence → Bool
  by_percentile x y = negate (best_percentile x) ≼ negate (best_percentile y)

  abbrev pub by_count : CandidateEvidence → CandidateEvidence → Bool
  by_count x y = leb (qualified_count y) (qualified_count x)

  abbrev pub by_validation : CandidateEvidence → CandidateEvidence → Bool
  by_validation x y = leb (validation_priority y) (validation_priority x)

  abbrev pub by_symbol : CandidateEvidence → CandidateEvidence → Bool
  by_symbol x y = text_leb x.symbol y.symbol

  -- "Not behind" in the order of `_priority_key`: the negated numbers ascending, then the symbol.
  unfoldable pub priority_before : CandidateEvidence → CandidateEvidence → Bool
  priority_before = lex by_percentile (lex by_count (lex by_validation by_symbol))

  unfoldable pub check_complete : List CandidateEvidence → Result (Unit {0})
  check_complete [] = ok tt
  check_complete (e ∷ es) =
      if is_some e.market_validation && is_some e.signal
      then check_complete es
      else err (incomplete e.symbol e.market_validation e.signal)

  abbrev pub is_contradicted : Option MarketValidation → Bool
  is_contradicted (some MarketValidation.contradicted) = true
  is_contradicted _ = false

  abbrev pub is_breakdown : Option Signal → Bool
  is_breakdown (some Signal.breakdown) = true
  is_breakdown _ = false

  -- Neither veto holds.
  abbrev pub is_eligible : CandidateEvidence → Bool
  is_eligible e = not (is_contradicted e.market_validation) && not (is_breakdown e.signal)

  unfoldable pub dedupe : List String → List String
  dedupe [] = []
  dedupe (s ∷ ss) = if contains ss s then dedupe ss else s ∷ dedupe ss

  abbrev pub ids_of : List CandidateEvidence → List String
  ids_of [] = []
  ids_of (e ∷ es) = map (λ q. q.strategy_id) (qualified_only e.strategy_qualifications) ++ ids_of es

  unfoldable pub strategy_ids : List CandidateEvidence → List String
  strategy_ids eligible = sort text_leb (dedupe (ids_of eligible))

  abbrev pub matching : String → CandidateEvidence → List StrategyQualification
  matching id e = keep (λ q. text_eq q.strategy_id id && q.qualified) e.strategy_qualifications

  -- The pairs (best percentile in the strategy, symbol) of the items that qualify for it.
  abbrev pub strategy_items : String → List CandidateEvidence → List (Float × String)
  strategy_items id [] = []
  strategy_items id (e ∷ es) = elim (matching id e) [
    | [] ↦ strategy_items id es
    | q ∷ qs ↦ (best_of (q ∷ qs), e.symbol) ∷ strategy_items id es
  ]

  abbrev pub rank_before : Float × String → Float × String → Bool
  rank_before = lex (λ p q. negate p.0 ≼ negate q.0) (λ p q. text_leb p.1 q.1)

  -- The symbols that lead the strategy.
  unfoldable pub leaders : ℕ → String → List CandidateEvidence → List String
  leaders per_strategy id eligible =
      map (λ p. p.1) (take per_strategy (sort rank_before (strategy_items id eligible)))

  unfoldable pub reserve_of : ℕ → List String → List CandidateEvidence → List String
  reserve_of per_strategy [] eligible = []
  reserve_of per_strategy (id ∷ ids) eligible =
      leaders per_strategy id eligible ++ reserve_of per_strategy ids eligible

  pub record RepresentativeCandidatePolicy : Type 0 where
    pub version : String
    pub soft_reserve_per_strategy : ℕ
    pub max_candidates : ℕ

  module _ (policy : RepresentativeCandidatePolicy) where
    open policy use {version, soft_reserve_per_strategy, max_candidates}

    unfoldable pub reserve_symbols : List CandidateEvidence → List String
    reserve_symbols eligible = reserve_of soft_reserve_per_strategy (strategy_ids eligible) eligible

    abbrev pub is_reserved : List CandidateEvidence → CandidateEvidence → Bool
    is_reserved eligible e = contains (reserve_symbols eligible) e.symbol

    abbrev pub reserved_items : List CandidateEvidence → List CandidateEvidence
    reserved_items eligible = keep (is_reserved eligible) eligible

    -- The slots that the reserve leaves; none if it takes them all.
    abbrev pub filled_items : List CandidateEvidence → List CandidateEvidence
    filled_items eligible =
        take (max_candidates - length (reserved_items eligible))
          (sort priority_before (keep (λ e. not (is_reserved eligible e)) eligible))

    unfoldable pub selected_evidence : List CandidateEvidence → List CandidateEvidence
    selected_evidence eligible =
        sort priority_before (reserved_items eligible ++ filled_items eligible)

    unfoldable pub selection_of : CandidateEvidence → CandidateSelection
    selection_of e = record {
      symbol = e.symbol;
      policy_version = version;
      reasons =
          map (λ q. about_number q.strategy_id q.rank_percentile)
            (qualified_only e.strategy_qualifications);
    }

    unfoldable pub select : List CandidateEvidence → Result (List CandidateSelection)
    select evidence = do
      check_complete evidence
      elim (keep is_eligible evidence) [
        | [] ↦ ok []
        | e ∷ es ↦ ok (map selection_of (selected_evidence (e ∷ es)))
      ]
