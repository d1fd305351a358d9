-- ===== src/Candidates.antt =====
-- src/astock_lens/candidates/: models.py, context.py, routing.py and the records of policy.py.
pub mod Policy
pub mod Builder
use a_stock_lens.Base.{
  ◌≡◌, refl, Bool, true, false, not, ◌&&◌, ◌||◌, Option, none, some, List, [], ◌∷◌, String, keep,
  any, all, text_eq, text_leb, if◌then◌else◌,
}
use a_stock_lens.Base.Sorting.{lex, sort}
use a_stock_lens.Number.{Double, Float, ◌≼◌, negate}
use a_stock_lens.Domain.{MarketValidation, Signal, NextAction, Moment}
use a_stock_lens.Domain.Records.{SnapshotLineage, StrategyResult, StrategyQualification, Note}

pub data Error : Type 0 where
  foreign_result foreign_qualification : (symbol other : String) → Error
  nothing_qualified : (symbol : String) → Error
  incomplete : (symbol : String) → Option MarketValidation → Option Signal → Error
  no_qualified_strategy : Error
  selection_missing : Error
  symbol_mismatch : (evidence selection : String) → Error
  undeclared_version : (strategy version : String) → Error

pub data Result {ℓ} (A : Type ℓ) : Type ℓ where
  err : Error → Result A
  ok : A → Result A

infixl 5 ◌>>=◌ ◌>>◌
abbrev pub ◌>>=◌ {ℓ κ} : {X : Type ℓ} {Y : Type κ} → Result X → (X → Result Y) → Result Y
err e >>= next = err e
ok x >>= next = next x

abbrev pub ◌>>◌ {ℓ} : {Y : Type ℓ} → Result (Unit {0}) → Result Y → Result Y
step >> rest = step >>= λ _. rest

module _ ⦃d : Double⦄ where
  pub record CandidateEvidence : Type 0 where
    pub symbol : String
    pub strategy_results : List StrategyResult
    pub strategy_qualifications : List StrategyQualification
    pub market_validation : Option MarketValidation
    pub signal : Option Signal

  pub record CandidateSelection : Type 0 where
    pub symbol : String
    pub policy_version : String
    pub reasons : List Note

  pub record Candidate : Type 0 where
    pub symbol : String
    pub as_of : Moment
    pub next_action : NextAction
    pub lineage : SnapshotLineage
    pub candidate_policy_version : String
    pub primary_strategy_id : String
    pub strategy_results : List StrategyResult
    pub strategy_qualifications : List StrategyQualification
    pub market_validation : Option MarketValidation
    pub signal : Option Signal
    pub reasons : List Note
    pub risks : List Note

  abbrev pub qualified_only : List StrategyQualification → List StrategyQualification
  qualified_only qs = keep (λ q. q.qualified) qs

  check_results : String → List StrategyResult → Result (Unit {0})
  check_results symbol [] = ok tt
  check_results symbol (r ∷ rs) =
      if text_eq r.symbol symbol
      then check_results symbol rs
      else err (foreign_result symbol r.symbol)

  check_qualifications : String → List StrategyQualification → Result (Unit {0})
  check_qualifications symbol [] = ok tt
  check_qualifications symbol (q ∷ qs) =
      if text_eq q.symbol symbol
      then check_qualifications symbol qs
      else err (foreign_qualification symbol q.symbol)

  -- `CandidateEvidence._validate_evidence`, which runs when the record is built.
  unfoldable pub validate_evidence : CandidateEvidence → Result CandidateEvidence
  unfolding check_results check_qualifications
  validate_evidence e = do
    check_results e.symbol e.strategy_results
    check_qualifications e.symbol e.strategy_qualifications
    if any (λ q. q.qualified) e.strategy_qualifications
        then ok e
        else err (nothing_qualified e.symbol)

  -- `primary_qualified_strategy`: `min` keeps the first of equals. A tuple key is compared by its
  -- first part, and by its second where that ties.
  abbrev pub primary_before : StrategyQualification → StrategyQualification → Bool
  primary_before =
      lex (λ p q. negate p.rank_percentile ≼ negate q.rank_percentile)
        (λ p q. text_leb p.strategy_id q.strategy_id)

  unfoldable pub first_of_all :
      StrategyQualification → List StrategyQualification → StrategyQualification
  first_of_all best [] = best
  first_of_all best (q ∷ qs) = first_of_all (if primary_before best q then best else q) qs

  unfoldable pub primary_qualified_strategy : List StrategyQualification → Result String
  primary_qualified_strategy qs = elim (qualified_only qs) [
    | [] ↦ err no_qualified_strategy
    | q ∷ rest ↦ ok (first_of_all q rest).strategy_id
  ]

  -- What `next_action_for` is asked about.
  pub data Verdict : Type 0 where
    legacy : (qualified : Bool) → Verdict
    selected : CandidateSelection → Verdict

  unfoldable pub next_action_for : Option Verdict → NextAction
  next_action_for none = NextAction.ignore
  next_action_for (some (selected s)) = NextAction.watch
  next_action_for (some (legacy q)) = if q then NextAction.watch else NextAction.ignore
