-- ===== src/Quality.antt =====
-- src/astock_lens/data/quality/gate.py: the judgement of the daily bars of a dataset.
pub mod Accepted
use a_stock_lens.Base.{
  ℕ, zero, suc, ◌+◌, ◌-◌, Bool, true, false, not, ◌&&◌, Option, none, some, List, [], ◌∷◌, ◌++◌,
  String, length, keep, any, is_nil, ltb, ◌==◌, text_eq, if◌then◌else◌,
}
use a_stock_lens.Number.{Double, Float, ◌≺◌, ◌≼◌, zero_float}
use a_stock_lens.Domain.{DataStatus, Moment}
use a_stock_lens.Domain.Records.{DailyBar}

pub data ErrorSeverity : Type 0 where
  p0 p1 p2 p3 : ErrorSeverity

abbrev pub is_invalid : DataStatus → Bool
is_invalid DataStatus.invalid = true
is_invalid _ = false

abbrev pub is_blocking : ErrorSeverity → Bool
is_blocking p0 = true
is_blocking p1 = true
is_blocking _ = false

-- The rules by their names; a message only words what the rule and the bar tell.
pub data Rule : Type 0 where
  close_missing close_not_positive volume_negative duplicate_primary_key dataset_empty : Rule

abbrev pub severity_by_rule : Rule → ErrorSeverity
severity_by_rule dataset_empty = p1
severity_by_rule _ = p2

pub record QualityIssue : Type 0 where
  pub rule : Rule
  pub status : DataStatus
  pub severity : ErrorSeverity
  pub symbol : Option String
  pub trade_date : Option ℕ

pub record QualityReport : Type 0 where
  pub dataset : String
  pub as_of : Moment
  pub checked : ℕ
  pub accepted : ℕ
  pub rules_version : String
  pub issues : List QualityIssue

unfoldable pub blocking : QualityReport → List QualityIssue
blocking report = keep (λ i. is_blocking i.severity) report.issues

module _ ⦃d : Double⦄ where
  -- Of NormalizedDataset what the gate reads.
  pub record NormalizedDataset : Type 0 where
    pub dataset : String
    pub as_of : Moment
    pub daily_bars : List DailyBar

  abbrev pub same_key : DailyBar → DailyBar → Bool
  same_key b c = text_eq b.symbol c.symbol && b.trade_date == c.trade_date

  -- `key_counts[(bar.symbol, bar.trade_date)]`
  abbrev pub key_count : List DailyBar → DailyBar → ℕ
  key_count bars b = length (keep (same_key b) bars)

  abbrev pub issue : Rule → DailyBar → QualityIssue
  issue rule bar = record {
    rule = rule;
    status = DataStatus.invalid;
    severity = severity_by_rule rule;
    symbol = some bar.symbol;
    trade_date = some bar.trade_date;
  }

  -- The findings of the loop on one bar.
  unfoldable pub close_issues : DailyBar → List QualityIssue
  close_issues bar = elim bar.close [
    | none ↦ issue close_missing bar ∷ []
    | some c ↦ if c ≼ zero_float then issue close_not_positive bar ∷ [] else []
  ]

  unfoldable pub volume_issues : DailyBar → List QualityIssue
  volume_issues bar = elim bar.volume [
    | none ↦ []
    | some v ↦ if v ≺ zero_float then issue volume_negative bar ∷ [] else []
  ]

  unfoldable pub duplicate_issues : List DailyBar → DailyBar → List QualityIssue
  duplicate_issues bars bar =
      if ltb 1 (key_count bars bar) then issue duplicate_primary_key bar ∷ [] else []

  unfoldable pub bar_issues : List DailyBar → DailyBar → List QualityIssue
  bar_issues bars bar = close_issues bar ++ (volume_issues bar ++ duplicate_issues bars bar)

  -- The loop: the findings, and the number of the bars that are flagged.
  unfoldable pub all_issues : List DailyBar → List DailyBar → List QualityIssue
  all_issues bars [] = []
  all_issues bars (bar ∷ rest) = bar_issues bars bar ++ all_issues bars rest

  unfoldable pub flagged_count : List DailyBar → List DailyBar → ℕ
  flagged_count bars [] = 0
  flagged_count bars (bar ∷ rest) =
      let later = flagged_count bars rest in
      if is_nil (bar_issues bars bar) then later else suc later

  abbrev empty_issue : QualityIssue
  empty_issue = record {
    rule = dataset_empty;
    status = DataStatus.source_error;
    severity = severity_by_rule dataset_empty;
    symbol = none;
    trade_date = none;
  }

  unfoldable pub check : String → NormalizedDataset → QualityReport
  check rules_version ds =
      let bars = ds.daily_bars in
      if is_nil bars
      then record {
        dataset = ds.dataset;
        as_of = ds.as_of;
        checked = 0;
        accepted = 0;
        rules_version = rules_version;
        issues = empty_issue ∷ [];
      }
      else record {
        dataset = ds.dataset;
        as_of = ds.as_of;
        checked = length bars;
        accepted = length bars - flagged_count bars bars;
        rules_version = rules_version;
        issues = all_issues bars bars;
      }

  -- A key of `invalid_keys` that an issue adds.
  abbrev pub names_key : DailyBar → QualityIssue → Bool
  names_key bar i = is_invalid i.status && (elim i.symbol [
    | none ↦ false
    | some s ↦ elim i.trade_date [
      | none ↦ false
      | some t ↦ text_eq s bar.symbol && t == bar.trade_date
    ]
  ])

  unfoldable pub valid_bars : NormalizedDataset → QualityReport → List DailyBar
  valid_bars ds report = keep (λ b. not (any (names_key b) report.issues)) ds.daily_bars
