-- ===== src/Factors.antt =====
-- src/astock_lens/factors/builtin.py: the factors of prices and turnover, and
-- src/astock_lens/market/: the evidence that is computed of bars.
pub mod Evidence
pub mod Valuation
pub mod Windows
use a_stock_lens.Base.{
  ℕ, zero, suc, ◌+◌, ◌-◌, Bool, true, false, not, ◌&&◌, ◌||◌, Option, none, some, is_some, List, [],
  ◌∷◌, map, String, length, drop, keep, any, leb, ltb, text_eq, if◌then◌else◌,
}
use a_stock_lens.Base.Sorting.{sort}
use a_stock_lens.Number.{Double, Float, ◌≼◌, ◌≐◌, ◌⊖◌, ◌⊘◌, of_nat, zero_float, sum, max_of}
use a_stock_lens.Domain.{DataStatus, Moment, date}
use a_stock_lens.Domain.Records.{DailyBar, FactorResult, SnapshotLineage, no_lineage}

-- `xs[-n:]`, where xs has n items at least
abbrev pub last_of {ℓ} : {A : Type ℓ} → ℕ → List A → List A
last_of n xs = drop (length xs - n) xs

-- The values that are there.
abbrev pub present {ℓ} : {A : Type ℓ} → List (Option A) → List A
present [] = []
present (none ∷ xs) = present xs
present (some x ∷ xs) = x ∷ present xs

abbrev pub head_of {ℓ} : {A : Type ℓ} → List A → Option A
head_of [] = none
head_of (x ∷ xs) = some x

-- `xs[-1]`
abbrev pub final_of {ℓ} : {A : Type ℓ} → List A → Option A
final_of [] = none
final_of (x ∷ []) = some x
final_of (x ∷ y ∷ xs) = final_of (y ∷ xs)

module _ ⦃d : Double⦄ where
  -- Of FactorContext, and of the dataset in it, what these factors read.
  pub record FactorContext : Type 0 where
    pub symbol : String
    pub as_of : Moment
    pub daily_bars : List DailyBar

  -- Of the configuration the name, the version and the window, which is positive.
  pub record FactorMetadata : Type 0 where
    pub name : String
    pub version : String
    pub window : ℕ

  abbrev pub dated_before : DailyBar → DailyBar → Bool
  dated_before b c = leb b.trade_date c.trade_date

  -- `_trailing`
  unfoldable pub trailing : FactorContext → ℕ → Option (List DailyBar)
  trailing context size =
      let usable = sort dated_before (
        keep (λ b. text_eq b.symbol context.symbol && leb b.trade_date (date context.as_of))
          context.daily_bars) in
      if ltb (length usable) size then none else some (last_of size usable)

  -- `_null_result` and `_value_result`
  abbrev pub result : FactorContext → FactorMetadata → DataStatus → Option Float → FactorResult
  result context metadata status value = record {
    symbol = context.symbol;
    factor = metadata.name;
    as_of = context.as_of;
    status = status;
    factor_version = metadata.version;
    lineage = record no_lineage { factor_version = some metadata.version };
    raw_value = value;
    inputs = [];
    unit = none;
  }

  abbrev pub null_or_value : FactorContext → FactorMetadata → Option Float → FactorResult
  null_or_value context metadata none = result context metadata DataStatus.null none
  null_or_value context metadata (some x) = result context metadata DataStatus.value (some x)

  abbrev pub all_present : List (Option Float) → Bool
  all_present xs = not (any (λ x. not (is_some x)) xs)

  abbrev pub average_amount : ℕ → List DailyBar → Option Float
  average_amount window bars =
      let amounts = map (λ b. b.amount) bars in
      if all_present amounts then some (sum (present amounts) ⊘ of_nat window) else none

  -- `AverageAmountFactor.compute`
  unfoldable pub compute_average_amount : FactorMetadata → FactorContext → FactorResult
  compute_average_amount m context = elim (trailing context m.window) [
    | none ↦ result context m DataStatus.null none
    | some bars ↦ null_or_value context m (average_amount m.window bars)
  ]

  abbrev pub close_of : Option DailyBar → Option Float
  close_of none = none
  close_of (some b) = b.close

  abbrev pub return_between : Option Float → Option Float → Option Float
  return_between (some start) (some end) =
      if start ≐ zero_float then none else some ((end ⊘ start) ⊖ of_nat 1)
  return_between _ _ = none

  abbrev pub trailing_return : List DailyBar → Option Float
  trailing_return bars =
      if all_present (map (λ b. b.close) bars)
      then return_between (close_of (head_of bars)) (close_of (final_of bars))
      else none

  -- `TrailingReturnFactor.compute`: a window of n intervals has n + 1 bars.
  unfoldable pub compute_trailing_return : FactorMetadata → FactorContext → FactorResult
  compute_trailing_return m context = elim (trailing context (m.window + 1)) [
    | none ↦ result context m DataStatus.null none
    | some bars ↦ null_or_value context m (trailing_return bars)
  ]

  abbrev pub share_of_peak : Option Float → Option Float → Option Float
  share_of_peak (some close) (some peak) = if peak ≼ zero_float then none else some (close ⊘ peak)
  share_of_peak _ _ = none

  abbrev pub proximity_to_high : List DailyBar → Option Float
  proximity_to_high bars =
      let highs = map (λ b. b.high) bars in
      if all_present highs
      then share_of_peak (close_of (final_of bars)) (max_of (present highs))
      else none

  -- `ProximityToHighFactor.compute`
  unfoldable pub compute_proximity_to_high : FactorMetadata → FactorContext → FactorResult
  compute_proximity_to_high m context = elim (trailing context m.window) [
    | none ↦ result context m DataStatus.null none
    | some bars ↦ null_or_value context m (proximity_to_high bars)
  ]
