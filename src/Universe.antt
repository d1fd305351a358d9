-- ===== src/Universe.antt =====
-- src/astock_lens/universe/: which stocks a scan considers, and why it does not consider the others.
-- A detail of an exclusion words the rule and the values of the profile, and is left out.
pub mod Exclusions
pub mod Scan
pub mod Membership
use a_stock_lens.Base.{
  ℕ, zero, suc, ◌+◌, Bool, true, false, not, ◌&&◌, Option, none, some, is_some, List, [], ◌∷◌, ◌++◌,
  map, String, keep, any, is_nil, leb, ltb, ◌==◌, contains, text_eq, text_leb, if◌then◌else◌,
}
use a_stock_lens.Base.Dict.{get}
use a_stock_lens.Base.Int.{ℤ, pos, sub_ℕ, ltb_ℤ}
use a_stock_lens.Base.Sorting.{sort}
use a_stock_lens.Base.Raise.{Result, ok, ◌>>=◌, ◌>>◌, raise_if}
use a_stock_lens.Number.{Double, Float, ◌≺◌}
use a_stock_lens.Domain.{Moment, is_aware, is_value, date}
use a_stock_lens.Domain.Records.{SnapshotLineage, no_lineage, DailyBar, FactorResult}

pub record SecurityProfile : Type 0 where
  pub symbol : String
  pub name : String
  pub exchange : String
  pub list_date : ℕ
  pub is_st : Bool
  pub is_delisting_board : Bool
  pub suspended_trading_days : Option ℕ

pub data UniverseRule : Type 0 where
  exchange st delisting_board long_suspension short_listing low_liquidity : UniverseRule
  no_market_data no_liquidity_measure duplicate_security : UniverseRule

pub record UniverseExclusion : Type 0 where
  pub symbol : String
  pub rule : UniverseRule

pub record UniverseSnapshot : Type 0 where
  pub as_of : Moment
  pub snapshot_id : String
  pub config_digest : String
  pub lineage : SnapshotLineage
  pub included : List String
  pub exclusions : List UniverseExclusion
  pub deferred_rules : List UniverseRule

pub record PrefilterResult : Type 0 where
  pub included : List String
  pub excluded : List UniverseExclusion

abbrev pub exclude_if : Bool → SecurityProfile → UniverseRule → List UniverseExclusion
exclude_if failing p rule = if failing then (record { symbol = p.symbol; rule = rule }) ∷ [] else []

abbrev pub symbol_before : SecurityProfile → SecurityProfile → Bool
symbol_before p q = text_leb p.symbol q.symbol

-- `require_timezone`
abbrev pub require_timezone : Moment → Result (Unit {0})
require_timezone as_of = raise_if (not (is_aware as_of)) "as_of must be timezone-aware"

-- The loop of `build`, over the sorted profiles, with the symbols that it has seen.
unfoldable pub scan :
    (SecurityProfile → List UniverseExclusion)
    → List String
    → List SecurityProfile
    → PrefilterResult
scan evaluation seen [] = record { included = []; excluded = [] }
scan evaluation seen (p ∷ ps) =
    let again = contains seen p.symbol in
    let found = evaluation p in
    let later = scan evaluation (if again then seen else p.symbol ∷ seen) ps in
    if again
    then record later {
      excluded = (record { symbol = p.symbol; rule = duplicate_security }) ∷ later.excluded;
    }
    else (if is_nil found
        then record later { included = p.symbol ∷ later.included }
        else record later { excluded = found ++ later.excluded })

module _ ⦃d : Double⦄ where
  pub record UniverseConfig : Type 0 where
    pub exchanges : List String
    pub min_average_turnover_20d : Float
    pub min_listing_days : ℤ
    pub exclude_st : Bool
    pub exclude_delisting_board : Bool
    pub exclude_long_suspension : Bool
    pub long_suspension_days : Option ℕ
    pub require_valid_market_data : Bool

  -- A rule's exclusion of a profile, if it fails.
  unfoldable pub exchange_exclusion :
      SecurityProfile → UniverseConfig → Moment → List UniverseExclusion
  exchange_exclusion p config as_of =
      exclude_if (not (contains config.exchanges p.exchange)) p UniverseRule.exchange

  unfoldable pub st_exclusion : SecurityProfile → UniverseConfig → Moment → List UniverseExclusion
  st_exclusion p config as_of = exclude_if (config.exclude_st && p.is_st) p st

  unfoldable pub delisting_board_exclusion :
      SecurityProfile → UniverseConfig → Moment → List UniverseExclusion
  delisting_board_exclusion p config as_of =
      exclude_if (config.exclude_delisting_board && p.is_delisting_board) p delisting_board

  abbrev at_least : Option ℕ → Option ℕ → Bool
  at_least (some days) (some threshold) = leb threshold days
  at_least _ _ = false

  unfoldable pub long_suspension_exclusion :
      SecurityProfile → UniverseConfig → Moment → List UniverseExclusion
  long_suspension_exclusion p config as_of =
      exclude_if
        (config.exclude_long_suspension
          && at_least p.suspended_trading_days config.long_suspension_days)
        p long_suspension

  unfoldable pub short_listing_exclusion :
      SecurityProfile → UniverseConfig → Moment → List UniverseExclusion
  short_listing_exclusion p config as_of =
      exclude_if (ltb_ℤ (sub_ℕ (date as_of) p.list_date) config.min_listing_days) p short_listing

  -- BUILDER_RULE_CHECKS and LISTING_RULE_CHECKS, in the order in which verdicts are reported.
  unfoldable pub builder_rule_checks :
      SecurityProfile → UniverseConfig → Moment → List UniverseExclusion
  builder_rule_checks p config as_of =
      exchange_exclusion p config as_of
      ++ (st_exclusion p config as_of
          ++ (delisting_board_exclusion p config as_of
              ++ (long_suspension_exclusion p config as_of
                  ++ short_listing_exclusion p config as_of)))

  unfoldable pub listing_rule_checks :
      SecurityProfile → UniverseConfig → Moment → List UniverseExclusion
  listing_rule_checks p config as_of =
      exchange_exclusion p config as_of
      ++ (st_exclusion p config as_of
          ++ (delisting_board_exclusion p config as_of ++ short_listing_exclusion p config as_of))

  -- The loop of `prefilter_listing`, over the sorted profiles.
  unfoldable pub prefilter_all : UniverseConfig → Moment → List SecurityProfile → PrefilterResult
  prefilter_all config as_of [] = record { included = []; excluded = [] }
  prefilter_all config as_of (p ∷ ps) =
      let found = listing_rule_checks p config as_of in
      let later = prefilter_all config as_of ps in
      if is_nil found
      then record later { included = p.symbol ∷ later.included }
      else record later { excluded = found ++ later.excluded }

  unfoldable pub prefilter_listing :
      List SecurityProfile → UniverseConfig → Moment → Result PrefilterResult
  prefilter_listing securities config as_of = do
    require_timezone as_of
    ok (prefilter_all config as_of (sort symbol_before securities))

  -- The latest of some days, and the day itself where there is none.
  abbrev pub latest_of : ℕ → List ℕ → ℕ
  latest_of day [] = day
  latest_of day (x ∷ []) = x
  latest_of day (x ∷ y ∷ xs) = let l = latest_of day (y ∷ xs) in if ltb x l then l else x

  unfoldable pub target_trade_date : Moment → List DailyBar → ℕ
  target_trade_date as_of bars =
      let available = keep (λ x. leb x (date as_of)) (map (λ b. b.trade_date) bars) in
      if any (λ x. x == date as_of) available then date as_of else latest_of (date as_of) available

  -- `symbol in traded`
  unfoldable pub is_traded : ℕ → List DailyBar → String → Bool
  is_traded target bars symbol = any (λ b. b.trade_date == target && text_eq b.symbol symbol) bars

  abbrev pub measured_value : Option FactorResult → Option Float
  measured_value none = none
  measured_value (some r) = if is_value r.status then r.raw_value else none

  unfoldable pub liquidity_exclusion :
      UniverseConfig → List (String × FactorResult) → SecurityProfile → List UniverseExclusion
  liquidity_exclusion config liquidity p = elim (measured_value (get p.symbol liquidity)) [
    | some value ↦ exclude_if (value ≺ config.min_average_turnover_20d) p low_liquidity
    | none ↦ exclude_if config.require_valid_market_data p no_liquidity_measure
  ]

  -- `_evaluate`
  unfoldable pub evaluate :
      UniverseConfig
      → Moment
      → List DailyBar
      → List (String × FactorResult)
      → SecurityProfile
      → List UniverseExclusion
  evaluate config as_of bars liquidity p =
      builder_rule_checks p config as_of
      ++ (exclude_if
            (config.require_valid_market_data
              && not (is_traded (target_trade_date as_of bars) bars p.symbol))
            p no_market_data
          ++ liquidity_exclusion config liquidity p)

  unfoldable pub deferred_rules : UniverseConfig → List UniverseRule
  deferred_rules config =
      if config.exclude_long_suspension && not (is_some config.long_suspension_days)
      then long_suspension ∷ []
      else []

  -- The hash of a configuration, and the text of a snapshot's id for a day and a hash.
  module _ (digest : UniverseConfig → String) (id_of : ℕ → String → String) where
    unfoldable pub build :
        UniverseConfig
        → List SecurityProfile
        → Moment
        → List DailyBar
        → List (String × FactorResult)
        → Result UniverseSnapshot
    build config profiles as_of bars liquidity = do
      require_timezone as_of
      let snapshot_id = id_of (date as_of) (digest config)
      let verdicts = scan (evaluate config as_of bars liquidity) [] (sort symbol_before profiles)
      ok (record {
        as_of = as_of;
        snapshot_id = snapshot_id;
        config_digest = digest config;
        lineage = record no_lineage { universe_snapshot = some snapshot_id };
        included = verdicts.included;
        exclusions = verdicts.excluded;
        deferred_rules = deferred_rules config;
      })
