-- ===== src/Tests/Datasets.antt =====
-- A dataset with a faulty and a doubled bar, and a listing with a doubled and a special stock.
use mathlib.Core.List.{Nodup}
use a_stock_lens.Base.{
  ℕ, ◌≡◌, refl, ◌⊎◌, true, false, Option, none, some, List, [], ◌∷◌, String, length, keep, any, All,
  is_nil, Memᴰ,
}
use a_stock_lens.Base.Dict.{get}
use a_stock_lens.Base.Int.{ℤ, pos}
use a_stock_lens.Base.Raise.{ok}
use a_stock_lens.Base.Sorting.{sort, insert_sorted}
use a_stock_lens.Base.Text.{text_leb}
use a_stock_lens.Number.Fixed.{fixed, fixed-IsOrdered}
use a_stock_lens.Domain.Records.{DailyBar, FactorResult, no_lineage}
use a_stock_lens.Quality.{NormalizedDataset, check, valid_bars}
use a_stock_lens.Quality.Accepted.{is_sound, check-accepted}
use a_stock_lens.Universe.{
  SecurityProfile, UniverseRule, UniverseSnapshot, PrefilterResult, UniverseConfig,
  exchange_exclusion, st_exclusion, delisting_board_exclusion, long_suspension_exclusion,
  short_listing_exclusion, builder_rule_checks, listing_rule_checks, prefilter_all,
  prefilter_listing, target_trade_date, is_traded, liquidity_exclusion, evaluate, scan,
  deferred_rules, build,
}
use a_stock_lens.Universe.Exclusions.{names}
use a_stock_lens.Universe.Membership.{build_complete, prefilter_listing-keeps}
use a_stock_lens.Tests.Samples.{noon, factor}

abbrev bar : String → ℕ → Option ℤ → DailyBar
bar symbol day close = record {
  symbol = symbol;
  trade_date = day;
  open_price = none;
  high = none;
  low = none;
  close = close;
  pre_close = none;
  volume = some (pos 100);
  amount = none;
  turnover_rate = none;
  pct_change = none;
  adj_factor = none;
}

abbrev dataset : NormalizedDataset
dataset = record {
  dataset = "daily_bars";
  as_of = noon;
  daily_bars =
      bar "600519" 0 (some (pos 14805000))
      ∷ bar "000001" 0 none
      ∷ bar "300750" 0 (some (pos 10000))
      ∷ bar "300750" 0 (some (pos 20000))
      ∷ [];
}

check-accepted_example :
    (valid_bars dataset (check "v1" dataset)
      ≡ keep (is_sound dataset.daily_bars) dataset.daily_bars)
    × ((check "v1" dataset).accepted ≡ length (valid_bars dataset (check "v1" dataset)))
    × ((check "v1" dataset).checked ≡ length dataset.daily_bars)
check-accepted_example = check-accepted fixed-IsOrdered "v1" dataset

abbrev profile : String → SecurityProfile
profile symbol = record {
  symbol = symbol;
  name = "";
  exchange = "SSE";
  list_date = 0;
  is_st = false;
  is_delisting_board = false;
  suspended_trading_days = none;
}

abbrev profiles : List SecurityProfile
profiles = profile "600519" ∷ record (profile "600001") { is_st = true } ∷ profile "600519" ∷ []

abbrev config : UniverseConfig
config = record {
  exchanges = "SSE" ∷ [];
  min_average_turnover_20d = pos 10000;
  min_listing_days = pos 0;
  exclude_st = true;
  exclude_delisting_board = true;
  exclude_long_suspension = true;
  long_suspension_days = none;
  require_valid_market_data = true;
}

abbrev liquidity : List (String × FactorResult)
liquidity = ("600519", factor "avg_amount_20d" (pos 20000)) ∷ []

abbrev snapshot : UniverseSnapshot
snapshot = record {
  as_of = noon;
  snapshot_id = "u1";
  config_digest = "c0ffee";
  lineage = record no_lineage { universe_snapshot = some "u1" };
  included = "600519" ∷ [];
  exclusions =
      record { symbol = "600001"; rule = UniverseRule.st }
      ∷ record { symbol = "600001"; rule = UniverseRule.no_market_data }
      ∷ record { symbol = "600001"; rule = UniverseRule.no_liquidity_measure }
      ∷ record { symbol = "600519"; rule = UniverseRule.duplicate_security }
      ∷ [];
  deferred_rules = UniverseRule.long_suspension ∷ [];
}

built :
    build (λ c. "c0ffee") (λ day digest. "u1") config profiles noon dataset.daily_bars liquidity
    ≡ ok snapshot
unfolding build scan evaluate builder_rule_checks exchange_exclusion st_exclusion
    delisting_board_exclusion long_suspension_exclusion short_listing_exclusion liquidity_exclusion
    is_traded target_trade_date deferred_rules sort insert_sorted text_leb get
built = refl

build_complete_example :
    Nodup snapshot.included
    × All
        (λ p. Memᴰ p.symbol snapshot.included ⊎ (any (names p.symbol) snapshot.exclusions ≡ true))
        profiles
build_complete_example =
    build_complete config noon (λ c. "c0ffee") (λ day digest. "u1") profiles dataset.daily_bars
      liquidity snapshot built

abbrev screened : PrefilterResult
screened = record {
  included = "600519" ∷ "600519" ∷ [];
  excluded = record { symbol = "600001"; rule = UniverseRule.st } ∷ [];
}

filtered : prefilter_listing profiles config noon ≡ ok screened
unfolding prefilter_listing prefilter_all listing_rule_checks exchange_exclusion st_exclusion
    delisting_board_exclusion short_listing_exclusion sort insert_sorted text_leb
filtered = refl

prefilter_listing-keeps_example :
    Memᴰ "600519" screened.included
    × ((p : SecurityProfile) × Memᴰ p profiles
        × (p.symbol ≡ "600519")
        × (is_nil (evaluate config noon dataset.daily_bars liquidity p) ≡ true))
prefilter_listing-keeps_example =
    prefilter_listing-keeps config noon (λ c. "c0ffee") (λ day digest. "u1") profiles
      dataset.daily_bars liquidity snapshot built screened "600519" filtered (Memᴰ.head refl)
